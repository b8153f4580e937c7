-- ===== src/Mapping/MappedState/Loops.antt =====
-- state/mapping/state.go: what the loops over the entries of indexes write.
use cckit.Base.{
  ◌≡◌, ap, sym, ◌∙◌, subst, false, Option, none, some, List, [], ◌∷◌, map, Text, All, Bool-cases,
  inl, inr,
}
use cckit.Lang.Error.{Error, noted}
use cckit.Lang.Exec.{Exec, for_each, continue-eq-ok}
use cckit.Lang.Result.{Result, ok, err, panic, on_err, ok-injective}
use cckit.Lang.Value.{obj, Methods}
use cckit.Mapping.Interface.{State, mapped}
use cckit.Mapping.KeyRefs.{mapped_key}
use cckit.Mapping.KeyRefs.Laws.{ref_key_of, as_mapped, mapped_key-as_mapped}
use cckit.Mapping.MappedState.{key_ref_target, on_err_of, insert_refs, delete_refs, uniq_key_exists}
use cckit.Mapping.Schema.{Entity, key_ref, KeyRef, Field}
use cckit.Mapping.Spec.{StateSpec}
use cckit.Mapping.StateMappings.{StateMappings, key_eq}
use cckit.Mapping.Views.{View, update, over, key_eq_sound}
use cckit.State.Key.{Key}

abbrev wrapped : {S A : Type 0} → (Error → Error) → Result A × S → Result A × S
wrapped w (r, s) = (on_err w r, s)

wrapped-eq-ok :
    {S A : Type 0} (w : Error → Error) (p : Result A × S) (a : A) (s' : S)
    → wrapped w p ≡ (ok a, s')
    → p ≡ (ok a, s')
wrapped-eq-ok w (ok b, t) a s' e = e
wrapped-eq-ok w (err x, t) a s' e = absurd (let k = ap (λ x. x.0) e in cc)
wrapped-eq-ok w (panic, t) a s' e = absurd (let k = ap (λ x. x.0) e in cc)

-- A wrapped error hides no failure.
on_err_of-eq-ok :
    {S A : Type 0} (w : Error → Error) (call : Exec S A) (a : A) (s s' : S)
    → on_err_of w call s ≡ (ok a, s')
    → call s ≡ (ok a, s')
on_err_of-eq-ok w call a s s' h = wrapped-eq-ok w (call s) a s' h

obj-eq : {U : Type 0} {x y : U} → obj x ≡ obj y → x ≡ y
obj-eq h = cc

-- The writes of the two loops.
module _ {U : Type 0} where
  abbrev pub insertions : List KeyRef → List (Key × Option (Entity U))
  insertions [] = []
  insertions (r ∷ rs) = (ref_key_of r, some (key_ref r)) ∷ insertions rs

  abbrev pub deletions : List KeyRef → List (Key × Option (Entity U))
  deletions [] = []
  deletions (r ∷ rs) = (ref_key_of r, none) ∷ deletions rs

  -- No entry of the list stands at a key of the view.
  abbrev pub AreFree : View (Entity U) → List KeyRef → Type 0
  AreFree view rs = All (λ r. view (ref_key_of r) ≡ none) rs

-- No entry of the list stands at the key.
abbrev pub IsApart : Key → List KeyRef → Type 0
IsApart j rs = All (λ r. key_eq (ref_key_of r) j ≡ false) rs

module _ {S U : Type 0} (m : Methods (Entity U)) (show : Error → Text)
    (reflect : U → Option (List Field)) (st : State S U) (mappings : StateMappings U)
    (spec : StateSpec m show reflect st) where
  -- What is free after a write at a free key was free before it.
  AreFree-before :
      (k : Key) (s t : S) (rs : List KeyRef)
      → spec.reads s k ≡ none
      → ((j : Key) → key_eq k j ≡ false → spec.reads t j ≡ spec.reads s j)
      → AreFree (spec.reads t) rs
      → AreFree (spec.reads s) rs
  AreFree-before k s t [] f frame h = tt
  AreFree-before k s t (r ∷ rs) f frame (h, hs) = (
    elim (Bool-cases (key_eq k (ref_key_of r))) [
      | inl e ↦ subst (λ j. spec.reads s j ≡ none) (key_eq_sound k _ e) f
      | inr e ↦ sym (frame _ e) ∙ h
    ],
    AreFree-before k s t rs f frame hs,
  )

  key_of_ref :
      (r : KeyRef) (k : Key)
      → mapped_key m show reflect (as_mapped m show reflect r) ≡ ok k
      → k ≡ ref_key_of r
  key_of_ref r k e = ok-injective (sym e ∙ mapped_key-as_mapped m show reflect r)

  abbrev pub AreStored : List KeyRef → Type 0
  AreStored rs = All (λ (r : KeyRef). spec.stores (ref_key_of r) (key_ref r)) rs

  pub insert_refs-writes :
      (rs : List KeyRef) (s s' : S)
      → AreStored rs
      → insert_refs m show reflect st mappings (map (as_mapped m show reflect) rs) s ≡ (ok tt, s')
      → (spec.writes s' ≡ over (insertions rs) (spec.writes s))
        × AreFree (spec.reads s) rs
        × ((j : Key) → IsApart j rs → spec.reads s' j ≡ spec.reads s j)
  unfolding for_each
  insert_refs-writes [] s s' a h =
      (ap (λ x. spec.writes x.1) (sym h), tt, λ j a. ap (λ x. spec.reads x.1 j) (sym h))
  insert_refs-writes (r ∷ rs) s s' (st_r, st_rs) h =
      let call = st.insert (mapped (as_mapped m show reflect r)) [] in
      let wrap = uniq_key_exists m show reflect st mappings in
      let (u, t, e, f) = continue-eq-ok (on_err_of wrap call s) _ tt s' h in
      let (k, x, ke, xe, free, w, frame) =
        spec.insert-writes (as_mapped m show reflect r) s t
          (λ k x ke xe.
            subst (spec.stores k) (obj-eq xe)
              (subst (λ j. spec.stores j (key_ref r)) (sym (key_of_ref r k ke)) st_r))
          (on_err_of-eq-ok wrap call tt s t e) in
      let (ws, frees, rest) = insert_refs-writes rs t s' st_rs f in
      let same = key_of_ref r k ke in
      (
        ws
            ∙ ap (over (insertions rs)) (
                w
                ∙ ap (λ j. update j (some x) (spec.writes s)) same
                ∙ ap (λ y. update (ref_key_of r) (some y) (spec.writes s)) (obj-eq (sym xe))),
        (subst (λ j. spec.reads s j ≡ none) same free, AreFree-before k s t rs free frame frees),
        λ j (a, as_rest). rest j as_rest ∙ frame j (subst (λ l. key_eq l j ≡ false) (sym same) a),
      )

  pub delete_refs-writes :
      (note : Text) (rs : List KeyRef) (s s' : S)
      → delete_refs m show reflect st mappings note (map (as_mapped m show reflect) rs) s
        ≡ (ok tt, s')
      → (spec.writes s' ≡ over (deletions rs) (spec.writes s))
        × ((j : Key) → IsApart j rs → spec.reads s' j ≡ spec.reads s j)
  unfolding for_each
  delete_refs-writes note [] s s' h =
      (ap (λ x. spec.writes x.1) (sym h), λ j a. ap (λ x. spec.reads x.1 j) (sym h))
  delete_refs-writes note (r ∷ rs) s s' h =
      let call = st.delete (mapped (as_mapped m show reflect r)) in
      let (u, t, e, f) = continue-eq-ok (on_err_of (noted note) call s) _ tt s' h in
      let (k, ke, w, frame) =
        spec.delete-writes (as_mapped m show reflect r) key_ref_target s t
          (λ k ke.
            subst (λ j. spec.fits j key_ref_target) (sym (key_of_ref r k ke)) (spec.fits-ref r))
          (on_err_of-eq-ok (noted note) call tt s t e) in
      let (ws, rest) = delete_refs-writes note rs t s' f in
      let same = key_of_ref r k ke in
      (
        ws ∙ ap (over (deletions rs)) (w ∙ ap (λ j. update j none (spec.writes s)) same),
        λ j (a, as_rest). rest j as_rest ∙ frame j (subst (λ l. key_eq l j ≡ false) (sym same) a),
      )
