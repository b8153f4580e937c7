-- ===== src/Mapping/Index/Delete.antt =====
-- state/mapping/state.go: Delete removes an entity together with the entries of its indexes, and
-- leaves those of every other entity.
use cckit.Base.{
  some_injective, ◌≡◌, ◌⊎◌, refl, ap, sym, ◌∙◌, subst, true, false, Option, none, some, List, [],
  ◌∷◌, ◌++◌, Text, All-of-In, In, In-All, inl, inr,
}
use cckit.Lang.Error.{Error}
use cckit.Lang.Value.{obj, Methods}
use cckit.Mapping.Index.{IsIndexed, LeavesRefs, IsMapped-functional, IsMapped-own}
use cckit.Mapping.KeyRefs.Laws.{ref_key_of}
use cckit.Mapping.MappedState.Loops.{deletions}
use cckit.Mapping.MappedState.Writes.{IsMapped}
use cckit.Mapping.Schema.{Entity, key_ref, KeyRef, Field}
use cckit.Mapping.StateMappings.{StateMappings, ProtoStateMapped, key_eq}
use cckit.Mapping.Views.{View, over, over-cases, Avoids, key_eq_refl}
use cckit.State.Key.{Key}

some_ref_injective :
    {U : Type 0} {r q : KeyRef}
    → ◌≡◌ {A = Option (Entity U)} (some (key_ref r)) (some (key_ref q))
    → r ≡ q
some_ref_injective h = cc

-- Every write of the deletion removes.
pub In-deletions :
    {U : Type 0} (rs : List KeyRef) (pk j : Key) (v : Option (Entity U))
    → In (j, v) (deletions rs ++ (pk, none) ∷ [])
    → (v ≡ none) × ((j ≡ pk) ⊎ ((r : KeyRef) × In r rs × (j ≡ ref_key_of r)))
In-deletions [] pk j v (inl e) = (ap (λ p. p.1) e, inl (ap (λ p. p.0) e))
In-deletions [] pk j v (inr i) = absurd i
In-deletions (r ∷ rs) pk j v (inl e) = (ap (λ p. p.1) e, inr (r, inl refl, ap (λ p. p.0) e))
In-deletions (r ∷ rs) pk j v (inr i) =
    let (n, c) = In-deletions rs pk j v i in
    (n, elim c [ inl e ↦ inl e | inr (q, k, e) ↦ inr (q, inr k, e) ])

Avoids-deletions :
    (U : Type 0) (rs : List KeyRef) (pk j : Key)
    → Avoids j (deletions {U = U} rs ++ (pk, none) ∷ [])
    → (key_eq pk j ≡ false) × ((r : KeyRef) → In r rs → key_eq (ref_key_of r) j ≡ false)
Avoids-deletions U [] pk j (h, a) = (h, λ r i. absurd i)
Avoids-deletions U (q ∷ rs) pk j (h, a) =
    let (p, f) = Avoids-deletions U rs pk j a in
    (
      p,
      λ r i. elim i [
        | inl e ↦ subst (λ (l : KeyRef). key_eq (ref_key_of l) j ≡ false) (sym e) h
        | inr k ↦ f r k
      ],
    )

not_avoided : (j k : Key) → j ≡ k → ¬ (key_eq j k ≡ false)
not_avoided j k e h = let same = subst (λ l. key_eq j l ≡ true) e (key_eq_refl j) in cc

module _ {U : Type 0} (m : Methods (Entity U)) (show : Error → Text)
    (reflect : U → Option (List Field)) (mappings : StateMappings U) (w : View (Entity U))
    (x : Entity U) (pm : ProtoStateMapped U) (pk : Key) (rs : List KeyRef)
    (leaves : LeavesRefs m show reflect mappings)
    (is : IsMapped m show reflect mappings (obj x) pm pk rs)
    (indexed : IsIndexed m show reflect mappings w) (at_pk : w pk ≡ some x) where
  abbrev after : View (Entity U)
  after = over (deletions rs ++ (pk, none) ∷ []) w

  -- What is there after the deletion was there before it, at a key that it left alone.
  after-some :
      (j : Key) (y : Entity U)
      → after j ≡ some y
      → (w j ≡ some y)
        × (key_eq pk j ≡ false)
        × ((r : KeyRef) → In r rs → key_eq (ref_key_of r) j ≡ false)
  after-some j y h = elim (over-cases (deletions rs ++ (pk, none) ∷ []) w j) [
    | inl (a, e) ↦ let (p, f) = Avoids-deletions U rs pk j a in (sym e ∙ h, p, f)
    | inr (v, i, e) ↦ let n = (In-deletions rs pk j v i).0 in absurd (cc)
  ]

  -- What was there at a key that the deletion leaves alone is there after it.
  after-kept :
      (j : Key) (y : Entity U)
      → ¬ (j ≡ pk)
      → ((r : KeyRef) → In r rs → ¬ (j ≡ ref_key_of r))
      → w j ≡ some y
      → after j ≡ some y
  after-kept j y n f h = elim (over-cases (deletions rs ++ (pk, none) ∷ []) w j) [
    | inl (a, e) ↦ e ∙ h
    | inr (v, i, e) ↦
        let (_, c) = In-deletions rs pk j v i in
        elim c [ inl k ↦ absurd (n k) | inr (r, k, l) ↦ absurd (f r k l) ]
  ]

  -- The entries of the indexes of an entity that stays stay.
  ref-kept :
      (j : Key) (y : Entity U) (pm' : ProtoStateMapped U) (rs' : List KeyRef) (r : KeyRef)
      → key_eq pk j ≡ false
      → IsMapped m show reflect mappings (obj y) pm' j rs'
      → In r rs'
      → w (ref_key_of r) ≡ some (key_ref r)
      → after (ref_key_of r) ≡ some (key_ref r)
  ref-kept j y pm' rs' r other mp i h =
      after-kept (ref_key_of r) (key_ref r)
        (λ e. let a = leaves.apart x pm pk rs r is in not_avoided (ref_key_of r) pk e a)
        (λ q k e.
          let at_q =
            In-All (λ (p : KeyRef). w (ref_key_of p) ≡ some (key_ref p)) q rs
              (indexed.complete pk x pm pk rs at_pk is).1 k in
          let own =
            In-All (λ (p : KeyRef). p.p_key ≡ pk) q rs
              (IsMapped-own m show reflect mappings x pm pk rs is) k in
          let own' =
            In-All (λ (p : KeyRef). p.p_key ≡ j) r rs'
              (IsMapped-own m show reflect mappings y pm' j rs' mp) i in
          let same : r ≡ q = some_ref_injective (sym h ∙ ap w e ∙ at_q) in
          not_avoided pk j (sym own ∙ ap (λ (p : KeyRef). p.p_key) (sym same) ∙ own') other)
        h

  pub after-IsIndexed : IsIndexed m show reflect mappings after
  after-IsIndexed = record {
    complete = λ j y pm' pk' rs' h mp.
        let (old, other, _) = after-some j y h in
        let (e, refs) = indexed.complete j y pm' pk' rs' old mp in
        let mpj = subst (λ k. IsMapped m show reflect mappings (obj y) pm' k rs') (sym e) mp in
        (
          e,
          All-of-In rs' (λ r i.
              ref-kept j y pm' rs' r other mpj i
                (In-All (λ (p : KeyRef). w (ref_key_of p) ≡ some (key_ref p)) r rs' refs i)),
        );
    sound = λ j r h.
        let (old, other, others) = after-some j (key_ref r) h in
        let (y, pm', rs', e, mp, i, at_r) = indexed.sound j r old in
        (
          y,
          pm',
          rs',
          after-kept r.p_key y
              (λ k.
                let same : x ≡ y = some_injective (sym at_pk ∙ ap w (sym k) ∙ e) in
                let mine = subst (λ z. IsMapped m show reflect mappings (obj z) pm pk rs) same is in
                let (_, re) =
                  IsMapped-functional m show reflect mappings (obj y) pm' pm r.p_key pk rs' rs mp
                    mine in
                not_avoided (ref_key_of r) j (sym at_r) (others r (subst (λ l. In r l) re i)))
              (λ q k l.
                let a = leaves.apart y pm' r.p_key rs' q mp in
                not_avoided (ref_key_of q) r.p_key (sym l) a)
              e,
          mp,
          i,
          at_r,
        );
  }

  -- Nothing stands at the key afterwards.
  pub after-gone : after pk ≡ none
  after-gone = elim (over-cases (deletions rs ++ (pk, none) ∷ []) w pk) [
    | inl (a, e) ↦ absurd (not_avoided pk pk refl (Avoids-deletions U rs pk pk a).0)
    | inr (v, i, e) ↦ e ∙ (In-deletions rs pk pk v i).0
  ]
