-- ===== src/Mapping/Index/Insert.antt =====
-- state/mapping/state.go: Insert keeps the unique indexes, and refuses an entry whose index key is
-- taken.
use cckit.Base.{
  ◌≡◌, ◌⊎◌, refl, ap, sym, ◌∙◌, subst, true, false, Option, none, some, List, [], ◌∷◌, ◌++◌, Text,
  All, All-of-In, All-implies, In, In-All, inl, inr,
}
use cckit.Lang.Error.{Error}
use cckit.Lang.Result.{ok}
use cckit.Lang.Value.{obj, Methods}
use cckit.Mapping.Index.{IsIndexed, LeavesRefs, same_ref, IsMapped-functional, IsMapped-own}
use cckit.Mapping.KeyRefs.Laws.{ref_key_of}
use cckit.Mapping.MappedState.Loops.{insertions, AreFree}
use cckit.Mapping.MappedState.Writes.{IsMapped}
use cckit.Mapping.Schema.{Entity, key_ref, KeyRef, Field}
use cckit.Mapping.StateMappings.{StateMappings, ProtoStateMapped, map_entry, key_eq}
use cckit.Mapping.Views.{View, over, over-append, over-cases, Avoids, key_eq_refl}
use cckit.State.Key.{Key}

key_ref_injective : {U : Type 0} {r q : KeyRef} → ◌≡◌ {A = Entity U} (key_ref r) (key_ref q) → r ≡ q
key_ref_injective h = cc

some-eq : {A : Type 0} {a b : A} → some a ≡ some b → a ≡ b
some-eq h = cc

-- A write of the loop and of the entity behind it is of one of them.
pub In-insertions :
    {U : Type 0} (rs : List KeyRef) (pk j : Key) (x : Entity U) (v : Option (Entity U))
    → In (j, v) (insertions rs ++ (pk, some x) ∷ [])
    → ((j ≡ pk) × (v ≡ some x))
      ⊎ ((r : KeyRef) × In r rs × (j ≡ ref_key_of r) × (v ≡ some (key_ref r)))
In-insertions [] pk j x v (inl e) = inl (ap (λ p. p.0) e, ap (λ p. p.1) e)
In-insertions [] pk j x v (inr i) = absurd i
In-insertions (r ∷ rs) pk j x v (inl e) = inr (r, inl refl, ap (λ p. p.0) e, ap (λ p. p.1) e)
In-insertions (r ∷ rs) pk j x v (inr i) = elim (In-insertions rs pk j x v i) [
  | inl e ↦ inl e
  | inr (q, k, e, f) ↦ inr (q, inr k, e, f)
]

-- A key that an index entry of the list stands at is not avoided.
not-Avoids :
    {U : Type 0} (rs : List KeyRef) (pk : Key) (x : Entity U) (r : KeyRef)
    → In r rs
    → ¬ Avoids (ref_key_of r) (insertions rs ++ (pk, some x) ∷ [])
not-Avoids [] pk x r i a = absurd i
not-Avoids (q ∷ rs) pk x r (inl e) (h, a) =
    let self = key_eq_refl (ref_key_of r) in
    let other = subst (λ (p : KeyRef). key_eq (ref_key_of p) (ref_key_of r) ≡ false) (sym e) h in cc
not-Avoids (q ∷ rs) pk x r (inr i) (h, a) = not-Avoids rs pk x r i a

module _ {U : Type 0} (m : Methods (Entity U)) (show : Error → Text)
    (reflect : U → Option (List Field)) (mappings : StateMappings U) (w : View (Entity U))
    (x : Entity U) (pm : ProtoStateMapped U) (pk : Key) (rs : List KeyRef)
    (leaves : LeavesRefs m show reflect mappings)
    (is : IsMapped m show reflect mappings (obj x) pm pk rs) (free : w pk ≡ none)
    (frees : AreFree w rs) where
  abbrev after : View (Entity U)
  after = over (insertions rs ++ (pk, some x) ∷ []) w

  pub after-entity : after pk ≡ some x
  after-entity =
      ap (λ f. f pk) (over-append (insertions rs) ((pk, some x) ∷ []) w) ∙ rw (key_eq_refl pk) refl

  after-ref : (r : KeyRef) → In r rs → after (ref_key_of r) ≡ some (key_ref r)
  after-ref r i = elim (over-cases (insertions rs ++ (pk, some x) ∷ []) w (ref_key_of r)) [
    | inl (a, e) ↦ absurd (not-Avoids rs pk x r i a)
    | inr (v, k, e) ↦ elim (In-insertions rs pk (ref_key_of r) x v k) [
      | inl (at_pk, ev) ↦
          let same = subst (λ l. key_eq l pk ≡ true) (sym at_pk) (key_eq_refl pk) in
          let other = leaves.apart x pm pk rs r is in absurd (cc)
      | inr (q, iq, at_q, ev) ↦
          let own = IsMapped-own m show reflect mappings x pm pk rs is in
          let pr = In-All (λ (p : KeyRef). p.p_key ≡ pk) r rs own i in
          let pq = In-All (λ (p : KeyRef). p.p_key ≡ pk) q rs own iq in
          e ∙ ev ∙ ap (λ p. some (key_ref p)) (sym (same_ref r q at_q (pr ∙ sym pq)))
    ]
  ]

  -- Nothing that the view held is overwritten.
  after-kept : (j : Key) (y : Entity U) → w j ≡ some y → after j ≡ some y
  after-kept j y h = elim (over-cases (insertions rs ++ (pk, some x) ∷ []) w j) [
    | inl (a, e) ↦ e ∙ h
    | inr (v, k, e) ↦ elim (In-insertions rs pk j x v k) [
      | inl (at_pk, ev) ↦ let n = subst (λ l. w l ≡ none) (sym at_pk) free in absurd (cc)
      | inr (q, iq, at_q, ev) ↦
          let n =
            subst (λ l. w l ≡ none) (sym at_q)
              (In-All (λ (p : KeyRef). w (ref_key_of p) ≡ none) q rs frees iq) in
          absurd (cc)
    ]
  ]

  after-cases :
      (j : Key) (y : Entity U)
      → after j ≡ some y
      → (w j ≡ some y)
        ⊎ ((j ≡ pk) × (y ≡ x))
        ⊎ ((r : KeyRef) × In r rs × (j ≡ ref_key_of r) × (y ≡ key_ref r))
  after-cases j y h = elim (over-cases (insertions rs ++ (pk, some x) ∷ []) w j) [
    | inl (a, e) ↦ inl (sym e ∙ h)
    | inr (v, k, e) ↦ elim (In-insertions rs pk j x v k) [
      | inl (at_pk, ev) ↦ inr (inl (at_pk, some-eq (sym h ∙ e ∙ ev)))
      | inr (q, iq, at_q, ev) ↦ inr (inr (q, iq, at_q, some-eq (sym h ∙ e ∙ ev)))
    ]
  ]

  pub after-IsIndexed :
      IsIndexed m show reflect mappings w → IsIndexed m show reflect mappings after
  after-IsIndexed indexed = record {
    complete = λ j y pm' pk' rs' h mp. elim (after-cases j y h) [
      | inl old ↦
          let (e, refs) = indexed.complete j y pm' pk' rs' old mp in
          (e, All-implies (λ r i. after-kept (ref_key_of r) (key_ref r) i) rs' refs)
      | inr (inl (at_pk, same)) ↦
          let mp' = subst (λ z. IsMapped m show reflect mappings (obj z) pm' pk' rs') same mp in
          let (pe, re) =
            IsMapped-functional m show reflect mappings (obj x) pm' pm pk' pk rs' rs mp' is in
          (
            at_pk ∙ sym pe,
            subst (λ l. All (λ (r : KeyRef). after (ref_key_of r) ≡ some (key_ref r)) l) (sym re)
                (All-of-In rs after-ref),
          )
      | inr (inr (r, i, at_r, same)) ↦ absurd (
          leaves.no_ref r pm'
            (subst (λ z. map_entry m show reflect (obj z) mappings ≡ ok pm') same mp.is_mapped))
    ];
    sound = λ j r h. elim (after-cases j (key_ref r) h) [
      | inl old ↦
          let (y, pm', rs', e, mp, i, at_r) = indexed.sound j r old in
          (y, pm', rs', after-kept r.p_key y e, mp, i, at_r)
      | inr (inl (at_pk, same)) ↦ absurd (
          leaves.no_ref r pm (
            subst (λ z. map_entry m show reflect (obj z) mappings ≡ ok pm) (sym same) is.is_mapped))
      | inr (inr (q, i, at_q, same)) ↦
          let rq : r ≡ q = key_ref_injective same in
          let own =
            In-All (λ (p : KeyRef). p.p_key ≡ pk) q rs
              (IsMapped-own m show reflect mappings x pm pk rs is) i in
          let pe : pk ≡ r.p_key = sym (ap (λ (p : KeyRef). p.p_key) rq ∙ own) in
          (
            x,
            pm,
            rs,
            subst (λ k. after k ≡ some x) pe after-entity,
            subst (λ k. IsMapped m show reflect mappings (obj x) pm k rs) pe is,
            subst (λ p. In p rs) (sym rq) i,
            at_q ∙ ap ref_key_of (sym rq),
          )
    ];
  }
