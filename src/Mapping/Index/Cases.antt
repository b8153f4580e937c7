-- ===== src/Mapping/Index/Cases.antt =====
-- What a key of a view reads after the writes of Insert, Delete and Put, by where the key stands.
use cckit.Base.{
  ◌≡◌, ◌≢◌, ◌⊎◌, refl, ap, sym, ◌∙◌, subst, true, false, Bool-cases, Option, none, some, List, [],
  ◌∷◌, ◌++◌, In, In-All, inl, inr,
}
use cckit.Mapping.Index.Delete.{In-deletions}
use cckit.Mapping.Index.Insert.{In-insertions}
use cckit.Mapping.KeyRefs.Laws.{ref_key_of}
use cckit.Mapping.MappedState.Loops.{insertions, deletions}
use cckit.Mapping.Schema.{Entity, key_ref, KeyRef}
use cckit.Mapping.StateMappings.{key_eq}
use cckit.Mapping.Views.{View, over, over-cases, Avoids, key_eq_refl, key_eq_sound}
use cckit.State.Key.{Key}

deletions-In :
    (U : Type 0) (rs : List KeyRef) (r : KeyRef)
    → In r rs
    → In {A = Key × Option (Entity U)} (ref_key_of r, none) (deletions rs)
deletions-In U [] r i = absurd i
deletions-In U (q ∷ rs) r (inl e) = inl (ap (λ p. (ref_key_of p, none)) e)
deletions-In U (q ∷ rs) r (inr i) = inr (deletions-In U rs r i)

module _ {U : Type 0} where
  In-deletions_alone :
      (rs : List KeyRef) (j : Key) (v : Option (Entity U))
      → In (j, v) (deletions rs)
      → (v ≡ none) × ((r : KeyRef) × In r rs × (j ≡ ref_key_of r))
  In-deletions_alone [] j v i = absurd i
  In-deletions_alone (q ∷ rs) j v (inl e) = (ap (λ p. p.1) e, (q, inl refl, ap (λ p. p.0) e))
  In-deletions_alone (q ∷ rs) j v (inr i) =
      let (n, (r, k, e)) = In-deletions_alone rs j v i in (n, (r, inr k, e))

  deletions_tail-In :
      (rs : List KeyRef) (p : Key × Option (Entity U)) (r : KeyRef)
      → In r rs
      → In (ref_key_of r, none) (deletions rs ++ p ∷ [])
  deletions_tail-In [] p r i = absurd i
  deletions_tail-In (q ∷ rs) p r (inl e) = inl (ap (λ l. (ref_key_of l, none)) e)
  deletions_tail-In (q ∷ rs) p r (inr i) = inr (deletions_tail-In rs p r i)

  insertions-In :
      (rs : List KeyRef) (tail : List (Key × Option (Entity U))) (r : KeyRef)
      → In r rs
      → In (ref_key_of r, some (key_ref r)) (insertions rs ++ tail)
  insertions-In [] tail r i = absurd i
  insertions-In (q ∷ rs) tail r (inl e) = inl (ap (λ p. (ref_key_of p, some (key_ref p))) e)
  insertions-In (q ∷ rs) tail r (inr i) = inr (insertions-In rs tail r i)

  last-In :
      (ws : List (Key × Option (Entity U))) (p : Key × Option (Entity U)) → In p (ws ++ p ∷ [])
  last-In [] p = inl refl
  last-In (w ∷ ws) p = inr (last-In ws p)

  -- A write that is avoided is of another key.
  avoided :
      (j k : Key) (v : Option (Entity U)) (ws : List (Key × Option (Entity U)))
      → Avoids j ws
      → In (k, v) ws
      → j ≢ k
  avoided j k v ws a i e =
      let h = In-All (λ (w : Key × Option (Entity U)). key_eq w.0 j ≡ false) (k, v) ws a i in
      let g = subst (λ l. key_eq l j ≡ true) e (key_eq_refl j) in cc

-- Whether an entry of the list stands at the key.
pub key_in :
    (j : Key) (rs : List KeyRef)
    → ((r : KeyRef) × In r rs × (j ≡ ref_key_of r)) ⊎ ((r : KeyRef) → In r rs → j ≢ ref_key_of r)
key_in j [] = inr (λ r i. absurd i)
key_in j (q ∷ rs) = elim (Bool-cases (key_eq (ref_key_of q) j)) [
  | inl e ↦ inl (q, inl refl, sym (key_eq_sound (ref_key_of q) j e))
  | inr e ↦ elim (key_in j rs) [
    | inl (r, i, h) ↦ inl (r, inr i, h)
    | inr f ↦ inr (λ r i. elim i [
      | inl same ↦
          λ h. let g = subst (λ l. key_eq l j ≡ true) (h ∙ ap ref_key_of same) (key_eq_refl j) in cc
      | inr k ↦ f r k
    ])
  ]
]

-- What a key reads after the deletions, after these and that of the entity, and after the insertions.
module _ {U : Type 0} (w : View (Entity U)) (j : Key) where
  pub deleted_cases :
      (ds : List KeyRef)
      → ((over (deletions ds) w j ≡ w j) × ((d : KeyRef) → In d ds → j ≢ ref_key_of d))
        ⊎ ((over (deletions ds) w j ≡ none) × ((d : KeyRef) × In d ds × (j ≡ ref_key_of d)))
  deleted_cases ds = elim (over-cases (deletions ds) w j) [
    | inl (a, e) ↦
        inl (e, λ d i. avoided j (ref_key_of d) none (deletions ds) a (deletions-In U ds d i))
    | inr (v, i, e) ↦ let (n, found) = In-deletions_alone ds j v i in inr (e ∙ n, found)
  ]

  pub removed_cases :
      (qs : List KeyRef) (pk : Key)
      → ((over (deletions qs ++ (pk, none) ∷ []) w j ≡ w j)
          × (j ≢ pk)
          × ((q : KeyRef) → In q qs → j ≢ ref_key_of q))
        ⊎ ((over (deletions qs ++ (pk, none) ∷ []) w j ≡ none)
            × ((j ≡ pk) ⊎ ((q : KeyRef) × In q qs × (j ≡ ref_key_of q))))
  removed_cases qs pk = elim (over-cases (deletions qs ++ (pk, none) ∷ []) w j) [
    | inl (a, e) ↦ inl (
      e,
      avoided j pk none _ a (last-In (deletions qs) (pk, none)),
      λ q i. avoided j (ref_key_of q) none _ a (deletions_tail-In qs (pk, none) q i),
    )
    | inr (v, i, e) ↦ let (n, found) = In-deletions qs pk j v i in inr (e ∙ n, found)
  ]

  pub inserted_cases :
      (rs : List KeyRef) (pk : Key) (x : Entity U)
      → ((over (insertions rs ++ (pk, some x) ∷ []) w j ≡ w j)
          × (j ≢ pk)
          × ((r : KeyRef) → In r rs → j ≢ ref_key_of r))
        ⊎ ((over (insertions rs ++ (pk, some x) ∷ []) w j ≡ some x) × (j ≡ pk))
        ⊎ ((r : KeyRef) × In r rs
            × (j ≡ ref_key_of r)
            × (over (insertions rs ++ (pk, some x) ∷ []) w j ≡ some (key_ref r)))
  inserted_cases rs pk x = elim (over-cases (insertions rs ++ (pk, some x) ∷ []) w j) [
    | inl (a, e) ↦ inl (
      e,
      avoided j pk (some x) _ a (last-In (insertions rs) (pk, some x)),
      λ r i. avoided j (ref_key_of r) (some (key_ref r)) _ a (insertions-In rs _ r i),
    )
    | inr (v, i, e) ↦ elim (In-insertions rs pk j x v i) [
      | inl (at, n) ↦ inr (inl (e ∙ n, at))
      | inr (r, k, at, n) ↦ inr (inr (r, k, at, e ∙ n))
    ]
  ]
