-- ===== src/Mapping/Views.antt =====
-- What a state holds by key, as a function, and what a sequence of writes makes of it. A write of
-- `none` is a deletion.
use cckit.Base.{
  ◌≡◌, ◌⊎◌, refl, ap, sym, ◌∙◌, true, false, Bool-cases, inl, inr, Option, List, [], ◌∷◌, ◌++◌,
  text_eq_iff, text_eq_refl, All, In, arith, if◌then◌else◌,
}
use cckit.Mapping.StateMappings.{key_eq}
use cckit.State.Key.{Key}

pub key_eq_refl : (k : Key) → key_eq k k ≡ true
unfolding key_eq
key_eq_refl [] = refl
key_eq_refl (a ∷ k) = ground (arith, text_eq_refl a, key_eq_refl k)

pub key_eq_sound : (j k : Key) → key_eq j k ≡ true → j ≡ k
unfolding key_eq
key_eq_sound [] [] h = refl
key_eq_sound [] (b ∷ k) h = cc
key_eq_sound (a ∷ j) [] h = cc
key_eq_sound (a ∷ j) (b ∷ k) h = ground (arith, text_eq_iff a b, key_eq_sound j k)

abbrev pub View : Type 0 → Type 0
View V = Key → Option V

module _ {V : Type 0} where
  abbrev pub update : Key → Option V → View V → View V
  update k v f j = if key_eq k j then v else f j

  abbrev pub over : List (Key × Option V) → View V → View V
  over [] f = f
  over ((k, v) ∷ ws) f = over ws (update k v f)

  -- None of the writes is of the key.
  abbrev pub Avoids : Key → List (Key × Option V) → Type 0
  Avoids j ws = All (λ (w : Key × Option V). key_eq w.0 j ≡ false) ws

  -- A key reads as before or as one of its writes.
  pub over-cases :
      (ws : List (Key × Option V)) (f : View V) (j : Key)
      → (Avoids j ws × (over ws f j ≡ f j)) ⊎ ((v : Option V) × In (j, v) ws × (over ws f j ≡ v))
  over-cases [] f j = inl (tt, refl)
  over-cases ((k, v) ∷ ws) f j = elim (over-cases ws (update k v f) j) [
    | inr (x, i, e) ↦ inr (x, inr i, e)
    | inl (avoid, e) ↦ elim (Bool-cases (key_eq k j)) [
      | inl same ↦ inr (v, inl (ap (λ l. (l, v)) (sym (key_eq_sound k j same))), e ∙ rw same refl)
      | inr other ↦ inl ((other, avoid), e ∙ rw other refl)
    ]
  ]

  -- A key that no write is of reads as before.
  pub over-Avoids :
      (ws : List (Key × Option V)) (f : View V) (j : Key) → Avoids j ws → over ws f j ≡ f j
  over-Avoids [] f j a = refl
  over-Avoids ((k, v) ∷ ws) f j (h, a) = over-Avoids ws (update k v f) j a ∙ rw h refl

  pub over-append :
      (xs ys : List (Key × Option V)) (f : View V) → over (xs ++ ys) f ≡ over ys (over xs f)
  over-append [] ys f = refl
  over-append ((k, v) ∷ xs) ys f = over-append xs ys (update k v f)
