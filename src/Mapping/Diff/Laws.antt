-- ===== src/Mapping/Diff/Laws.antt =====
-- state/mapping/state_mapping.go: the difference of two maps, by membership.
use cckit.Base.{
  some_injective, Option-cases, ◌≡◌, refl, ap, sym, ◌∙◌, subst, true, Bool-cases, inl, inr, Option,
  none, some, List, [], ◌∷◌, map, Text, Map, find, store, In, text_eq, text_eq_iff, text_eq_refl,
}
use cckit.Mapping.Diff.{missing_in, unless_in}

-- The maps over other values.
module _ {A B : Type 0} (f : A → B) where
  abbrev pub on_values : Map A → Map B
  on_values m = map (λ p. (p.0, f p.1)) m

  abbrev on_option : Option A → Option B
  on_option none = none
  on_option (some a) = some (f a)

  pub store-on_values :
      (k : Text) (a : A) (m : Map A) → store k (f a) (on_values m) ≡ on_values (store k a m)
  unfolding store
  store-on_values k a [] = refl
  store-on_values k a ((j, b) ∷ m) = elim (Bool-cases (text_eq j k)) [
    | inl e ↦ rw e refl
    | inr e ↦ rw e (ap (λ l. (j, f b) ∷ l) (store-on_values k a m))
  ]

  find-on_values : (k : Text) (m : Map A) → find k (on_values m) ≡ on_option (find k m)
  unfolding find
  find-on_values k [] = refl
  find-on_values k ((j, b) ∷ m) = elim (Bool-cases (text_eq j k)) [
    | inl e ↦ rw e refl
    | inr e ↦ rw e (find-on_values k m)
  ]

  unless_in-on_option :
      (o : Option A) (a : A) (rest : List A)
      → unless_in (on_option o) (f a) (map f rest) ≡ map f (unless_in o a rest)
  unless_in-on_option none a rest = refl
  unless_in-on_option (some b) a rest = refl

  pub missing_in-on_values :
      (m others : Map A) → missing_in (on_values m) (on_values others) ≡ map f (missing_in m others)
  unfolding missing_in
  missing_in-on_values [] others = refl
  missing_in-on_values ((k, a) ∷ m) others =
      rw (find-on_values k others, missing_in-on_values m others)
        (unless_in-on_option (find k others) a (missing_in m others))

-- Membership in a map.
module _ {V : Type 0} where
  pub find-In : (k : Text) (v : V) (m : Map V) → find k m ≡ some v → In (k, v) m
  unfolding find
  find-In k v [] h = cc
  find-In k v ((j, w) ∷ m) h = elim (Bool-cases (text_eq j k)) [
    | inl e ↦
        let e' : w ≡ v = some_injective (rw e at h) in
        inl (ap (λ l. (l, v)) (sym ((text_eq_iff j k).0 e)) ∙ ap (λ x. (j, x)) (sym e'))
    | inr e ↦ inr (find-In k v m (rw e at h))
  ]

  pub In-find : (k : Text) (v : V) (m : Map V) → In (k, v) m → (w : V) × (find k m ≡ some w)
  unfolding find
  In-find k v [] i = absurd i
  In-find k v ((j, w) ∷ m) i = elim (Bool-cases (text_eq j k)) [
    | inl e ↦ (w, rw e refl)
    | inr e ↦ elim i [
      | inl same ↦
          let e' = subst (λ l. text_eq l k ≡ true) (ap (λ p. p.0) same) (text_eq_refl k) in
          absurd (cc)
      | inr i' ↦ let (x, h) = In-find k v m i' in (x, rw e h)
    ]
  ]

  pub In-missing_in :
      (l : V) (m others : Map V)
      → In l (missing_in m others)
      → (k : Text) × In (k, l) m × (find k others ≡ none)
  unfolding missing_in
  In-missing_in l [] others i = absurd i
  In-missing_in l ((k, v) ∷ m) others i = elim (Option-cases (find k others)) [
    | inl e ↦ elim (rw e at i) [
      | inl same ↦ (k, inl (ap (λ x. (k, x)) same), e)
      | inr i' ↦ let (j, a, b) = In-missing_in l m others i' in (j, inr a, b)
    ]
    | inr (w, e) ↦ let (j, a, b) = In-missing_in l m others (rw e at i) in (j, inr a, b)
  ]

  pub missing_in-In :
      (k : Text) (l : V) (m others : Map V)
      → In (k, l) m
      → find k others ≡ none
      → In l (missing_in m others)
  unfolding missing_in
  missing_in-In k l [] others i e = absurd i
  missing_in-In k l ((j, v) ∷ m) others (inl same) e =
      let e' = subst (λ x. find x others ≡ none) (ap (λ p. p.0) same) e in
      rw e' (inl (ap (λ p. p.1) same))
  missing_in-In k l ((j, v) ∷ m) others (inr i) e = elim (Option-cases (find j others)) [
    | inl e' ↦ rw e' (inr (missing_in-In k l m others i e))
    | inr (w, e') ↦ rw e' (missing_in-In k l m others i e)
  ]
