-- ===== src/Lang/Strings.antt =====
-- strings.Join, and strings.Split at a separator of one byte.
use cckit.Base.{
  ℕ, ◌≡◌, refl, ap, ◌∙◌, false, inl, inr, Bool-cases, ==_iff, List, [], ◌∷◌, ◌++◌, arith, Text,
  ◌==◌, contains, All, if◌then◌else◌,
}

unfoldable pub join : Text → List Text → Text
join sep [] = []
join sep (x ∷ []) = x
join sep (x ∷ y ∷ xs) = x ++ (sep ++ join sep (y ∷ xs))

-- The text up to the first separator goes in front of what follows it.
abbrev onto_first : ℕ → List Text → List Text
onto_first c [] = (c ∷ []) ∷ []
onto_first c (p ∷ ps) = (c ∷ p) ∷ ps

unfoldable pub split : ℕ → Text → List Text
split sep [] = [] ∷ []
split sep (c ∷ s) = let rest = split sep s in if c == sep then [] ∷ rest else onto_first c rest

-- No separator: one part.
split-plain : (sep : ℕ) (p : Text) → contains p sep ≡ false → split sep p ≡ p ∷ []
unfolding split contains
split-plain sep [] h = refl
split-plain sep (c ∷ p) h = ground (arith, split-plain sep p)

pub split-append :
    (sep : ℕ) (p s : Text) → contains p sep ≡ false → split sep (p ++ sep ∷ s) ≡ p ∷ split sep s
unfolding split contains
split-append sep [] s h = ground arith
split-append sep (c ∷ p) s h = ground (arith, split-append sep p s)

abbrev pub NoSep : ℕ → Text → Type 0
NoSep sep p = contains p sep ≡ false

pub split-join :
    (sep : ℕ) (p : Text) (ps : List Text)
    → All (NoSep sep) (p ∷ ps)
    → split sep (join (sep ∷ []) (p ∷ ps)) ≡ p ∷ ps
unfolding join
split-join sep p [] h = split-plain sep p h.0
split-join sep p (q ∷ ps) h =
    rw (split-append sep p (join (sep ∷ []) (q ∷ ps)) h.0)
      (ap (λ l. p ∷ l) (split-join sep q ps h.1))

join-onto_first :
    (sep c : ℕ) (ps : List Text) → join (sep ∷ []) (onto_first c ps) ≡ c ∷ join (sep ∷ []) ps
unfolding join
join-onto_first sep c [] = refl
join-onto_first sep c (p ∷ []) = refl
join-onto_first sep c (p ∷ q ∷ ps) = refl

-- `split` always gives a part.
pub split-IsCons : (sep : ℕ) (s : Text) → (p : Text) × (ps : List Text) × (split sep s ≡ p ∷ ps)
unfolding split
split-IsCons sep [] = ([], [], refl)
split-IsCons sep (c ∷ s) =
    let (p, ps, e) = split-IsCons sep s in
    elim (Bool-cases (c == sep)) [
      | inl same ↦ ([], split sep s, rw same)
      | inr other ↦ (c ∷ p, ps, rw (other, e))
    ]

join-nil_cons :
    (sep : ℕ) (ps : List Text) (p : Text) (qs : List Text)
    → ps ≡ p ∷ qs
    → join (sep ∷ []) ([] ∷ ps) ≡ sep ∷ join (sep ∷ []) ps
unfolding join
join-nil_cons sep ps p qs e = rw e refl

pub join-split : (sep : ℕ) (s : Text) → join (sep ∷ []) (split sep s) ≡ s
unfolding split join
join-split sep [] = refl
join-split sep (c ∷ s) =
    let (p, ps, e) = split-IsCons sep s in
    elim (Bool-cases (c == sep)) [
      | inl same ↦
          rw same (
            join-nil_cons sep (split sep s) p ps e ∙ ground (arith, ==_iff c sep, join-split sep s))
      | inr other ↦
          rw other (join-onto_first sep c (split sep s) ∙ ap (λ t. c ∷ t) (join-split sep s))
    ]
