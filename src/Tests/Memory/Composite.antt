-- ===== src/Tests/Memory/Composite.antt =====
-- Composite keys as shim writes them: U+0000, and each part with U+0000 behind it.
use cckit.Base.{
  ◌≡◌, refl, Bool, true, false, ◌||◌, inl, inr, Bool-cases, List, [], ◌∷◌, ◌++◌, arith, Text,
  contains, if◌then◌else◌,
}
use cckit.Lang.Error.{external}
use cckit.Lang.Result.{Result, ok, err}
use cckit.Lang.Strings.{split, split-append, split-IsCons}

abbrev any_zero : List Text → Bool
any_zero [] = false
any_zero (p ∷ ps) = contains p 0 || any_zero ps

encode : List Text → Text
encode [] = []
encode (p ∷ ps) = p ++ 0 ∷ encode ps

unfoldable pub create : Text → List Text → Result Text
unfolding encode
create o attrs = if any_zero (o ∷ attrs) then err (external 9) else ok (0 ∷ encode (o ∷ attrs))

unfoldable pub prefix_of : Text → List Text → Text
unfolding encode
prefix_of o attrs = 0 ∷ encode (o ∷ attrs)

-- All but the last part.
front : List Text → List Text
front [] = []
front (p ∷ []) = []
front (p ∷ q ∷ ps) = p ∷ front (q ∷ ps)

head_and_tail : List Text → Result (Text × List Text)
head_and_tail [] = err (external 8)
head_and_tail (p ∷ ps) = ok (p, ps)

unfoldable pub split_key : Text → Result (Text × List Text)
unfolding front head_and_tail
split_key [] = err (external 8)
split_key (c ∷ s) = head_and_tail (front (split 0 s))

front-cons :
    (p : Text) (ps : List Text) (q : Text) (qs : List Text)
    → ps ≡ q ∷ qs
    → front (p ∷ ps) ≡ p ∷ front ps
unfolding front
front-cons p ps q qs e = rw e

front-encode : (ps : List Text) → any_zero ps ≡ false → front (split 0 (encode ps)) ≡ ps
unfolding encode
front-encode [] h = unfold front split in refl
front-encode (p ∷ ps) h =
    let (q, qs, e) = split-IsCons 0 (encode ps) in
    rw (
      split-append 0 p (encode ps) (ground arith),
      front-cons p (split 0 (encode ps)) q qs e,
      front-encode ps (ground arith),
    )

pub split_key-create :
    (o : Text) (attrs : List Text) (s : Text) → create o attrs ≡ ok s → split_key s ≡ ok (o, attrs)
unfolding create split_key
split_key-create o attrs s h = elim (Bool-cases (any_zero (o ∷ attrs))) [
  | inl bad ↦ cc (rw bad at h)
  | inr fine ↦
      let e : ◌≡◌ {A = Result Text} (ok (0 ∷ encode (o ∷ attrs))) (ok s) = rw fine at h in
      let se : s ≡ 0 ∷ encode (o ∷ attrs) = cc in rw se (rw (front-encode (o ∷ attrs) fine))
]

pub contains-create :
    (o : Text) (attrs : List Text) (s : Text) → create o attrs ≡ ok s → contains s 0 ≡ true
unfolding create contains
contains-create o attrs s h = ground arith
