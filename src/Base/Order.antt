-- ===== src/Base/Order.antt =====
-- strings.Compare of Go: the order of texts by their bytes.
use mathlib.Core.Path.{◌≡◌, refl}
use mathlib.Core.List.{[], ◌∷◌}
use native.Mathlib.Omega.{arith}
use cckit.Base.Tests.{◌==◌, ltb, if◌then◌else◌}
use cckit.Base.Texts.{Text}

-- The results -1, 0 and 1.
pub data Comparison : Type 0 where
  before same after : Comparison

unfoldable pub compare : Text → Text → Comparison
compare [] [] = same
compare [] (b ∷ t) = before
compare (a ∷ s) [] = after
compare (a ∷ s) (b ∷ t) =
    let rest = compare s t in if a == b then rest else if ltb a b then before else after

pub compare_self : (s : Text) → compare s s ≡ same
unfolding compare
compare_self [] = refl
compare_self (a ∷ s) = ground (arith, compare_self s)

pub compare-same : (s t : Text) → compare s t ≡ same → s ≡ t
unfolding compare
compare-same [] [] h = refl
compare-same [] (b ∷ t) h = cc
compare-same (a ∷ s) [] h = cc
compare-same (a ∷ s) (b ∷ t) h = ground (arith, compare-same s t)

pub compare-after : (s t : Text) → compare s t ≡ after → compare t s ≡ before
unfolding compare
compare-after [] [] h = cc
compare-after [] (b ∷ t) h = cc
compare-after (a ∷ s) [] h = refl
compare-after (a ∷ s) (b ∷ t) h = ground (arith, compare-after s t)

pub compare_trans :
    (s t u : Text) → compare s t ≡ before → compare t u ≡ before → compare s u ≡ before
unfolding compare
compare_trans [] [] u h k = cc
compare_trans [] (b ∷ t) [] h k = cc
compare_trans [] (b ∷ t) (c ∷ u) h k = refl
compare_trans (a ∷ s) [] u h k = cc
compare_trans (a ∷ s) (b ∷ t) [] h k = cc
compare_trans (a ∷ s) (b ∷ t) (c ∷ u) h k = ground (arith, compare_trans s t u)
