-- ===== src/Base/Maps.antt =====
-- Go maps with string keys, as association lists. A write replaces the value of its key, so what is
-- read does not depend on the order of the entries.
use mathlib.Core.Path.{◌≡◌, refl}
use mathlib.Core.Option.{Option, none, some}
use mathlib.Core.List.{List, [], ◌∷◌}
use native.Mathlib.Omega.{arith}
use cckit.Base.Tests.{if◌then◌else◌}
use cckit.Base.Texts.{Text, text_eq, text_eq_iff, text_eq_refl}

abbrev pub Map : Type 0 → Type 0
Map V = List (Text × V)

module _ {V : Type 0} where
  unfoldable pub find : Text → Map V → Option V
  find k [] = none
  find k ((j, v) ∷ m) = if text_eq j k then some v else find k m

  unfoldable pub store : Text → V → Map V → Map V
  store k v [] = (k, v) ∷ []
  store k v ((j, w) ∷ m) = if text_eq j k then (k, v) ∷ m else (j, w) ∷ store k v m

  unfoldable pub without : Text → Map V → Map V
  without k [] = []
  without k ((j, w) ∷ m) = let rest = without k m in if text_eq j k then rest else (j, w) ∷ rest

  pub find-store :
      (k j : Text) (v : V) (m : Map V)
      → find j (store k v m) ≡ (if text_eq k j then some v else find j m)
  unfolding find store
  find-store k j v [] = refl
  find-store k j v ((i, w) ∷ m) =
      ground (arith, text_eq_iff k j, text_eq_iff i k, text_eq_iff i j, find-store k j v m)

  pub find-without :
      (k j : Text) (m : Map V) → find j (without k m) ≡ (if text_eq k j then none else find j m)
  unfolding find without
  find-without k j [] = ground arith
  find-without k j ((i, w) ∷ m) =
      ground (arith, text_eq_iff k j, text_eq_iff i k, text_eq_iff i j, find-without k j m)

  pub find-store_self : (k : Text) (v : V) (m : Map V) → find k (store k v m) ≡ some v
  find-store_self k v m = simp (find-store, text_eq_refl)
