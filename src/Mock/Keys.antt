-- ===== src/Mock/Keys.antt =====
-- testing/mockstub.go: the ordered list of keys that the stub keeps for each collection, with the
-- loops of PutPrivateData and DelPrivateData over it. A removed element has no next one, so the loop
-- of DelPrivateData ends at the first match.
use cckit.Base.{
  ◌≡◌, refl, Bool, true, false, ◌&&◌, ◌||◌, not, List, [], ◌∷◌, Text, text_eq, text_eq_iff, All,
  arith, ◌⊎◌, inl, inr, if◌then◌else◌, Comparison, before, same, after, compare, compare_self,
  compare-same, compare-after, compare_trans,
}

abbrev place : Comparison → Text → Text → List Text → List Text → List Text
place before key e es rest = key ∷ e ∷ es
place same key e es rest = e ∷ es
place after key e es rest = e ∷ rest

-- The loop of PutPrivateData, with the special case of an empty list.
unfoldable pub insert_key : Text → List Text → List Text
insert_key key [] = key ∷ []
insert_key key (e ∷ es) = place (compare key e) key e es (insert_key key es)

abbrev pub is_same : Comparison → Bool
is_same same = true
is_same _ = false

unfoldable pub remove_key : Text → List Text → List Text
remove_key key [] = []
remove_key key (e ∷ es) =
    let rest = remove_key key es in if is_same (compare key e) then es else e ∷ rest

-- Whether a key is in the list.
unfoldable pub holds : Text → List Text → Bool
holds k [] = false
holds k (e ∷ es) = text_eq e k || holds k es

-- Strictly ascending, by recursion.
abbrev pub Ascending : List Text → Type 0
Ascending [] = Unit
Ascending (e ∷ es) = All (λ f. compare e f ≡ before) es × Ascending es

Comparison-cases : (c : Comparison) → (c ≡ before) ⊎ (c ≡ same) ⊎ (c ≡ after)
Comparison-cases before = inl refl
Comparison-cases same = inr (inl refl)
Comparison-cases after = inr (inr refl)

All-after :
    (e f : Text) (es : List Text)
    → compare e f ≡ before
    → All (λ g. compare f g ≡ before) es
    → All (λ g. compare e g ≡ before) es
All-after e f [] lt h = tt
All-after e f (g ∷ es) lt (h, hs) = (compare_trans e f g lt h, All-after e f es lt hs)

insert_key-All :
    (e key : Text) (es : List Text)
    → compare e key ≡ before
    → All (λ g. compare e g ≡ before) es
    → All (λ g. compare e g ≡ before) (insert_key key es)
unfolding insert_key
insert_key-All e key [] lt h = (lt, tt)
insert_key-All e key (f ∷ es) lt (h, hs) = elim (Comparison-cases (compare key f)) [
  | inl b ↦ rw b (lt, (h, hs))
  | inr (inl s) ↦ rw s (h, hs)
  | inr (inr a) ↦ rw a (h, insert_key-All e key es lt hs)
]

pub insert_key-Ascending :
    (key : Text) (es : List Text) → Ascending es → Ascending (insert_key key es)
unfolding insert_key
insert_key-Ascending key [] h = (tt, tt)
insert_key-Ascending key (e ∷ es) (h, hs) = elim (Comparison-cases (compare key e)) [
  | inl b ↦ rw b ((b, All-after key e es b h), (h, hs))
  | inr (inl s) ↦ rw s (h, hs)
  | inr (inr a) ↦
      rw a (insert_key-All e key es (compare-after key e a) h, insert_key-Ascending key es hs)
]

pub holds-insert_key :
    (k key : Text) (es : List Text) → holds k (insert_key key es) ≡ (text_eq key k || holds k es)
unfolding holds insert_key
holds-insert_key k key [] = refl
holds-insert_key k key (e ∷ es) =
    ground
      (arith, text_eq_iff key k, text_eq_iff e k, compare-same key e, holds-insert_key k key es)

remove_key-All :
    (e key : Text) (es : List Text)
    → All (λ g. compare e g ≡ before) es
    → All (λ g. compare e g ≡ before) (remove_key key es)
unfolding remove_key
remove_key-All e key [] h = tt
remove_key-All e key (f ∷ es) (h, hs) = elim (Comparison-cases (compare key f)) [
  | inl b ↦ rw b (h, remove_key-All e key es hs)
  | inr (inl s) ↦ rw s hs
  | inr (inr a) ↦ rw a (h, remove_key-All e key es hs)
]

pub remove_key-Ascending :
    (key : Text) (es : List Text) → Ascending es → Ascending (remove_key key es)
unfolding remove_key
remove_key-Ascending key [] h = tt
remove_key-Ascending key (e ∷ es) (h, hs) = elim (Comparison-cases (compare key e)) [
  | inl b ↦ rw b (remove_key-All e key es h, remove_key-Ascending key es hs)
  | inr (inl s) ↦ rw s hs
  | inr (inr a) ↦ rw a (remove_key-All e key es h, remove_key-Ascending key es hs)
]

-- A key before all of the list is not in it.
holds-All : (k : Text) (es : List Text) → All (λ g. compare k g ≡ before) es → holds k es ≡ false
unfolding holds
holds-All k [] h = refl
holds-All k (e ∷ es) (h, hs) = ground (arith, text_eq_iff e k, compare_self k, holds-All k es hs)

pub holds-remove_key :
    (k key : Text) (es : List Text)
    → Ascending es
    → holds k (remove_key key es) ≡ (not (text_eq key k) && holds k es)
unfolding holds remove_key
holds-remove_key k key [] h = ground arith
holds-remove_key k key (e ∷ es) (h, hs) = ground (
  arith,
  text_eq_iff key k,
  text_eq_iff e k,
  compare-same key e,
  compare_self e,
  holds-All e es h,
  holds-remove_key k key es hs,
)
