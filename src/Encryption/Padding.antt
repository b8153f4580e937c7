-- ===== src/Encryption/Padding.antt =====
-- pkcs7Padding and pkcs7UnPadding of extensions/encryption/aes.go.
use cckit.Base.{
  ℕ, zero, suc, ◌+◌, ◌-◌, ◌%◌, ◌≤◌, ◌<◌, ◌≡◌, ◌≢◌, refl, ◌∙◌, ap, Bool, true, false, ◌||◌, ◌&&◌,
  Option, none, some, [], ◌∷◌, ◌++◌, arith, Bytes, codes, length, take, drop, replicate,
  length-append, length-replicate, take-append_length, drop-append_length, ltb, ◌==◌, if◌then◌else◌,
}
use cckit.Lang.Error.{message}
use cckit.Lang.Result.{Result, ok, err, panic}

-- aes.BlockSize
abbrev pub block_size : ℕ
block_size = 16

unfoldable pub pkcs7_padding : Bytes → Bytes
pkcs7_padding src =
    let padding = block_size - length src % block_size in src ++ replicate padding padding

-- `src[length-1]`; out of range of an empty slice.
unfoldable pub last : Bytes → Option ℕ
last [] = none
last (a ∷ []) = some a
last (a ∷ b ∷ s) = last (b ∷ s)

-- The loop over the pad.
unfoldable pub all_eq : ℕ → Bytes → Bool
all_eq a [] = true
all_eq a (b ∷ s) = b == a && all_eq a s

-- A pad longer than the slice is out of range.
unfoldable pub unpad : Bytes → Option ℕ → Result Bytes
unfolding all_eq
unpad src none = panic
unpad src (some unpadding) =
    if ltb block_size unpadding || unpadding == 0
    then err (message (codes "Invalid pkcs7 padding (unpadding > aes.BlockSize || unpadding == 0)"))
    else if ltb (length src) unpadding
    then panic
    else if all_eq unpadding (drop (length src - unpadding) src)
    then ok (take (length src - unpadding) src)
    else err (message (codes "Invalid pkcs7 padding (pad[i] != unpadding)"))

unfoldable pub pkcs7_unpadding : Bytes → Result Bytes
unfolding unpad last
pkcs7_unpadding src = unpad src (last src)

-- The length of a padded text is a multiple of the block size of 16, more than the length of the
-- text and at most 16 more.
pub length-pkcs7_padding :
    (src : Bytes)
    → (length (pkcs7_padding src) % 16 ≡ 0)
      × (length src < length (pkcs7_padding src))
      × (length (pkcs7_padding src) ≤ length src + 16)
unfolding pkcs7_padding
length-pkcs7_padding src =
    let n = 16 - length src % 16 in
    let e = length-append src (replicate n n) ∙ ap (λ k. length src + k) (length-replicate n n) in
    (omega (arith, e), omega (arith, e), omega (arith, e))

last-replicate : (n a : ℕ) → last (replicate (suc n) a) ≡ some a
unfolding last
last-replicate zero a = refl
last-replicate (suc n) a = last-replicate n a

last-append : (s : Bytes) (a : ℕ) (t : Bytes) → last (s ++ a ∷ t) ≡ last (a ∷ t)
unfolding last
last-append [] a t = refl
last-append (b ∷ []) a t = refl
last-append (b ∷ c ∷ s) a t = last-append (c ∷ s) a t

all_eq-replicate : (n a : ℕ) → all_eq a (replicate n a) ≡ true
unfolding all_eq
all_eq-replicate zero a = refl
all_eq-replicate (suc n) a = ground (arith, all_eq-replicate n a)

-- The pad is read off the end.
unpad-append :
    (src : Bytes) (n : ℕ) → 0 < n → n ≤ 16 → unpad (src ++ replicate n n) (some n) ≡ ok src
unfolding unpad
unpad-append src n lo hi =
    let e : length (src ++ replicate n n) ≡ length src + n =
      length-append src (replicate n n) ∙ ap (λ k. length src + k) (length-replicate n n) in
    let d : length (src ++ replicate n n) - n ≡ length src = omega (arith, e) in
    let big : ltb 16 n || n == 0 ≡ false = ground arith in
    let fits : ltb (length (src ++ replicate n n)) n ≡ false = ground (arith, e) in
    rw (
      big,
      fits,
      d,
      drop-append_length src (replicate n n),
      all_eq-replicate n n,
      take-append_length src (replicate n n),
    )

last-padding : (src : Bytes) (n : ℕ) → 0 < n → last (src ++ replicate n n) ≡ some n
last-padding src zero h = absurd (omega arith)
last-padding src (suc n) h =
    last-append src (suc n) (replicate n (suc n)) ∙ last-replicate n (suc n)

-- What was padded is restored, whatever it holds and ends with.
pub pkcs7_unpadding-pkcs7_padding : (src : Bytes) → pkcs7_unpadding (pkcs7_padding src) ≡ ok src
unfolding pkcs7_padding pkcs7_unpadding
pkcs7_unpadding-pkcs7_padding src =
    let n = 16 - length src % 16 in
    rw (last-padding src n (omega arith)) (unpad-append src n (omega arith) (omega arith))

last-IsSome : (a : ℕ) (s : Bytes) → (n : ℕ) × (last (a ∷ s) ≡ some n)
unfolding last
last-IsSome a [] = (a, refl)
last-IsSome a (b ∷ s) = last-IsSome b s

unpad-ne-panic : (src : Bytes) (n : ℕ) → 16 ≤ length src → unpad src (some n) ≢ panic
unfolding unpad
unpad-ne-panic src n h e = ground arith

-- A slice of a block or more is unpadded or refused.
pub pkcs7_unpadding-ne-panic : (src : Bytes) → 16 ≤ length src → pkcs7_unpadding src ≢ panic
unfolding pkcs7_unpadding
pkcs7_unpadding-ne-panic [] h e = absurd (omega arith)
pkcs7_unpadding-ne-panic (a ∷ s) h e =
    let (n, l) = last-IsSome a s in unpad-ne-panic (a ∷ s) n h (rw l at e)

pub pkcs7_unpadding-nil : (src : Bytes) → length src ≡ 0 → pkcs7_unpadding src ≡ panic
unfolding pkcs7_unpadding
pkcs7_unpadding-nil [] h = refl
pkcs7_unpadding-nil (a ∷ s) h = absurd (omega arith)
