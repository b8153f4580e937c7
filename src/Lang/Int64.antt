-- ===== src/Lang/Int64.antt =====
-- Arithmetic on the int of Go, which wraps around at 64 bits, by its two's complement.
use cckit.Base.{ℕ, ◌+◌, ◌-◌, ◌%◌, ◌<◌, ◌≤◌, ◌≡◌, Bool, true, false, ltb, arith, if◌then◌else◌}
use cckit.Lang.Strconv.{IsInt}
use cckit.Lang.Value.{ℤ, pos, negsuc}

-- 2 ^ 64 and 2 ^ 63
abbrev pub word : ℕ
word = 18446744073709551616

abbrev half : ℕ
half = 9223372036854775808

unfoldable pub to_bits : ℤ → ℕ
to_bits (pos n) = n % 18446744073709551616
to_bits (negsuc n) = 18446744073709551615 - n % 18446744073709551616

unfoldable pub of_bits : ℕ → ℤ
of_bits b = if ltb b 9223372036854775808 then pos b else negsuc (18446744073709551615 - b)

unfoldable pub add : ℤ → ℤ → ℤ
unfolding to_bits of_bits
add x y = of_bits ((to_bits x + to_bits y) % 18446744073709551616)

unfoldable pub sub : ℤ → ℤ → ℤ
unfolding to_bits of_bits
sub x y = of_bits ((to_bits x + (18446744073709551616 - to_bits y)) % 18446744073709551616)

-- x < y and x < 0
unfoldable pub lt : ℤ → ℤ → Bool
lt (pos a) (pos b) = ltb a b
lt (pos a) (negsuc b) = false
lt (negsuc a) (pos b) = true
lt (negsuc a) (negsuc b) = ltb b a

to_bits_lt : (z : ℤ) → to_bits z < 18446744073709551616
unfolding to_bits
to_bits_lt (pos n) = omega arith
to_bits_lt (negsuc n) = omega arith

IsInt-of_bits : (b : ℕ) → b < 18446744073709551616 → IsInt (of_bits b)
unfolding of_bits
IsInt-of_bits b h = ground arith

to_bits-of_bits : (b : ℕ) → b < 18446744073709551616 → to_bits (of_bits b) ≡ b
unfolding of_bits to_bits
to_bits-of_bits b h = ground arith

pub IsInt-add : (x y : ℤ) → IsInt (add x y)
unfolding add
IsInt-add x y = IsInt-of_bits _ (omega arith)

pub IsInt-sub : (x y : ℤ) → IsInt (sub x y)
unfolding sub
IsInt-sub x y = IsInt-of_bits _ (omega arith)

-- What is taken from one number and added to another leaves their sum, modulo 2 ^ 64.
pub bits-sub-add :
    (x y z : ℤ)
    → (to_bits (sub x z) + to_bits (add y z)) % 18446744073709551616
      ≡ (to_bits x + to_bits y) % 18446744073709551616
unfolding sub add
bits-sub-add x y z =
    let s = (to_bits x + (18446744073709551616 - to_bits z)) % 18446744073709551616 in
    let a = (to_bits y + to_bits z) % 18446744073709551616 in
    omega (arith, to_bits-of_bits s (omega arith), to_bits-of_bits a (omega arith), to_bits_lt z)

-- Within the range of an int, both are what they are on natural numbers.
pub sub-pos : (m n : ℕ) → n ≤ m → m < 9223372036854775808 → sub (pos m) (pos n) ≡ pos (m - n)
unfolding sub to_bits of_bits
sub-pos m n h r = ground arith

pub add-pos : (m n : ℕ) → m + n < 9223372036854775808 → add (pos m) (pos n) ≡ pos (m + n)
unfolding add to_bits of_bits
add-pos m n r = ground arith
