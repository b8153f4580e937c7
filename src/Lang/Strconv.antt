-- ===== src/Lang/Strconv.antt =====
-- strconv: decimal numbers (fmt.Sprint of an int, Atoi on a 64-bit int) and ParseBool, FormatBool.
use Prim.Native.Nat.{◌^◌}
use cckit.Base.{
  ℕ, zero, suc, ◌+◌, ◌-◌, ◌*◌, ◌/◌, ◌%◌, ◌≤◌, ◌<◌, ◌≡◌, refl, Bool, true, false, ◌&&◌, ◌||◌, Option,
  none, some, [], ◌∷◌, arith, Text, codes, text_eq, ltb, leb, ◌==◌, if◌then◌else◌, Bool-cases, ◌∙◌,
  ap, inl, inr,
}
use cckit.Lang.Value.{ℤ, pos, negsuc}

-- The digits of `n` in front of `acc`; `n + 1` rounds are enough.
unfoldable pub digits : ℕ → ℕ → Text → Text
digits zero n acc = acc
digits (suc f) n acc =
    let rest = digits f (n / 10) ((48 + n % 10) ∷ acc) in if ltb n 10 then (48 + n) ∷ acc else rest

unfoldable pub format_nat : ℕ → Text
unfolding digits
format_nat n = digits (n + 1) n []

-- The value of digits read after `acc`; `none` at any other byte.
unfoldable pub read_digits : ℕ → Text → Option ℕ
read_digits acc [] = some acc
read_digits acc (c ∷ s) =
    let rest = read_digits (acc * 10 + (c - 48)) s in if leb 48 c && leb c 57 then rest else none

unfoldable pub format_int : ℤ → Text
unfolding format_nat
format_int (pos n) = format_nat n
format_int (negsuc n) = b'-' ∷ format_nat (n + 1)

abbrev int_limit : ℕ
int_limit = 2 ^ 63

-- A magnitude within the range of a 64-bit int.
in_range : Bool → Option ℕ → Option ℤ
in_range minus none = none
in_range false (some n) = if ltb n int_limit then some (pos n) else none
in_range true (some zero) = some (pos 0)
in_range true (some (suc n)) = if ltb n int_limit then some (negsuc n) else none

-- One digit at least.
unsigned : Text → Option ℕ
unsigned [] = none
unsigned (c ∷ s) = read_digits 0 (c ∷ s)

-- strconv.Atoi; `none` is its error.
unfoldable pub atoi : Text → Option ℤ
unfolding in_range unsigned read_digits
atoi [] = none
atoi (c ∷ s) =
    if c == b'-'
    then in_range true (unsigned s)
    else if c == b'+'
    then in_range false (unsigned s)
    else in_range false (unsigned (c ∷ s))

-- strconv.ParseBool; `none` is its error.
unfoldable pub parse_bool : Text → Option Bool
parse_bool s =
    if text_eq s (codes "1")
      || text_eq s (codes "t")
      || text_eq s (codes "T")
      || text_eq s (codes "true")
      || text_eq s (codes "TRUE")
      || text_eq s (codes "True")
    then some true
    else if text_eq s (codes "0")
        || text_eq s (codes "f")
        || text_eq s (codes "F")
        || text_eq s (codes "false")
        || text_eq s (codes "FALSE")
        || text_eq s (codes "False")
    then some false
    else none

abbrev pub format_bool : Bool → Text
format_bool true = codes "true"
format_bool false = codes "false"

pub parse_bool-format_bool : (b : Bool) → parse_bool (format_bool b) ≡ some b
unfolding parse_bool text_eq
parse_bool-format_bool true = refl
parse_bool-format_bool false = refl

read_digits-digit :
    (a c : ℕ) (s : Text) → c < 10 → read_digits a ((48 + c) ∷ s) ≡ read_digits (a * 10 + c) s
unfolding read_digits
read_digits-digit a c s h =
    let e : 48 + c - 48 ≡ c = omega arith in
    let lo : leb 48 (48 + c) ≡ true = ground arith in
    let hi : leb (48 + c) 57 ≡ true = ground arith in rw (lo, hi, e)

pub read_digits-digits :
    (f n : ℕ) (acc : Text) → n < f → read_digits 0 (digits f n acc) ≡ read_digits n acc
unfolding digits
read_digits-digits zero n acc h = absurd (omega arith)
read_digits-digits (suc f) n acc h = elim (Bool-cases (ltb n 10)) [
  | inl last ↦
      rw last (read_digits-digit 0 n acc (ground arith) ∙ ap (λ k. read_digits k acc) (omega arith))
  | inr more ↦ rw more (
      read_digits-digits f (n / 10) ((48 + n % 10) ∷ acc) (ground arith)
      ∙ read_digits-digit (n / 10) (n % 10) acc (omega arith)
      ∙ ap (λ k. read_digits k acc) (omega arith))
]

lt→ltb : (a b : ℕ) → a < b → ltb a b ≡ true
lt→ltb a b h = ground arith

-- What is printed has a digit in front.
abbrev IsDigit : ℕ → Type 0
IsDigit c = (48 ≤ c) × (c < 58)

digits-IsCons :
    (f n : ℕ) (acc : Text) → n < f → (c : ℕ) × (s : Text) × (digits f n acc ≡ c ∷ s) × IsDigit c
unfolding digits
digits-IsCons zero n acc h = absurd (omega arith)
digits-IsCons (suc f) n acc h = elim (Bool-cases (ltb n 10)) [
  | inl last ↦ (48 + n, acc, rw last, (omega arith, ground arith))
  | inr more ↦ rw more (digits-IsCons f (n / 10) ((48 + n % 10) ∷ acc) (ground arith))
]

-- The values of a 64-bit int.
abbrev pub IsInt : ℤ → Type 0
IsInt (pos n) = n < int_limit
IsInt (negsuc n) = n < int_limit

unsigned-format_nat : (n : ℕ) → unsigned (format_nat n) ≡ some n
unfolding unsigned format_nat read_digits
unsigned-format_nat n =
    let (c, s, e, d) = digits-IsCons (n + 1) n [] (omega arith) in
    rw e (rw e at (read_digits-digits (n + 1) n [] (omega arith)))

atoi-digit : (c : ℕ) (s : Text) → IsDigit c → atoi (c ∷ s) ≡ in_range false (unsigned (c ∷ s))
unfolding atoi
atoi-digit c s d =
    let minus : (c == b'-') ≡ false = ground arith in
    let plus : (c == b'+') ≡ false = ground arith in rw (minus, plus)

-- Atoi reads back what fmt.Sprint prints of an int.
pub atoi-format_int : (z : ℤ) → IsInt z → atoi (format_int z) ≡ some z
unfolding format_int
atoi-format_int (pos n) h =
    let (c, s, e, d) = digits-IsCons (n + 1) n [] (omega arith) in
    let p : format_nat n ≡ c ∷ s = unfold format_nat in e in
    let q : unsigned (c ∷ s) ≡ some n = rw p at (unsigned-format_nat n) in
    rw p (atoi-digit c s d ∙ (rw q (unfold in_range in rw (lt→ltb n int_limit h))))
atoi-format_int (negsuc n) h =
    let e : n + 1 ≡ suc n = omega arith in
    let q : unsigned (format_nat (n + 1)) ≡ some (suc n) = rw e (unsigned-format_nat (suc n)) in
    unfold atoi in_range in rw (q, lt→ltb n int_limit h)
