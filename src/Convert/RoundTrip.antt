-- ===== src/Convert/RoundTrip.antt =====
-- What ToBytes writes, FromBytes reads back at a target of the same type.
use cckit.Base.{◌≡◌, refl, ap, some, Bytes}
use cckit.Lang.Result.{ok}
use cckit.Lang.Value.{Value, str, bytes, int, bool, strs, nil, state_key, obj, Methods}
use cckit.Lang.Strconv.{IsInt, atoi-format_int, parse_bool-format_bool}
use cckit.Convert.{to_bytes, from_bytes, or_error, map_ok, atoi_error, parse_bool_error}

-- The values that have a textual form of their own: strings, byte slices, Booleans, 64-bit ints.
abbrev pub IsScalar : {U : Type 0} → Value U → Type 0
IsScalar (str s) = Unit
IsScalar (bytes b) = Unit
IsScalar (bool b) = Unit
IsScalar (int z) = IsInt z
IsScalar _ = ⊥

-- A scalar is written, and what is written is read back as the same scalar at a target of its type.
pub from_bytes-to_bytes :
    {U : Type 0} (m : Methods U) (v : Value U)
    → IsScalar v
    → (b : Bytes) × (to_bytes m v ≡ ok b) × (from_bytes m (some b) v ≡ ok v)
unfolding to_bytes from_bytes
from_bytes-to_bytes m (str s) h = (s, refl, refl)
from_bytes-to_bytes m (bytes b) h = (b, refl, refl)
from_bytes-to_bytes m (bool b) h =
    (_, refl, ap (λ o. map_ok bool (or_error parse_bool_error o)) (parse_bool-format_bool b))
from_bytes-to_bytes m (int z) h =
    (_, refl, ap (λ o. map_ok int (or_error atoi_error o)) (atoi-format_int z h))
from_bytes-to_bytes m nil h = absurd h
from_bytes-to_bytes m (state_key k) h = absurd h
from_bytes-to_bytes m (strs k) h = absurd h
from_bytes-to_bytes m (obj k) h = absurd h
