-- ===== src/State/Key.antt =====
-- state/key.go: keys of state entries, and the strings under which the ledger holds them.
pub mod Laws
use cckit.Base.{
  ℕ, Bool, Option, none, some, List, [], ◌∷◌, ◌++◌, Text, codes, contains, if◌then◌else◌,
}
use cckit.Lang.Error.{noted, base, unable_to_create_state_key, key_parts_length}
use cckit.Lang.Result.{Result, ok, err, panic, on_err, ◌>>=◌}
use cckit.Lang.Strings.{join, split}
use cckit.Lang.Value.{Value, nil, str, state_key, strs, bytes, int, bool, obj, Methods}
use cckit.State.Stub.{Stub}

abbrev pub Key : Type 0
Key = List Text

-- StringsIdToStr
unfoldable pub strings_id_to_str : List Text → Text
strings_id_to_str id_slice = join (0 ∷ []) id_slice

-- StringsIdFromStr
unfoldable pub strings_id_from_str : Text → List Text
strings_id_from_str id_string = split 0 id_string

-- Key.Append
abbrev pub append : Key → Key → Key
append k key = k ++ key

-- Key.String
unfoldable pub key_string : Key → Text
key_string k = join (codes " | ") k

-- TransformedKey
pub record TransformedKey : Type 0 where
  pub origin : Key
  pub parts : Key
  pub string : Text

module _ {S : Type 0} (stub : Stub S) where
  unfoldable pub key_from_composite : Text → Result Key
  key_from_composite key =
      if contains key 0
      then (do
        (object_type, attributes) ←
            on_err (noted (codes "key from composite")) (stub.split_composite_key key)
        ok (object_type ∷ attributes))
      else ok (key ∷ [])

  -- `key[0]` of an empty key is out of range.
  unfoldable pub key_to_composite : Key → Result Text
  key_to_composite [] = panic
  key_to_composite (o ∷ attrs) =
      on_err (noted (codes "key to composite")) (stub.create_composite_key o attrs)

  unfoldable pub key_to_string : Key → Result Text
  unfolding key_to_composite
  key_to_string [] = err (base key_parts_length)
  key_to_string (p ∷ []) = ok p
  key_to_string (p ∷ q ∷ ps) = key_to_composite (p ∷ q ∷ ps)

  module _ {U : Type 0} (m : Methods U) where
    abbrev no_key : Value U → Result Key
    no_key v = err (noted (m.type_name v) (base unable_to_create_state_key))

    abbrev key_of_keyer : U → Option (Result Key) → Result Key
    key_of_keyer u (some r) = r
    key_of_keyer u none = no_key (obj u)

    unfoldable pub normalize_key : Value U → Result Key
    normalize_key (state_key k) = ok k
    normalize_key (obj u) = key_of_keyer u (m.keyer u)
    normalize_key (str s) = key_from_composite s
    normalize_key (strs k) = ok k
    normalize_key v = no_key v
