-- ===== src/Convert.antt =====
-- convert/to_bytes.go, convert/from_bytes.go: values to the bytes that are stored, and back.
pub mod RoundTrip
use cckit.Base.{◌≡◌, Option, none, some, List, [], Text, Bytes, codes, refl, ap}
use cckit.Lang.Error.{
  Error, base, message, external, noted, errorf, unable_to_convert_nil_to_struct,
  unable_to_convert_value_to_struct,
}
use cckit.Lang.Result.{Result, ok, err, panic, on_err, map_each, ◌>>=◌}
use cckit.Lang.Value.{
  Value, nil, str, state_key, strs, bytes, int, bool, obj, Kind, ptr, struct, array, map, slice,
  string_kind, other_kind, Methods,
}
use cckit.Lang.Strconv.{format_int, format_bool, atoi, parse_bool}

-- The errors of strconv, which is outside the repository.
abbrev pub atoi_error : Error
atoi_error = external 1

abbrev pub parse_bool_error : Error
parse_bool_error = external 2

abbrev kind_error : Error
kind_error = message (
    codes
      "converting supports ToByter interface,struct,array,slice,bool and string, current type is")

abbrev or_error {ℓ} : {A : Type ℓ} → Error → Option A → Result A
or_error e none = err e
or_error e (some a) = ok a

abbrev map_ok {ℓ κ} : {A : Type ℓ} {B : Type κ} → (A → B) → Result A → Result B
map_ok f (ok a) = ok (f a)
map_ok f (err e) = err e
map_ok f panic = panic

abbrev pub bytes_of : Option Bytes → Bytes
bytes_of none = []
bytes_of (some b) = b

module _ {U : Type 0} (m : Methods U) where
  -- The `default` case of ToBytes, by reflect.Kind.
  to_bytes_by_kind : Kind → U → Result Bytes
  to_bytes_by_kind string_kind u = ok (m.text u)
  to_bytes_by_kind other_kind u = err kind_error
  to_bytes_by_kind _ u = m.json_marshal (obj u)

  abbrev to_bytes_proto : U → Option (Result Bytes) → Result Bytes
  to_bytes_proto u (some r) = r
  to_bytes_proto u none = to_bytes_by_kind (m.kind u) u

  abbrev to_bytes_obj : U → Option (Result Bytes) → Result Bytes
  to_bytes_obj u (some r) = r
  to_bytes_obj u none = to_bytes_proto u (m.proto_marshal u)

  unfoldable pub to_bytes : Value U → Result Bytes
  unfolding to_bytes_by_kind
  to_bytes nil = ok []
  to_bytes (obj u) = to_bytes_obj u (m.to_byter u)
  to_bytes (bool b) = ok (format_bool b)
  to_bytes (str s) = ok s
  to_bytes (int z) = ok (format_int z)
  to_bytes (bytes b) = ok b
  to_bytes (state_key k) = m.json_marshal (state_key k)
  to_bytes (strs l) = m.json_marshal (strs l)

  -- The error of argument i says which it is; the texts of errors are not modelled beyond that.
  unfoldable pub args_to_bytes : List (Value U) → Result (List Bytes)
  args_to_bytes args =
      map_each (λ a. on_err (noted (codes "unable to convert invoke arg")) (to_bytes a)) args

  json_unmarshal_ptr : Value U → Bytes → Result (Value U)
  json_unmarshal_ptr target b =
      on_err (λ _. errorf unable_to_convert_value_to_struct []) (m.json_unmarshal target b)

  from_bytes_by_kind : Kind → Value U → Bytes → Result (Value U)
  from_bytes_by_kind map v b = err kind_error
  from_bytes_by_kind string_kind v b = err kind_error
  from_bytes_by_kind other_kind v b = err kind_error
  from_bytes_by_kind _ v b = json_unmarshal_ptr v b

  -- The kind of a nil target is a call on a nil reflect.Type.
  unfoldable pub from_bytes_to_struct : Option Bytes → Value U → Result (Value U)
  unfolding from_bytes_by_kind json_unmarshal_ptr
  from_bytes_to_struct none target = err (base unable_to_convert_nil_to_struct)
  from_bytes_to_struct (some b) nil = panic
  from_bytes_to_struct (some b) (obj u) = from_bytes_by_kind (m.kind u) (obj u) b
  from_bytes_to_struct (some b) (state_key k) = from_bytes_by_kind slice (state_key k) b
  from_bytes_to_struct (some b) (strs l) = from_bytes_by_kind slice (strs l) b
  from_bytes_to_struct (some b) (bytes x) = from_bytes_by_kind slice (bytes x) b
  from_bytes_to_struct (some b) (str s) = from_bytes_by_kind string_kind (str s) b
  from_bytes_to_struct (some b) (int z) = from_bytes_by_kind other_kind (int z) b
  from_bytes_to_struct (some b) (bool x) = from_bytes_by_kind other_kind (bool x) b

  -- The decoded array, each element asserted to be a string.
  abbrev assert_strings : Value U → Result (Value U)
  assert_strings (strs l) = ok (strs l)
  assert_strings _ = panic

  proto_unmarshal : (Bytes → Result (Value U)) → Bytes → Result (Value U)
  proto_unmarshal f b = on_err (noted (codes "unable to convert value to struct")) (f b)

  abbrev from_bytes_proto : Option Bytes → U → Option (Bytes → Result (Value U)) → Result (Value U)
  from_bytes_proto bb u (some f) = proto_unmarshal f (bytes_of bb)
  from_bytes_proto bb u none = from_bytes_to_struct bb (obj u)

  abbrev from_bytes_obj : Option Bytes → U → Option (Bytes → Result (Value U)) → Result (Value U)
  from_bytes_obj bb u (some f) = f (bytes_of bb)
  from_bytes_obj bb u none = from_bytes_proto bb u (m.proto_unmarshal u)

  -- `none` is the nil slice.
  unfoldable pub from_bytes : Option Bytes → Value U → Result (Value U)
  unfolding from_bytes_to_struct proto_unmarshal
  from_bytes bb (str _) = ok (str (bytes_of bb))
  from_bytes bb (bytes _) = ok (bytes (bytes_of bb))
  from_bytes bb (int _) = map_ok int (or_error atoi_error (atoi (bytes_of bb)))
  from_bytes bb (bool _) = map_ok bool (or_error parse_bool_error (parse_bool (bytes_of bb)))
  from_bytes bb (strs l) = json_unmarshal_ptr (strs l) (bytes_of bb) >>= assert_strings
  from_bytes bb (obj u) = from_bytes_obj bb u (m.from_byter u)
  from_bytes bb (state_key k) = from_bytes_to_struct bb (state_key k)
  from_bytes bb nil = from_bytes_to_struct bb nil
