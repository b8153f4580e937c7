-- ===== src/Mapping/Keyers.antt =====
-- state/mapping/state_mapping_opt.go: keys from the fields of an entity. `show` is the text of an error.
use cckit.Base.{
  Bool, true, false, not, ◌||◌, Option, none, some, List, [], ◌∷◌, ◌++◌, Text, codes, text_eq, ◌==◌,
  ◌&&◌, if◌then◌else◌,
}
use cckit.Lang.Error.{
  Error, base, message, noted, errorf, external, field_not_exists, field_type_not_supported,
}
use cckit.Lang.Result.{Result, ok, err, panic, ◌>>=◌}
use cckit.Lang.Value.{obj, Methods}
use cckit.Mapping.Schema.{
  Entity, Schema, Field, InnerField, FieldValue, string_value, int32_value, bool_value,
  strings_value, timestamp_value, struct_ptr_value, bad_ptr_value, other_value, fields,
}
use cckit.State.Key.{Key, append}

-- InstanceKeyer and InstanceMultiKeyer
abbrev pub InstanceKeyer : Type 0 → Type 0
InstanceKeyer U = Schema U → Result Key

abbrev pub InstanceMultiKeyer : Type 0 → Type 0
InstanceMultiKeyer U = Schema U → Result (List Key)

-- strings.HasPrefix(s, p)
unfoldable pub has_prefix : Text → Text → Bool
has_prefix s [] = true
has_prefix [] (b ∷ p) = false
has_prefix (a ∷ s) (b ∷ p) = a == b && has_prefix s p

unfoldable pub skip_field : Text → Bool → Bool
unfolding has_prefix
skip_field name can_set = has_prefix name (codes "XXX_") || not can_set

unfoldable pub names_kept : List Field → List Text
unfolding skip_field
names_kept [] = []
names_kept (f ∷ fs) =
    let rest = names_kept fs in if skip_field f.name f.can_set then rest else f.name ∷ rest

unfoldable pub texts_kept : List InnerField → List Text
unfolding skip_field
texts_kept [] = []
texts_kept (f ∷ fs) =
    let rest = texts_kept fs in if skip_field f.name f.can_set then rest else f.printed ∷ rest

-- The error of ptypes.Timestamp.
abbrev timestamp_error : Error
timestamp_error = noted (codes "timestamp key to time") (external 3)

-- reflect.Value.String of a value that is no string shows its type, not the value.
unfoldable pub key_from_value : FieldValue → Result Key
unfolding texts_kept
key_from_value (timestamp_value (some day)) = ok (day ∷ [])
key_from_value (timestamp_value none) = err timestamp_error
key_from_value (struct_ptr_value fs) = ok (texts_kept fs)
key_from_value bad_ptr_value = panic
key_from_value (string_value s) = ok (s ∷ [])
key_from_value (int32_value z) = ok (codes "<int32 Value>" ∷ [])
key_from_value (bool_value b) = ok (codes "<bool Value>" ∷ [])
key_from_value (strings_value ss) = ok ss
key_from_value other_value = err (base field_type_not_supported)

abbrev pub one_part_each : List Text → List Key
one_part_each [] = []
one_part_each (s ∷ ss) = (s ∷ []) ∷ one_part_each ss

unfoldable pub keys_from_value : FieldValue → Result (List Key)
keys_from_value (strings_value ss) = ok (one_part_each ss)
keys_from_value _ = err (base field_type_not_supported)

-- FieldByName
unfoldable pub field_by_name : Text → List Field → Option FieldValue
field_by_name name [] = none
field_by_name name (f ∷ fs) =
    let rest = field_by_name name fs in if text_eq f.name name then some f.value else rest

module _ {U : Type 0} (m : Methods (Entity U)) (show : Error → Text)
    (reflect : U → Option (List Field)) where
  -- reflect.Indirect, and the panics of what is no struct.
  abbrev pub or_panic : {A : Type 0} → Option A → Result A
  or_panic none = panic
  or_panic (some a) = ok a

  unfoldable pub struct_of : Schema U → Result (List Field)
  struct_of (obj e) = or_panic (fields reflect e)
  struct_of _ = panic

  unfoldable pub attrs_from : Schema U → Result (List Text)
  attrs_from schema = struct_of schema >>= λ fs. ok (names_kept fs)

  abbrev no_field : Text → Error
  no_field attr = errorf field_not_exists attr

  abbrev pub keyed_field : Schema U → Text → Result Key → Result Key
  keyed_field instance_ attr (err e) = err (
      message (
        codes "key from field "
        ++ (m.type_name instance_ ++ (codes "." ++ (attr ++ (codes ": " ++ show e))))))
  keyed_field instance_ attr r = r

  abbrev part_of : Schema U → Text → Option FieldValue → Result Key
  part_of instance_ attr none = err (no_field attr)
  part_of instance_ attr (some v) = keyed_field instance_ attr (key_from_value v)

  -- The loop over the attributes, with the key so far.
  unfoldable pub attrs_loop : Schema U → List Field → List Text → Key → Result Key
  unfolding key_from_value field_by_name
  attrs_loop instance_ fs [] key = ok key
  attrs_loop instance_ fs (attr ∷ attrs) key =
      part_of instance_ attr (field_by_name attr fs) >>= λ part.
      attrs_loop instance_ fs attrs (append key part)

  unfoldable pub attrs_keyer : List Text → InstanceKeyer U
  unfolding attrs_loop
  attrs_keyer attrs instance_ = struct_of instance_ >>= λ fs. attrs_loop instance_ fs attrs []

  abbrev keys_of : Text → Option FieldValue → Result (List Key)
  keys_of attr none = err (no_field attr)
  keys_of attr (some v) = keys_from_value v

  unfoldable pub attr_multi_keyer : Text → InstanceMultiKeyer U
  unfolding field_by_name keys_from_value
  attr_multi_keyer attr instance_ =
      struct_of instance_ >>= λ fs. keys_of attr (field_by_name attr fs)

-- keyerAsMulti
unfoldable pub keyer_as_multi : {U : Type 0} → InstanceKeyer U → InstanceMultiKeyer U
keyer_as_multi keyer instance_ = keyer instance_ >>= λ k. ok (k ∷ [])
