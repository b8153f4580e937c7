-- ===== src/Mapping/Schema.antt =====
-- The entities of state/mapping: those of the application, and the two of state/schema/keyref.pb.go,
-- with what reflect shows of a value. A value of `*T` and the `T` it points to are not told apart.
use cckit.Base.{Bool, true, Option, some, List, [], ◌∷◌, Text, codes}
use cckit.Lang.Value.{ℤ, Value}

-- schema.KeyRef
pub record KeyRef : Type 0 where
  pub schema : Text
  pub idx : Text
  pub ref_key : List Text
  pub p_key : List Text

-- schema.KeyRefId
pub record KeyRefId : Type 0 where
  pub schema : Text
  pub idx : Text
  pub ref_key : List Text

pub data Entity (U : Type 0) : Type 0 where
  app : U → Entity U
  key_ref : KeyRef → Entity U
  key_ref_id : KeyRefId → Entity U

-- A field of a struct that a field points to, with what reflect.Value.String gives of it.
pub record InnerField : Type 0 where
  pub name : Text
  pub can_set : Bool
  pub printed : Text

-- The value of a field, as far as keyFromValue tells types apart.
pub data FieldValue : Type 0 where
  string_value : Text → FieldValue
  int32_value : ℤ → FieldValue
  bool_value : Bool → FieldValue
  strings_value : List Text → FieldValue
  -- the day of a *timestamp.Timestamp, `none` where ptypes.Timestamp refuses it
  timestamp_value : Option Text → FieldValue
  struct_ptr_value : List InnerField → FieldValue
  -- a nil pointer, or one to something else than a struct
  bad_ptr_value : FieldValue
  other_value : FieldValue

pub record Field : Type 0 where
  pub name : Text
  pub can_set : Bool
  pub value : FieldValue

-- A schema: `Value` with entities in place of the types of the application.
abbrev pub Schema : Type 0 → Type 0
Schema U = Value (Entity U)

abbrev plain_field : Text → FieldValue → Field
plain_field name value = record { name = name; can_set = true; value = value }

-- The fields of the XXX_ names are of types that no key is made of.
abbrev generated_fields : List Field
generated_fields =
    plain_field (codes "XXX_NoUnkeyedLiteral") other_value
    ∷ plain_field (codes "XXX_unrecognized") other_value
    ∷ plain_field (codes "XXX_sizecache") (int32_value (ℤ.pos 0))
    ∷ []

module _ {U : Type 0} (reflect : U → Option (List Field)) where
  -- The fields of the struct that an entity is or points to, `none` where it is none.
  unfoldable pub fields : Entity U → Option (List Field)
  fields (app u) = reflect u
  fields (key_ref r) = some (
      plain_field (codes "Schema") (string_value r.schema)
      ∷ plain_field (codes "Idx") (string_value r.idx)
      ∷ plain_field (codes "RefKey") (strings_value r.ref_key)
      ∷ plain_field (codes "PKey") (strings_value r.p_key)
      ∷ generated_fields)
  fields (key_ref_id r) = some (
      plain_field (codes "Schema") (string_value r.schema)
      ∷ plain_field (codes "Idx") (string_value r.idx)
      ∷ plain_field (codes "RefKey") (strings_value r.ref_key)
      ∷ generated_fields)
