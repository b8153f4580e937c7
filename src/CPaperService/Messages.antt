-- ===== src/CPaperService/Messages.antt =====
-- examples/cpaper_asservice/schema: the messages of the service of commercial papers, with the rules
-- that their validators check. A timestamp is a value of a type `T`, `none` where the pointer is nil;
-- the texts of errors are not modelled.
use cckit.Base.{
  suc, true, Option, none, some, List, [], ◌∷◌, Text, Bytes, codes, is_empty, if◌then◌else◌,
}
use cckit.Lang.Error.{Error, message, noted}
use cckit.Lang.Result.{Result, ok, err, on_err, ◌>>=◌}
use cckit.Lang.Value.{nil, str, state_key, strs, bytes, int, bool, obj, ℤ, pos, ptr, Methods}
use cckit.Mapping.Schema.{
  Entity, app, key_ref, key_ref_id, Schema, Field, FieldValue, string_value, int32_value,
  other_value, timestamp_value, bad_ptr_value,
}

-- CommercialPaper_State, an open enumeration.
pub data State : Type 0 where
  issued trading redeemed : State
  other_state : ℤ → State

pub record CommercialPaper (T : Type 0) : Type 0 where
  pub issuer : Text
  pub paper_number : Text
  pub owner : Text
  pub issue_date : Option T
  pub maturity_date : Option T
  pub face_value : ℤ
  pub state : State
  pub external_id : Text

pub record CommercialPaperId : Type 0 where
  pub issuer : Text
  pub paper_number : Text

pub record ExternalId : Type 0 where
  pub id : Text

pub record IssueCommercialPaper (T : Type 0) : Type 0 where
  pub issuer : Text
  pub paper_number : Text
  pub issue_date : Option T
  pub maturity_date : Option T
  pub face_value : ℤ
  pub external_id : Text

pub record BuyCommercialPaper (T : Type 0) : Type 0 where
  pub issuer : Text
  pub paper_number : Text
  pub current_owner : Text
  pub new_owner : Text
  pub price : ℤ
  pub purchase_date : Option T

pub record RedeemCommercialPaper (T : Type 0) : Type 0 where
  pub issuer : Text
  pub paper_number : Text
  pub redeeming_owner : Text
  pub redeem_date : Option T

-- The messages that the state and the events of the service are given.
pub data Message (T : Type 0) : Type 0 where
  paper : CommercialPaper T → Message T
  paper_id : CommercialPaperId → Message T
  paper_list : List (CommercialPaper T) → Message T
  issuing : IssueCommercialPaper T → Message T
  buying : BuyCommercialPaper T → Message T
  redeeming : RedeemCommercialPaper T → Message T

-- What the messages take of the libraries: golang/protobuf, the day of a timestamp, and
-- CallValidatorIfExists of a timestamp.
pub record Library (T : Type 0) : Type 0 where
  pub day : T → Option Text
  pub call_validator : T → Result (Unit {0})
  pub proto_marshal : Entity (Message T) → Result Bytes
  pub proto_unmarshal : Entity (Message T) → Bytes → Result (Schema (Message T))
  pub marshal_any : Entity (Message T) → Result Bytes
  pub json_marshal : Schema (Message T) → Result Bytes
  pub json_unmarshal : Schema (Message T) → Bytes → Result (Schema (Message T))

abbrev field : Text → FieldValue → Field
field name value = record { name = name; can_set = true; value = value }

abbrev text_field : Text → Text → Field
text_field name t = field name (string_value t)

-- The fields that protoc-gen-go adds to a message.
abbrev generated : List Field
generated =
    field (codes "XXX_NoUnkeyedLiteral") other_value
    ∷ field (codes "XXX_unrecognized") other_value
    ∷ field (codes "XXX_sizecache") (int32_value (pos 0))
    ∷ []

module _ {T : Type 0} (lib : Library T) where
  abbrev date_value : Option T → FieldValue
  date_value none = bad_ptr_value
  date_value (some t) = timestamp_value (lib.day t)

  -- What reflect shows of a message: of the structs that keys are made of, all the fields.
  unfoldable pub reflect : Message T → Option (List Field)
  reflect (paper c) = some (
      text_field (codes "Issuer") c.issuer
      ∷ text_field (codes "PaperNumber") c.paper_number
      ∷ text_field (codes "Owner") c.owner
      ∷ field (codes "IssueDate") (date_value c.issue_date)
      ∷ field (codes "MaturityDate") (date_value c.maturity_date)
      ∷ field (codes "FaceValue") (int32_value c.face_value)
      ∷ field (codes "State") other_value
      ∷ text_field (codes "ExternalId") c.external_id
      ∷ generated)
  reflect (paper_id i) = some (
      text_field (codes "Issuer") i.issuer
      ∷ text_field (codes "PaperNumber") i.paper_number
      ∷ generated)
  reflect _ = some []

  unfoldable pub type_name : Schema (Message T) → Text
  type_name (obj (app (paper c))) = codes "*schema.CommercialPaper"
  type_name (obj (app (paper_id i))) = codes "*schema.CommercialPaperId"
  type_name (obj (app (paper_list l))) = codes "*schema.CommercialPaperList"
  type_name (obj (app (issuing d))) = codes "*schema.IssueCommercialPaper"
  type_name (obj (app (buying d))) = codes "*schema.BuyCommercialPaper"
  type_name (obj (app (redeeming d))) = codes "*schema.RedeemCommercialPaper"
  type_name (obj (key_ref r)) = codes "*schema.KeyRef"
  type_name (obj (key_ref_id r)) = codes "*schema.KeyRefId"
  type_name nil = []
  type_name (str s) = codes "string"
  type_name (state_key k) = codes "state.Key"
  type_name (strs k) = codes "[]string"
  type_name (bytes b) = codes "[]uint8"
  type_name (int z) = codes "int"
  type_name (bool b) = codes "bool"

  -- Every message is a proto.Message and has no other method that the kit looks for.
  unfoldable pub messages : Methods (Entity (Message T))
  unfolding type_name
  messages = record {
    type_name = type_name;
    kind = λ u. ptr;
    text = λ u. [];
    keyer = λ u. none;
    namer = λ u. none;
    to_byter = λ u. none;
    from_byter = λ u. none;
    proto_marshal = λ u. some (lib.proto_marshal u);
    marshal_any = lib.marshal_any;
    proto_unmarshal = λ u. some (lib.proto_unmarshal u);
    json_marshal = lib.json_marshal;
    json_unmarshal = lib.json_unmarshal;
  }

  -- FieldError
  abbrev field_error : Text → Error → Error
  field_error name e = noted name e

  abbrev non_empty : Text → Text → Result (Unit {0})
  non_empty name t =
      if is_empty t
      then err (field_error name (message (codes "must not be an empty string")))
      else ok tt

  abbrev present : Text → Option T → Result (Unit {0})
  present name none = err (field_error name (message (codes "message must exist")))
  present name (some t) = on_err (field_error name) (lib.call_validator t)

  abbrev positive : Text → ℤ → Result (Unit {0})
  positive name (pos (suc n)) = ok tt
  positive name z = err (field_error name (message (codes "must be greater than")))

  -- IssueCommercialPaper.Validate, BuyCommercialPaper.Validate and RedeemCommercialPaper.Validate
  unfoldable pub validate_issue : IssueCommercialPaper T → Result (Unit {0})
  validate_issue d = non_empty (codes "Issuer") d.issuer >>= λ _.
      non_empty (codes "PaperNumber") d.paper_number >>= λ _.
      present (codes "IssueDate") d.issue_date >>= λ _.
      present (codes "MaturityDate") d.maturity_date >>= λ _.
      positive (codes "FaceValue") d.face_value >>= λ _.
      non_empty (codes "ExternalId") d.external_id

  unfoldable pub validate_buy : BuyCommercialPaper T → Result (Unit {0})
  validate_buy d = non_empty (codes "Issuer") d.issuer >>= λ _.
      non_empty (codes "PaperNumber") d.paper_number >>= λ _.
      non_empty (codes "CurrentOwner") d.current_owner >>= λ _.
      non_empty (codes "NewOwner") d.new_owner >>= λ _.
      positive (codes "Price") d.price >>= λ _. present (codes "PurchaseDate") d.purchase_date

  unfoldable pub validate_redeem : RedeemCommercialPaper T → Result (Unit {0})
  validate_redeem d = non_empty (codes "Issuer") d.issuer >>= λ _.
      non_empty (codes "PaperNumber") d.paper_number >>= λ _.
      non_empty (codes "RedeemingOwner") d.redeeming_owner >>= λ _.
      present (codes "RedeemDate") d.redeem_date
