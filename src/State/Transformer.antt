-- ===== src/State/Transformer.antt =====
-- state/tranformer.go: the conversions between entries, keys and what the ledger holds. A value of
-- the ledger is a slice that is not nil.
use cckit.Base.{some, List, [], ◌∷◌, Text, Bytes}
use cckit.Convert.{to_bytes, from_bytes}
use cckit.Lang.Result.{Result, ok}
use cckit.Lang.Value.{Value, bytes, Methods}
use cckit.State.Key.{Key}

abbrev pub FromBytesTransformer : Type 0 → Type 0
FromBytesTransformer U = Bytes → List (Value U) → Result (Value U)

abbrev pub ToBytesTransformer : Type 0 → Type 0
ToBytesTransformer U = Value U → List (Value U) → Result Bytes

abbrev pub KeyTransformer : Type 0
KeyTransformer = Key → Result Key

abbrev pub StringTransformer : Type 0
StringTransformer = Text → Result Text

module _ {U : Type 0} (m : Methods U) where
  unfoldable pub convert_from_bytes : FromBytesTransformer U
  convert_from_bytes bb [] = ok (bytes bb)
  convert_from_bytes bb (target ∷ _) = from_bytes m (some bb) target

  unfoldable pub convert_to_bytes : ToBytesTransformer U
  convert_to_bytes v config = to_bytes m v

abbrev pub key_as_is : KeyTransformer
key_as_is key = ok key

abbrev pub name_as_is : StringTransformer
name_as_is name = ok name
