-- ===== src/State/Stub.antt =====
-- shim.ChaincodeStubInterface of hyperledger/fabric-chaincode-go, which is outside the repository:
-- the calls that the code makes of it, on a state `S` of the stub. An iterator is the list of what
-- its calls of Next return.
use cckit.Base.{◌≡◌, ◌≢◌, Bool, true, List, Text, Bytes, Map, contains}
use cckit.Lang.Result.{Result, ok}
use cckit.Lang.Exec.{Exec}
use cckit.Lang.Value.{ℤ}
use cckit.Response.{Response}

-- queryresult.KV
pub record Kv : Type 0 where
  pub key : Text
  pub value : Bytes

-- queryresult.KeyModification
pub record KeyModification : Type 0 where
  pub tx_id : Text
  pub seconds : ℤ
  pub is_delete : Bool
  pub value : Bytes

pub record Stub (S : Type 0) : Type 0 where
  pub create_composite_key : Text → List Text → Result Text
  pub split_composite_key : Text → Result (Text × List Text)
  pub get_state : Text → S → Result Bytes
  pub put_state : Text → Bytes → Exec S (Unit {0})
  pub del_state : Text → Exec S (Unit {0})
  pub get_history_for_key : Text → S → Result (List (Result KeyModification))
  pub get_state_by_range : Text → Text → S → Result (List (Result Kv))
  pub get_state_by_partial_composite_key : Text → List Text → S → Result (List (Result Kv))
  pub get_private_data : Text → Text → S → Result Bytes
  pub put_private_data : Text → Text → Bytes → Exec S (Unit {0})
  pub del_private_data : Text → Text → Exec S (Unit {0})
  pub get_private_data_by_partial_composite_key :
      Text → Text → List Text → S → Result (List (Result Kv))
  pub set_event : Text → Bytes → Exec S (Unit {0})
  pub invoke_chaincode : Text → List Bytes → Text → Exec S Response
  pub get_args : S → List Bytes
  pub get_transient : S → Result (Map Bytes)
  pub get_creator : S → Result Bytes

-- What shim documents of composite keys: a key that was created splits into what it was created
-- from, and the separator, U+0000, is in it.
pub record CompositeKeys {S : Type 0} (stub : Stub S) : Type 0 where
  pub split-create :
      (o : Text) (attrs : List Text) (s : Text)
      → stub.create_composite_key o attrs ≡ ok s
      → stub.split_composite_key s ≡ ok (o, attrs)
  pub contains-create :
      (o : Text) (attrs : List Text) (s : Text)
      → stub.create_composite_key o attrs ≡ ok s
      → contains s 0 ≡ true

-- A write of public data is read back, and changes what is read at no other key.
pub record ReadsWrites {S : Type 0} (get : Text → S → Result Bytes)
    (put : Text → Bytes → Exec S (Unit {0})) : Type 0 where
  pub get-put : (k : Text) (b : Bytes) (s s' : S) → put k b s ≡ (ok tt, s') → get k s' ≡ ok b
  pub get-put_ne :
      (k j : Text) (b : Bytes) (s s' : S) → k ≢ j → put k b s ≡ (ok tt, s') → get j s' ≡ get j s
