-- ===== src/State/Impl/Listing.antt =====
-- state/state_list.go, and List and Keys of state/state.go.
pub mod Laws
use cckit.Base.{
  Bool, true, false, Option, none, some, List, [], ◌∷◌, ◌++◌, Text, Bytes, codes, is_empty,
  if◌then◌else◌,
}
use cckit.Lang.Error.{noted}
use cckit.Lang.Result.{Result, ok, err, panic, on_err, map_each, ◌>>=◌}
use cckit.Lang.Value.{Value, nil, obj, Methods}
use cckit.State.Impl.{Impl}
use cckit.State.Key.{Key, normalize_key, key_from_composite, key_to_string}
use cckit.State.Stub.{Stub, Kv}
use cckit.State.Transformer.{FromBytesTransformer}

pub record StateList (U : Type 0) : Type 0 where
  pub item_target : Value U
  pub list_target : Value U
  pub list : List (Value U)

-- The three results of StateList.Get: a clone of the list target with the items in its field
-- `Items`, a schema.List with the items as Any, or the slice itself.
pub data Listing (U : Type 0) : Type 0 where
  custom_list : Value U → List (Value U) → Listing U
  schema_list : List Bytes → Listing U
  items : List (Value U) → Listing U

unfoldable pub new_state_list : {U : Type 0} → List (Value U) → StateList U
new_state_list [] = record { item_target = nil; list_target = nil; list = [] }
new_state_list (item ∷ []) = record { item_target = item; list_target = nil; list = [] }
new_state_list (item ∷ listing ∷ _) = record {
  item_target = item;
  list_target = listing;
  list = [];
}

module _ {U : Type 0} (m : Methods U) where
  -- `v.(proto.Message)`
  abbrev is_message : Option (Result Bytes) → Bool
  is_message none = false
  is_message (some _) = true

  unfoldable pub is_proto : Value U → Bool
  is_proto (obj u) = is_message (m.proto_marshal u)
  is_proto _ = false

  abbrev any_of : U → Option (Result Bytes) → Result Bytes
  any_of u none = panic
  any_of u (some _) = m.marshal_any u

  -- MarshalAny of an item that is asserted to be a message.
  unfoldable pub to_any : Value U → Result Bytes
  to_any (obj u) = any_of u (m.proto_marshal u)
  to_any _ = panic

  -- StateList.Get
  unfoldable pub get_list : StateList U → Result (Listing U)
  get_list sl =
      if is_proto sl.list_target
      then ok (custom_list sl.list_target sl.list)
      else if is_proto sl.item_target
      then (map_each to_any sl.list >>= λ anys. ok (schema_list anys))
      else ok (items sl.list)

  abbrev pub add_element_to_list : StateList U → Value U → StateList U
  add_element_to_list sl elem = record sl { list = sl.list ++ elem ∷ [] }

  -- The loop of Fill.
  unfoldable pub fill_loop :
      FromBytesTransformer U → StateList U → List (Result Kv) → Result (StateList U)
  fill_loop from_bytes sl [] = ok sl
  fill_loop from_bytes sl (next ∷ iter) = next >>= λ kv.
      on_err (noted (codes "transform list entry")) (from_bytes kv.value (sl.item_target ∷ []))
      >>= λ item. fill_loop from_bytes (add_element_to_list sl item) iter

  unfoldable pub fill : FromBytesTransformer U → StateList U → List (Result Kv) → Result (Listing U)
  fill from_bytes sl iter = fill_loop from_bytes sl iter >>= get_list

  module _ {S : Type 0} (i : Impl S U) where
    -- A namespace with no part, or with an empty first part, is all of the state.
    unfoldable pub query_of : Key → S → Result (List (Result Kv))
    query_of [] s = i.stub.get_state_by_range [] [] s
    query_of (object_type ∷ attrs) s =
        if is_empty object_type
        then i.stub.get_state_by_range [] [] s
        else i.stub.get_state_by_partial_composite_key object_type attrs s

    unfoldable pub create_state_query_iterator : Value U → S → Result (List (Result Kv))
    unfolding query_of
    create_state_query_iterator namespace s =
        on_err (noted (codes "list prefix")) (normalize_key i.stub m namespace) >>= λ key.
        i.key_transformer key >>= λ key_transformed. query_of key_transformed s

    unfoldable pub list_state : Value U → List (Value U) → S → Result (Listing U)
    unfolding create_state_query_iterator
    list_state namespace target s =
        on_err (noted (codes "state iterator")) (create_state_query_iterator namespace s)
        >>= λ iter. fill i.get_transformer (new_state_list target) iter

    -- One round of the loop of Keys.
    unfoldable pub key_of_entry : Result Kv → Result Text
    key_of_entry next = next >>= λ kv. key_from_composite i.stub kv.key >>= λ key.
        on_err (noted (codes "reverse transform key")) (i.key_reverse_transformer key)
        >>= λ reversed. key_to_string i.stub reversed

    unfoldable pub keys : Value U → S → Result (List Text)
    unfolding create_state_query_iterator
    keys namespace s =
        on_err (noted (codes "state iterator")) (create_state_query_iterator namespace s)
        >>= λ iter. map_each key_of_entry iter
