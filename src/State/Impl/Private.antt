-- ===== src/State/Impl/Private.antt =====
-- The operations of state/state.go on the private data of a collection.
pub mod Laws
use cckit.Base.{Bool, not, List, [], ◌∷◌, Text, Bytes, codes, is_empty, if◌then◌else◌}
use cckit.Lang.Error.{noted, errorf, key_already_exists}
use cckit.Lang.Exec.{Exec, lift, reads, ◌>>=◌}
use cckit.Lang.Result.{Result, ok, err, panic, on_err}
use cckit.Lang.Result.{◌>>=◌ as bind}
use cckit.Lang.Value.{Value, state_key, strs, Methods}
use cckit.State.Impl.{Impl, key_of, or_default, arg_key_value, put_args, refuse}
use cckit.State.Impl.Listing.{
  Listing, StateList, new_state_list, fill, get_list, add_element_to_list,
}
use cckit.State.Key.{Key, key_string, normalize_key}
use cckit.State.Stub.{Stub, Kv}

module _ {S U : Type 0} (m : Methods U) (i : Impl S U) (collection : Text) where
  unfoldable pub get_private : Value U → List (Value U) → S → Result (Value U)
  get_private entry config s = bind (key_of m i entry) λ key.
      bind (i.stub.get_private_data collection key.string s)
        λ bb. if is_empty bb then or_default m i key.origin config else i.get_transformer bb config

  unfoldable pub exists_private : Value U → S → Result Bool
  exists_private entry s =
      bind (key_of m i entry)
        λ key. bind (i.stub.get_private_data collection key.string s) λ bb. ok (not (is_empty bb))

  -- PutPrivate computes the key and the bytes as Put does.
  unfoldable pub put_private : Value U → List (Value U) → Exec S (Unit {0})
  put_private entry values = do
    (k, bb) ← lift (put_args m i entry values)
    i.stub.put_private_data collection k bb

  unfoldable pub insert_private : Value U → List (Value U) → Exec S (Unit {0})
  insert_private entry values = do
    found ← reads (exists_private entry)
    let refused = refuse m i (λ k. errorf key_already_exists (key_string k)) (key_of m i entry)
    if found
        then lift refused
        else do (k, v) ← lift (arg_key_value m i entry values); put_private (state_key k) (v ∷ [])

  unfoldable pub delete_private : Value U → Exec S (Unit {0})
  delete_private entry = do
    key ← lift (on_err (noted (codes "deleting from private state")) (key_of m i entry))
    i.stub.del_private_data collection key.string

  -- The loop over the keys of the public state.
  unfoldable pub private_loop :
      List (Value U) → StateList U → List (Result Kv) → S → Result (StateList U)
  private_loop target sl [] s = ok sl
  private_loop target sl (next ∷ iter) s = bind (on_err (noted (codes "get key value")) next) λ kv.
      bind (i.stub.split_composite_key kv.key) λ parts.
        bind (get_private (strs (parts.0 ∷ parts.1)) target s)
          λ object. private_loop target (add_element_to_list m sl object) iter s

  -- `key[0]` of an empty key is out of range.
  unfoldable pub list_private_at : Bool → List (Value U) → Key → S → Result (Listing U)
  unfolding private_loop
  list_private_at use_private_data_iterator target [] s = panic
  list_private_at use_private_data_iterator target (o ∷ attrs) s =
      if use_private_data_iterator
      then (bind
          (on_err (noted (codes "create list iterator"))
            (i.stub.get_private_data_by_partial_composite_key collection o attrs s))
          λ iter. fill m i.get_transformer (new_state_list target) iter)
      else (bind
          (on_err (noted (codes "create list iterator"))
            (i.stub.get_state_by_partial_composite_key o attrs s))
          λ iter. bind (private_loop target (new_state_list target) iter s) (get_list m))

  unfoldable pub list_private : Bool → Value U → List (Value U) → S → Result (Listing U)
  unfolding list_private_at
  list_private use_private_data_iterator namespace target s =
      bind (on_err (noted (codes "prepare list key parts")) (normalize_key i.stub m namespace))
        λ key.
          bind (i.key_transformer key)
            λ key'. list_private_at use_private_data_iterator target key' s
