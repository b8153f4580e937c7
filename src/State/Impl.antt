-- ===== src/State/Impl.antt =====
-- state/state.go: the wrapper of the stub's public state. The fields that its methods only read are
-- a record; the state `S` is that of the stub. Calls of the logger are left out.
pub mod Listing
pub mod Private
pub mod Laws
use cckit.Base.{◌≡◌, refl, Bool, not, List, [], ◌∷◌, Text, Bytes, is_empty, if◌then◌else◌}
use cckit.Lang.Error.{
  Error, base, noted, caused, errorf, key_not_found, key_already_exists, allow_only_one_value,
}
use cckit.Base.{codes}
use cckit.Lang.Exec.{Exec, lift, reads, ◌>>=◌}
use cckit.Lang.Result.{Result, ok, err, panic, on_err, map_each}
use cckit.Lang.Result.{◌>>=◌ as bind}
use cckit.Lang.Value.{Value, state_key, int, ℤ, Methods}
use cckit.State.Key.{Key, key_string, TransformedKey, key_to_string, normalize_key}
use cckit.State.Stub.{Stub, KeyModification}
use cckit.State.Transformer.{
  FromBytesTransformer, ToBytesTransformer, KeyTransformer, key_as_is, convert_from_bytes,
  convert_to_bytes,
}

-- HistoryEntry
pub record HistoryEntry (U : Type 0) : Type 0 where
  pub tx_id : Text
  pub timestamp : ℤ
  pub is_deleted : Bool
  pub value : Value U

pub record Impl (S U : Type 0) : Type 0 where
  pub stub : Stub S
  pub put_state : Text → Bytes → Exec S (Unit {0})
  pub get_state : Text → S → Result Bytes
  pub key_transformer : KeyTransformer
  pub key_reverse_transformer : KeyTransformer
  pub get_transformer : FromBytesTransformer U
  pub put_transformer : ToBytesTransformer U

module _ {S U : Type 0} (m : Methods U) where
  unfoldable pub new_state : Stub S → Impl S U
  new_state stub = record {
    stub = stub;
    put_state = stub.put_state;
    get_state = stub.get_state;
    key_transformer = key_as_is;
    key_reverse_transformer = key_as_is;
    get_transformer = convert_from_bytes m;
    put_transformer = convert_to_bytes m;
  }

  module _ (i : Impl S U) where
    -- Impl.Key
    unfoldable pub key_of : Value U → Result TransformedKey
    key_of entry =
        bind (on_err (noted (codes "key normalizing")) (normalize_key i.stub m entry)) λ origin.
          bind (i.key_transformer origin) λ parts.
            bind (key_to_string i.stub parts)
              λ s. ok (record { origin = origin; parts = parts; string = s })

    -- The second of the config values is the default.
    abbrev pub or_default : Key → List (Value U) → Result (Value U)
    or_default origin (_ ∷ d ∷ _) = ok d
    or_default origin _ = err (errorf key_not_found (key_string origin))

    unfoldable pub get : Value U → List (Value U) → S → Result (Value U)
    get entry config s = bind (key_of entry) λ key.
        bind (i.get_state key.string s)
          λ bb. if is_empty bb then or_default key.origin config else i.get_transformer bb config

    abbrev assert_int : Value U → Result ℤ
    assert_int (int z) = ok z
    assert_int _ = panic

    unfoldable pub get_int : Value U → ℤ → S → Result ℤ
    unfolding get
    get_int entry default_value s =
        bind (get entry (int (ℤ.pos 1) ∷ int default_value ∷ []) s) assert_int

    history_entry : Value U → Result KeyModification → Result (HistoryEntry U)
    history_entry target next = bind next λ st. bind (i.get_transformer st.value (target ∷ [])) λ v.
        ok (record {
          tx_id = st.tx_id;
          timestamp = st.seconds;
          is_deleted = st.is_delete;
          value = v;
        })

    unfoldable pub get_history : Value U → Value U → S → Result (List (HistoryEntry U))
    unfolding history_entry
    get_history entry target s = bind (key_of entry) λ key.
        bind (i.stub.get_history_for_key key.string s) λ iter. map_each (history_entry target) iter

    unfoldable pub exists : Value U → S → Result Bool
    exists entry s =
        bind (key_of entry) λ key. bind (i.get_state key.string s) λ bb. ok (not (is_empty bb))

    unfoldable pub arg_key_value : Value U → List (Value U) → Result (Key × Value U)
    arg_key_value arg [] = bind (normalize_key i.stub m arg) λ key. ok (key, arg)
    arg_key_value arg (v ∷ []) = bind (normalize_key i.stub m arg) λ key. ok (key, v)
    arg_key_value arg (v ∷ w ∷ _) =
        bind (normalize_key i.stub m arg) λ _. err (base allow_only_one_value)

    -- Put up to its call of PutState: the string of the key, and the bytes.
    unfoldable pub put_args : Value U → List (Value U) → Result (Text × Bytes)
    put_args entry values = bind (arg_key_value entry values) λ kv.
        bind (i.put_transformer kv.1 [])
          λ bb. bind (key_of (state_key kv.0)) λ key. ok (key.string, bb)

    unfoldable pub put : Value U → List (Value U) → Exec S (Unit {0})
    put entry values = do (k, bb) ← lift (put_args entry values); i.put_state k bb

    -- The key that a refusal names: `key, _ := s.Key(entry)` is nil where Key fails.
    abbrev pub refuse : (Key → Error) → Result TransformedKey → Result (Unit {0})
    refuse e (ok key) = err (e key.origin)
    refuse e (err _) = panic
    refuse e panic = panic

    unfoldable pub insert : Value U → List (Value U) → Exec S (Unit {0})
    insert entry values = do
      found ← reads (exists entry)
      let refused = refuse (λ k. caused key_already_exists (key_string k)) (key_of entry)
      if found
          then lift refused
          else do (k, v) ← lift (arg_key_value entry values); put (state_key k) (v ∷ [])

    unfoldable pub delete : Value U → Exec S (Unit {0})
    delete entry = do
      key ← lift (on_err (noted (codes "deleting from state")) (key_of entry))
      i.stub.del_state key.string

  abbrev pub use_key_transformer : Impl S U → KeyTransformer → Impl S U
  use_key_transformer i kt = record i { key_transformer = kt }

  abbrev pub use_key_reverse_transformer : Impl S U → KeyTransformer → Impl S U
  use_key_reverse_transformer i kt = record i { key_reverse_transformer = kt }

  abbrev pub use_state_get_transformer : Impl S U → FromBytesTransformer U → Impl S U
  use_state_get_transformer i fb = record i { get_transformer = fb }

  abbrev pub use_state_put_transformer : Impl S U → ToBytesTransformer U → Impl S U
  use_state_put_transformer i tb = record i { put_transformer = tb }
