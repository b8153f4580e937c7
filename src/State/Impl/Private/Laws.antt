-- ===== src/State/Impl/Private/Laws.antt =====
-- Private data of a collection behave as the public state does, but for ListPrivate.
use cckit.Base.{◌≡◌, refl, false, List, [], ◌∷◌, Text, Bytes, is_empty}
use cckit.Lang.Error.{errorf, key_not_found}
use cckit.Lang.Result.{Result, ok, err}
use cckit.Lang.Value.{Value, state_key, strs, Methods}
use cckit.State.Impl.{Impl, key_of, arg_key_value, put_args, get, exists, put, insert}
use cckit.State.Impl.Private.{
  get_private, exists_private, put_private, insert_private, list_private,
}
use cckit.State.Key.{Key, key_string, key_to_string, normalize_key}
use cckit.State.Stub.{Kv}

-- The public operations on the private data of one collection.
abbrev pub collection_view : {S U : Type 0} → Impl S U → Text → Impl S U
collection_view i collection = record i {
  get_state = i.stub.get_private_data collection;
  put_state = i.stub.put_private_data collection;
}

module _ {S U : Type 0} (m : Methods U) (i : Impl S U) (collection : Text) where
  -- GetPrivate, ExistsPrivate and PutPrivate are Get, Exists and Put over the data of the
  -- collection.
  pub private-eq-public :
      (entry : Value U) (config values : List (Value U)) (s : S)
      → (get_private m i collection entry config s
          ≡ get m (collection_view i collection) entry config s)
        × (exists_private m i collection entry s ≡ exists m (collection_view i collection) entry s)
        × (put_private m i collection entry values s
            ≡ put m (collection_view i collection) entry values s)
  unfolding get_private exists_private put_private get exists put key_of put_args arg_key_value
  private-eq-public entry config values s = (refl, refl, refl)

  -- InsertPrivate of a free key is Insert over the data of the collection.
  pub insert_private-new :
      (entry : Value U) (values : List (Value U)) (s : S)
      → exists_private m i collection entry s ≡ ok false
      → insert_private m i collection entry values s
        ≡ insert m (collection_view i collection) entry values s
  unfolding insert_private insert put_private put exists_private exists key_of put_args
      arg_key_value
  insert_private-new entry values s h = rw h

  -- A key, the parts that it is transformed to, the record of the public state with those parts as
  -- its key, and the private value under the same key.
  pub record IsPrivateEntry (k : Key) (p : Text) (ps : List Text) (kv : Kv) (bb : Bytes) (s : S)
      : Type 0 where
    pub parts : i.key_transformer k ≡ ok (p ∷ ps)
    pub held : key_to_string i.stub (p ∷ ps) ≡ ok kv.key
    pub splits : i.stub.split_composite_key kv.key ≡ ok (p, ps)
    pub value : i.stub.get_private_data collection kv.key s ≡ ok bb
    pub full : is_empty bb ≡ false

  get_private-IsPrivateEntry :
      (k : Key) (p : Text) (ps : List Text) (kv : Kv) (bb : Bytes) (target : Value U) (s : S)
      → IsPrivateEntry k p ps kv bb s
      → get_private m i collection (state_key k) (target ∷ []) s
        ≡ i.get_transformer bb (target ∷ [])
  unfolding get_private key_of normalize_key
  get_private-IsPrivateEntry k p ps kv bb target s h = rw (h.parts, h.held, h.value, h.full)

  get_private-again :
      (p : Text) (ps again : List Text) (k' : Text) (target : Value U) (s : S)
      → i.key_transformer (p ∷ ps) ≡ ok again
      → key_to_string i.stub again ≡ ok k'
      → i.stub.get_private_data collection k' s ≡ ok []
      → get_private m i collection (strs (p ∷ ps)) (target ∷ []) s
        ≡ err (errorf key_not_found (key_string (p ∷ ps)))
  unfolding get_private key_of normalize_key
  get_private-again p ps again k' target s a b c = rw (a, b, c)

  -- ListPrivate over the public keys, at one target, transforms the keys of the ledger once more:
  -- where the first row that it iterates over is that of a private entry, whose bytes GetPrivate
  -- decodes at its key, it fails with ErrKeyNotFound, if no private value is held under the key
  -- transformed twice.
  pub list_private-transformed_twice :
      (k n : Key) (o p : Text) (attrs ps again : List Text) (kv : Kv) (iter : List (Result Kv))
      (bb : Bytes) (k' : Text) (target : Value U) (s : S)
      → IsPrivateEntry k p ps kv bb s
      → i.key_transformer n ≡ ok (o ∷ attrs)
      → i.stub.get_state_by_partial_composite_key o attrs s ≡ ok (ok kv ∷ iter)
      → i.key_transformer (p ∷ ps) ≡ ok again
      → key_to_string i.stub again ≡ ok k'
      → i.stub.get_private_data collection k' s ≡ ok []
      → (get_private m i collection (state_key k) (target ∷ []) s
          ≡ i.get_transformer bb (target ∷ []))
        × (list_private m i collection false (state_key n) (target ∷ []) s
            ≡ err (errorf key_not_found (key_string (p ∷ ps))))
  unfolding list_private normalize_key
  list_private-transformed_twice k n o p attrs ps again kv iter bb k' target s h a b c d e = (
    get_private-IsPrivateEntry k p ps kv bb target s h,
    rw (a, b, h.splits, get_private-again p ps again k' target s c d e),
  )
