-- ===== src/Mapping/KeyRefs.antt =====
-- state/mapping/state_keyref.go, state_mapped.go and StateMapping.Keys: the entries of the unique
-- indexes, which refer to the primary key of an entity.
pub mod Laws
use cckit.Base.{
  ℕ, Bool, true, false, not, ◌&&◌, Option, none, some, List, [], ◌∷◌, ◌++◌, Text, Bytes, Map, find,
  store, codes, text_eq, is_empty, ◌==◌, if◌then◌else◌,
}
use cckit.Lang.Error.{
  Error, base, message, noted, errorf, entry_type_not_supported, state_mapping_not_found,
  primary_keyer_not_defined, index_already_exists,
}
use cckit.Lang.Result.{Result, ok, err, panic, on_err, map_each, ◌>>=◌}
use cckit.Lang.Strings.{join}
use cckit.Lang.Value.{Value, nil, strs, obj, Methods}
use cckit.Mapping.Keyers.{
  InstanceKeyer, InstanceMultiKeyer, attrs_keyer, attr_multi_keyer, attrs_from, keyer_as_multi,
}
use cckit.Mapping.Schema.{Entity, app, key_ref, key_ref_id, Schema, KeyRef, KeyRefId, Field}
use cckit.State.Key.{Key, append, key_string}
use cckit.Mapping.StateMappings.{
  StateIndex, StateMapping, StateMappings, ProtoStateMapped, map_key, schema_namespace, primary_key,
  get,
}

module _ {U : Type 0} (m : Methods (Entity U)) (show : Error → Text)
    (reflect : U → Option (List Field)) where
  -- KeyRefMapper and KeyRefIDMapper
  abbrev pub key_ref_namespace : Key
  key_ref_namespace = codes "_idx" ∷ []

  abbrev pub key_ref_id_keyer : InstanceKeyer U
  key_ref_id_keyer = attrs_keyer m show reflect (codes "Schema" ∷ codes "Idx" ∷ codes "RefKey" ∷ [])

  abbrev pub key_ref_mapper : StateMapping U
  key_ref_mapper = record {
    schema = obj (key_ref (record { schema = []; idx = []; ref_key = []; p_key = [] }));
    namespace = key_ref_namespace;
    keyer_for_schema = none;
    primary_keyer = some key_ref_id_keyer;
    list = none;
    indexes = [];
  }

  abbrev pub key_ref_id_mapper : StateMapping U
  key_ref_id_mapper = record key_ref_mapper {
    schema = obj (key_ref_id (record { schema = []; idx = []; ref_key = [] }));
  }

  unfoldable pub new_key_ref : Schema U → Text → Key → Key → KeyRef
  new_key_ref target idx ref_key p_key = record {
    schema = join (codes "-") (schema_namespace m show reflect target);
    idx = idx;
    ref_key = ref_key;
    p_key = p_key;
  }

  unfoldable pub new_key_ref_id : Schema U → Text → Key → KeyRefId
  new_key_ref_id target idx ref_key = record {
    schema = join (codes "-") (schema_namespace m show reflect target);
    idx = idx;
    ref_key = ref_key;
  }

  unfoldable pub new_key_ref_mapped : Schema U → Text → Key → Key → ProtoStateMapped U
  new_key_ref_mapped target idx ref_key p_key = record {
    instance_ = obj (key_ref (new_key_ref target idx ref_key p_key));
    state_mapper = key_ref_mapper;
  }

  unfoldable pub new_key_ref_id_mapped : Schema U → Text → Key → ProtoStateMapped U
  new_key_ref_id_mapped target idx ref_key = record {
    instance_ = obj (key_ref_id (new_key_ref_id target idx ref_key));
    state_mapper = key_ref_id_mapper;
  }

  abbrev pub key_of_instance : StateMapping U → Schema U → Result Key
  key_of_instance sm (strs k) = ok k
  key_of_instance sm v = primary_key m show reflect sm v

  -- ProtoStateMapped.Key
  unfoldable pub mapped_key : ProtoStateMapped U → Result Key
  mapped_key pm = key_of_instance pm.state_mapper pm.instance_

  -- IdxKey
  unfoldable pub idx_key : Schema U → Text → Key → Result Key
  idx_key entity idx idx_val = mapped_key (new_key_ref_id_mapped entity idx idx_val)

  abbrev pub refs_of : StateMapping U → StateIndex U → Key → List Key → List (ProtoStateMapped U)
  refs_of sm idx pk [] = []
  refs_of sm idx pk (key ∷ keys) =
      new_key_ref_mapped sm.schema idx.name key pk ∷ refs_of sm idx pk keys

  abbrev pub uniq_error : StateIndex U → Result (List Key) → Result (List Key)
  uniq_error idx (err e) = err (message (codes "uniq key " ++ (idx.name ++ (codes ": " ++ show e))))
  uniq_error idx r = r

  -- The loop of StateMapping.Keys over the indexes.
  unfoldable pub index_refs :
      StateMapping U → Schema U → Key → List (StateIndex U) → Result (List (ProtoStateMapped U))
  index_refs sm entity pk [] = ok []
  index_refs sm entity pk (idx ∷ indexes) = uniq_error idx (idx.keyer entity) >>= λ idx_keys.
      index_refs sm entity pk indexes >>= λ rest. ok (refs_of sm idx pk idx_keys ++ rest)

  -- StateMapping.Keys
  unfoldable pub keys : StateMapping U → Schema U → Result (List (ProtoStateMapped U))
  keys sm entity =
      if is_empty sm.indexes
      then ok []
      else (primary_key m show reflect sm entity >>= λ pk. index_refs sm entity pk sm.indexes)

  -- ProtoStateMapped.Keys
  unfoldable pub mapped_keys : ProtoStateMapped U → Result (List (ProtoStateMapped U))
  mapped_keys pm = keys pm.state_mapper pm.instance_
