-- ===== src/Mapping/MappedState.antt =====
-- state/mapping/state.go: a state that finds keys and indexes of entities by their mappings. Calls of
-- the logger are left out.
pub mod Loops
pub mod Writes
pub mod Puts
pub mod Private
pub mod Laws
use cckit.Base.{
  Bool, true, false, Option, none, some, List, [], ◌∷◌, ◌++◌, Text, codes, is_empty, if◌then◌else◌,
}
use cckit.Lang.Error.{
  Error, base, noted, errorf, state_mapping_not_found, mapping_uniq_key_exists,
  index_reference_not_found,
}
use cckit.Lang.Exec.{Exec, lift, for_each, ◌>>=◌, ◌>>◌}
use cckit.Lang.Result.{Result, ok, err, panic, on_err}
use cckit.Lang.Result.{◌>>=◌ as bind}
use cckit.Lang.Value.{Value, nil, strs, state_key, obj, Methods}
use cckit.Mapping.Diff.{key_refs_diff}
use cckit.Mapping.Interface.{State, Arg, as_is, mapped}
use cckit.Mapping.KeyRefs.{mapped_keys, new_key_ref_id_mapped}
use cckit.Mapping.Schema.{Entity, app, key_ref, key_ref_id, Schema, KeyRef, Field}
use cckit.Mapping.StateMappings as Mappings
use cckit.Mapping.StateMappings.{StateMapping, StateMappings, ProtoStateMapped, map_entry, map_key}
use cckit.State.Impl.{HistoryEntry}
use cckit.State.Impl.Listing.{Listing}
use cckit.State.Key.{Key, append}

-- `mapped, err := s.mappings.Map(entry)`, the entry as it is where there is no mapping.
abbrev pub mapped_or :
    {S U A : Type 0}
    → Result (ProtoStateMapped U)
    → Exec S A
    → (ProtoStateMapped U → Exec S A)
    → Exec S A
mapped_or (ok pm) rest f = f pm
mapped_or (err _) rest f = rest
mapped_or panic rest f = lift panic

-- `if !s.mappings.Exists(entry)`
abbrev pub exists_or : {S A : Type 0} → Result Bool → Exec S A → Exec S A → Exec S A
exists_or (ok true) rest f = f
exists_or (ok false) rest f = rest
exists_or (err e) rest f = lift (err e)
exists_or panic rest f = lift panic

-- The same for calls that only read.
abbrev pub read_mapped_or :
    {U A : Type 0}
    → Result (ProtoStateMapped U)
    → Result A
    → (ProtoStateMapped U → Result A)
    → Result A
read_mapped_or (ok pm) rest f = f pm
read_mapped_or (err _) rest f = rest
read_mapped_or panic rest f = panic

abbrev pub read_exists_or : {A : Type 0} → Result Bool → Result A → Result A → Result A
read_exists_or (ok true) rest f = f
read_exists_or (ok false) rest f = rest
read_exists_or (err e) rest f = err e
read_exists_or panic rest f = panic

-- A call whose error is wrapped.
abbrev pub on_err_of : {S A : Type 0} → (Error → Error) → Exec S A → Exec S A
on_err_of w call s = let (r, s') = call s in (on_err w r, s')

abbrev pub target_of_mapping : {U : Type 0} → StateMapping U → Option (Schema U) → Schema U
target_of_mapping sm (some schema) = schema
target_of_mapping sm none = sm.schema

-- The target, or that of the mapping where none was set.
abbrev pub target_or : {U : Type 0} → StateMapping U → List (Schema U) → List (Schema U)
target_or sm [] = target_of_mapping sm sm.keyer_for_schema ∷ []
target_or sm (t ∷ target) = t ∷ target

abbrev pub or_nil : {U : Type 0} → Option (Schema U) → Schema U
or_nil none = nil
or_nil (some v) = v

-- `keyRef.(*schema.KeyRef)`
abbrev pub assert_key_ref : {U : Type 0} → Schema U → Result KeyRef
assert_key_ref (obj (key_ref r)) = ok r
assert_key_ref _ = panic

abbrev pub key_ref_target : {U : Type 0} → Schema U
key_ref_target = obj (key_ref (record { schema = []; idx = []; ref_key = []; p_key = [] }))

module _ {S U : Type 0} (m : Methods (Entity U)) (show : Error → Text)
    (reflect : U → Option (List Field)) (st : State S U) (mappings : StateMappings U) where
  abbrev mapping_of : Schema U → Result (ProtoStateMapped U)
  mapping_of entry = map_entry m show reflect entry mappings

  abbrev mapping_exists : Schema U → Result Bool
  mapping_exists entry = Mappings.exists m show reflect entry mappings

  unfoldable pub mapping_namespace : Schema U → Result Key
  mapping_namespace schema =
      bind (Mappings.get m show reflect schema mappings) λ sm. ok sm.namespace

  unfoldable pub get : Schema U → List (Schema U) → S → Result (Schema U)
  get entry target s =
      read_mapped_or (mapping_of entry) (st.get (as_is entry) target s)
        λ pm. st.get (mapped pm) (target_or pm.state_mapper target) s

  unfoldable pub get_history : Schema U → Schema U → S → Result (List (HistoryEntry (Entity U)))
  get_history entry target s =
      read_mapped_or (mapping_of entry) (st.get_history (as_is entry) target s)
        λ pm. st.get_history (mapped pm) target s

  unfoldable pub exists : Schema U → S → Result Bool
  exists entry s =
      read_mapped_or (mapping_of entry) (st.exists (as_is entry) s) λ pm. st.exists (mapped pm) s

  -- What to delete and what to insert, given what `s.Get(entry)` returned: any error of it counts as
  -- no previous entry.
  abbrev pub ref_changes :
      List (ProtoStateMapped U)
      → Result (Schema U)
      → Result (List (ProtoStateMapped U) × List (ProtoStateMapped U))
  ref_changes key_refs (ok prev_entry) =
      bind (on_err (noted (codes "get prev")) (mapping_of prev_entry)) λ prev_mapped.
        bind (on_err (noted (codes "previ keys")) (mapped_keys m show reflect prev_mapped))
          λ prev_refs.
            on_err (noted (codes "calculate ref keys diff"))
              (key_refs_diff m show reflect prev_refs key_refs)
  ref_changes key_refs (err _) = ok ([], key_refs)
  ref_changes key_refs panic = panic

  abbrev pub delete_refs : Text → List (ProtoStateMapped U) → Exec S (Unit {0})
  delete_refs note = for_each (λ kr. on_err_of (noted note) (st.delete (mapped kr)))

  -- `fmt.Errorf("%s: %s", ErrMappingUniqKeyExists, err)`
  abbrev pub uniq_key_exists : Error → Error
  uniq_key_exists e = errorf mapping_uniq_key_exists (show e)

  abbrev pub insert_refs : List (ProtoStateMapped U) → Exec S (Unit {0})
  insert_refs = for_each (λ kr. on_err_of uniq_key_exists (st.insert (mapped kr) []))

  abbrev pub put_with_refs : Schema U → ProtoStateMapped U → Exec S (Unit {0})
  put_with_refs entry pm = do
    key_refs ← lift (on_err (noted (codes "put mapping key refs")) (mapped_keys m show reflect pm))
    (delete_key_refs, insert_key_refs) ← λ s. (ref_changes key_refs (get entry [] s), s)
    delete_refs (codes "delete previous mapping key ref") delete_key_refs
    insert_refs insert_key_refs
    st.put (mapped pm) []

  unfoldable pub put : Schema U → List (Schema U) → Exec S (Unit {0})
  unfolding get
  put entry value = mapped_or (mapping_of entry) (st.put (as_is entry) value) λ pm.
      if is_empty pm.state_mapper.indexes then st.put (mapped pm) [] else put_with_refs entry pm

  abbrev pub insert_with_refs : ProtoStateMapped U → Exec S (Unit {0})
  insert_with_refs pm = do
    key_refs ← lift (mapped_keys m show reflect pm)
    insert_refs key_refs
    st.insert (mapped pm) []

  unfoldable pub insert : Schema U → List (Schema U) → Exec S (Unit {0})
  insert entry value = mapped_or (mapping_of entry) (st.insert (as_is entry) value) insert_with_refs

  unfoldable pub list : Schema U → List (Schema U) → S → Result (Listing (Entity U))
  list entry target s = read_exists_or (mapping_exists entry) (st.list entry target s) (
      bind (on_err (noted (codes "mapping")) (Mappings.get m show reflect entry mappings))
        λ sm. st.list (state_key sm.namespace) (sm.schema ∷ or_nil sm.list ∷ []) s)

  unfoldable pub list_with : Schema U → Key → S → Result (Listing (Entity U))
  list_with entry key s =
      read_exists_or (mapping_exists entry) (err (base state_mapping_not_found)) (
        bind (on_err (noted (codes "mapping")) (Mappings.get m show reflect entry mappings))
          λ sm. st.list (state_key (append sm.namespace key)) (sm.schema ∷ or_nil sm.list ∷ []) s)

  abbrev pub not_found_by : Schema U → Text → Error → Error
  not_found_by entry idx e =
      errorf index_reference_not_found
        (codes "{" ++ (m.type_name entry ++ (codes "}." ++ (idx ++ (codes ": " ++ show e)))))

  -- GetByKey, and GetByUniqKey, which calls it.
  unfoldable pub get_by_key : Schema U → Text → List Text → List (Schema U) → S → Result (Schema U)
  get_by_key entry idx idx_val target s =
      read_exists_or (mapping_exists entry) (err (base state_mapping_not_found)) (
        bind
          (on_err (not_found_by entry idx) (
            st.get (mapped (new_key_ref_id_mapped m show reflect entry idx idx_val))
              (key_ref_target ∷ []) s))
          λ found. bind (assert_key_ref found) λ r. st.get (as_is (strs r.p_key)) target s)

  -- Delete of an entry that has a mapping, which may be a key of it.
  abbrev pub delete_with_refs : Schema U → Exec S (Unit {0})
  delete_with_refs key_entry = do
    entry ← λ s. (get key_entry [] s, s)
    pm ← lift (mapping_of entry)
    key_refs ← lift (mapped_keys m show reflect pm)
    delete_refs (codes "delete ref key") key_refs
    st.delete (mapped pm)

  unfoldable pub delete : Schema U → Exec S (Unit {0})
  unfolding get
  delete entry = exists_or (mapping_exists entry) (st.delete (as_is entry)) (delete_with_refs entry)
