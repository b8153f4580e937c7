-- ===== src/Mapping/MappedState/Private.antt =====
-- state/mapping/state.go: the mapped calls on private data.

use cckit.Base.{Bool, Option, List, [], ◌∷◌, Text, codes}
use cckit.Lang.Error.{Error, noted}
use cckit.Lang.Exec.{Exec, lift, for_each, ◌>>=◌, ◌>>◌}
use cckit.Lang.Result.{Result, panic, on_err}
use cckit.Lang.Result.{◌>>=◌ as bind}
use cckit.Lang.Value.{state_key, Methods}
use cckit.Mapping.Interface.{State, as_is, mapped}
use cckit.Mapping.KeyRefs.{mapped_keys}
use cckit.Mapping.MappedState.{
  mapped_or, read_mapped_or, read_exists_or, on_err_of, or_nil, uniq_key_exists,
}
use cckit.Mapping.Schema.{Entity, Schema, Field}
use cckit.Mapping.StateMappings as Mappings
use cckit.Mapping.StateMappings.{StateMappings, ProtoStateMapped, map_entry}
use cckit.State.Impl.Listing.{Listing}

module _ {S U : Type 0} (m : Methods (Entity U)) (show : Error → Text)
    (reflect : U → Option (List Field)) (st : State S U) (mappings : StateMappings U)
    (collection : Text) where
  abbrev mapping_of : Schema U → Result (ProtoStateMapped U)
  mapping_of entry = map_entry m show reflect entry mappings

  unfoldable pub get_private : Schema U → List (Schema U) → S → Result (Schema U)
  get_private entry target s =
      read_mapped_or (mapping_of entry) (st.get_private collection (as_is entry) target s)
        λ pm. st.get_private collection (mapped pm) target s

  unfoldable pub exists_private : Schema U → S → Result Bool
  exists_private entry s =
      read_mapped_or (mapping_of entry) (st.exists_private collection (as_is entry) s)
        λ pm. st.exists_private collection (mapped pm) s

  unfoldable pub delete_private : Schema U → Exec S (Unit {0})
  delete_private entry =
      mapped_or (mapping_of entry) (st.delete_private collection (as_is entry))
        λ pm. st.delete_private collection (mapped pm)

  -- `target[0]` panics where there is no target.
  abbrev list_at :
      Bool → Schema U → Option (Schema U) → List (Schema U) → S → Result (Listing (Entity U))
  list_at iterate namespace list [] s = panic
  list_at iterate namespace list (t ∷ _) s =
      st.list_private collection iterate namespace (t ∷ or_nil list ∷ []) s

  unfoldable pub list_private : Bool → Schema U → List (Schema U) → S → Result (Listing (Entity U))
  list_private iterate namespace target s =
      read_exists_or (Mappings.exists m show reflect namespace mappings)
        (st.list_private collection iterate namespace target s)
        (bind (on_err (noted (codes "mapping")) (Mappings.get m show reflect namespace mappings))
          λ sm. list_at iterate (state_key sm.namespace) sm.list target s)

  abbrev insert_refs : List (ProtoStateMapped U) → Exec S (Unit {0})
  insert_refs = for_each (λ kr.
      on_err_of (uniq_key_exists m show reflect st mappings)
        (st.insert_private collection (mapped kr) []))

  abbrev insert_with_refs : ProtoStateMapped U → Exec S (Unit {0})
  insert_with_refs pm = do
    key_refs ← lift (mapped_keys m show reflect pm)
    insert_refs key_refs
    st.insert_private collection (mapped pm) []

  unfoldable pub insert_private : Schema U → List (Schema U) → Exec S (Unit {0})
  insert_private entry value =
      mapped_or (mapping_of entry) (st.insert_private collection (as_is entry) value)
        insert_with_refs

  abbrev put_refs : List (ProtoStateMapped U) → Exec S (Unit {0})
  put_refs = for_each (λ kr.
      on_err_of (uniq_key_exists m show reflect st mappings)
        (st.put_private collection (mapped kr) []))

  abbrev put_with_refs : ProtoStateMapped U → Exec S (Unit {0})
  put_with_refs pm = do
    key_refs ← lift (mapped_keys m show reflect pm)
    put_refs key_refs
    st.put_private collection (mapped pm) []

  unfoldable pub put_private : Schema U → List (Schema U) → Exec S (Unit {0})
  put_private entry value =
      mapped_or (mapping_of entry) (st.put_private collection (as_is entry) value) put_with_refs
