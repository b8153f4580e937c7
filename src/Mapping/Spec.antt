-- ===== src/Mapping/Spec.antt =====
-- What a state promises to state/mapping for entries that are read at one type per key, in terms of
-- two views of it: what its calls read, and what it holds once its writes are applied. A ledger that
-- reads only what was committed and a state that reads its own writes both fit: a write may or may
-- not change what is read at its own key. Impl of state/state.go keeps it (Mapping/Filled).
use cckit.Base.{◌≡◌, Option, none, some, List, [], ◌∷◌, Text, false}
use cckit.Lang.Error.{Error}
use cckit.Lang.Result.{ok}
use cckit.Lang.Value.{Methods}
use cckit.Mapping.Interface.{State, mapped, as_is}
use cckit.Mapping.KeyRefs.{mapped_key}
use cckit.Mapping.KeyRefs.Laws.{ref_key_of}
use cckit.Mapping.MappedState.{key_ref_target}
use cckit.Mapping.Schema.{Entity, Schema, KeyRef, Field}
use cckit.Mapping.StateMappings.{ProtoStateMapped, key_eq}
use cckit.Mapping.Views.{View, update}
use cckit.State.Key.{Key}
use cckit.Lang.Value.{strs, obj}

pub record StateSpec {S U : Type 0} (m : Methods (Entity U)) (show : Error → Text)
    (reflect : U → Option (List Field)) (st : State S U) : Type 1 where
  pub reads : S → View (Entity U)
  pub writes : S → View (Entity U)
  -- What stands at the key is read at targets of this type.
  pub fits : Key → Schema U → Type 0
  -- The entity may stand at the key: it is of the type that is read there, and is not written as
  -- nothing.
  pub stores : Key → Entity U → Type 0
  pub fits-ref : (r : KeyRef) → fits (ref_key_of r) key_ref_target
  -- An Insert that succeeds writes the entry at its key, which was not read before.
  pub insert-writes :
      (pm : ProtoStateMapped U) (s s' : S)
      → ((k : Key) (x : Entity U)
          → mapped_key m show reflect pm ≡ ok k
          → pm.instance_ ≡ obj x
          → stores k x)
      → st.insert (mapped pm) [] s ≡ (ok tt, s')
      → (k : Key) × (x : Entity U) × (mapped_key m show reflect pm ≡ ok k)
        × (pm.instance_ ≡ obj x)
        × (reads s k ≡ none)
        × (writes s' ≡ update k (some x) (writes s))
        × ((j : Key) → key_eq k j ≡ false → reads s' j ≡ reads s j)
  pub put-writes :
      (pm : ProtoStateMapped U) (s s' : S)
      → ((k : Key) (x : Entity U)
          → mapped_key m show reflect pm ≡ ok k
          → pm.instance_ ≡ obj x
          → stores k x)
      → st.put (mapped pm) [] s ≡ (ok tt, s')
      → (k : Key) × (x : Entity U) × (mapped_key m show reflect pm ≡ ok k)
        × (pm.instance_ ≡ obj x)
        × (writes s' ≡ update k (some x) (writes s))
        × ((j : Key) → key_eq k j ≡ false → reads s' j ≡ reads s j)
  pub delete-writes :
      (pm : ProtoStateMapped U) (target : Schema U) (s s' : S)
      → ((k : Key) → mapped_key m show reflect pm ≡ ok k → fits k target)
      → st.delete (mapped pm) s ≡ (ok tt, s')
      → (k : Key) × (mapped_key m show reflect pm ≡ ok k)
        × (writes s' ≡ update k none (writes s))
        × ((j : Key) → key_eq k j ≡ false → reads s' j ≡ reads s j)
  -- Get at a target that fits the key returns what is read there, and nothing else.
  pub get-reads :
      (pm : ProtoStateMapped U) (k : Key) (x : Entity U) (target : Schema U) (s : S)
      → mapped_key m show reflect pm ≡ ok k
      → reads s k ≡ some x
      → fits k target
      → st.get (mapped pm) (target ∷ []) s ≡ ok (obj x)
  pub get-key_reads :
      (k : Key) (x : Entity U) (target : Schema U) (s : S)
      → reads s k ≡ some x
      → fits k target
      → st.get (as_is (strs k)) (target ∷ []) s ≡ ok (obj x)
  pub get-eq-ok :
      (pm : ProtoStateMapped U) (v target : Schema U) (s : S)
      → ((k : Key) → mapped_key m show reflect pm ≡ ok k → fits k target)
      → st.get (mapped pm) (target ∷ []) s ≡ ok v
      → (k : Key) × (x : Entity U) × (mapped_key m show reflect pm ≡ ok k)
        × (v ≡ obj x)
        × (reads s k ≡ some x)
  pub get-key_eq-ok :
      (k : Key) (v target : Schema U) (s : S)
      → fits k target
      → st.get (as_is (strs k)) (target ∷ []) s ≡ ok v
      → (x : Entity U) × (v ≡ obj x) × (reads s k ≡ some x)
