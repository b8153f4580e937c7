-- ===== src/Mapping/Diff.antt =====
-- state/mapping/state_mapping.go: KeyRefsDiff. The two maps are keyed by Key.String, and iterated in no
-- set order: the results are in the order of the first keys of each string here.
pub mod Laws
pub mod Sets
use cckit.Base.{Option, none, some, List, [], ◌∷◌, Text, Map, find, store, codes}
use cckit.Lang.Error.{Error, noted}
use cckit.Lang.Result.{Result, ok, on_err, ◌>>=◌}
use cckit.Lang.Value.{Methods}
use cckit.Mapping.KeyRefs.{mapped_key}
use cckit.Mapping.Schema.{Entity, Field}
use cckit.Mapping.StateMappings.{ProtoStateMapped}
use cckit.State.Key.{key_string}

-- `k, i` of the one map for each `k` that the other does not have, as the entry itself.
abbrev pub unless_in : {A V : Type 0} → Option A → V → List V → List V
unless_in (some _) kv rest = rest
unless_in none kv rest = kv ∷ rest

unfoldable pub missing_in : {V : Type 0} → Map V → Map V → List V
missing_in [] others = []
missing_in ((k, kv) ∷ m) others = unless_in (find k others) kv (missing_in m others)

module _ {U : Type 0} (m : Methods (Entity U)) (show : Error → Text)
    (reflect : U → Option (List Field)) where
  -- A loop that notes the last entry of each key string.
  unfoldable pub by_string :
      Text
      → List (ProtoStateMapped U)
      → Map (ProtoStateMapped U)
      → Result (Map (ProtoStateMapped U))
  by_string note [] keys = ok keys
  by_string note (kv ∷ kvs) keys = on_err (noted note) (mapped_key m show reflect kv) >>= λ k.
      by_string note kvs (store (key_string k) kv keys)

  unfoldable pub key_refs_diff :
      List (ProtoStateMapped U)
      → List (ProtoStateMapped U)
      → Result (List (ProtoStateMapped U) × List (ProtoStateMapped U))
  unfolding by_string missing_in
  key_refs_diff prev_keys new_keys = by_string (codes "prev ref key") prev_keys [] >>= λ prev_k.
      by_string (codes "new ref key") new_keys [] >>= λ new_k.
      ok (missing_in prev_k new_k, missing_in new_k prev_k)
