-- ===== src/Debug.antt =====
-- extensions/debug/state.go, and StateClean of extensions/debug/debug_state.go. The state that StateFn
-- gives is a parameter. The counts are uint32.
pub mod Laws
pub mod Service
use cckit.Base.{ℕ, suc, ◌+◌, ◌%◌, List, [], ◌∷◌, Text, Map, store, codes, is_empty, if◌then◌else◌}
use cckit.Lang.Error.{noted}
use cckit.Lang.Exec.{Exec, lift, reads, ◌>>=◌, ◌>>◌}
use cckit.Lang.Result.{Result, ok, on_err}
use cckit.Lang.Result.{◌>>=◌ as bind}
use cckit.Lang.Value.{str, Methods}
use cckit.State.Impl.{Impl, delete}
use cckit.State.Impl.Listing.{keys}
use cckit.State.Key.{Key, key_to_string}
use cckit.State.Stub.{Stub}

module _ {S U : Type 0} (m : Methods U) (i : Impl S U) where
  -- The loop over the keys of a prefix, with the count of those deleted so far.
  unfoldable pub delete_each : List Text → ℕ → Exec S ℕ
  delete_each [] n = lift (ok n)
  delete_each (k ∷ ks) n = do delete m i (str k); delete_each ks ((n + 1) % 4294967296)

  -- DeleteStateByPrefixes, with the counts so far.
  unfoldable pub delete_by_prefixes : List Text → Map ℕ → Exec S (Map ℕ)
  unfolding delete_each
  delete_by_prefixes [] matches = lift (ok matches)
  delete_by_prefixes (p ∷ prefixes) matches = do
    ks ← reads (λ s. on_err (noted (codes "keys")) (keys m i (str p) s))
    n ← delete_each ks 0
    delete_by_prefixes prefixes (store p n matches)

  unfoldable pub delete_state_by_prefixes : List Text → Exec S (Map ℕ)
  delete_state_by_prefixes prefixes = delete_by_prefixes prefixes []

-- The loop of StateClean over the prefixes: `key` is declared outside the loop, so an empty prefix
-- takes the key of the prefix before it.
unfoldable pub clean_keys : {S : Type 0} → Stub S → Text → List Key → Result (List Text)
clean_keys stub key [] = ok []
clean_keys stub key (p ∷ prefixes) =
    bind (if is_empty p then ok key else key_to_string stub p)
      λ k. bind (clean_keys stub k prefixes) λ ks. ok (k ∷ ks)

unfoldable pub state_clean :
    {S U : Type 0} → Methods U → Stub S → Impl S U → List Key → Exec S (Map ℕ)
state_clean m stub i prefixes = do
  ks ← lift (clean_keys stub [] prefixes)
  delete_state_by_prefixes m i ks
