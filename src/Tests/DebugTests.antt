-- ===== src/Tests/DebugTests.antt =====
-- DeleteStateByPrefixes and StateClean on a ledger of two entries.
use cckit.Base.{
  ◌≡◌, refl, ℕ, some, List, [], ◌∷◌, Text, Map, codes, text_eq, contains, find, store, length, ◌%◌,
}
use cckit.Debug.{delete_each, delete_by_prefixes, delete_state_by_prefixes, clean_keys, state_clean}
use cckit.Debug.Laws.{delete_state_by_prefixes-count}
use cckit.Debug.Service.{StateValue, state_get, state_put, state_delete, state_delete-state_put}
use cckit.Convert.{to_bytes}
use cckit.State.Cached.{WithTxCache, with_cache, cached_put, cached_get, stub_of}
use cckit.State.Cached.Laws.{with_cache-ReadsWrites}
use cckit.State.Impl.Laws.{Decodes}
use cckit.State.Transformer.{convert_from_bytes, convert_to_bytes}
use cckit.Tests.Memory.Cached.{memory_stub-ReadsFrame}
use cckit.Lang.Result.{ok, map_each}
use cckit.Lang.Strings.{split, join}
use cckit.Lang.Value.{str, strs, bytes}
use cckit.State.Impl.{Impl, new_state, get, put, put_args, arg_key_value, delete, key_of}
use cckit.State.Impl.Listing.{keys, create_state_query_iterator, query_of, key_of_entry}
use cckit.State.Key.{
  key_to_string, normalize_key, key_string, key_from_composite, key_to_composite,
  strings_id_from_str, strings_id_to_str,
}
use cckit.Tests.Memory.{Memory, empty, memory_stub, no_methods, rows}
use cckit.Tests.Memory.Composite.{create, split_key, prefix_of}

computes : Unit {0}
unfolding new_state create_state_query_iterator normalize_key key_from_composite key_to_string
    create prefix_of rows contains split_key split join find store text_eq delete_each
    delete_by_prefixes delete_state_by_prefixes delete key_of keys query_of key_of_entry map_each
    key_to_composite key_string strings_id_from_str strings_id_to_str clean_keys state_clean
computes = tt

abbrev car_string : Text
car_string = 0 ∷ 99 ∷ 97 ∷ 114 ∷ 0 ∷ 55 ∷ 0 ∷ []

abbrev ledger : Memory
ledger = record empty { committed = (car_string, codes "red") ∷ (codes "bus", codes "blue") ∷ [] }

abbrev cleaned : Memory
cleaned = record ledger { writes = (car_string, []) ∷ [] }

abbrev plain : Impl Memory ℕ
plain = new_state no_methods memory_stub

abbrev one_match : Map ℕ
one_match = (codes "car", 1) ∷ []

deletes_car :
    delete_state_by_prefixes no_methods plain (codes "car" ∷ []) ledger ≡ (ok one_match, cleaned)
unfolding computes
deletes_car = refl

-- The bus is kept, though an empty prefix is given.
state_clean_test :
    state_clean no_methods memory_stub plain
      ((codes "car" ∷ []) ∷ [] ∷ [])
      (record empty { committed = (codes "bus", codes "blue") ∷ [] })
    ≡ (ok ((codes "car", 0) ∷ []), record empty { committed = (codes "bus", codes "blue") ∷ [] })
unfolding computes
state_clean_test = refl

delete_state_by_prefixes-count_example :
    (ks : List Text) × (keys no_methods plain (str (codes "car")) ledger ≡ ok ks)
    × (find (codes "car") one_match ≡ some (length ks % 4294967296))
delete_state_by_prefixes-count_example =
    delete_state_by_prefixes-count no_methods plain (codes "car") one_match ledger cleaned
      deletes_car

abbrev cached : Impl (WithTxCache Memory) ℕ
cached = with_cache (new_state no_methods memory_stub)

abbrev red : StateValue
red = record { key = codes "car" ∷ codes "7" ∷ []; value = codes "red"; json = [] }

abbrev bare : WithTxCache Memory
bare = (empty, [])

abbrev after_put : WithTxCache Memory
after_put = (state_put no_methods (stub_of memory_stub) cached red bare).1

abbrev after_delete : WithTxCache Memory
after_delete = (state_delete no_methods (stub_of memory_stub) cached red.key after_put).1

put_red : state_put no_methods (stub_of memory_stub) cached red bare ≡ (ok red, after_put)
unfolding computes state_put put put_args arg_key_value with_cache cached_put convert_to_bytes
    to_bytes stub_of
put_red = refl

deleted_red :
    state_delete no_methods (stub_of memory_stub) cached red.key after_put ≡ (ok red, after_delete)
unfolding computes state_put put put_args arg_key_value with_cache cached_put convert_to_bytes
    to_bytes state_delete state_get get cached_get convert_from_bytes stub_of
deleted_red = refl

red-Decodes : Decodes cached (bytes (codes "red")) []
unfolding with_cache new_state convert_from_bytes convert_to_bytes to_bytes
red-Decodes = record { decodes = λ bb h. let e : codes "red" ≡ bb = cc in rw (← e) (refl, refl) }

state_delete-state_put_example :
    (state_get no_methods (stub_of memory_stub) cached red.key after_put ≡ ok red)
    × (red ≡ red)
    × (delete no_methods cached (strs red.key) after_put ≡ (ok tt, after_delete))
state_delete-state_put_example =
    state_delete-state_put no_methods (stub_of memory_stub) cached red red red bare after_put
      after_delete
      (unfold with_cache new_state in
        with_cache-ReadsWrites (new_state no_methods memory_stub) memory_stub-ReadsFrame)
      red-Decodes put_red deleted_red
