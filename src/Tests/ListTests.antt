-- ===== src/Tests/ListTests.antt =====
-- List, Keys and ListPrivate at concrete ledgers.
use cckit.Base.{◌≡◌, refl, ℕ, false, [], ◌∷◌, Text, codes, text_eq, All, map, contains, find}
use cckit.Convert.{from_bytes}
use cckit.Lang.Error.{errorf, key_not_found}
use cckit.Lang.Result.{Result, ok, err}
use cckit.Lang.Strings.{split}
use cckit.Lang.Value.{Value, str, state_key}
use cckit.State.Impl.{Impl, new_state, use_key_transformer}
use cckit.State.Impl.Listing.{items, is_proto, list_state, keys, create_state_query_iterator}
use cckit.State.Impl.Listing.Laws.{Stored, IsStored, IsDecoded, keys-IsStored, list_state-IsDecoded}
use cckit.State.Impl.Private.{get_private, list_private}
use cckit.State.Impl.Private.Laws.{IsPrivateEntry, list_private-transformed_twice}
use cckit.State.Key.{Key, key_to_string, normalize_key, key_string, key_from_composite}
use cckit.State.Stub.{Kv}
use cckit.State.Transformer.{convert_from_bytes}
use cckit.Tests.Memory.{Memory, empty, memory_stub, memory_stub-CompositeKeys, no_methods, rows}
use cckit.Tests.Memory.Composite.{create, split_key, prefix_of}

-- A key transformer that marks every part, as an encryption does.
mark : Key → Result Key
mark k = ok (map (λ p. 120 ∷ p) k)

computes : Unit {0}
unfolding new_state convert_from_bytes from_bytes create_state_query_iterator normalize_key
    key_from_composite key_to_string create prefix_of rows contains is_proto split_key split find
    text_eq mark
computes = tt

abbrev car_string : Text
car_string = 0 ∷ 99 ∷ 97 ∷ 114 ∷ 0 ∷ 55 ∷ 0 ∷ []

abbrev car_key : Key
car_key = codes "car" ∷ codes "7" ∷ []

abbrev red_car : Kv
red_car = record { key = car_string; value = codes "red" }

abbrev ledger : Memory
ledger = record empty { committed = (car_string, codes "red") ∷ (codes "bus", codes "blue") ∷ [] }

abbrev plain : Impl Memory ℕ
plain = new_state no_methods memory_stub

abbrev cars : Value ℕ
cars = state_key (codes "car" ∷ [])

abbrev text_target : Value ℕ
text_target = str []

iterator_test : create_state_query_iterator no_methods plain cars ledger ≡ ok (ok red_car ∷ [])
unfolding computes
iterator_test = refl

abbrev stored : Stored
stored = record { origin = car_key; kv = red_car; string = car_string }

stored-IsStored : IsStored plain stored
unfolding computes
stored-IsStored = record { parts = car_key; plain = tt; held = refl; undone = refl; printed = refl }

keys-IsStored_example : keys no_methods plain cars ledger ≡ ok (car_string ∷ [])
keys-IsStored_example =
    keys-IsStored no_methods plain (unfold new_state in memory_stub-CompositeKeys) cars
      (stored ∷ []) ledger (stored-IsStored, tt) iterator_test

red-IsDecoded : All (IsDecoded no_methods plain text_target) ((red_car, str (codes "red")) ∷ [])
unfolding computes
red-IsDecoded = (refl, tt)

text-is_proto : is_proto no_methods text_target ≡ false
unfolding is_proto
text-is_proto = refl

list_state-IsDecoded_example :
    list_state no_methods plain cars (text_target ∷ []) ledger ≡ ok (items (str (codes "red") ∷ []))
list_state-IsDecoded_example =
    list_state-IsDecoded no_methods plain cars text_target ((red_car, str (codes "red")) ∷ [])
      ledger text-is_proto red-IsDecoded iterator_test

abbrev marked : Impl Memory ℕ
marked = use_key_transformer no_methods plain mark

abbrev marked_string : Text
marked_string = 0 ∷ 120 ∷ 99 ∷ 97 ∷ 114 ∷ 0 ∷ 120 ∷ 55 ∷ 0 ∷ []

abbrev marked_row : Kv
marked_row = record { key = marked_string; value = codes "1" }

abbrev marked_ledger : Memory
marked_ledger = record empty {
  committed = (marked_string, codes "1") ∷ [];
  private_data = (marked_string, codes "red") ∷ [];
}

marked-IsPrivateEntry :
    IsPrivateEntry no_methods marked
      (codes "c")
      car_key
      (codes "xcar")
      (codes "x7" ∷ [])
      marked_row
      (codes "red")
      marked_ledger
unfolding computes
marked-IsPrivateEntry = record {
  parts = refl;
  held = refl;
  splits = refl;
  value = refl;
  full = refl;
}

marked_steps :
    (marked.key_transformer (codes "car" ∷ []) ≡ ok (codes "xcar" ∷ []))
    × (memory_stub.get_state_by_partial_composite_key (codes "xcar") [] marked_ledger
        ≡ ok (ok marked_row ∷ []))
    × (marked.key_transformer (codes "xcar" ∷ codes "x7" ∷ [])
        ≡ ok (codes "xxcar" ∷ codes "xx7" ∷ []))
    × (key_to_string memory_stub (codes "xxcar" ∷ codes "xx7" ∷ [])
        ≡ ok (prefix_of (codes "xxcar") (codes "xx7" ∷ [])))
    × (memory_stub.get_private_data
          (codes "c")
          (prefix_of (codes "xxcar") (codes "xx7" ∷ []))
          marked_ledger
        ≡ ok [])
unfolding computes
marked_steps = (refl, refl, refl, refl, refl)

list_private-transformed_twice_example :
    (get_private no_methods marked (codes "c") (state_key car_key) (text_target ∷ []) marked_ledger
      ≡ marked.get_transformer (codes "red") (text_target ∷ []))
    × (list_private no_methods marked (codes "c") false cars (text_target ∷ []) marked_ledger
        ≡ err (errorf key_not_found (key_string (codes "xcar" ∷ codes "x7" ∷ []))))
unfolding new_state
list_private-transformed_twice_example =
    list_private-transformed_twice no_methods marked (codes "c") car_key (codes "car" ∷ [])
      (codes "xcar") (codes "xcar") [] (codes "x7" ∷ []) (codes "xxcar" ∷ codes "xx7" ∷ [])
      marked_row [] (codes "red") (prefix_of (codes "xxcar") (codes "xx7" ∷ [])) text_target
      marked_ledger marked-IsPrivateEntry marked_steps.0 marked_steps.1 marked_steps.2
      marked_steps.3 marked_steps.4
