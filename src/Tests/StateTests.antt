-- ===== src/Tests/StateTests.antt =====
-- Tests of keys, values and the state, and its theorems at concrete inputs.
use cckit.Base.{
  ◌≡◌, ◌≢◌, ◌↔◌, refl, ℕ, true, false, some, List, [], ◌∷◌, Text, Bytes, codes, arith, find,
  text_eq, contains, store, All,
}
use cckit.Convert.{to_bytes, from_bytes}
use cckit.Convert.RoundTrip.{from_bytes-to_bytes}
use cckit.Lang.Error.{caused, key_already_exists}
use cckit.Lang.Result.{ok, err}
use cckit.Lang.Strings.{NoSep, join, split}
use cckit.Lang.Strconv.{format_int}
use cckit.Lang.Value.{Value, str, state_key, int, negsuc}
use cckit.State.Cached.{WithTxCache, with_cache, cached_put, cached_get, stub_of}
use cckit.State.Cached.Laws.{with_cache-ReadsWrites, get-delete-put}
use cckit.State.Impl.{
  Impl, new_state, get, exists, put, insert, delete, key_of, put_args, arg_key_value,
}
use cckit.State.Impl.Laws.{Decodes, insert_iff, get-put, insert-insert}
use cckit.State.Key.{
  Key, TransformedKey, strings_id_to_str, strings_id_from_str, key_to_string, key_from_composite,
  key_string, normalize_key,
}
use cckit.State.Key.Laws.{key_from_composite-key_to_string}
use cckit.State.Stub.{ReadsWrites}
use cckit.State.Transformer.{convert_from_bytes, convert_to_bytes}
use cckit.Tests.Memory.{Memory, empty, memory_stub, memory_stub-CompositeKeys, no_methods}
use cckit.Tests.Memory.Cached.{memory_stub-ReadsFrame}
use cckit.Tests.Memory.Composite.{create, split_key}

computes : Unit {0}
unfolding strings_id_to_str strings_id_from_str join split contains to_bytes from_bytes
    key_to_string key_from_composite key_string normalize_key convert_from_bytes convert_to_bytes
    create split_key find store text_eq get exists put insert delete key_of put_args arg_key_value
    new_state format_int with_cache cached_put cached_get stub_of
computes = tt

abbrev parts : List Text
parts = codes "ab" ∷ codes "" ∷ codes "c" ∷ []

parts-NoSep : All (NoSep 0) parts
unfolding computes
parts-NoSep = (refl, (refl, (refl, tt)))

from_bytes-to_bytes_example :
    (b : Bytes) × (to_bytes no_methods (int (negsuc 41)) ≡ ok b)
    × (from_bytes no_methods (some b) (int (negsuc 41)) ≡ ok (int (negsuc 41)))
from_bytes-to_bytes_example = from_bytes-to_bytes no_methods (int (negsuc 41)) (omega arith)

to_bytes_test : to_bytes no_methods (int (negsuc 41)) ≡ ok (codes "-42")
unfolding computes
to_bytes_test = refl

-- A key of three parts in the ledger, and back.
abbrev car_key : Key
car_key = codes "car" ∷ codes "7" ∷ []

abbrev car_string : Text
car_string = 0 ∷ 99 ∷ 97 ∷ 114 ∷ 0 ∷ 55 ∷ 0 ∷ []

car_string_test : key_to_string memory_stub car_key ≡ ok car_string
unfolding computes
car_string_test = refl

key_from_composite_example : key_from_composite memory_stub car_string ≡ ok car_key
key_from_composite_example =
    key_from_composite-key_to_string memory_stub memory_stub-CompositeKeys car_key car_string tt
      car_string_test

-- The cached state of a transaction on the memory stub.
abbrev plain : Impl Memory ℕ
plain = new_state no_methods memory_stub

abbrev cached : Impl (WithTxCache Memory) ℕ
cached = with_cache plain

abbrev start : WithTxCache Memory
start = (empty, [])

abbrev car : Value ℕ
car = state_key car_key

abbrev red : Value ℕ
red = str (codes "red")

abbrev after : WithTxCache Memory
after = (record empty { writes = (car_string, codes "red") ∷ [] }, (car_string, codes "red") ∷ [])

put-car : put no_methods cached car (red ∷ []) start ≡ (ok tt, after)
unfolding computes
put-car = refl

new_car : exists no_methods cached car start ≡ ok false
unfolding computes
new_car = refl

cached-ReadsWrites : ReadsWrites cached.get_state cached.put_state
unfolding with_cache new_state
cached-ReadsWrites = with_cache-ReadsWrites plain memory_stub-ReadsFrame

red-Decodes : Decodes cached red (red ∷ [])
unfolding with_cache new_state convert_from_bytes convert_to_bytes from_bytes to_bytes
red-Decodes = record { decodes = λ bb h. let e : codes "red" ≡ bb = cc in rw (← e) (refl, refl) }

get-put_example :
    (get no_methods cached car (red ∷ []) after ≡ ok red)
    × (exists no_methods cached car after ≡ ok true)
get-put_example =
    get-put no_methods cached cached-ReadsWrites car red (red ∷ []) start after red-Decodes put-car

insert_iff_example : (insert no_methods cached car (red ∷ []) start ≡ (ok tt, after)) ↔ (
    (exists no_methods cached car start ≡ ok false)
    × (put no_methods cached car (red ∷ []) start ≡ (ok tt, after)))
insert_iff_example = insert_iff no_methods cached car (red ∷ []) start after

insert-insert_example :
    (k : Key) × (normalize_key cached.stub no_methods car ≡ ok k)
    × (insert no_methods cached car (str (codes "blue") ∷ []) after
        ≡ (err (caused key_already_exists (key_string k)), after))
insert-insert_example =
    insert-insert no_methods cached cached-ReadsWrites car red (str (codes "blue")) (red ∷ []) start
      after red-Decodes (insert_iff_example.1 (new_car, put-car))

abbrev bus : Value ℕ
bus = str (codes "bus")

abbrev car_transformed : TransformedKey
car_transformed = record { origin = car_key; parts = car_key; string = car_string }

abbrev bus_transformed : TransformedKey
bus_transformed = record {
  origin = codes "bus" ∷ [];
  parts = codes "bus" ∷ [];
  string = codes "bus";
}

keys_test :
    (key_of no_methods cached car ≡ ok car_transformed)
    × (key_of no_methods cached bus ≡ ok bus_transformed)
unfolding computes
keys_test = (refl, refl)

car_string-ne-bus : car_string ≢ codes "bus"
car_string-ne-bus e = grind arith

with_cache_example : ReadsWrites (with_cache plain).get_state (with_cache plain).put_state
unfolding new_state
with_cache_example = with_cache-ReadsWrites plain memory_stub-ReadsFrame

abbrev deleted : WithTxCache Memory
deleted = (
  record empty { writes = (car_string, codes "red") ∷ (car_string, []) ∷ [] },
  (car_string, codes "red") ∷ [],
)

delete-car : delete no_methods cached car after ≡ (ok tt, deleted)
unfolding computes
delete-car = refl

get-delete-put_example : get no_methods cached car (red ∷ []) deleted ≡ ok red
get-delete-put_example =
    get-delete-put plain no_methods car red (red ∷ []) start after deleted red-Decodes put-car
      delete-car
