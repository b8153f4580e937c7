-- ===== src/Mock/PrivateData.antt =====
-- testing/mockstub.go: private data, and the iterator over it. PvtState is a field of
-- shimtest.MockStub that the code reads and writes itself; GetPrivateData and CreateCompositeKey are
-- shimtest's, so they are parameters. An iterator is run against the keys that the list had when it
-- was made: a deletion during the iteration is not followed.
pub mod Laws
pub mod Iteration
use cckit.Base.{
  ℕ, zero, suc, Bool, true, false, ◌&&◌, ◌||◌, not, Option, none, some, List, [], ◌∷◌, ◌++◌, Text,
  Bytes, Map, find, store, without, codes, is_empty, if◌then◌else◌, Comparison, before, same, after,
  compare,
}
use cckit.Lang.Error.{Error, message}
use cckit.Lang.Exec.{Exec}
use cckit.Lang.Result.{Result, ok, err, panic, ◌>>=◌}
use cckit.Mock.Keys.{insert_key, remove_key}
use cckit.State.Stub.{Kv}

-- PvtState and PrivateKeys
pub record PrivateData : Type 0 where
  pub pvt_state : Map (Map Bytes)
  pub private_keys : Map (List Text)

-- PrivateMockStateRangeQueryIterator: `current` is the rest of the list from the element on.
pub record PrivateIterator : Type 0 where
  pub closed : Bool
  pub start_key : Text
  pub end_key : Text
  pub current : List Text
  pub collection : Text

abbrev pub or_new : {V : Type 0} → Option (List V) → List V
or_new none = []
or_new (some m) = m

unfoldable pub put_private_data : Text → Text → Bytes → Exec PrivateData (Unit {0})
put_private_data collection key value st =
    let m = or_new (find collection st.pvt_state) in
    let keys = or_new (find collection st.private_keys) in
    (
      ok tt,
      record {
        pvt_state = store collection (store key value m) st.pvt_state;
        private_keys = store collection (insert_key key keys) st.private_keys;
      },
    )

abbrev pub del_key : Text → Text → Option (List Text) → Exec PrivateData (Unit {0})
del_key collection key none st = (panic, st)
del_key collection key (some keys) st =
    (ok tt, record st { private_keys = store collection (remove_key key keys) st.private_keys })

abbrev pub not_found : Text → Text → Error
not_found what name = message (what ++ codes " " ++ name ++ codes " not found.")

abbrev pub del_value : Text → Text → Map Bytes → Option Bytes → Exec PrivateData (Unit {0})
del_value collection key m none st = (err (not_found (codes "Key") key), st)
del_value collection key m (some _) st =
    del_key collection key (find collection st.private_keys)
      (record st { pvt_state = store collection (without key m) st.pvt_state })

abbrev pub del_in : Text → Text → Option (Map Bytes) → Exec PrivateData (Unit {0})
del_in collection key none st = (err (not_found (codes "Collection") collection), st)
del_in collection key (some m) st = del_value collection key m (find key m) st

unfoldable pub del_private_data : Text → Text → Exec PrivateData (Unit {0})
del_private_data collection key st = del_in collection key (find collection st.pvt_state) st

-- NewPrivateMockStateRangeQueryIterator makes the list of the collection if there is none.
unfoldable pub new_private_iterator : Text → Text → Text → Exec PrivateData PrivateIterator
new_private_iterator collection start_key end_key st =
    let keys = or_new (find collection st.private_keys) in
    (
      ok (record {
        closed = false;
        start_key = start_key;
        end_key = end_key;
        current = keys;
        collection = collection;
      }),
      record st { private_keys = store collection keys st.private_keys },
    )

abbrev pub is_before : Comparison → Bool
is_before before = true
is_before _ = false

-- An open-ended query for all keys.
abbrev pub is_open : Text → Text → Bool
is_open start_key end_key = is_empty start_key && is_empty end_key

-- The loop of HasNext.
unfoldable pub reaches : Text → Text → List Text → Bool
reaches start_key end_key [] = false
reaches start_key end_key (k ∷ ks) =
    let rest = reaches start_key end_key ks in
    if is_open start_key end_key
    then true
    else if is_before (compare k start_key)
    then rest
    else is_before (compare k end_key)

unfoldable pub has_next : PrivateIterator → Bool
has_next iter = if iter.closed then false else reaches iter.start_key iter.end_key iter.current

-- The test of Next.
abbrev pub in_range : Text → Text → Text → Bool
in_range start_key end_key k =
    (not (is_before (compare k start_key)) && is_before (compare k end_key))
    || is_open start_key end_key

-- The loop of Next: the key that it stops at, and the elements behind it.
unfoldable pub advance : Text → Text → List Text → Option (Text × List Text)
advance start_key end_key [] = none
advance start_key end_key (k ∷ ks) =
    let rest = advance start_key end_key ks in
    if in_range start_key end_key k then some (k, ks) else rest

module _ (create_composite_key : Text → List Text → Result Text)
    (get_private_data : Map (Map Bytes) → Text → Text → Result Bytes) where
  -- The record at a key.
  abbrev pub read : PrivateData → Text → Text → Result Kv
  read st collection key = get_private_data st.pvt_state collection key >>= λ value.
      ok (record { key = key; value = value })

  abbrev pub step_to :
      PrivateData → PrivateIterator → Option (Text × List Text) → Result Kv × PrivateIterator
  step_to st iter none =
      (err (message (codes "went past end of range")), record iter { current = [] })
  step_to st iter (some (k, ks)) = (read st iter.collection k, record iter { current = ks })

  unfoldable pub next : PrivateData → PrivateIterator → Result Kv × PrivateIterator
  next st iter =
      if iter.closed
      then (err (message (codes "called after Close")), iter)
      else if not (has_next iter)
      then (err (message (codes "called when it does not HaveNext")), iter)
      else step_to st iter (advance iter.start_key iter.end_key iter.current)

  -- `for iter.HasNext() { iter.Next() }`, the loop of those that read an iterator.
  unfoldable pub drain : ℕ → PrivateData → PrivateIterator → List (Result Kv)
  drain zero st iter = []
  drain (suc n) st iter =
      let rest = drain n st (next st iter).1 in
      if has_next iter then (next st iter).0 ∷ rest else []

  -- `string(utf8.MaxRune)`
  abbrev pub max_rune : Text
  max_rune = 244 ∷ 143 ∷ 191 ∷ 191 ∷ []

  abbrev pub over_partial : Text → Result Text → Exec PrivateData PrivateIterator
  over_partial collection (ok partial) st =
      new_private_iterator collection partial (partial ++ max_rune) st
  over_partial collection (err e) st = (err e, st)
  over_partial collection panic st = (panic, st)

  unfoldable pub get_private_data_by_partial_composite_key :
      Text → Text → List Text → Exec PrivateData PrivateIterator
  get_private_data_by_partial_composite_key collection object_type attributes =
      over_partial collection (create_composite_key object_type attributes)

unfoldable pub close : PrivateIterator → Result (Unit {0}) × PrivateIterator
close iter =
    if iter.closed
    then (err (message (codes "called after Close")), iter)
    else (ok tt, record iter { closed = true })
