-- ===== src/Mock/PrivateData/Laws.antt =====
-- testing/mockstub.go: what keeps the ordered keys of private data in step with the data, and what an
-- iterator over them returns.
use cckit.Base.{
  ◌≡◌, ◌≢◌, refl, subst, Bool, true, false, Option, none, some, List, Text, Bytes, Map, find, store,
  without, find-store, find-without, arith, Option-cases, text_eq, text_eq_iff, Bool-cases, inl,
  inr,
}
use cckit.Lang.Result.{Result, panic}
use cckit.Mock.Keys.{
  holds, Ascending, insert_key, insert_key-Ascending, holds-insert_key, remove_key,
  remove_key-Ascending, holds-remove_key,
}
use cckit.Mock.PrivateData.{
  PrivateData, put_private_data, del_private_data, del_value, or_new, new_private_iterator,
}

abbrev pub is_some : {V : Type 0} → Option V → Bool
is_some none = false
is_some (some _) = true

is_some-some : {V : Type 0} (o : Option V) → is_some o ≡ true → (v : V) × (o ≡ some v)
is_some-some none h = cc
is_some-some (some v) h = (v, refl)

-- A list of keys that is strictly ascending and holds the keys of the data.
pub record Indexes (m : Map Bytes) (keys : List Text) : Type 0 where
  pub ascending : Ascending keys
  pub same_keys : (k : Text) → holds k keys ≡ is_some (find k m)

-- In every collection the list of keys indexes the data, and a collection with data has a list.
pub record IsIndexed (st : PrivateData) : Type 0 where
  pub indexes :
      (c : Text) → Indexes (or_new (find c st.pvt_state)) (or_new (find c st.private_keys))
  pub has_list :
      (c : Text) → is_some (find c st.pvt_state) ≡ true → is_some (find c st.private_keys) ≡ true

insert-Indexes :
    (key : Text) (value : Bytes) (m : Map Bytes) (keys : List Text)
    → Indexes m keys
    → Indexes (store key value m) (insert_key key keys)
insert-Indexes key value m keys h = record {
  ascending = insert_key-Ascending key keys h.ascending;
  same_keys =
      λ k. ground (arith, holds-insert_key k key keys, find-store key k value m, h.same_keys k);
}

remove-Indexes :
    (key : Text) (m : Map Bytes) (keys : List Text)
    → Indexes m keys
    → Indexes (without key m) (remove_key key keys)
remove-Indexes key m keys h = record {
  ascending = remove_key-Ascending key keys h.ascending;
  same_keys = λ k.
      ground (arith, holds-remove_key k key keys h.ascending, find-without key k m, h.same_keys k);
}

-- Changing one collection and its list keeps the others.
at_collection :
    (c : Text) (m : Map Bytes) (keys : List Text) (st : PrivateData)
    → Indexes m keys
    → IsIndexed st
    → IsIndexed
        (record { pvt_state = store c m st.pvt_state; private_keys = store c keys st.private_keys })
at_collection c m keys st h w = record {
  indexes = λ d. elim (Bool-cases (text_eq c d)) [
    | inl e ↦ rw (find-store c d m st.pvt_state, find-store c d keys st.private_keys, e) h
    | inr e ↦
        rw (find-store c d m st.pvt_state, find-store c d keys st.private_keys, e) (w.indexes d)
  ];
  has_list = λ d e.
      ground
        (arith, find-store c d m st.pvt_state, find-store c d keys st.private_keys, w.has_list d);
}

put-IsIndexed :
    (c key : Text) (value : Bytes) (st : PrivateData)
    → IsIndexed st
    → IsIndexed (put_private_data c key value st).1
unfolding put_private_data
put-IsIndexed c key value st w =
    at_collection c _ _ st (insert-Indexes key value _ _ (w.indexes c)) w

IsKept : Result (Unit {0}) × PrivateData → Type 0
IsKept (r, st) = (r ≢ panic) × IsIndexed st

found-Indexes :
    (c : Text) (m : Map Bytes) (keys : List Text) (st : PrivateData)
    → find c st.pvt_state ≡ some m
    → find c st.private_keys ≡ some keys
    → IsIndexed st
    → Indexes m keys
found-Indexes c m keys st e k w =
    let same_m : or_new (find c st.pvt_state) ≡ m = rw e refl in
    let same_keys : or_new (find c st.private_keys) ≡ keys = rw k refl in
    subst (λ l. Indexes m l) same_keys
      (subst (λ n. Indexes n (or_new (find c st.private_keys))) same_m (w.indexes c))

-- The rest of DelPrivateData where the collection has the data `m`.
del_value-IsKept :
    (c key : Text) (m : Map Bytes) (keys : List Text) (st : PrivateData)
    → find c st.pvt_state ≡ some m
    → find c st.private_keys ≡ some keys
    → IsIndexed st
    → IsKept (del_value c key m (find key m) st)
unfolding IsKept
del_value-IsKept c key m keys st e k w = elim (Option-cases (find key m)) [
  | inl none_e ↦ rw none_e ((λ p. cc), w)
  | inr (v, some_e) ↦
      rw (some_e, k)
        (
          (λ p. cc),
          at_collection c _ _ st (remove-Indexes key m keys (found-Indexes c m keys st e k w)) w,
        )
]

del-IsKept : (c key : Text) (st : PrivateData) → IsIndexed st → IsKept (del_private_data c key st)
unfolding del_private_data IsKept
del-IsKept c key st w = elim (Option-cases (find c st.pvt_state)) [
  | inl e ↦ rw e ((λ p. cc), w)
  | inr (m, e) ↦
      let (keys, k) = is_some-some (find c st.private_keys) (w.has_list c (rw e refl)) in
      rw e (unfold IsKept in del_value-IsKept c key m keys st e k w)
]

new_iterator-IsIndexed :
    (c start_key end_key : Text) (st : PrivateData)
    → IsIndexed st
    → IsIndexed (new_private_iterator c start_key end_key st).1
unfolding new_private_iterator
new_iterator-IsIndexed c start_key end_key st w = record {
  indexes = λ d. elim (Bool-cases (text_eq c d)) [
    | inl e ↦
        let same_d : c ≡ d = (text_eq_iff c d).0 e in
        rw (find-store c d (or_new (find c st.private_keys)) st.private_keys, e, same_d)
          (w.indexes d)
    | inr e ↦ rw (find-store c d (or_new (find c st.private_keys)) st.private_keys, e) (w.indexes d)
  ];
  has_list = λ d e.
      ground
        (arith, find-store c d (or_new (find c st.private_keys)) st.private_keys, w.has_list d);
}

-- PutPrivateData, DelPrivateData and a new iterator keep the list of keys of every collection
-- strictly ascending and equal to the keys of its data, errors of DelPrivateData included, which
-- does not panic.
pub private_data-IsIndexed :
    (c key start_key end_key : Text) (value : Bytes) (st : PrivateData)
    → IsIndexed st
    → IsIndexed (put_private_data c key value st).1
      × IsIndexed (del_private_data c key st).1
      × ((del_private_data c key st).0 ≢ panic)
      × IsIndexed (new_private_iterator c start_key end_key st).1
unfolding IsKept
private_data-IsIndexed c key start_key end_key value st w =
    let (np, d) = del-IsKept c key st w in
    (put-IsIndexed c key value st w, d, np, new_iterator-IsIndexed c start_key end_key st w)
