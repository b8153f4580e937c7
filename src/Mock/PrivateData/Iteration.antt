-- ===== src/Mock/PrivateData/Iteration.antt =====
-- testing/mockstub.go: what an iterator over private data returns.
use cckit.Base.{
  ◌≡◌, refl, ap, ◌∙◌, ℕ, zero, suc, ◌≤◌, Bool, true, false, some, List, [], ◌∷◌, Text, Bytes, Map,
  map, find, store, text_eq, text_eq_iff, length, arith, if◌then◌else◌, Bool-cases, All, compare,
  compare_trans, before, inl, inr, ◌||◌, ◌&&◌,
}
use cckit.Lang.Result.{Result, ok}
use cckit.Mock.Keys.{Ascending, holds}
use cckit.Mock.PrivateData.Laws.{IsIndexed, is_some}
use cckit.Mock.PrivateData.{
  PrivateData, PrivateIterator, is_before, is_open, reaches, has_next, in_range,
  new_private_iterator, or_new, advance, read, next, drain,
}

-- The keys of a range, in their order.
unfoldable pub range : Text → Text → List Text → List Text
range start_key end_key [] = []
range start_key end_key (k ∷ ks) =
    let rest = range start_key end_key ks in if in_range start_key end_key k then k ∷ rest else rest

range-taken :
    (start_key end_key k : Text) (ks : List Text)
    → in_range start_key end_key k ≡ true
    → range start_key end_key (k ∷ ks) ≡ k ∷ range start_key end_key ks
unfolding range
range-taken start_key end_key k ks r = rw r refl

range-skipped :
    (start_key end_key k : Text) (ks : List Text)
    → in_range start_key end_key k ≡ false
    → range start_key end_key (k ∷ ks) ≡ range start_key end_key ks
unfolding range
range-skipped start_key end_key k ks r = rw r refl

range-All :
    (e start_key end_key : Text) (ks : List Text)
    → All (λ j. compare e j ≡ before) ks
    → All (λ j. compare e j ≡ before) (range start_key end_key ks)
unfolding range
range-All e start_key end_key [] h = tt
range-All e start_key end_key (k ∷ ks) (h, hs) = elim (Bool-cases (in_range start_key end_key k)) [
  | inl r ↦ rw r (h, range-All e start_key end_key ks hs)
  | inr r ↦ rw r (range-All e start_key end_key ks hs)
]

range-Ascending :
    (start_key end_key : Text) (ks : List Text)
    → Ascending ks
    → Ascending (range start_key end_key ks)
unfolding range
range-Ascending start_key end_key [] h = tt
range-Ascending start_key end_key (k ∷ ks) (h, hs) =
    elim (Bool-cases (in_range start_key end_key k)) [
      | inl r ↦ rw r (range-All k start_key end_key ks h, range-Ascending start_key end_key ks hs)
      | inr r ↦ rw r (range-Ascending start_key end_key ks hs)
    ]

holds-if :
    (b : Bool) (k j : Text) (rest : List Text)
    → holds k (if b then j ∷ rest else rest)
      ≡ (if b then text_eq j k || holds k rest else holds k rest)
unfolding holds
holds-if true k j rest = refl
holds-if false k j rest = refl

merge :
    (bj bk e h : Bool)
    → (e ≡ true → bj ≡ bk)
    → (if bj then e || (bk && h) else bk && h) ≡ (bk && (e || h))
merge true true e h s = refl
merge true false true h s = let k = s refl in cc
merge true false false h s = refl
merge false true true h s = let k = s refl in cc
merge false true false h s = refl
merge false false e h s = refl

holds-range :
    (start_key end_key k : Text) (ks : List Text)
    → holds k (range start_key end_key ks) ≡ (in_range start_key end_key k && holds k ks)
unfolding range holds
holds-range start_key end_key k [] = ground arith
holds-range start_key end_key k (j ∷ js) =
    holds-if (in_range start_key end_key j) k j (range start_key end_key js)
    ∙ (rw (holds-range start_key end_key k js) (
        merge (in_range start_key end_key j) (in_range start_key end_key k) (text_eq j k)
          (holds k js) (λ e. ap (in_range start_key end_key) ((text_eq_iff j k).0 e))))

-- Behind a key that is not before the end, no key is in the range.
range-past :
    (start_key end_key k : Text) (ks : List Text)
    → is_open start_key end_key ≡ false
    → is_before (compare k end_key) ≡ false
    → All (λ j. compare k j ≡ before) ks
    → range start_key end_key ks ≡ []
unfolding range
range-past start_key end_key k [] o p h = refl
range-past start_key end_key k (j ∷ js) o p (h, hs) =
    ground (arith, compare_trans k j end_key, range-past start_key end_key k js)

-- A key before the start changes neither loop.
skipped :
    (start_key end_key k : Text) (ks : List Text)
    → is_open start_key end_key ≡ false
    → is_before (compare k start_key) ≡ true
    → (reaches start_key end_key (k ∷ ks) ≡ reaches start_key end_key ks)
      × (advance start_key end_key (k ∷ ks) ≡ advance start_key end_key ks)
unfolding reaches advance
skipped start_key end_key k ks o b = (ground arith, ground arith)

module _ (create : Text → List Text → Result Text)
    (get : Map (Map Bytes) → Text → Text → Result Bytes) (st : PrivateData) where
  -- The iterator with the rest of its list.
  abbrev at_keys : PrivateIterator → List Text → PrivateIterator
  at_keys iter ks = record iter { current = ks }

  drain-taken :
      (n : ℕ) (iter : PrivateIterator) (k : Text) (ks : List Text)
      → iter.closed ≡ false
      → in_range iter.start_key iter.end_key k ≡ true
      → drain create get (suc n) st (at_keys iter (k ∷ ks))
        ≡ read create get st iter.collection k ∷ drain create get n st (at_keys iter ks)
  unfolding drain has_next next reaches advance
  drain-taken n iter k ks c r =
      let e : reaches iter.start_key iter.end_key (k ∷ ks) ≡ true = ground arith in
      let f : advance iter.start_key iter.end_key (k ∷ ks) ≡ some (k, ks) = ground arith in
      rw (c, e, f) refl

  drain-skipped :
      (n : ℕ) (iter : PrivateIterator) (k : Text) (ks : List Text)
      → iter.closed ≡ false
      → is_open iter.start_key iter.end_key ≡ false
      → is_before (compare k iter.start_key) ≡ true
      → drain create get (suc n) st (at_keys iter (k ∷ ks))
        ≡ drain create get (suc n) st (at_keys iter ks)
  unfolding drain has_next next
  drain-skipped n iter k ks c o b =
      let (e, f) = skipped iter.start_key iter.end_key k ks o b in
      elim (Bool-cases (reaches iter.start_key iter.end_key ks)) [
        | inl t ↦ rw (c, e, f, t) refl
        | inr t ↦ rw (c, e, f, t) refl
      ]

  drain-stopped :
      (n : ℕ) (iter : PrivateIterator) (k : Text) (ks : List Text)
      → iter.closed ≡ false
      → is_open iter.start_key iter.end_key ≡ false
      → is_before (compare k iter.start_key) ≡ false
      → is_before (compare k iter.end_key) ≡ false
      → drain create get (suc n) st (at_keys iter (k ∷ ks)) ≡ []
  unfolding drain has_next next reaches
  drain-stopped n iter k ks c o b p = rw (c, o, b, p) refl

  drain-range :
      (n : ℕ) (iter : PrivateIterator) (ks : List Text)
      → iter.closed ≡ false
      → length ks ≤ n
      → Ascending ks
      → drain create get n st (at_keys iter ks)
        ≡ map (read create get st iter.collection) (range iter.start_key iter.end_key ks)
  unfolding drain
  drain-range zero iter [] c l a = unfold range in refl
  drain-range (suc n) iter [] c l a = unfold range has_next reaches in rw c refl
  drain-range zero iter (k ∷ ks) c l a = absurd (omega arith)
  drain-range (suc n) iter (k ∷ ks) c l (first, rest) =
      elim (Bool-cases (in_range iter.start_key iter.end_key k)) [
        | inl r ↦
            rw
              (
                drain-taken n iter k ks c r,
                range-taken iter.start_key iter.end_key k ks r,
                drain-range n iter ks c (omega arith) rest,
              )
              refl
        | inr r ↦
            rw (range-skipped iter.start_key iter.end_key k ks r)
              (elim (Bool-cases (is_before (compare k iter.start_key))) [
                | inl b ↦
                    drain-skipped n iter k ks c (ground arith) b
                    ∙ drain-range (suc n) iter ks c (omega arith) rest
                | inr b ↦
                    let o : is_open iter.start_key iter.end_key ≡ false = ground arith in
                    let p : is_before (compare k iter.end_key) ≡ false = ground arith in
                    drain-stopped n iter k ks c o b p
                    ∙ rw (range-past iter.start_key iter.end_key k ks o p first) refl
              ])
      ]

-- A loop over a new iterator ends within as many rounds as the collection has keys, and what its calls
-- of Next return is the record of each key of the data in the range, in ascending order, once.
pub drain-new_private_iterator :
    (create : Text → List Text → Result Text) (get : Map (Map Bytes) → Text → Text → Result Bytes)
    (c start_key end_key : Text) (st st' : PrivateData) (iter : PrivateIterator) (n : ℕ)
    → IsIndexed st
    → new_private_iterator c start_key end_key st ≡ (ok iter, st')
    → length (or_new (find c st.private_keys)) ≤ n
    → (ks : List Text) × (drain create get n st' iter ≡ map (read create get st c) ks)
      × Ascending ks
      × ((k : Text)
          → holds k ks
            ≡ (in_range start_key end_key k && is_some (find k (or_new (find c st.pvt_state)))))
unfolding new_private_iterator
drain-new_private_iterator create get c start_key end_key st st' iter n w e l =
    let keys = or_new (find c st.private_keys) in
    let i : iter ≡ record {
      closed = false;
      start_key = start_key;
      end_key = end_key;
      current = keys;
      collection = c;
    } =
      cc in
    let s : st' ≡ record st { private_keys = store c keys st.private_keys } = cc in
    (
      range start_key end_key keys,
      rw (i, s)
          (drain-range create get (record st { private_keys = store c keys st.private_keys }) n
            (record {
              closed = false;
              start_key = start_key;
              end_key = end_key;
              current = keys;
              collection = c;
            })
            keys refl l (w.indexes c).ascending),
      range-Ascending start_key end_key keys (w.indexes c).ascending,
      λ k. rw (holds-range start_key end_key k keys, (w.indexes c).same_keys k) refl,
    )
