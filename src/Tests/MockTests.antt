-- ===== src/Tests/MockTests.antt =====
-- Tests of the stub for tests, over a small embedded stub, and its theorems at concrete inputs.
use cckit.Base.{
  ◌≡◌, ◌≢◌, refl, ap, true, false, Option, none, some, List, [], ◌∷◌, Text, Bytes, Map, find, store,
  find-store, find-store_self, codes, text_eq, text_eq_iff, Bool-cases, inl, inr, map, length,
  compare, arith, ◌&&◌, ◌≤◌,
}
use cckit.Lang.Exec.{Exec}
use cckit.Lang.Result.{Result, ok, panic}
use cckit.Mock.Keys.{holds, insert_key, Ascending}
use cckit.Mock.MockStub.{
  Shim, MockStub, put_state, get_state, del_state, mock_transaction_start, mock_transaction_end,
  mock_invoke, set_args,
}
use cckit.Mock.MockStub.Laws.{ShimLaws, last_write, get_state-mock_invoke, get_state-put-del}
use cckit.Mock.PrivateData.{
  PrivateData, PrivateIterator, put_private_data, del_private_data, new_private_iterator, drain,
  in_range, read, or_new,
}
use cckit.Mock.PrivateData.Laws.{IsIndexed, private_data-IsIndexed, is_some}
use cckit.Mock.PrivateData.Iteration.{drain-new_private_iterator}
use cckit.Response.{Response, shim_success}

-- The embedded stub: the id of the transaction, and what is committed.
pub record Embedded : Type 0 where
  pub tx : Text
  pub committed : Map Bytes

abbrev or_empty : Option Bytes → Bytes
or_empty none = []
or_empty (some b) = b

abbrev embedded : Shim Embedded
embedded = record {
  tx_id = λ m. m.tx;
  get_state = λ k m. ok (or_empty (find k m.committed));
  put_state = λ k b m. (ok tt, record m { committed = store k b m.committed });
  del_state = λ k m. (ok tt, record m { committed = store k [] m.committed });
  set_event = λ n b m. (ok tt, m);
  transaction_start = λ uuid m. record m { tx = uuid };
  transaction_end = λ uuid m. record m { tx = [] };
}

embedded-ne :
    (k j : Text) (b : Bytes) (m : Map Bytes)
    → k ≢ j
    → or_empty (find j (store k b m)) ≡ or_empty (find j m)
embedded-ne k j b m ne = rw (find-store k j b m) (elim (Bool-cases (text_eq k j)) [
  | inl e ↦ absurd (ne ((text_eq_iff k j).0 e))
  | inr e ↦ rw e refl
])

embedded-ShimLaws : ShimLaws embedded
embedded-ShimLaws = record {
  get-put = λ k b m t. ap (λ o. ok (or_empty o)) (find-store_self k b m.committed);
  get-put_ne = λ k j b m ne. ap ok (embedded-ne k j b m.committed ne);
  tx-put = λ k b m. refl;
  get-set_event = λ k n b m. refl;
  get-end = λ k uuid m. refl;
  tx-del = λ k m. refl;
}

abbrev stub : MockStub Embedded
stub = record {
  shim = record { tx = []; committed = [] };
  state_buffer = [];
  mock_creator = [];
  transient = [];
  clear_creator_after_invoke = true;
  args = [];
  chaincode_event = none;
  subscriptions = [] ∷ [];
}

abbrev key : Text
key = codes "a"

-- A chaincode that writes a key twice.
abbrev twice : Exec (MockStub Embedded) Response
twice s =
    let (r, s1) = put_state embedded key (1 ∷ []) s in
    let (r', s2) = put_state embedded key (2 ∷ []) s1 in (ok (shim_success []), s2)

abbrev left : MockStub Embedded
left = (twice (mock_transaction_start embedded (codes "tx") (set_args embedded [] stub))).1

left_tx : left.shim.tx ≢ []
unfolding mock_transaction_start put_state
left_tx e = cc

get_state-mock_invoke_example :
    ((mock_invoke embedded twice (codes "tx") [] stub).0 ≡ ok (shim_success []))
    × (get_state embedded key (mock_invoke embedded twice (codes "tx") [] stub).1
        ≡ last_write key (get_state embedded key left) left.state_buffer)
get_state-mock_invoke_example =
    get_state-mock_invoke embedded embedded-ShimLaws key (codes "tx") [] twice (shim_success [])
      stub left refl left_tx

-- The last of the two writes is read.
reads_last : last_write key (get_state embedded key left) left.state_buffer ≡ ok (2 ∷ [])
unfolding last_write get_state put_state mock_transaction_start text_eq find
reads_last = refl

abbrev started : MockStub Embedded
started = record stub { shim = record { tx = codes "tx"; committed = [] } }

abbrev put_stub : MockStub Embedded
put_stub = (put_state embedded key (1 ∷ []) started).1

abbrev deleted : MockStub Embedded
deleted = (del_state embedded key put_stub).1

put_stub-ok : put_state embedded key (1 ∷ []) started ≡ (ok tt, put_stub)
unfolding put_state
put_stub-ok = refl

deleted-ok : del_state embedded key put_stub ≡ (ok tt, deleted)
unfolding del_state
deleted-ok = refl

get_state-put-del_example :
    get_state embedded key (mock_transaction_end embedded (codes "tx") deleted) ≡ ok (1 ∷ [])
get_state-put-del_example =
    get_state-put-del embedded embedded-ShimLaws key (codes "tx") (1 ∷ []) started put_stub deleted
      put_stub-ok deleted-ok

abbrev no_private : PrivateData
no_private = record { pvt_state = []; private_keys = [] }

no_private-IsIndexed : IsIndexed no_private
unfolding find holds
no_private-IsIndexed = record {
  indexes = λ c. record { ascending = tt; same_keys = λ k. refl };
  has_list = λ c e. cc;
}

abbrev docs : Text
docs = codes "docs"

-- Two records, put in descending order.
abbrev one_private : PrivateData
one_private = (put_private_data docs (codes "b") (1 ∷ []) no_private).1

abbrev two_private : PrivateData
two_private = (put_private_data docs key (2 ∷ []) one_private).1

one_private-IsIndexed : IsIndexed one_private
one_private-IsIndexed =
    (private_data-IsIndexed docs (codes "b") [] [] (1 ∷ []) no_private no_private-IsIndexed).0

two_private-IsIndexed : IsIndexed two_private
two_private-IsIndexed =
    (private_data-IsIndexed docs key [] [] (2 ∷ []) one_private one_private-IsIndexed).0

private_data-IsIndexed_example :
    IsIndexed (put_private_data docs key (3 ∷ []) two_private).1
    × IsIndexed (del_private_data docs key two_private).1
    × ((del_private_data docs key two_private).0 ≢ panic)
    × IsIndexed (new_private_iterator docs key (codes "b") two_private).1
private_data-IsIndexed_example =
    private_data-IsIndexed docs key key (codes "b") (3 ∷ []) two_private two_private-IsIndexed

abbrev create : Text → List Text → Result Text
create o attrs = ok o

abbrev get : Map (Map Bytes) → Text → Text → Result Bytes
get st c k = ok (or_empty (find k (or_new (find c st))))

abbrev iter : PrivateIterator
iter = record {
  closed = false;
  start_key = key;
  end_key = codes "c";
  current = key ∷ codes "b" ∷ [];
  collection = docs;
}

abbrev iterated : PrivateData
iterated = (new_private_iterator docs key (codes "c") two_private).1

iter_made : new_private_iterator docs key (codes "c") two_private ≡ (ok iter, iterated)
unfolding new_private_iterator put_private_data find store insert_key compare text_eq
iter_made = refl

two_keys : length (or_new (find docs two_private.private_keys)) ≤ 2
unfolding put_private_data find store insert_key compare text_eq
two_keys = omega arith

drain-new_private_iterator_example :
    (ks : List Text) × (drain create get 2 iterated iter
      ≡ map (read create get two_private docs) ks)
    × Ascending ks
    × ((k : Text)
        → holds k ks ≡ (
            in_range key (codes "c") k
            && is_some (find k (or_new (find docs two_private.pvt_state)))))
drain-new_private_iterator_example =
    drain-new_private_iterator create get docs key (codes "c") two_private iterated iter 2
      two_private-IsIndexed iter_made two_keys
