-- ===== src/Mock/MockStub.antt =====
-- testing/mockstub.go: transactions of the stub for tests. `M` is the embedded shimtest.MockStub,
-- which is outside the repository: `Shim` holds what the code calls of it. A channel of events is the
-- list of what was sent to it, with no bound; the mutex, the random transaction ids, the certificate
-- of a creator and the calls of other chaincodes are left out.
pub mod Laws
use cckit.Base.{
  Bool, true, false, Option, none, some, List, [], ◌∷◌, ◌++◌, map, Text, Bytes, Map, find, store,
  codes, is_empty, if◌then◌else◌,
}
use cckit.Lang.Error.{message}
use cckit.Lang.Exec.{Exec}
use cckit.Lang.Result.{Result, ok, err, panic}
use cckit.Response.{Response}
use cckit.State.Stub.{Kv}

pub record Shim (M : Type 0) : Type 0 where
  pub tx_id : M → Text
  pub get_state : Text → M → Result Bytes
  pub put_state : Text → Bytes → Exec M (Unit {0})
  pub del_state : Text → Exec M (Unit {0})
  pub set_event : Text → Bytes → Exec M (Unit {0})
  pub transaction_start : Text → M → M
  pub transaction_end : Text → M → M

-- The fields of peer.ChaincodeEvent that the stub sets.
pub record Event : Type 0 where
  pub event_name : Text
  pub payload : Bytes

pub record MockStub (M : Type 0) : Type 0 where
  pub shim : M
  pub state_buffer : List Kv
  pub mock_creator : Bytes
  pub transient : Map Bytes
  pub clear_creator_after_invoke : Bool
  pub args : List Bytes
  pub chaincode_event : Option Event
  pub subscriptions : List (List Event)

-- The state that a call leaves, its result dropped (`_ = …`).
abbrev pub dropped : {M : Type 0} → Result (Unit {0}) × M → M
dropped (_, m) = m

module _ {M : Type 0} (lib : Shim M) where
  unfoldable pub put_state : Text → Bytes → Exec (MockStub M) (Unit {0})
  put_state key value stub =
      if is_empty (lib.tx_id stub.shim)
      then (err (message (codes "cannot PutState without a transactions")), stub)
      else (
        ok tt,
        record stub {
          state_buffer = stub.state_buffer ++ record { key = key; value = value } ∷ [];
        },
      )

  -- The methods of the embedded stub that are not wrapped.
  unfoldable pub get_state : Text → MockStub M → Result Bytes
  get_state key stub = lib.get_state key stub.shim

  unfoldable pub del_state : Text → Exec (MockStub M) (Unit {0})
  del_state key stub = let (r, m) = lib.del_state key stub.shim in (r, record stub { shim = m })

  abbrev pub set_args : List Bytes → MockStub M → MockStub M
  set_args args stub = record stub { args = args }

  unfoldable pub set_event : Text → Bytes → Exec (MockStub M) (Unit {0})
  set_event name payload stub =
      if is_empty name then (err (message (codes "event name can not be nil string")), stub) else (
        ok tt,
        record stub { chaincode_event = some (record { event_name = name; payload = payload }) },
      )

  -- EventSubscription: the new channel stands last.
  abbrev pub event_subscription : MockStub M → MockStub M
  event_subscription stub = record stub { subscriptions = stub.subscriptions ++ [] ∷ [] }

  abbrev pub function_and_parameters : List Text → Text × List Text
  function_and_parameters [] = ([], [])
  function_and_parameters (f ∷ params) = (f, params)

  -- A byte slice and its string are the same list here.
  unfoldable pub get_function_and_parameters : MockStub M → Text × List Text
  get_function_and_parameters stub = function_and_parameters stub.args

  -- The loop of DumpStateBuffer over the buffer.
  unfoldable pub dump : List Kv → M → M
  dump [] m = m
  dump (s ∷ rest) m = dump rest (dropped (lib.put_state s.key s.value m))

  abbrev pub send : Option Event → MockStub M → MockStub M
  send none stub = stub
  send (some e) stub = record stub {
    shim = dropped (lib.set_event e.event_name e.payload stub.shim);
    subscriptions = map (λ sub. sub ++ e ∷ []) stub.subscriptions;
  }

  unfoldable pub dump_state_buffer : MockStub M → MockStub M
  dump_state_buffer stub =
      send stub.chaincode_event
        (record stub { shim = dump stub.state_buffer stub.shim; state_buffer = [] })

  unfoldable pub mock_transaction_start : Text → MockStub M → MockStub M
  mock_transaction_start uuid stub = record stub {
    chaincode_event = none;
    state_buffer = [];
    shim = lib.transaction_start uuid stub.shim;
  }

  unfoldable pub mock_transaction_end : Text → MockStub M → MockStub M
  unfolding dump_state_buffer
  mock_transaction_end uuid stub =
      let dumped = dump_state_buffer stub in
      let ended = record dumped { shim = lib.transaction_end uuid dumped.shim } in
      if stub.clear_creator_after_invoke
      then record ended { mock_creator = []; transient = [] }
      else ended

  -- A panic of the chaincode leaves the transaction open.
  abbrev pub end_of : Text → Result Response × MockStub M → Result Response × MockStub M
  end_of uuid (ok res, stub) = (ok res, mock_transaction_end uuid stub)
  end_of uuid (err e, stub) = (err e, stub)
  end_of uuid (panic, stub) = (panic, stub)

  -- MockInvoke and MockInit, with the method of the chaincode.
  unfoldable pub mock_invoke :
      Exec (MockStub M) Response → Text → List Bytes → Exec (MockStub M) Response
  mock_invoke invoke uuid args stub =
      end_of uuid (invoke (mock_transaction_start uuid (set_args args stub)))

  abbrev pub with_transient : Map Bytes → MockStub M → MockStub M
  with_transient transient stub = record stub { transient = transient }

  abbrev add_each : Option Bytes → Text → Bytes → MockStub M → Result (MockStub M)
  add_each (some _) k v stub = panic
  add_each none k v stub = ok (record stub { transient = store k v stub.transient })

  abbrev add_then : Result (MockStub M) → (MockStub M → Result (MockStub M)) → Result (MockStub M)
  add_then (ok stub) rest = rest stub
  add_then (err e) rest = err e
  add_then panic rest = panic

  -- AddTransient, whose panics are its only failure.
  unfoldable pub add_transient : Map Bytes → MockStub M → Result (MockStub M)
  add_transient [] stub = ok stub
  add_transient ((k, v) ∷ more) stub =
      add_then (add_each (find k stub.transient) k v stub) (add_transient more)
