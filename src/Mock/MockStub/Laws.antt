-- ===== src/Mock/MockStub/Laws.antt =====
-- testing/mockstub.go: what a transaction of the stub for tests leaves.
use cckit.Base.{
  ◌≡◌, ◌≢◌, refl, sym, ap, ◌∙◌, Bool, true, false, Option, none, some, List, [], ◌∷◌, ◌++◌, Text,
  Bytes, text_eq, text_eq_iff, text_eq_refl, if◌then◌else◌, is_empty, Bool-cases, inl, inr,
}
use cckit.Lang.Exec.{Exec}
use cckit.Lang.Result.{Result, ok}
use cckit.Mock.MockStub.{
  Shim, MockStub, Event, put_state, get_state, del_state, dump, dropped, send, dump_state_buffer,
  mock_transaction_start, mock_transaction_end, mock_invoke, set_args,
}
use cckit.Response.{Response}
use cckit.State.Stub.{Kv}

-- What shimtest does: within a transaction a write succeeds, is read back and changes no other key;
-- events and the ends of transactions change nothing that is read.
pub record ShimLaws {M : Type 0} (lib : Shim M) : Type 0 where
  pub get-put :
      (k : Text) (b : Bytes) (m : M)
      → lib.tx_id m ≢ []
      → lib.get_state k (dropped (lib.put_state k b m)) ≡ ok b
  pub get-put_ne :
      (k j : Text) (b : Bytes) (m : M)
      → k ≢ j
      → lib.get_state j (dropped (lib.put_state k b m)) ≡ lib.get_state j m
  pub tx-put :
      (k : Text) (b : Bytes) (m : M) → lib.tx_id (dropped (lib.put_state k b m)) ≡ lib.tx_id m
  pub get-set_event :
      (k n : Text) (b : Bytes) (m : M)
      → lib.get_state k (dropped (lib.set_event n b m)) ≡ lib.get_state k m
  pub get-end :
      (k uuid : Text) (m : M) → lib.get_state k (lib.transaction_end uuid m) ≡ lib.get_state k m
  pub tx-del : (k : Text) (m : M) → lib.tx_id (dropped (lib.del_state k m)) ≡ lib.tx_id m

-- The last value that the writes give a key, or what was read before them.
unfoldable pub last_write : Text → Result Bytes → List Kv → Result Bytes
last_write k read [] = read
last_write k read (w ∷ ws) = last_write k (if text_eq w.key k then ok w.value else read) ws

last_write-append :
    (k : Text) (r : Result Bytes) (b : Bytes) (ws : List Kv)
    → last_write k r (ws ++ record { key = k; value = b } ∷ []) ≡ ok b
unfolding last_write
last_write-append k r b [] = rw (text_eq_refl k) refl
last_write-append k r b (w ∷ ws) =
    last_write-append k (if text_eq w.key k then ok w.value else r) b ws

-- What PutState does where it succeeds.
put_state-ok :
    {M : Type 0} (lib : Shim M) (k : Text) (b : Bytes) (stub next : MockStub M)
    → put_state lib k b stub ≡ (ok tt, next)
    → (lib.tx_id stub.shim ≢ [])
      × (next.shim ≡ stub.shim)
      × (next.state_buffer ≡ stub.state_buffer ++ record { key = k; value = b } ∷ [])
unfolding put_state
put_state-ok lib k b stub next p = elim (Bool-cases (is_empty (lib.tx_id stub.shim))) [
  | inl e ↦ absurd (let q = rw e at p in cc)
  | inr e ↦
      let q = rw e at p in
      (
        (λ z. let y = ap is_empty z in cc),
        ap (λ x. x.1.shim) (sym q),
        ap (λ x. x.1.state_buffer) (sym q),
      )
]

module _ {M : Type 0} (lib : Shim M) (laws : ShimLaws lib) where
  get-one :
      (k : Text) (w : Kv) (m : M)
      → lib.tx_id m ≢ []
      → lib.get_state k (dropped (lib.put_state w.key w.value m))
        ≡ (if text_eq w.key k then ok w.value else lib.get_state k m)
  get-one k w m t = elim (Bool-cases (text_eq w.key k)) [
    | inl e ↦
        let s : k ≡ w.key = sym ((text_eq_iff w.key k).0 e) in
        rw (e, s) (laws.get-put w.key w.value m t)
    | inr e ↦
        rw e (laws.get-put_ne w.key k w.value m (λ s. let p = (text_eq_iff w.key k).1 s in cc))
  ]

  get-dump :
      (k : Text) (ws : List Kv) (m : M)
      → lib.tx_id m ≢ []
      → lib.get_state k (dump lib ws m) ≡ last_write k (lib.get_state k m) ws
  unfolding dump last_write
  get-dump k [] m t = refl
  get-dump k (w ∷ ws) m t =
      let m' = dropped (lib.put_state w.key w.value m) in
      let t' : lib.tx_id m' ≢ [] = rw (laws.tx-put w.key w.value m) t in
      get-dump k ws m' t' ∙ ap (λ r. last_write k r ws) (get-one k w m t)

  get-send :
      (k : Text) (e : Option Event) (stub : MockStub M)
      → get_state lib k (send lib e stub) ≡ get_state lib k stub
  unfolding get_state
  get-send k none stub = refl
  get-send k (some e) stub = laws.get-set_event k e.event_name e.payload stub.shim

  -- The choice between two stubs that differ beside the embedded one.
  get-if :
      (k : Text) (b : Bool) (x y : MockStub M)
      → x.shim ≡ y.shim
      → get_state lib k (if b then x else y) ≡ lib.get_state k y.shim
  unfolding get_state
  get-if k true x y e = ap (lib.get_state k) e
  get-if k false x y e = refl

  get-end :
      (k uuid : Text) (stub : MockStub M)
      → lib.tx_id stub.shim ≢ []
      → get_state lib k (mock_transaction_end lib uuid stub)
        ≡ last_write k (get_state lib k stub) stub.state_buffer
  unfolding mock_transaction_end dump_state_buffer get_state
  get-end k uuid stub t =
      let dumped = record stub { shim = dump lib stub.state_buffer stub.shim; state_buffer = [] } in
      let e =
        laws.get-end k uuid (send lib stub.chaincode_event dumped).shim
        ∙ (unfold get_state in get-send k stub.chaincode_event dumped)
        ∙ get-dump k stub.state_buffer stub.shim t in
      get-if k stub.clear_creator_after_invoke _ _ refl ∙ e

  -- When the chaincode has returned a response and left the transaction open, MockInvoke returns
  -- that response and has written its PutState calls to the state, whatever the response: a key
  -- reads as its last write in the transaction, or as what the chaincode left there if it wrote
  -- none, given what shimtest.MockStub documents.
  pub get_state-mock_invoke :
      (k uuid : Text) (args : List Bytes) (invoke : Exec (MockStub M) Response) (res : Response)
      (stub left : MockStub M)
      → invoke (mock_transaction_start lib uuid (set_args lib args stub)) ≡ (ok res, left)
      → lib.tx_id left.shim ≢ []
      → ((mock_invoke lib invoke uuid args stub).0 ≡ ok res)
        × (get_state lib k (mock_invoke lib invoke uuid args stub).1
            ≡ last_write k (get_state lib k left) left.state_buffer)
  unfolding mock_invoke
  get_state-mock_invoke k uuid args invoke res stub left e t = rw e (refl, get-end k uuid left t)

  -- PutState is written when the transaction ends and DelState at once, so a key that the transaction
  -- puts and then deletes is back in the state at its end, with the value of the Put.
  pub get_state-put-del :
      (k uuid : Text) (b : Bytes) (stub put_stub left : MockStub M)
      → put_state lib k b stub ≡ (ok tt, put_stub)
      → del_state lib k put_stub ≡ (ok tt, left)
      → get_state lib k (mock_transaction_end lib uuid left) ≡ ok b
  unfolding del_state
  get_state-put-del k uuid b stub put_stub left p d =
      let (t, s, buf) = put_state-ok lib k b stub put_stub p in
      let shim_e : left.shim ≡ dropped (lib.del_state k put_stub.shim) =
        ap (λ x. x.1.shim) (sym d) in
      let buf_e : left.state_buffer ≡ put_stub.state_buffer = ap (λ x. x.1.state_buffer) (sym d) in
      let tx : lib.tx_id left.shim ≡ lib.tx_id stub.shim =
        ap lib.tx_id shim_e ∙ laws.tx-del k put_stub.shim ∙ ap lib.tx_id s in
      get-end k uuid left (λ z. t (sym tx ∙ z))
      ∙ ap (last_write k (get_state lib k left)) (buf_e ∙ buf)
      ∙ last_write-append k (get_state lib k left) b stub.state_buffer
