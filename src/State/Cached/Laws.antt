-- ===== src/State/Cached/Laws.antt =====
-- What the cache of state/state_cached.go adds to the stub, and what it gets wrong.
use cckit.Base.{
  ◌≡◌, ◌≢◌, sym, ◌∙◌, ap, inl, inr, Bool-cases, some, List, [], ◌∷◌, arith, Text, Bytes, find,
  store, text_eq, text_eq_iff, find-store, find-store_self,
}
use cckit.Lang.Result.{ok}
use cckit.Lang.Value.{Value, Methods}
use cckit.State.Cached.{WithTxCache, stub_of, cached_or, cached_put, cached_get, with_cache}
use cckit.State.Impl.{Impl, get, put, delete}
use cckit.State.Impl.Laws.{Decodes, put-eq-ok, get-of-read}
use cckit.State.Stub.{Stub, ReadsWrites}

-- A write changes what the stub reads at no other key. The stub of a peer reads what was committed
-- before the transaction, so there it holds at the key itself too.
abbrev pub ReadsFrame : {S : Type 0} → Stub S → Type 0
ReadsFrame {S} stub =
    (k j : Text) (b : Bytes) (s s' : S)
    → k ≢ j
    → stub.put_state k b s ≡ (ok tt, s')
    → stub.get_state j s' ≡ stub.get_state j s

module _ {S U : Type 0} (i : Impl S U) where
  cached_put-cache :
      (k : Text) (b : Bytes) (s s' : WithTxCache S)
      → cached_put i.stub k b s ≡ (ok tt, s')
      → s'.1 ≡ store k b s.1
  unfolding cached_put
  cached_put-cache k b (s, c) s' h = sym (ap (λ p. p.1.1) h)

  cached_put-stub :
      (k : Text) (b : Bytes) (s s' : WithTxCache S)
      → cached_put i.stub k b s ≡ (ok tt, s')
      → i.stub.put_state k b s.0 ≡ (ok tt, s'.0)
  unfolding cached_put
  cached_put-stub k b (s, c) s' h = λ j. ((h j).0, (h j).1.0)

  cached_get-found :
      (k : Text) (b : Bytes) (s : WithTxCache S)
      → find k s.1 ≡ some b
      → cached_get i.stub k s ≡ ok b
  unfolding cached_get
  cached_get-found k b s h = ap (λ o. cached_or o (i.stub.get_state k s.0)) h

  cached_get-cached_put :
      (k : Text) (b : Bytes) (s s' : WithTxCache S)
      → cached_put i.stub k b s ≡ (ok tt, s')
      → cached_get i.stub k s' ≡ ok b
  cached_get-cached_put k b s s' h =
      cached_get-found k b s' (ap (find k) (cached_put-cache k b s s' h) ∙ find-store_self k b s.1)

  cached_get-cached_put_ne :
      ReadsFrame i.stub
      → (k j : Text) (b : Bytes) (s s' : WithTxCache S) → k ≢ j
      → cached_put i.stub k b s ≡ (ok tt, s')
      → cached_get i.stub j s' ≡ cached_get i.stub j s
  unfolding cached_get
  cached_get-cached_put_ne frame k j b s s' ne h =
      let e = cached_put-cache k b s s' h in
      let f = frame k j b s.0 s'.0 ne (cached_put-stub k b s s' h) in
      elim (Bool-cases (text_eq k j)) [
        | inl same ↦ absurd (ne ((text_eq_iff k j).0 same))
        | inr other ↦
            ap (λ c. cached_or (find j c) (i.stub.get_state j s'.0)) e
            ∙ ap (λ o. cached_or o (i.stub.get_state j s'.0)) (find-store k j b s.1 ∙ rw other)
            ∙ ap (cached_or (find j s.1)) f
      ]

  -- With the cache a transaction reads its own writes, also where the stub does not: a write is
  -- read back at its key, and changes what is read at no other key, if it changes what the stub
  -- reads at no other key.
  pub with_cache-ReadsWrites :
      ReadsFrame i.stub → ReadsWrites (with_cache i).get_state (with_cache i).put_state
  unfolding with_cache
  with_cache-ReadsWrites frame = record {
    get-put = cached_get-cached_put;
    get-put_ne = cached_get-cached_put_ne frame;
  }

  module _ (m : Methods U) where
    delete-cache :
        (entry : Value U) (s s' : WithTxCache S)
        → delete m (with_cache i) entry s ≡ (ok tt, s')
        → s'.1 ≡ s.1
    unfolding delete with_cache stub_of
    delete-cache entry s s' h = ground (arith, h)

    -- Delete removes the entry from the stub and leaves it in the cache: after a Put and a Delete
    -- that both succeed, Get still returns the value, if Get decodes what Put encodes.
    pub get-delete-put :
        (entry v : Value U) (config : List (Value U)) (s s' s'' : WithTxCache S)
        → Decodes (with_cache i) v config
        → put m (with_cache i) entry (v ∷ []) s ≡ (ok tt, s')
        → delete m (with_cache i) entry s' ≡ (ok tt, s'')
        → get m (with_cache i) entry config s'' ≡ ok v
    unfolding with_cache
    get-delete-put entry v config s s' s'' d p q =
        let (t, bb, kt, pt, w) = put-eq-ok m (with_cache i) entry v s s' p in
        let (full, back) = d.decodes bb pt in
        let kept =
          ap (find t.string) (delete-cache entry s' s'' q ∙ cached_put-cache t.string bb s s' w)
          ∙ find-store_self t.string bb s.1 in
        get-of-read m (with_cache i) entry v config s'' t bb kt
          (cached_get-found t.string bb s'' kept) full back
