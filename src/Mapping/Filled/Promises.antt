-- ===== src/Mapping/Filled/Promises.antt =====
-- state/state.go, state/mapping/state_mapped.go: Impl on a ledger is a state as state/mapping takes it.
use cckit.Base.{◌≡◌, refl, Option, List, [], Text}
use cckit.Lang.Error.{Error}
use cckit.Lang.Value.{strs, obj, state_key, Methods}
use cckit.Mapping.Filled.{filled_get, filled}
use cckit.Mapping.Filled.Views.{Ledger}
use cckit.Mapping.Filled.Reading.{get-views, get-viewed}
use cckit.Mapping.Filled.Writing.{
  Messages, Fits, Stores, key_of-strs, committed_view, pending_view, mapped_put-views,
}
use cckit.Mapping.KeyRefs.Laws.{ref_key_of}
use cckit.Mapping.MappedState.{key_ref_target}
use cckit.Mapping.Schema.{Entity, key_ref, KeyRef, Field}
use cckit.Mapping.Spec.{StateSpec}
use cckit.State.Key.{Key}
use cckit.State.Stub.{Stub, CompositeKeys}
use cckit.Mapping.Filled.Changes.{insert-views, delete-views, noted_key-ok, noted-eq-ok}

module _ {S U : Type 0} (m : Methods (Entity U)) (show : Error → Text)
    (reflect : U → Option (List Field)) (stub : Stub S) (target_at : Key → Entity U)
    (ledger : Ledger stub) (keys : CompositeKeys stub) (messages : Messages m) where
  -- Impl on a ledger keeps what state/mapping relies on, read at one type for each key, whatever
  -- these types are, as long as the entries of indexes are read as such.
  unfoldable pub impl_promises :
      ((r : KeyRef) → m.type_name key_ref_target ≡ m.type_name (obj (target_at (ref_key_of r))))
      → StateSpec m show reflect (filled m show reflect stub)
  unfolding filled_get
  impl_promises refs = record {
    reads = committed_view m show reflect stub target_at ledger keys messages;
    writes = pending_view m show reflect stub target_at ledger keys messages;
    fits = Fits m show reflect stub target_at;
    stores = Stores m show reflect stub target_at;
    fits-ref = λ r.
        (tt, (key_ref (record { schema = []; idx = []; ref_key = []; p_key = [] }), refl, refs r));
    insert-writes = insert-views m show reflect stub target_at ledger keys messages;
    put-writes = mapped_put-views m show reflect stub target_at ledger keys messages;
    delete-writes = delete-views m show reflect stub target_at ledger keys messages;
    get-reads = λ pm k x target s ke at fits.
        rw (noted_key-ok m show reflect stub target_at ledger keys messages pm k ke) (
          get-views m show reflect stub target_at ledger keys messages (state_key k) k x target s
            refl at fits);
    get-key_reads = λ k x target s at fits.
        get-views m show reflect stub target_at ledger keys messages (strs k) k x target s
          (key_of-strs m show reflect stub target_at k) at fits;
    get-eq-ok = λ pm v target s fits h.
        let (k, ke, h1) = noted-eq-ok m show reflect stub target_at ledger keys messages pm _ v h in
        let (x, xe, at) =
          get-viewed m show reflect stub target_at ledger keys messages (state_key k) k v target s
            refl (fits k ke) h1 in
        (k, x, ke, xe, at);
    get-key_eq-ok = λ k v target s fits h.
        get-viewed m show reflect stub target_at ledger keys messages (strs k) k v target s
          (key_of-strs m show reflect stub target_at k) fits h;
  }
