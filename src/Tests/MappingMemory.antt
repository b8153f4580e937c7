-- ===== src/Tests/MappingMemory.antt =====
-- A peer for the tests of state/mapping: reads see what was committed, writes are kept for the commit,
-- and composite keys are written as shim writes them. The state on it is Impl of state/state.go.
mod Codec
mod Cars
mod CarTests
mod Papers
mod PaperKeys
mod PutTests
mod ServiceTests
use cckit.Base.{
  contains, ◌≡◌, ◌≢◌, refl, ap, sym, ◌∙◌, subst, true, false, Option, none, some, List, [], ◌∷◌,
  Text, Bytes, Map, find, store, without, find-store, find-without, find-store_self, text_eq,
  text_eq_iff, text_eq_refl, Bool-cases, inl, inr, if◌then◌else◌,
}
use cckit.Lang.Error.{external}
use cckit.Lang.Exec.{Exec}
use cckit.Lang.Result.{Result, ok, err}
use cckit.Lang.Value.{Methods}
use cckit.Mapping.Filled.Views.{Ledger, view, at_string}
use cckit.Mapping.Schema.{Entity}
use cckit.Mapping.Filled.{
  filled_get, filled_put, filled_insert, filled_delete, noted_key, mapped_bytes,
}
use cckit.Convert.{to_bytes, from_bytes}
use cckit.State.Impl as Impl
use cckit.State.Transformer.{convert_from_bytes, convert_to_bytes}
use cckit.Response.{shim_success}
use cckit.State.Key.{Key, key_to_string, key_to_composite, normalize_key}
use cckit.State.Stub.{Stub, CompositeKeys}
use cckit.Tests.Memory.Composite.{create, split_key, split_key-create, contains-create}

pub record Peer : Type 0 where
  pub committed : Map Bytes
  pub pending : Map Bytes

abbrev or_empty : Option Bytes → Bytes
or_empty none = []
or_empty (some b) = b

abbrev at_key : Map Bytes → Text → Bytes
at_key l k = or_empty (find k l)

abbrev pub peer : Stub Peer
peer = record {
  create_composite_key = create;
  split_composite_key = split_key;
  get_state = λ k s. ok (at_key s.committed k);
  put_state = λ k b s. (ok tt, record s { pending = store k b s.pending });
  del_state = λ k s. (ok tt, record s { pending = without k s.pending });
  get_history_for_key = λ k s. ok [];
  get_state_by_range = λ a b s. ok [];
  get_state_by_partial_composite_key = λ o a s. ok [];
  get_private_data = λ c k s. ok [];
  put_private_data = λ c k b s. (ok tt, s);
  del_private_data = λ c k s. (ok tt, s);
  get_private_data_by_partial_composite_key = λ c o a s. ok [];
  set_event = λ n b s. (ok tt, s);
  invoke_chaincode = λ n a c s. (ok (shim_success []), s);
  get_args = λ s. [];
  get_transient = λ s. ok [];
  get_creator = λ s. ok [];
}

-- The next transaction starts from what was written.
abbrev pub commit : Peer → Peer
commit s = record { committed = s.pending; pending = s.pending }

abbrev pub bare : Peer
bare = record { committed = []; pending = [] }

pub peer-CompositeKeys : CompositeKeys peer
peer-CompositeKeys = record { split-create = split_key-create; contains-create = contains-create }

abbrev written :
    {S : Type 0} {s s' : S} → ◌≡◌ {A = Result (Unit {0}) × S} (ok tt, s) (ok tt, s') → s' ≡ s
written h = ap (λ p. p.1) (sym h)

abbrev apart : (k j : Text) → k ≢ j → text_eq k j ≡ false
apart k j ne = elim (Bool-cases (text_eq k j)) [
  | inl e ↦ absurd (ne ((text_eq_iff k j).0 e))
  | inr e ↦ e
]

stored_apart :
    (k j : Text) (b : Bytes) (l : Map Bytes) → text_eq k j ≡ false → find j (store k b l) ≡ find j l
stored_apart k j b l e = rw (find-store k j b l, e) refl

kept_apart : (k j : Text) (l : Map Bytes) → text_eq k j ≡ false → find j (without k l) ≡ find j l
kept_apart k j l e = rw (find-without k j l, e) refl

gone : (k : Text) (l : Map Bytes) → find k (without k l) ≡ none
gone k l = rw (find-without k k l, text_eq_refl k) refl

unfoldable pub peer-Ledger : Ledger peer
unfolding stored_apart kept_apart gone
peer-Ledger = record {
  committed = λ s. at_key s.committed;
  pending = λ s. at_key s.pending;
  get-committed = λ k s. refl;
  put-pending = λ k b s s' h.
      ap (λ (t : Peer). at_key t.pending k) (written h)
      ∙ ap or_empty (find-store_self k b s.pending);
  put-others = λ k j b s s' ne h. (
    ap (λ (t : Peer). at_key t.pending j) (written h)
        ∙ ap or_empty (stored_apart k j b s.pending (apart k j ne)),
    ap (λ (t : Peer). at_key t.committed j) (written h),
  );
  del-pending = λ k s s' h.
      ap (λ (t : Peer). at_key t.pending k) (written h) ∙ ap or_empty (gone k s.pending);
  del-others = λ k j s s' ne h. (
    ap (λ (t : Peer). at_key t.pending j) (written h)
        ∙ ap or_empty (kept_apart k j s.pending (apart k j ne)),
    ap (λ (t : Peer). at_key t.committed j) (written h),
  );
}

-- Where nothing is held, nothing is viewed.
module _ {U : Type 0} (m : Methods (Entity U)) (target_at : Key → Entity U) where
  at_string-bare : (k : Key) (r : Result Text) → at_string m peer target_at k r (λ t. []) ≡ none
  at_string-bare k (ok s) = refl
  at_string-bare k (err e) = refl
  at_string-bare k Result.panic = refl

  pub view-bare : (k : Key) → view m peer target_at (λ t. []) k ≡ none
  view-bare [] = refl
  view-bare (p ∷ []) = elim (Bool-cases (contains p 0)) [
    | inl e ↦ rw e refl
    | inr e ↦ rw e (at_string-bare (p ∷ []) (key_to_string peer (p ∷ [])))
  ]
  view-bare (p ∷ q ∷ ps) = at_string-bare (p ∷ q ∷ ps) (key_to_string peer (p ∷ q ∷ ps))

-- What the calls of Impl on the peer compute with.
unfoldable pub calls : Unit {0}
unfolding filled_get filled_put filled_insert filled_delete noted_key mapped_bytes Impl.new_state
    Impl.key_of Impl.get Impl.exists Impl.arg_key_value Impl.put_args Impl.put Impl.insert
    Impl.delete normalize_key key_to_string key_to_composite convert_from_bytes convert_to_bytes
    to_bytes from_bytes create find store without text_eq contains
calls = tt
