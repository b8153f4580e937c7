-- ===== src/Mapping/Filled/Writing.antt =====
-- state/state.go, state/mapping/state_mapped.go: what Put of Impl writes of a mapped entity to a ledger.
use cckit.Base.{
  ◌≡◌, refl, ap, sym, ◌∙◌, subst, fun_ext, false, Bool-cases, inl, inr, Option, some, none, List,
  [], ◌∷◌, Text, Bytes, is_empty,
}
use cckit.Convert.{to_bytes}
use cckit.Lang.Error.{Error}
use cckit.Lang.Exec.{read-eq-ok}
use cckit.Lang.Result.{Result, ok, >>=-eq-ok, ok-injective}
use cckit.Lang.Value.{strs, bytes, obj, state_key, Methods}
use cckit.Mapping.Filled.{impl, mapped_bytes, asserted, filled_put}
use cckit.Mapping.Filled.Views.{Ledger, decode, view, view-own, view-others}
use cckit.Mapping.Interface.{mapped}
use cckit.Mapping.KeyRefs.{mapped_key}
use cckit.Mapping.Schema.{Entity, Schema, Field}
use cckit.Mapping.StateMappings.{ProtoStateMapped, key_eq}
use cckit.Mapping.Views.{update, key_eq_sound}
use cckit.State.Impl as Impl
use cckit.State.Impl.{new_state, key_of}
use cckit.State.Impl.Laws.{put-eq-ok}
use cckit.State.Key.{Key, TransformedKey, key_to_string, normalize_key}
use cckit.State.Key.Laws.{IsPlainKey}
use cckit.State.Stub.{Stub, CompositeKeys}
use cckit.State.Transformer.{convert_from_bytes, convert_to_bytes}

-- What protobuf documents of messages: what Unmarshal makes of bytes depends on the type of the target
-- alone, is a message, and at the type of what was marshalled is what was marshalled.
pub record Messages {U : Type 0} (m : Methods (Entity U)) : Type 0 where
  pub same_type :
      (x y : Entity U) (bb : Bytes)
      → m.type_name (obj x) ≡ m.type_name (obj y)
      → convert_from_bytes m bb (obj x ∷ []) ≡ convert_from_bytes m bb (obj y ∷ [])
  pub message :
      (x : Entity U) (bb : Bytes) (v : Schema U)
      → convert_from_bytes m bb (obj x ∷ []) ≡ ok v
      → (y : Entity U) × (v ≡ obj y)
  pub unmarshal-marshal :
      (x y : Entity U) (bb : Bytes)
      → m.proto_marshal x ≡ some (ok bb)
      → m.type_name (obj x) ≡ m.type_name (obj y)
      → convert_from_bytes m bb (obj y ∷ []) ≡ ok (obj x)

module _ {S U : Type 0} (m : Methods (Entity U)) (show : Error → Text)
    (reflect : U → Option (List Field)) (stub : Stub S) (target_at : Key → Entity U) where
  -- A target of the type at which the key is viewed.
  abbrev pub Fits : Key → Schema U → Type 0
  Fits k t =
      IsPlainKey k
      × ((e : Entity U) × (t ≡ obj e) × (m.type_name (obj e) ≡ m.type_name (obj (target_at k))))

  -- A message of the type at which the key is viewed, which is not marshalled to nothing.
  abbrev pub Stores : Key → Entity U → Type 0
  Stores k x =
      IsPlainKey k
      × (m.type_name (obj x) ≡ m.type_name (obj (target_at k)))
      × ((bb : Bytes) → m.proto_marshal x ≡ some (ok bb) → is_empty bb ≡ false)

  pub string_of :
      (k : Key) (t : TransformedKey)
      → key_of m (new_state m stub) (state_key k) ≡ ok t
      → key_to_string stub k ≡ ok t.string
  unfolding key_of normalize_key new_state
  string_of k t h =
      let (s, e, r) = >>=-eq-ok (key_to_string stub k) _ h in
      e ∙ ap (λ (x : TransformedKey). ok x.string) (ok-injective r)

  pub key_of-strs :
      (k : Key) → key_of m (new_state m stub) (strs k) ≡ key_of m (new_state m stub) (state_key k)
  unfolding key_of normalize_key
  key_of-strs k = refl

  bytes_of-put : (bb bb' : Bytes) → convert_to_bytes m (bytes bb) [] ≡ ok bb' → bb' ≡ bb
  unfolding convert_to_bytes to_bytes
  bytes_of-put bb bb' h = sym (ok-injective h)

  module _ (ledger : Ledger stub) (keys : CompositeKeys stub) (messages : Messages m) where
    abbrev pub committed_view : S → Key → Option (Entity U)
    committed_view s = view m stub target_at (ledger.committed s)

    abbrev pub pending_view : S → Key → Option (Entity U)
    pending_view s = view m stub target_at (ledger.pending s)

    decode-marshal :
        (k : Key) (x : Entity U) (bb : Bytes)
        → Stores k x
        → m.proto_marshal x ≡ some (ok bb)
        → decode m stub target_at k bb ≡ some x
    decode-marshal k x bb (long, type, full) e =
        rw (full bb e, messages.unmarshal-marshal x (target_at k) bb e type) refl

    -- A change at the string of a key is a change of the view at the key.
    pub view-update :
        (k : Key) (s : Text) (f g : Text → Bytes) (v : Option (Entity U))
        → IsPlainKey k
        → key_to_string stub k ≡ ok s
        → decode m stub target_at k (g s) ≡ v
        → ((t : Text) → ¬ (s ≡ t) → g t ≡ f t)
        → view m stub target_at g ≡ update k v (view m stub target_at f)
    view-update k s f g v long e own others = fun_ext λ j. elim (Bool-cases (key_eq k j)) [
      | inl same ↦
          subst (λ l. view m stub target_at g l ≡ v) (key_eq_sound k j same)
            (view-own m stub target_at k s g long e ∙ own)
          ∙ sym (rw same refl)
      | inr other ↦
          view-others m stub target_at keys k j s f g long e others other ∙ sym (rw other refl)
    ]

    -- Impl.Put of the bytes of a message.
    put-views :
        (k : Key) (x : Entity U) (bb : Bytes) (s s' : S)
        → Stores k x
        → m.proto_marshal x ≡ some (ok bb)
        → Impl.put m (impl m show reflect stub) (state_key k) (bytes bb ∷ []) s ≡ (ok tt, s')
        → (pending_view s' ≡ update k (some x) (pending_view s))
          × ((j : Key) → key_eq k j ≡ false → committed_view s' j ≡ committed_view s j)
    unfolding new_state
    put-views k x bb s s' stores e h =
        let (t, bb', kt, pt, w) =
          put-eq-ok m (impl m show reflect stub) (state_key k) (bytes bb) s s' h in
        let at = string_of k t kt in
        let own = ledger.put-pending t.string bb' s s' w ∙ bytes_of-put bb bb' pt in
        (
          view-update k t.string (ledger.pending s) (ledger.pending s') (some x) stores.0 at
              (ap (decode m stub target_at k) own ∙ decode-marshal k x bb stores e)
              (λ j ne. (ledger.put-others t.string j bb' s s' ne w).0),
          λ j ne.
              view-others m stub target_at keys k j t.string (ledger.committed s)
                (ledger.committed s') stores.0 at
                (λ i other. (ledger.put-others t.string i bb' s s' other w).1) ne,
        )

    mapped_bytes-eq-ok :
        (v : Schema U) (bb : Bytes)
        → mapped_bytes m show reflect stub v ≡ ok bb
        → (x : Entity U) × (v ≡ obj x) × (m.proto_marshal x ≡ some (ok bb))
    unfolding mapped_bytes
    mapped_bytes-eq-ok (obj x) bb h = (x, refl, asserted-eq-ok (m.proto_marshal x) h)
      where
        asserted-eq-ok :
            (o : Option (Result Bytes)) → asserted m show reflect stub o ≡ ok bb → o ≡ some (ok bb)
        asserted-eq-ok none h = cc
        asserted-eq-ok (some r) h = ap some h
    mapped_bytes-eq-ok v bb h = cc

    pub mapped_put-views :
        (pm : ProtoStateMapped U) (s s' : S)
        → ((k : Key) (x : Entity U)
            → mapped_key m show reflect pm ≡ ok k
            → pm.instance_ ≡ obj x
            → Stores k x)
        → filled_put m show reflect stub (mapped pm) [] s ≡ (ok tt, s')
        → (k : Key) × (x : Entity U) × (mapped_key m show reflect pm ≡ ok k)
          × (pm.instance_ ≡ obj x)
          × (pending_view s' ≡ update k (some x) (pending_view s))
          × ((j : Key) → key_eq k j ≡ false → committed_view s' j ≡ committed_view s j)
    unfolding filled_put
    mapped_put-views pm s s' stores h =
        let (k, ke, h1) = read-eq-ok (mapped_key m show reflect pm) s _ tt s' h in
        let (bb, be, h2) =
          read-eq-ok (mapped_bytes m show reflect stub pm.instance_) s _ tt s' h1 in
        let (x, xe, e) = mapped_bytes-eq-ok pm.instance_ bb be in
        let (w, frame) = put-views k x bb s s' (stores k x ke xe) e h2 in (k, x, ke, xe, w, frame)
