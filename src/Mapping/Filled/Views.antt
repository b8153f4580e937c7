-- ===== src/Mapping/Filled/Views.antt =====
-- state/state.go: what Impl holds for a ledger, as views of the entities at its keys,
-- and what fabric documents of a peer's ledger.
use cckit.Base.{
  contains, Bool-cases, inl, inr, ◌≡◌, ◌≢◌, refl, sym, ◌∙◌, ap, subst, true, false, Option, none,
  some, [], ◌∷◌, Text, Bytes, is_empty, if◌then◌else◌,
}
use cckit.Lang.Result.{Result, ok, err, panic, ok-injective}
use cckit.Lang.Value.{Value, obj, Methods}
use cckit.Mapping.Schema.{Entity}
use cckit.Mapping.StateMappings.{key_eq}
use cckit.Mapping.Views.{key_eq_refl}
use cckit.State.Key.{Key, key_to_string}
use cckit.State.Key.Laws.{IsPlainKey, key_to_string_injective}
use cckit.State.Stub.{Stub, CompositeKeys}
use cckit.State.Transformer.{convert_from_bytes}

-- A ledger that keeps what was committed, which GetState reads, and what will be committed, which
-- PutState and DelState change at their key. A ledger that reads its own writes is one too.
pub record Ledger {S : Type 0} (stub : Stub S) : Type 0 where
  pub committed : S → Text → Bytes
  pub pending : S → Text → Bytes
  pub get-committed : (k : Text) (s : S) → stub.get_state k s ≡ ok (committed s k)
  pub put-pending :
      (k : Text) (b : Bytes) (s s' : S) → stub.put_state k b s ≡ (ok tt, s') → pending s' k ≡ b
  pub put-others :
      (k j : Text) (b : Bytes) (s s' : S)
      → k ≢ j
      → stub.put_state k b s ≡ (ok tt, s')
      → (pending s' j ≡ pending s j) × (committed s' j ≡ committed s j)
  pub del-pending : (k : Text) (s s' : S) → stub.del_state k s ≡ (ok tt, s') → pending s' k ≡ []
  pub del-others :
      (k j : Text) (s s' : S)
      → k ≢ j
      → stub.del_state k s ≡ (ok tt, s')
      → (pending s' j ≡ pending s j) × (committed s' j ≡ committed s j)

abbrev pub entity_of : {U : Type 0} → Result (Value (Entity U)) → Option (Entity U)
entity_of (ok (obj x)) = some x
entity_of _ = none

module _ {S U : Type 0} (m : Methods (Entity U)) (stub : Stub S) (target_at : Key → Entity U) where
  -- What the bytes are at the target of the key; no bytes are no entity.
  abbrev pub decode : Key → Bytes → Option (Entity U)
  decode k bb =
      if is_empty bb then none else entity_of (convert_from_bytes m bb (obj (target_at k) ∷ []))

  abbrev pub at_string : Key → Result Text → (Text → Bytes) → Option (Entity U)
  at_string k (ok s) f = decode k (f s)
  at_string k _ f = none

  -- A key of one part that looks like a composite key shares its string with that.
  abbrev pub view : (Text → Bytes) → Key → Option (Entity U)
  view f [] = none
  view f (p ∷ []) =
      if contains p 0 then none else at_string (p ∷ []) (key_to_string stub (p ∷ [])) f
  view f (p ∷ q ∷ ps) = at_string (p ∷ q ∷ ps) (key_to_string stub (p ∷ q ∷ ps)) f

  pub view-own :
      (k : Key) (s : Text) (f : Text → Bytes)
      → IsPlainKey k
      → key_to_string stub k ≡ ok s
      → view f k ≡ decode k (f s)
  unfolding key_to_string
  view-own [] s f plain h = cc
  view-own (p ∷ []) s f plain h = rw plain (ap (λ t. decode (p ∷ []) (f t)) (ok-injective h))
  view-own (p ∷ q ∷ ps) s f plain h = rw h refl

  at_string-same :
      (k : Key) (r : Result Text) (f g : Text → Bytes)
      → ((j : Text) → r ≡ ok j → g j ≡ f j)
      → at_string k r g ≡ at_string k r f
  at_string-same k (ok j) f g h = ap (decode k) (h j refl)
  at_string-same k (err e) f g h = refl
  at_string-same k panic f g h = refl

  view-same :
      (k : Key) (f g : Text → Bytes)
      → ((j : Text) → IsPlainKey k → key_to_string stub k ≡ ok j → g j ≡ f j)
      → view g k ≡ view f k
  view-same [] f g h = refl
  view-same (p ∷ []) f g h = elim (Bool-cases (contains p 0)) [
    | inl e ↦ rw e refl
    | inr e ↦ rw e (at_string-same (p ∷ []) (key_to_string stub (p ∷ [])) f g (λ j. h j e))
  ]
  view-same (p ∷ q ∷ ps) f g h =
      at_string-same (p ∷ q ∷ ps) (key_to_string stub (p ∷ q ∷ ps)) f g (λ j. h j tt)

  module _ (laws : CompositeKeys stub) where
    -- A change at the string of a key changes what is viewed at no other key.
    pub view-others :
        (k j : Key) (s : Text) (f g : Text → Bytes)
        → IsPlainKey k
        → key_to_string stub k ≡ ok s
        → ((t : Text) → s ≢ t → g t ≡ f t)
        → key_eq k j ≡ false
        → view g j ≡ view f j
    view-others k j s f g plain h others ne = view-same j f g λ t plain' e. others t λ st.
        let same = key_to_string_injective stub laws k j s plain plain' h (e ∙ ap ok (sym st)) in
        let both = subst (λ l. key_eq k l ≡ true) same (key_eq_refl k) in cc (sym ne ∙ both)
