-- ===== src/Mapping/Filled/Reading.antt =====
-- state/state.go: what Get of Impl reads of a ledger at a target of the type of the key.
use cckit.Base.{
  contains, ◌≡◌, refl, ap, sym, ◌∙◌, false, Bool-cases, inl, inr, Option, some, List, [], ◌∷◌, Text,
  Bytes, is_empty,
}
use cckit.Lang.Error.{Error}
use cckit.Lang.Result.{Result, ok, err, panic, >>=-eq-ok, ok-injective}
use cckit.Lang.Value.{obj, state_key, Methods}
use cckit.Mapping.Filled.Views.{Ledger, decode, view, view-own, entity_of, at_string}
use cckit.Mapping.Filled.Writing.{Messages, Fits, string_of, committed_view}
use cckit.Mapping.Schema.{Entity, Schema, Field}
use cckit.State.Impl as Impl
use cckit.State.Impl.{new_state, key_of, or_default}
use cckit.State.Impl.Laws.{get-of-read}
use cckit.State.Key.{Key, TransformedKey, key_to_string, normalize_key}
use cckit.State.Stub.{Stub, CompositeKeys}
use cckit.State.Transformer.{convert_from_bytes}

entity_of-some :
    {U : Type 0} (r : Result (Schema U)) (x : Entity U) → entity_of r ≡ some x → r ≡ ok (obj x)
entity_of-some (ok (obj y)) x h = cc
entity_of-some (ok v) x h = cc
entity_of-some (err e) x h = cc
entity_of-some panic x h = cc

module _ {S U : Type 0} (m : Methods (Entity U)) (show : Error → Text)
    (reflect : U → Option (List Field)) (stub : Stub S) (target_at : Key → Entity U) where
  decode-some :
      (k : Key) (bb : Bytes) (x : Entity U)
      → decode m stub target_at k bb ≡ some x
      → (is_empty bb ≡ false) × (convert_from_bytes m bb (obj (target_at k) ∷ []) ≡ ok (obj x))
  decode-some k [] x h = cc
  decode-some k (b ∷ bb) x h = (refl, entity_of-some _ x h)

  at_string-some :
      (k : Key) (r : Result Text) (f : Text → Bytes) (x : Entity U)
      → at_string m stub target_at k r f ≡ some x
      → (s : Text) × (r ≡ ok s) × (decode m stub target_at k (f s) ≡ some x)
  at_string-some k (ok s) f x h = (s, refl, h)
  at_string-some k (err e) f x h = cc
  at_string-some k panic f x h = cc

  view-some :
      (k : Key) (f : Text → Bytes) (x : Entity U)
      → view m stub target_at f k ≡ some x
      → (s : Text) × (key_to_string stub k ≡ ok s) × (decode m stub target_at k (f s) ≡ some x)
  view-some [] f x h = cc
  view-some (p ∷ []) f x h = elim (Bool-cases (contains p 0)) [
    | inl e ↦ absurd (let c = rw e at h in cc)
    | inr e ↦ at_string-some (p ∷ []) _ f x (rw e at h)
  ]
  view-some (p ∷ q ∷ ps) f x h = at_string-some (p ∷ q ∷ ps) _ f x h

  key_of-string :
      (k : Key) (s : Text)
      → key_to_string stub k ≡ ok s
      → key_of m (new_state m stub) (state_key k)
        ≡ ok (record { origin = k; parts = k; string = s })
  unfolding key_of normalize_key new_state
  key_of-string k s h = rw h refl

  -- What a Get at one target that succeeds has read.
  get-eq-ok :
      (entry target v : Schema U) (s : S)
      → Impl.get m (new_state m stub) entry (target ∷ []) s ≡ ok v
      → (t : TransformedKey) × (bb : Bytes) × (key_of m (new_state m stub) entry ≡ ok t)
        × (stub.get_state t.string s ≡ ok bb)
        × (is_empty bb ≡ false)
        × (convert_from_bytes m bb (target ∷ []) ≡ ok v)
  unfolding Impl.get new_state
  get-eq-ok entry target v s h =
      let (t, kt, h1) = >>=-eq-ok (key_of m (new_state m stub) entry) _ h in
      let (bb, be, h2) = >>=-eq-ok (stub.get_state t.string s) _ h1 in
      elim (Bool-cases (is_empty bb)) [
        | inl e ↦ absurd (let c = rw e at h2 in cc)
        | inr e ↦ (t, bb, kt, be, e, rw e at h2)
      ]

  module _ (ledger : Ledger stub) (keys : CompositeKeys stub) (messages : Messages m) where
    -- Get returns what is viewed at its key.
    pub get-views :
        (entry : Schema U) (k : Key) (x : Entity U) (target : Schema U) (s : S)
        → key_of m (new_state m stub) entry ≡ key_of m (new_state m stub) (state_key k)
        → committed_view m show reflect stub target_at ledger keys messages s k ≡ some x
        → Fits m show reflect stub target_at k target
        → Impl.get m (new_state m stub) entry (target ∷ []) s ≡ ok (obj x)
    unfolding new_state
    get-views entry k x target s same at (long, (e, te, type)) =
        let (string, ks, d) = view-some k (ledger.committed s) x at in
        let (full, back) = decode-some k (ledger.committed s string) x d in
        get-of-read m (new_state m stub) entry (obj x) (target ∷ []) s
          (record { origin = k; parts = k; string = string }) (ledger.committed s string)
          (same ∙ key_of-string k string ks) (ledger.get-committed string s) full
          (ap (λ z. convert_from_bytes m (ledger.committed s string) (z ∷ [])) te
            ∙ messages.same_type e (target_at k) (ledger.committed s string) type
            ∙ back)

    -- What Get returns is viewed at its key.
    pub get-viewed :
        (entry : Schema U) (k : Key) (v target : Schema U) (s : S)
        → key_of m (new_state m stub) entry ≡ key_of m (new_state m stub) (state_key k)
        → Fits m show reflect stub target_at k target
        → Impl.get m (new_state m stub) entry (target ∷ []) s ≡ ok v
        → (x : Entity U) × (v ≡ obj x)
          × (committed_view m show reflect stub target_at ledger keys messages s k ≡ some x)
    get-viewed entry k v target s same (long, (e, te, type)) h =
        let (t, bb, kt, be, full, conv) = get-eq-ok entry target v s h in
        let held : ledger.committed s t.string ≡ bb =
          ok-injective (sym (ledger.get-committed t.string s) ∙ be) in
        let conv' : convert_from_bytes m bb (obj (target_at k) ∷ []) ≡ ok v =
          sym (messages.same_type e (target_at k) bb type)
          ∙ ap (λ z. convert_from_bytes m bb (z ∷ [])) (sym te)
          ∙ conv in
        let (x, xe) = messages.message (target_at k) bb v conv' in
        (
          x,
          xe,
          view-own m stub target_at k t.string (ledger.committed s) long
                (string_of m show reflect stub target_at k t (sym same ∙ kt))
              ∙ ap (decode m stub target_at k) held
              ∙ rw (full, conv', xe) refl,
        )
