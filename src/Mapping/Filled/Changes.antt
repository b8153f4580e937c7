-- ===== src/Mapping/Filled/Changes.antt =====
-- state/state.go, state/mapping/state_mapped.go: what Insert and Delete of Impl change of a ledger.
use cckit.Base.{
  ◌≡◌, refl, ap, sym, ◌∙◌, subst, true, false, not, Bool-cases, inl, inr, Option, some, none, List,
  [], ◌∷◌, Text, Bytes, is_empty,
}
use cckit.Lang.Error.{Error}
use cckit.Lang.Exec.{read-eq-ok}
use cckit.Lang.Result.{Result, ok, >>=-eq-ok, ok-injective, on_err, on_err-eq-ok}
use cckit.Lang.Result.{◌>>=◌ as bind}
use cckit.Lang.Value.{obj, state_key, Methods}
use cckit.Mapping.Filled.{impl, noted_key, filled_insert, filled_delete}
use cckit.Mapping.Filled.Views.{Ledger, decode, view-own, view-others}
use cckit.Mapping.Filled.Writing.{
  Messages, Fits, Stores, string_of, committed_view, pending_view, view-update, mapped_put-views,
}
use cckit.Mapping.Interface.{mapped}
use cckit.Mapping.KeyRefs.{mapped_key}
use cckit.Mapping.Schema.{Entity, Schema, Field}
use cckit.Mapping.StateMappings.{ProtoStateMapped, key_eq}
use cckit.Mapping.Views.{update}
use cckit.State.Impl as Impl
use cckit.State.Impl.{new_state, key_of, or_default}
use cckit.State.Key.{Key}
use cckit.State.Key.Laws.{IsPlainKey}
use cckit.State.Stub.{Stub, CompositeKeys}

module _ {S U : Type 0} (m : Methods (Entity U)) (show : Error → Text)
    (reflect : U → Option (List Field)) (stub : Stub S) (target_at : Key → Entity U)
    (ledger : Ledger stub) (keys : CompositeKeys stub) (messages : Messages m) where
  noted_key-eq-ok :
      (pm : ProtoStateMapped U) (k : Key)
      → noted_key m show reflect stub pm ≡ ok k
      → mapped_key m show reflect pm ≡ ok k
  unfolding noted_key
  noted_key-eq-ok pm k h = on_err-eq-ok _ _ h

  -- Where Exists is false, nothing is viewed.
  exists-view :
      (k : Key) (s : S)
      → IsPlainKey k
      → Impl.exists m (impl m show reflect stub) (state_key k) s ≡ ok false
      → committed_view m show reflect stub target_at ledger keys messages s k ≡ none
  unfolding Impl.exists new_state
  exists-view k s long h =
      let (t, kt, h1) = >>=-eq-ok (key_of m (impl m show reflect stub) (state_key k)) _ h in
      let (bb, be, h2) = >>=-eq-ok (stub.get_state t.string s) _ h1 in
      let same : ledger.committed s t.string ≡ bb =
        ok-injective (sym (ledger.get-committed t.string s) ∙ be) in
      view-own m stub target_at k t.string (ledger.committed s) long
        (string_of m show reflect stub target_at k t kt)
      ∙ ap (decode m stub target_at k) same
      ∙ empty-decode bb h2
    where
      empty-decode :
          (bb : Bytes) → ok (not (is_empty bb)) ≡ ok false → decode m stub target_at k bb ≡ none
      empty-decode [] e = refl
      empty-decode (b ∷ bb) e = absurd (let c : true ≡ false = ok-injective e in cc)

  pub insert-views :
      (pm : ProtoStateMapped U) (s s' : S)
      → ((k : Key) (x : Entity U)
          → mapped_key m show reflect pm ≡ ok k
          → pm.instance_ ≡ obj x
          → Stores m show reflect stub target_at k x)
      → filled_insert m show reflect stub (mapped pm) [] s ≡ (ok tt, s')
      → (k : Key) × (x : Entity U) × (mapped_key m show reflect pm ≡ ok k)
        × (pm.instance_ ≡ obj x)
        × (committed_view m show reflect stub target_at ledger keys messages s k ≡ none)
        × (pending_view m show reflect stub target_at ledger keys messages s'
            ≡ update k (some x) (pending_view m show reflect stub target_at ledger keys messages s))
        × ((j : Key)
            → key_eq k j ≡ false
            → committed_view m show reflect stub target_at ledger keys messages s' j
              ≡ committed_view m show reflect stub target_at ledger keys messages s j)
  unfolding filled_insert
  insert-views pm s s' stores h =
      let i = impl m show reflect stub in
      let (k, ke, h1) = read-eq-ok (noted_key m show reflect stub pm) s _ tt s' h in
      let (found, fe, h2) = read-eq-ok (Impl.exists m i (state_key k) s) s _ tt s' h1 in
      elim (Bool-cases found) [
        | inl e ↦ absurd (let c = ap (λ p. p.0) (rw e at h2) in cc)
        | inr e ↦
            let (k', x, ke', xe, w, frame) =
              mapped_put-views m show reflect stub target_at ledger keys messages pm s s' stores
                (rw e at h2) in
            let same : k ≡ k' = ok-injective (sym (noted_key-eq-ok pm k ke) ∙ ke') in
            let free =
              exists-view k s (subst IsPlainKey (sym same) (stores k' x ke' xe).0) (fe ∙ ap ok e) in
            (
              k',
              x,
              ke',
              xe,
              subst
                  (λ l.
                    committed_view m show reflect stub target_at ledger keys messages s l ≡ none)
                  same free,
              w,
              frame,
            )
      ]

  pub delete-views :
      (pm : ProtoStateMapped U) (target : Schema U) (s s' : S)
      → ((k : Key)
          → mapped_key m show reflect pm ≡ ok k
          → Fits m show reflect stub target_at k target)
      → filled_delete m show reflect stub (mapped pm) s ≡ (ok tt, s')
      → (k : Key) × (mapped_key m show reflect pm ≡ ok k)
        × (pending_view m show reflect stub target_at ledger keys messages s'
            ≡ update k none (pending_view m show reflect stub target_at ledger keys messages s))
        × ((j : Key)
            → key_eq k j ≡ false
            → committed_view m show reflect stub target_at ledger keys messages s' j
              ≡ committed_view m show reflect stub target_at ledger keys messages s j)
  unfolding filled_delete Impl.delete new_state
  delete-views pm target s s' fits h =
      let (k, ke, h1) = read-eq-ok (on_err _ (noted_key m show reflect stub pm)) s _ tt s' h in
      let (t, te, w) =
        read-eq-ok (on_err _ (key_of m (impl m show reflect stub) (state_key k))) s _ tt s' h1 in
      let ke' = noted_key-eq-ok pm k (on_err-eq-ok _ _ ke) in
      let long = (fits k ke').0 in
      let at = string_of m show reflect stub target_at k t (on_err-eq-ok _ _ te) in
      (
        k,
        ke',
        view-update m show reflect stub target_at ledger keys messages k t.string (ledger.pending s)
            (ledger.pending s') none long at
            (ap (decode m stub target_at k) (ledger.del-pending t.string s s' w))
            (λ j ne. (ledger.del-others t.string j s s' ne w).0),
        λ j ne.
            view-others m stub target_at keys k j t.string (ledger.committed s)
              (ledger.committed s') long at
              (λ i other. (ledger.del-others t.string i s s' other w).1) ne,
      )

  pub noted-eq-ok :
      {A : Type 0} (pm : ProtoStateMapped U) (f : Key → Result A) (a : A)
      → bind (noted_key m show reflect stub pm) f ≡ ok a
      → (k : Key) × (mapped_key m show reflect pm ≡ ok k) × (f k ≡ ok a)
  noted-eq-ok pm f a h =
      let (k, ke, h1) = >>=-eq-ok (noted_key m show reflect stub pm) f h in
      (k, noted_key-eq-ok pm k ke, h1)

  pub noted_key-ok :
      (pm : ProtoStateMapped U) (k : Key)
      → mapped_key m show reflect pm ≡ ok k
      → noted_key m show reflect stub pm ≡ ok k
  unfolding noted_key
  noted_key-ok pm k h = rw h refl
