-- ===== src/Mapping/MappedState/Writes.antt =====
-- state/mapping/state.go: what Insert and Delete write, the entries of the indexes included.
use cckit.Base.{
  ◌≡◌, ◌⊎◌, ap, sym, ◌∙◌, subst, true, Option, none, some, List, [], ◌∷◌, ◌++◌, map, Text, codes,
  Bool-cases, inl, inr,
}
use cckit.Lang.Error.{Error}
use cckit.Lang.Exec.{continue-eq-ok}
use cckit.Lang.Result.{ok}
use cckit.Lang.Value.{obj, Methods}
use cckit.Mapping.Interface.{State}
use cckit.Mapping.KeyRefs.{mapped_key, mapped_keys}
use cckit.Mapping.KeyRefs.Laws.{ref_key_of, as_mapped, keys-AreRefs}
use cckit.Mapping.MappedState.{target_of_mapping, insert, delete, get, insert_refs, delete_refs}
use cckit.Mapping.MappedState.Loops.{
  insertions, deletions, IsApart, AreFree, AreStored, insert_refs-writes, delete_refs-writes,
}
use cckit.Mapping.Schema.{Entity, Schema, KeyRef, Field}
use cckit.Mapping.Spec.{StateSpec}
use cckit.Mapping.StateMappings as Mappings
use cckit.Mapping.StateMappings.{ProtoStateMapped, StateMappings, map_entry, key_eq}
use cckit.Mapping.Views.{update, over, over-append, key_eq_sound}
use cckit.State.Key.{Key}

module _ {U : Type 0} (m : Methods (Entity U)) (show : Error → Text)
    (reflect : U → Option (List Field)) (mappings : StateMappings U) where
  -- A mapped entry, with its key and the entries of its indexes.
  pub record IsMapped (entry : Schema U) (pm : ProtoStateMapped U) (pk : Key) (rs : List KeyRef)
      : Type 0 where
    pub is_mapped : map_entry m show reflect entry mappings ≡ ok pm
    pub key : mapped_key m show reflect pm ≡ ok pk
    pub refs : mapped_keys m show reflect pm ≡ ok (map (as_mapped m show reflect) rs)

-- The mappings agree with the types at which the state reads: the target of a mapping fits the keys of
-- its entries, and the entries of indexes may stand at their keys.
pub record IsTyped {S U : Type 0} (m : Methods (Entity U)) (show : Error → Text)
    (reflect : U → Option (List Field)) (st : State S U) (mappings : StateMappings U)
    (spec : StateSpec m show reflect st) : Type 0 where
  pub target :
      (entry : Schema U) (pm : ProtoStateMapped U) (k : Key)
      → map_entry m show reflect entry mappings ≡ ok pm
      → mapped_key m show reflect pm ≡ ok k
      → spec.fits k (target_of_mapping pm.state_mapper pm.state_mapper.keyer_for_schema)
  pub refs :
      (entry : Schema U) (pm : ProtoStateMapped U) (rs : List KeyRef)
      → map_entry m show reflect entry mappings ≡ ok pm
      → mapped_keys m show reflect pm ≡ ok (map (as_mapped m show reflect) rs)
      → AreStored m show reflect st mappings spec rs

module _ {S U : Type 0} (m : Methods (Entity U)) (show : Error → Text)
    (reflect : U → Option (List Field)) (st : State S U) (mappings : StateMappings U)
    (spec : StateSpec m show reflect st) (typed : IsTyped m show reflect st mappings spec) where
  refs_of_mapped :
      (pm : ProtoStateMapped U) (refs : List (ProtoStateMapped U))
      → mapped_keys m show reflect pm ≡ ok refs
      → (rs : List KeyRef) × (refs ≡ map (as_mapped m show reflect) rs)
  unfolding mapped_keys
  refs_of_mapped pm refs h =
      let (rs, e, p) = keys-AreRefs m show reflect pm.state_mapper pm.instance_ refs h in (rs, e)

  IsApart-or-free :
      (s : S) (k : Key) (rs : List KeyRef)
      → AreFree (spec.reads s) rs
      → IsApart k rs ⊎ (spec.reads s k ≡ none)
  IsApart-or-free s k [] h = inl tt
  IsApart-or-free s k (r ∷ rs) (h, hs) = elim (Bool-cases (key_eq (ref_key_of r) k)) [
    | inl e ↦ inr (subst (λ j. spec.reads s j ≡ none) (key_eq_sound _ k e) h)
    | inr e ↦ elim (IsApart-or-free s k rs hs) [ inl a ↦ inl (e, a) | inr f ↦ inr f ]
  ]

  -- What is free after the loop was free before it.
  free-before :
      (s t : S) (k : Key) (rs : List KeyRef)
      → AreFree (spec.reads s) rs
      → ((j : Key) → IsApart j rs → spec.reads t j ≡ spec.reads s j)
      → spec.reads t k ≡ none
      → spec.reads s k ≡ none
  free-before s t k rs frees frame free = elim (IsApart-or-free s k rs frees) [
    | inl a ↦ sym (frame k a) ∙ free
    | inr e ↦ e
  ]

  pub insert-writes :
      (entry : Schema U) (value : List (Schema U)) (pm : ProtoStateMapped U) (s s' : S)
      → map_entry m show reflect entry mappings ≡ ok pm
      → ((k : Key) (x : Entity U)
          → mapped_key m show reflect pm ≡ ok k
          → pm.instance_ ≡ obj x
          → spec.stores k x)
      → insert m show reflect st mappings entry value s ≡ (ok tt, s')
      → (pk : Key) × (rs : List KeyRef) × (x : Entity U) × IsMapped m show reflect mappings entry pm
          pk rs
        × (pm.instance_ ≡ obj x)
        × AreFree (spec.reads s) rs
        × (spec.reads s pk ≡ none)
        × (spec.writes s' ≡ over (insertions rs ++ (pk, some x) ∷ []) (spec.writes s))
  unfolding insert
  insert-writes entry value pm s s' e stored h =
      let (refs, t, ke, h1) =
        continue-eq-ok (mapped_keys m show reflect pm, s) _ tt s' (rw e at h) in
      let same : t ≡ s = ap (λ x. x.1) (sym ke) in
      let refs_e : mapped_keys m show reflect pm ≡ ok refs = ap (λ x. x.0) ke in
      let (rs, re) = refs_of_mapped pm refs refs_e in
      let loop = insert_refs m show reflect st mappings in
      let (u, t', i, fin) = continue-eq-ok (loop refs t) _ tt s' h1 in
      let done : loop (map (as_mapped m show reflect) rs) s ≡ (ok tt, t') =
        subst (λ x. loop (map (as_mapped m show reflect) rs) x ≡ (ok tt, t')) same
          (subst (λ l. loop l t ≡ (ok tt, t')) re i) in
      let (ws, frees, frame) =
        insert_refs-writes m show reflect st mappings spec rs s t'
          (typed.refs entry pm rs e (refs_e ∙ ap ok re)) done in
      let (pk, x, pe, xe, free, w, _) = spec.insert-writes pm t' s' stored fin in
      (
        pk,
        rs,
        x,
        record { is_mapped = e; key = pe; refs = refs_e ∙ ap ok re },
        xe,
        frees,
        free-before s t' pk rs frees frame free,
        w ∙ ap (update pk (some x)) ws ∙ sym (over-append (insertions rs) _ (spec.writes s)),
      )

  pub delete-writes :
      (entry : Schema U) (s s' : S)
      → Mappings.exists m show reflect entry mappings ≡ ok true
      → delete m show reflect st mappings entry s ≡ (ok tt, s')
      → (v : Schema U) × (pm : ProtoStateMapped U) × (pk : Key) × (rs : List KeyRef) × (get m show
            reflect st mappings entry [] s
          ≡ ok v)
        × IsMapped m show reflect mappings v pm pk rs
        × (spec.writes s' ≡ over (deletions rs ++ (pk, none) ∷ []) (spec.writes s))
  unfolding delete
  delete-writes entry s s' e h =
      let (v, t0, ge, h0) =
        continue-eq-ok (get m show reflect st mappings entry [] s, s) _ tt s' (rw e at h) in
      let (pm, t1, me, h1) = continue-eq-ok (map_entry m show reflect v mappings, t0) _ tt s' h0 in
      let (refs, t, ke, h2) = continue-eq-ok (mapped_keys m show reflect pm, t1) _ tt s' h1 in
      let same : t ≡ s = ap (λ x. x.1) (sym ke) ∙ ap (λ x. x.1) (sym me) ∙ ap (λ x. x.1) (sym ge) in
      let refs_e : mapped_keys m show reflect pm ≡ ok refs = ap (λ x. x.0) ke in
      let (rs, re) = refs_of_mapped pm refs refs_e in
      let loop = delete_refs m show reflect st mappings (codes "delete ref key") in
      let (u, t', i, fin) = continue-eq-ok (loop refs t) _ tt s' h2 in
      let done : loop (map (as_mapped m show reflect) rs) s ≡ (ok tt, t') =
        subst (λ x. loop (map (as_mapped m show reflect) rs) x ≡ (ok tt, t')) same
          (subst (λ l. loop l t ≡ (ok tt, t')) re i) in
      let (ws, frame) =
        delete_refs-writes m show reflect st mappings spec (codes "delete ref key") rs s t' done in
      let (pk, pe, w, _) =
        spec.delete-writes pm (target_of_mapping pm.state_mapper pm.state_mapper.keyer_for_schema)
          t' s' (λ k ke'. typed.target v pm k (ap (λ x. x.0) me) ke') fin in
      (
        v,
        pm,
        pk,
        rs,
        ap (λ x. x.0) ge,
        record { is_mapped = ap (λ x. x.0) me; key = pe; refs = refs_e ∙ ap ok re },
        w ∙ ap (update pk none) ws ∙ sym (over-append (deletions rs) _ (spec.writes s)),
      )
