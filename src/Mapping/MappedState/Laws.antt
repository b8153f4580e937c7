-- ===== src/Mapping/MappedState/Laws.antt =====
-- state/mapping/state.go: Insert, Delete and GetByUniqKey keep and use the unique indexes.
use cckit.Base.{
  some_injective, ◌≡◌, ◌↔◌, ap, sym, ◌∙◌, subst, true, Option, none, some, List, [], ◌∷◌, ◌++◌,
  Text, In, In-All,
}
use cckit.Lang.Error.{Error}
use cckit.Lang.Result.{ok, ok-injective, on_err, on_err-eq-ok, >>=-eq-ok}
use cckit.Lang.Value.{obj, Methods}
use cckit.Mapping.Index.{IsIndexed, LeavesRefs, map_entry-instance}
use cckit.Mapping.Index.Delete as Deletion
use cckit.Mapping.Index.Insert as Insertion
use cckit.Mapping.Interface.{State, mapped}
use cckit.Mapping.KeyRefs.{new_key_ref, mapped_key, idx_key, new_key_ref_id_mapped}
use cckit.Mapping.KeyRefs.Laws.{ref_key_of, mapped_key-id}
use cckit.Mapping.MappedState.{
  insert, delete, get, get_by_key, key_ref_target, target_of_mapping, not_found_by, assert_key_ref,
}
use cckit.Mapping.MappedState.Loops.{AreFree, insertions}
use cckit.Mapping.MappedState.Writes.{IsMapped, IsTyped, insert-writes, delete-writes}
use cckit.Mapping.Schema.{Entity, app, key_ref, key_ref_id, Schema, KeyRef, Field}
use cckit.Mapping.Spec.{StateSpec}
use cckit.Mapping.StateMappings as Mappings
use cckit.Mapping.StateMappings.{StateMappings, ProtoStateMapped, map_entry}
use cckit.State.Key.{Key}
use cckit.Mapping.Views.{over}

obj_injective : {U : Type 0} {x y : U} → obj x ≡ obj y → x ≡ y
obj_injective h = cc

assert_key_ref-eq-ok :
    {U : Type 0} (y : Entity U) (r : KeyRef) → assert_key_ref (obj y) ≡ ok r → y ≡ key_ref r
assert_key_ref-eq-ok (app u) r h = cc
assert_key_ref-eq-ok (key_ref q) r h = cc
assert_key_ref-eq-ok (key_ref_id q) r h = cc

module _ {S U : Type 0} (m : Methods (Entity U)) (show : Error → Text)
    (reflect : U → Option (List Field)) (st : State S U) (mappings : StateMappings U)
    (spec : StateSpec m show reflect st) (typed : IsTyped m show reflect st mappings spec)
    (leaves : LeavesRefs m show reflect mappings) where
  -- Where what is held is indexed and read, an Insert of an entity with a mapping that succeeds
  -- found its primary key and all the keys of its indexes free, wrote it at its primary key, and
  -- leaves what is held indexed: every entity stands at its primary key, all its index entries
  -- refer to it, and each index entry belongs to an entity, given what a state promises, mappings
  -- that leave the entries of indexes alone and agree with the state on the types of what stands at
  -- a key, and that the entity may stand at its key.
  pub insert-IsIndexed :
      (x : Entity U) (pm : ProtoStateMapped U) (value : List (Schema U)) (s s' : S)
      → spec.reads s ≡ spec.writes s
      → IsIndexed m show reflect mappings (spec.writes s)
      → map_entry m show reflect (obj x) mappings ≡ ok pm
      → ((k : Key) → mapped_key m show reflect pm ≡ ok k → spec.stores k x)
      → insert m show reflect st mappings (obj x) value s ≡ (ok tt, s')
      → (pk : _) × (rs : List KeyRef) × IsMapped m show reflect mappings (obj x) pm pk rs
        × (spec.writes s pk ≡ none)
        × AreFree (spec.writes s) rs
        × (spec.writes s' pk ≡ some x)
        × IsIndexed m show reflect mappings (spec.writes s')
  insert-IsIndexed x pm value s s' start indexed e stored h =
      let (pk, rs, y, is, inst, frees, free, w) =
        insert-writes m show reflect st mappings spec typed (obj x) value pm s s' e
          (λ k z ke ze.
            subst (spec.stores k)
              (obj_injective (sym (map_entry-instance m show reflect mappings x pm e) ∙ ze))
              (stored k ke))
          h in
      let same : y ≡ x =
        obj_injective (sym inst ∙ map_entry-instance m show reflect mappings x pm e) in
      let v = spec.writes s in
      let frees' = subst (λ f. AreFree f rs) start frees in
      let free' = subst (λ f. f pk ≡ none) start free in
      let w' = w ∙ ap (λ z. over (insertions rs ++ (pk, some z) ∷ []) v) same in
      (
        pk,
        rs,
        is,
        free',
        frees',
        ap (λ f. f pk) w'
            ∙ Insertion.after-entity m show reflect mappings v x pm pk rs leaves is free' frees',
        subst (IsIndexed m show reflect mappings) (sym w') (
            Insertion.after-IsIndexed m show reflect mappings v x pm pk rs leaves is free' frees'
              indexed),
      )

  -- Where what is held is indexed and read, a Delete that succeeds of an entry with a mapping, an
  -- entity or a key of one, found an entity there, leaves nothing at its primary key, and leaves
  -- what is held indexed: no index entry of the entity is left, and all those of other entities
  -- are, given what a state promises, mappings that leave the entries of indexes alone and agree
  -- with the state on the types of what stands at a key.
  pub delete-IsIndexed :
      (entry : Schema U) (pe : ProtoStateMapped U) (s s' : S)
      → spec.reads s ≡ spec.writes s
      → IsIndexed m show reflect mappings (spec.writes s)
      → Mappings.exists m show reflect entry mappings ≡ ok true
      → map_entry m show reflect entry mappings ≡ ok pe
      → delete m show reflect st mappings entry s ≡ (ok tt, s')
      → (pk : _) × (x : Entity U) × (mapped_key m show reflect pe ≡ ok pk)
        × (spec.writes s pk ≡ some x)
        × (spec.writes s' pk ≡ none)
        × IsIndexed m show reflect mappings (spec.writes s')
  unfolding get
  delete-IsIndexed entry pe s s' start indexed ex e h =
      let (v, pm, pk, rs, got, is, w) =
        delete-writes m show reflect st mappings spec typed entry s s' ex h in
      let (k, x, ke, ve, at) =
        spec.get-eq-ok pe v (target_of_mapping pe.state_mapper pe.state_mapper.keyer_for_schema) s
          (λ j je. typed.target entry pe j e je) (rw e at got) in
      let at' : spec.writes s k ≡ some x = subst (λ f. f k ≡ some x) start at in
      let is' = subst (λ z. IsMapped m show reflect mappings z pm pk rs) ve is in
      let kp : k ≡ pk = (indexed.complete k x pm pk rs at' is').0 in
      let atp = subst (λ l. spec.writes s l ≡ some x) kp at' in
      (
        pk,
        x,
        ke ∙ ap ok kp,
        atp,
        ap (λ f. f pk) w
            ∙ Deletion.after-gone m show reflect mappings (spec.writes s) x pm pk rs leaves is'
                indexed atp,
        subst (IsIndexed m show reflect mappings) (sym w) (
            Deletion.after-IsIndexed m show reflect mappings (spec.writes s) x pm pk rs leaves is'
              indexed atp),
      )

  -- Where what is read is indexed, GetByUniqKey at a target returns an entity exactly where one of
  -- the entries of its indexes stands at the key of the index and the value asked for, if the
  -- schema asked for has a mapping and all that is mapped is read at the target, given what a state
  -- promises, mappings that leave the entries of indexes alone and agree with the state on the
  -- types of what stands at a key.
  pub get_by_key_iff :
      (entry target : Schema U) (idx : Text) (idx_val : List Text) (x : Entity U) (s : S)
      → IsIndexed m show reflect mappings (spec.reads s)
      → Mappings.exists m show reflect entry mappings ≡ ok true
      → ((y : Entity U) (pm : ProtoStateMapped U) (pk : Key) (rs : List KeyRef)
          → IsMapped m show reflect mappings (obj y) pm pk rs
          → spec.fits pk target)
      → (get_by_key m show reflect st mappings entry idx idx_val (target ∷ []) s ≡ ok (obj x)) ↔ (
          (pm : ProtoStateMapped U) × (rs : List KeyRef) × (r : KeyRef) × IsMapped m show reflect
            mappings
            (obj x)
            pm
            r.p_key
            rs
          × In r rs
          × (idx_key m show reflect entry idx idx_val ≡ ok (ref_key_of r))
          × (spec.reads s r.p_key ≡ some x))
  unfolding get_by_key idx_key
  get_by_key_iff entry target idx idx_val x s indexed ex aims =
      let kid = new_key_ref_id_mapped m show reflect entry idx idx_val in
      (
        λ h.
            let (found, e, h') =
              >>=-eq-ok
                (on_err (not_found_by m show reflect st mappings entry idx)
                  (st.get (mapped kid) (key_ref_target ∷ []) s))
                _ (rw ex at h) in
            let (r, e', h'') = >>=-eq-ok (assert_key_ref found) _ h' in
            let (j, y, kj, fe, at) =
              spec.get-eq-ok kid found key_ref_target s
                (λ k ke.
                  subst (λ l. spec.fits l key_ref_target)
                    (ok-injective (sym (mapped_key-id m show reflect entry idx idx_val []) ∙ ke))
                    (spec.fits-ref (new_key_ref m show reflect entry idx idx_val [])))
                (on_err-eq-ok _ _ e) in
            let ye = assert_key_ref-eq-ok y r (subst (λ f. assert_key_ref f ≡ ok r) fe e') in
            let (z, pm, rs, at_r, is, i, jr) =
              indexed.sound j r (subst (λ f. spec.reads s j ≡ some f) ye at) in
            let (z', ze, at_z) =
              spec.get-key_eq-ok r.p_key (obj x) target s (aims z pm r.p_key rs is) h'' in
            let zx : z ≡ x = some_injective (sym at_r ∙ at_z ∙ ap some (obj_injective (sym ze))) in
            (
              pm,
              rs,
              r,
              subst (λ f. IsMapped m show reflect mappings (obj f) pm r.p_key rs) zx is,
              i,
              kj ∙ ap ok jr,
              subst (λ f. spec.reads s r.p_key ≡ some f) zx at_r,
            ),
        λ (pm, rs, r, is, i, kr, at).
            let at_r =
              In-All (λ (p : KeyRef). spec.reads s (ref_key_of p) ≡ some (key_ref p)) r rs
                (indexed.complete r.p_key x pm r.p_key rs at is).1 i in
            let first =
              spec.get-reads kid (ref_key_of r) (key_ref r) key_ref_target s kr at_r
                (spec.fits-ref r) in
            let second = spec.get-key_reads r.p_key x target s at (aims x pm r.p_key rs is) in
            rw ex (rw first second),
      )
