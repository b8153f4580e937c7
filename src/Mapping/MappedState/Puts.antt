-- ===== src/Mapping/MappedState/Puts.antt =====
-- state/mapping/state.go: Put keeps the unique indexes, whether it replaces an entity or not.
use cckit.Base.{
  ◌≡◌, ap, sym, ◌∙◌, subst, false, Bool-cases, Option, Option-cases, none, some, List, [], ◌∷◌,
  ◌++◌, map, Text, codes, All-of-In, In, In-All, inl, inr, is_empty,
}
use cckit.Lang.Error.{Error, noted}
use cckit.Lang.Exec.{Exec, continue, continue-eq-ok, read-eq-ok}
use cckit.Lang.Result.{Result, ok, on_err, on_err-eq-ok, ok-injective, Result-cases}
use cckit.Lang.Value.{obj, Methods}
use cckit.Mapping.Diff.Sets.{IsDifference, key_refs_diff-IsDifference}
use cckit.Mapping.Index.{IsIndexed, LeavesRefs, map_entry-instance}
use cckit.Mapping.Index.Insert as Insertion
use cckit.Mapping.Index.Put.{HasStrings, put_view_pk, put_view-IsIndexed}
use cckit.Mapping.Interface.{State, mapped}
use cckit.Mapping.KeyRefs.{mapped_key, mapped_keys}
use cckit.Mapping.KeyRefs.Laws.{ref_key_of, as_mapped}
use cckit.Mapping.MappedState.{put, get, ref_changes, delete_refs, insert_refs, target_of_mapping}
use cckit.Mapping.MappedState.Loops.{
  insertions, deletions, AreFree, AreStored, IsApart, insert_refs-writes, delete_refs-writes,
}
use cckit.Mapping.MappedState.Writes.{IsMapped, IsTyped}
use cckit.Mapping.Schema.{Entity, key_ref, Schema, KeyRef, Field}
use cckit.Mapping.Spec.{StateSpec}
use cckit.Mapping.StateMappings.{StateMappings, ProtoStateMapped, key_eq}
use cckit.Mapping.Views.{update, over, over-append, key_eq_sound}
use cckit.State.Key.{Key, key_string}

pub obj_injective : {U : Type 0} {x y : U} → obj x ≡ obj y → x ≡ y
obj_injective h = cc

module _ {S U : Type 0} (m : Methods (Entity U)) (show : Error → Text)
    (reflect : U → Option (List Field)) (st : State S U) (mappings : StateMappings U)
    (spec : StateSpec m show reflect st) (typed : IsTyped m show reflect st mappings spec) where
  -- The two loops of Put and its write, for what goes and what comes.
  abbrev put_with :
      List (ProtoStateMapped U) → List (ProtoStateMapped U) → ProtoStateMapped U → Exec S (Unit {0})
  put_with del ins pm s =
      continue
        (delete_refs m show reflect st mappings (codes "delete previous mapping key ref") del s)
        λ _ t.
          continue (insert_refs m show reflect st mappings ins t) λ _ u. st.put (mapped pm) [] u

  abbrev put_rest : ProtoStateMapped U → List KeyRef → List KeyRef → Exec S (Unit {0})
  put_rest pm ds is =
      put_with (map (as_mapped m show reflect) ds) (map (as_mapped m show reflect) is) pm

  put_rest-writes :
      (pm : ProtoStateMapped U) (pk : Key) (x : Entity U) (ds is : List KeyRef) (s s' : S)
      → mapped_key m show reflect pm ≡ ok pk
      → pm.instance_ ≡ obj x
      → AreStored m show reflect st mappings spec is
      → spec.stores pk x
      → put_rest pm ds is s ≡ (ok tt, s')
      → (spec.writes s'
          ≡ over (insertions is ++ (pk, some x) ∷ []) (over (deletions ds) (spec.writes s)))
        × ((r : KeyRef) → In r is → IsApart (ref_key_of r) ds → spec.reads s (ref_key_of r) ≡ none)
  put_rest-writes pm pk x ds is s s' ke inst refs stored h =
      let note = codes "delete previous mapping key ref" in
      let (_, t, e1, h1) =
        continue-eq-ok
          (delete_refs m show reflect st mappings note (map (as_mapped m show reflect) ds) s) _ tt
          s' h in
      let (_, u, e2, h2) =
        continue-eq-ok
          (insert_refs m show reflect st mappings (map (as_mapped m show reflect) is) t) _ tt s'
          h1 in
      let (w1, frame) = delete_refs-writes m show reflect st mappings spec note ds s t e1 in
      let (w2, frees, _) = insert_refs-writes m show reflect st mappings spec is t u refs e2 in
      let (k, y, ke', inst', w3, _) =
        spec.put-writes pm u s'
          (λ k y ke' inst'.
            subst (spec.stores k) (obj_injective (sym inst ∙ inst'))
              (subst (λ j. spec.stores j x) (ok-injective (sym ke ∙ ke')) stored))
          h2 in
      let kp : k ≡ pk = ok-injective (sym ke' ∙ ke) in
      let yx : y ≡ x = obj_injective (sym inst' ∙ inst) in
      (
        w3
            ∙ ap (λ j. update j (some y) (spec.writes u)) kp
            ∙ ap (λ z. update pk (some z) (spec.writes u)) yx
            ∙ ap (update pk (some x)) (w2 ∙ ap (over (insertions is)) w1)
            ∙ sym (over-append (insertions is) _ _),
        λ r i apart.
            sym (frame (ref_key_of r) apart)
            ∙ In-All (λ (p : KeyRef). spec.reads t (ref_key_of p) ≡ none) r is frees i,
      )

  -- What a Put of an entity with an index has computed before its writes.
  put-eq-ok :
      (x : Entity U) (pm : ProtoStateMapped U) (pk : Key) (rs : List KeyRef)
      (value : List (Schema U)) (s s' : S)
      → IsMapped m show reflect mappings (obj x) pm pk rs
      → is_empty pm.state_mapper.indexes ≡ false
      → put m show reflect st mappings (obj x) value s ≡ (ok tt, s')
      → (del ins : List (ProtoStateMapped U)) × (ref_changes m show reflect st mappings
            (map (as_mapped m show reflect) rs)
            (st.get
              (mapped pm)
              (target_of_mapping pm.state_mapper pm.state_mapper.keyer_for_schema ∷ [])
              s)
          ≡ ok (del, ins))
        × (put_with del ins pm s ≡ (ok tt, s'))
  unfolding put get
  put-eq-ok x pm pk rs value s s' is has h =
      let (refs, e1, h1) =
        read-eq-ok (on_err (noted (codes "put mapping key refs")) (mapped_keys m show reflect pm)) s
          _ tt s' (rw has at (rw is.is_mapped at h)) in
      let same : refs ≡ map (as_mapped m show reflect) rs =
        ok-injective (sym (on_err-eq-ok _ _ e1) ∙ is.refs) in
      let got =
        st.get (mapped pm) (target_of_mapping pm.state_mapper pm.state_mapper.keyer_for_schema ∷ [])
          s in
      let ((del, ins), e2, h2) =
        read-eq-ok (ref_changes m show reflect st mappings refs got) s _ tt s' h1 in
      (
        del,
        ins,
        subst (λ l. ref_changes m show reflect st mappings l got ≡ ok (del, ins)) same e2,
        h2,
      )

  -- What changes where an entity was there.
  ref_changes-over :
      (y : Entity U) (pm' : ProtoStateMapped U) (pk : Key) (rs qs : List KeyRef)
      (del ins : List (ProtoStateMapped U))
      → IsMapped m show reflect mappings (obj y) pm' pk qs
      → ref_changes m show reflect st mappings (map (as_mapped m show reflect) rs) (ok (obj y))
        ≡ ok (del, ins)
      → (ds is : List KeyRef) × (del ≡ map (as_mapped m show reflect) ds)
        × (ins ≡ map (as_mapped m show reflect) is)
        × IsDifference qs rs ds
        × IsDifference rs qs is
  ref_changes-over y pm' pk rs qs del ins old h =
      let (ds, is, e, goes, comes) = key_refs_diff-IsDifference m show reflect qs rs in
      let pair : ◌≡◌ {A = Result (List (ProtoStateMapped U) × List (ProtoStateMapped U))}
          (ok (map (as_mapped m show reflect) ds, map (as_mapped m show reflect) is))
          (ok (del, ins)) =
        rw e at (rw old.refs at (rw old.is_mapped at h)) in
      let both = ok-injective (sym pair) in
      (ds, is, ap (λ p. p.0) both, ap (λ p. p.1) both, goes, comes)

  -- An entry that comes is apart from all that go.
  comes-IsApart :
      (rs qs ds is : List KeyRef) (r : KeyRef)
      → IsDifference qs rs ds
      → IsDifference rs qs is
      → In r is
      → IsApart (ref_key_of r) ds
  comes-IsApart rs qs ds is r goes comes i = All-of-In ds (λ d k.
      elim (Bool-cases (key_eq (ref_key_of d) (ref_key_of r))) [
        | inr e ↦ e
        | inl e ↦ absurd (
            (comes.only r i).1 d (goes.only d k).0
              (ap key_string (key_eq_sound (ref_key_of d) (ref_key_of r) e)))
      ])

  -- Put where an entity was there.
  put-over :
      (x y : Entity U) (pm pm' : ProtoStateMapped U) (pk : Key) (rs qs : List KeyRef)
      (del ins : List (ProtoStateMapped U)) (s s' : S)
      → LeavesRefs m show reflect mappings
      → HasStrings m show reflect mappings
      → spec.reads s ≡ spec.writes s
      → IsIndexed m show reflect mappings (spec.writes s)
      → IsMapped m show reflect mappings (obj x) pm pk rs
      → IsMapped m show reflect mappings (obj y) pm' pk qs
      → spec.reads s pk ≡ some y
      → spec.stores pk x
      → ref_changes m show reflect st mappings (map (as_mapped m show reflect) rs) (ok (obj y))
        ≡ ok (del, ins)
      → put_with del ins pm s ≡ (ok tt, s')
      → (spec.writes s' pk ≡ some x) × IsIndexed m show reflect mappings (spec.writes s')
  put-over x y pm pm' pk rs qs del ins s s' leaves strings start indexed is old at stored changes
        h =
      let (ds, new, de, ie, goes, comes) = ref_changes-over y pm' pk rs qs del ins old changes in
      let h' : put_rest pm ds new s ≡ (ok tt, s') =
        subst (λ l. put_with l (map (as_mapped m show reflect) new) pm s ≡ (ok tt, s')) de
          (subst (λ l. put_with del l pm s ≡ (ok tt, s')) ie h) in
      let inst = map_entry-instance m show reflect mappings x pm is.is_mapped in
      let (w, frees) =
        put_rest-writes pm pk x ds new s s' is.key inst
          (All-of-In new (λ r i.
            In-All (λ (p : KeyRef). spec.stores (ref_key_of p) (key_ref p)) r rs
              (typed.refs (obj x) pm rs is.is_mapped is.refs) (comes.only r i).0))
          stored h' in
      let v = spec.writes s in
      let at' : v pk ≡ some y = subst (λ f. f pk ≡ some y) start at in
      let free : (r : KeyRef) → In r new → v (ref_key_of r) ≡ none = λ r i.
        subst (λ f. f (ref_key_of r) ≡ none) start
          (frees r i (comes-IsApart rs qs ds new r goes comes i)) in
      (
        ap (λ f. f pk) w
            ∙ put_view_pk m show reflect mappings v x y pm pm' pk rs qs ds new leaves strings is old
                indexed at' goes comes free,
        subst (IsIndexed m show reflect mappings) (sym w) (
            put_view-IsIndexed m show reflect mappings v x y pm pm' pk rs qs ds new leaves strings
              is old indexed at' goes comes free),
      )

  -- Put where nothing was there.
  put-first :
      (x : Entity U) (pm : ProtoStateMapped U) (pk : Key) (rs : List KeyRef) (s s' : S)
      → LeavesRefs m show reflect mappings
      → spec.reads s ≡ spec.writes s
      → IsIndexed m show reflect mappings (spec.writes s)
      → IsMapped m show reflect mappings (obj x) pm pk rs
      → spec.reads s pk ≡ none
      → spec.stores pk x
      → put_rest pm [] rs s ≡ (ok tt, s')
      → (spec.writes s' pk ≡ some x) × IsIndexed m show reflect mappings (spec.writes s')
  put-first x pm pk rs s s' leaves start indexed is at stored h =
      let inst = map_entry-instance m show reflect mappings x pm is.is_mapped in
      let (w, frees) =
        put_rest-writes pm pk x [] rs s s' is.key inst
          (typed.refs (obj x) pm rs is.is_mapped is.refs) stored h in
      let v = spec.writes s in
      let at' : v pk ≡ none = subst (λ f. f pk ≡ none) start at in
      let free : AreFree v rs =
        All-of-In rs (λ r i. subst (λ f. f (ref_key_of r) ≡ none) start (frees r i tt)) in
      (
        ap (λ f. f pk) w
            ∙ Insertion.after-entity m show reflect mappings v x pm pk rs leaves is at' free,
        subst (IsIndexed m show reflect mappings) (sym w) (
            Insertion.after-IsIndexed m show reflect mappings v x pm pk rs leaves is at' free
              indexed),
      )

  -- Where what is held is indexed and read, a Put that succeeds of an entity that is mapped with an
  -- index leaves it at its primary key and leaves what is held indexed, whether nothing was there
  -- or an entity whose index entries it changes, given what a state promises, mappings that leave
  -- the entries of indexes alone and agree with the state on the types of what stands at a key,
  -- index keys that their strings tell apart, that the entity may stand at its key, and that what
  -- was there is mapped.
  pub put-IsIndexed :
      (x : Entity U) (pm : ProtoStateMapped U) (pk : Key) (rs : List KeyRef)
      (value : List (Schema U)) (s s' : S)
      → LeavesRefs m show reflect mappings
      → HasStrings m show reflect mappings
      → spec.reads s ≡ spec.writes s
      → IsIndexed m show reflect mappings (spec.writes s)
      → IsMapped m show reflect mappings (obj x) pm pk rs
      → is_empty pm.state_mapper.indexes ≡ false
      → spec.stores pk x
      → ((y : Entity U)
          → spec.reads s pk ≡ some y
          → (pm' : ProtoStateMapped U) × (qs : List KeyRef) × IsMapped m show reflect mappings
              (obj y)
              pm'
              pk
              qs)
      → put m show reflect st mappings (obj x) value s ≡ (ok tt, s')
      → (spec.writes s' pk ≡ some x) × IsIndexed m show reflect mappings (spec.writes s')
  put-IsIndexed x pm pk rs value s s' leaves strings start indexed is has stored held h =
      let (del, ins, changes, h') = put-eq-ok x pm pk rs value s s' is has h in
      let target = target_of_mapping pm.state_mapper pm.state_mapper.keyer_for_schema in
      elim (Option-cases (spec.reads s pk)) [
        | inr (y, at) ↦
            let (pm', qs, old) = held y at in
            let got =
              spec.get-reads pm pk y target s is.key at
                (typed.target (obj x) pm pk is.is_mapped is.key) in
            put-over x y pm pm' pk rs qs del ins s s' leaves strings start indexed is old at stored
              (rw got at changes) h'
        | inl at ↦ elim (Result-cases (st.get (mapped pm) (target ∷ []) s)) [
          | inl (v, got) ↦
              let (k, y, ke, ve, some_at) =
                spec.get-eq-ok pm v target s (λ k ke. typed.target (obj x) pm k is.is_mapped ke)
                  got in
              let clash : none ≡ some y =
                sym at ∙ ap (spec.reads s) (ok-injective (sym is.key ∙ ke)) ∙ some_at in
              absurd (cc)
          | inr (inl (e, got)) ↦
              let both = ok-injective (rw got at changes) in
              put-first x pm pk rs s s' leaves start indexed is at stored (
                subst (λ l. put_with l (map (as_mapped m show reflect) rs) pm s ≡ (ok tt, s'))
                  (sym (ap (λ p. p.0) both))
                  (subst (λ l. put_with del l pm s ≡ (ok tt, s')) (sym (ap (λ p. p.1) both)) h'))
          | inr (inr got) ↦ absurd (let c = rw got at changes in cc)
        ]
      ]
