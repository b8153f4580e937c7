-- ===== src/CPaperService/Lookup.antt =====
-- examples/cpaper_asservice/service: GetByExternalId finds the paper with that external id.
use cckit.Base.{
  ◌≡◌, ◌↔◌, refl, ap, sym, ◌∙◌, subst, true, some, List, [], ◌∷◌, Text, codes, text_eq, find, inl,
  inr, In,
}
use cckit.CPaperService.{get_by_external_id, paper_of, empty_paper, assert_paper}
use cckit.CPaperService.Indexed.{assert_paper-eq-ok}
use cckit.CPaperService.Mapped.{
  key_of_paper, external_ref, mappings, mapped_paper, mapped_id, paper_key, paper-IsMapped,
  id-IsMapped, IsMapped-cases, leaves, state_mappings-mappings,
}
use cckit.CPaperService.Messages.{
  CommercialPaper, ExternalId, Message, paper, paper_id, Library, reflect, messages, type_name,
}
use cckit.Lang.Error.{Error}
use cckit.Lang.Exec.{Exec}
use cckit.Lang.Result.{Result, ok, >>=-eq-ok, ok-injective}
use cckit.Lang.Strings.{join}
use cckit.Lang.Value.{nil, str, state_key, strs, bytes, int, bool, obj}
use cckit.Mapping.Events.{EventArg}
use cckit.Mapping.Index.{IsIndexed, IsMapped-functional}
use cckit.Mapping.Interface as Interface
use cckit.Mapping.Keyers.{attrs_keyer, attrs_loop, struct_of, field_by_name, key_from_value}
use cckit.Mapping.KeyRefs.{idx_key, mapped_key, new_key_ref_id_mapped, new_key_ref_id}
use cckit.Mapping.KeyRefs.Laws.{ref_key_of}
use cckit.Mapping.MappedState as MappedState
use cckit.Mapping.MappedState.Laws.{get_by_key_iff}
use cckit.Mapping.MappedState.Writes.{IsMapped, IsTyped}
use cckit.Mapping.Schema.{Entity, app, Schema, KeyRef, fields}
use cckit.Mapping.Spec.{StateSpec}
use cckit.State.Key.{Key}
use cckit.Mapping.StateMappings as Mappings
use cckit.Mapping.StateMappings.{
  ProtoStateMapped, map_key, primary_key, schema_namespace, type_in_package, from_dot,
}

In-one : {A : Type 0} {a b : A} → In a (b ∷ []) → a ≡ b
In-one (inl e) = e
In-one (inr e) = absurd e

last_part : {a b c : Text} {t u : Text} → a ∷ b ∷ c ∷ t ∷ [] ≡ a ∷ b ∷ c ∷ u ∷ [] → t ≡ u
last_part h = cc

value_of :
    {T : Type 0} (lib : Library T) (show : Error → Text) (v : Schema (Message T))
    (c : CommercialPaper T)
    → assert_paper lib show v ≡ ok c
    → v ≡ obj (app (paper c))
value_of lib show (obj x) c h = ap obj (assert_paper-eq-ok lib show x c h)
value_of lib show nil c h = cc
value_of lib show (str s) c h = cc
value_of lib show (state_key k) c h = cc
value_of lib show (strs l) c h = cc
value_of lib show (bytes b) c h = cc
value_of lib show (int z) c h = cc
value_of lib show (bool b) c h = cc

module _ {T S : Type 0} (lib : Library T) (show : Error → Text) (st : Interface.State S (Message T))
    (set_event : EventArg (Entity (Message T)) → List (Schema (Message T)) → Exec S (Unit {0}))
    (spec : StateSpec (messages lib) show (reflect lib) st)
    (typed : IsTyped (messages lib) show (reflect lib) st (mappings lib show) spec) where
  paper_exists :
      Mappings.exists
        (messages lib)
        show
        (reflect lib)
        (paper_of lib show (empty_paper lib show))
        (mappings lib show)
      ≡ ok true
  unfolding Mappings.exists Mappings.get map_key find text_eq messages type_name
  paper_exists = refl

  idx_key-ExternalId :
      (t : Text)
      → idx_key
          (messages lib)
          show
          (reflect lib)
          (paper_of lib show (empty_paper lib show))
          (codes "ExternalId")
          (t ∷ [])
        ≡ ok (codes "_idx" ∷ codes "CommercialPaper" ∷ codes "ExternalId" ∷ t ∷ [])
  unfolding idx_key mapped_key new_key_ref_id_mapped new_key_ref_id primary_key attrs_keyer
      attrs_loop struct_of field_by_name key_from_value fields join schema_namespace type_in_package
      from_dot text_eq messages type_name
  idx_key-ExternalId t = refl

  abbrev by_key : ExternalId → S → Result (Schema (Message T))
  by_key id s =
      MappedState.get_by_key (messages lib) show (reflect lib) st (mappings lib show)
        (paper_of lib show (empty_paper lib show)) (codes "ExternalId") (id.id ∷ [])
        (paper_of lib show (empty_paper lib show) ∷ []) s

  by_key_of :
      (id : ExternalId) (c : CommercialPaper T) (s : S)
      → get_by_external_id lib show st set_event id s ≡ ok c
      → by_key id s ≡ ok (obj (app (paper c)))
  unfolding get_by_external_id
  by_key_of id c s h =
      let (v, e, a) = >>=-eq-ok (by_key id s) _ (rw (state_mappings-mappings lib show) at h) in
      e ∙ ap ok (value_of lib show v c a)

  of_by_key :
      (id : ExternalId) (c : CommercialPaper T) (s : S)
      → by_key id s ≡ ok (obj (app (paper c)))
      → get_by_external_id lib show st set_event id s ≡ ok c
  unfolding get_by_external_id
  of_by_key id c s h = rw (state_mappings-mappings lib show) (rw h)

  -- What is mapped is read as a paper.
  aims :
      (y : Entity (Message T)) (pm : ProtoStateMapped (Message T)) (pk : Key) (rs : List KeyRef)
      → IsMapped (messages lib) show (reflect lib) (mappings lib show) (obj y) pm pk rs
      → spec.fits pk (paper_of lib show (empty_paper lib show))
  aims y pm pk rs is = elim (IsMapped-cases lib show y pm pk rs is) [
    | inl (c, e, p, q) ↦
        subst (λ k. spec.fits k (paper_of lib show (empty_paper lib show))) (sym p)
          (typed.target (obj (app (paper c))) (mapped_paper lib show c) (key_of_paper c)
            (paper-IsMapped lib show c).is_mapped (paper-IsMapped lib show c).key)
    | inr (i, e, p, q) ↦
        subst (λ k. spec.fits k (paper_of lib show (empty_paper lib show))) (sym p)
          (typed.target (obj (app (paper_id i))) (mapped_id lib show i)
            (paper_key i.issuer i.paper_number) (id-IsMapped lib show i).is_mapped
            (id-IsMapped lib show i).key)
  ]

  held_iff :
      (id : ExternalId) (c : CommercialPaper T) (s : S)
      → IsIndexed (messages lib) show (reflect lib) (mappings lib show) (spec.reads s)
      → (by_key id s ≡ ok (obj (app (paper c)))) ↔ (
          (pm : _) × (rs : List KeyRef) × (r : KeyRef) × IsMapped
            (messages lib)
            show
            (reflect lib)
            (mappings lib show)
            (obj (app (paper c)))
            pm
            r.p_key
            rs
          × In r rs
          × (idx_key
                (messages lib)
                show
                (reflect lib)
                (paper_of lib show (empty_paper lib show))
                (codes "ExternalId")
                (id.id ∷ [])
              ≡ ok (ref_key_of r))
          × (spec.reads s r.p_key ≡ some (app (paper c))))
  held_iff id c s indexed =
      get_by_key_iff (messages lib) show (reflect lib) st (mappings lib show) spec typed
        (leaves lib show) (paper_of lib show (empty_paper lib show))
        (paper_of lib show (empty_paper lib show)) (codes "ExternalId") (id.id ∷ []) (app (paper c))
        s indexed paper_exists aims

  -- Where what is read is indexed, GetByExternalId returns a paper exactly where that paper is read
  -- at its own key and has that external id, given what a state promises and mappings that agree
  -- with it on the types of what stands at a key.
  pub get_by_external_id_iff :
      (id : ExternalId) (c : CommercialPaper T) (s : S)
      → IsIndexed (messages lib) show (reflect lib) (mappings lib show) (spec.reads s)
      → (get_by_external_id lib show st set_event id s ≡ ok c)
        ↔ ((spec.reads s (key_of_paper c) ≡ some (app (paper c))) × (c.external_id ≡ id.id))
  get_by_external_id_iff id c s indexed = (
    λ h.
        let (pm, rs, r, is, i, kr, at) = (held_iff id c s indexed).0 (by_key_of id c s h) in
        let (p, q) =
          IsMapped-functional (messages lib) show (reflect lib) (mappings lib show)
            (obj (app (paper c))) pm (mapped_paper lib show c) r.p_key (key_of_paper c) rs
            (external_ref c ∷ []) is (paper-IsMapped lib show c) in
        let same : r ≡ external_ref c = In-one (subst (λ l. In r l) q i) in
        (
          ap (spec.reads s) (sym p) ∙ at,
          last_part (ap ref_key_of (sym same) ∙ ok-injective (sym kr ∙ idx_key-ExternalId id.id)),
        ),
    λ (at, e). of_by_key id c s (
        (held_iff id c s indexed).1 (
          mapped_paper lib show c,
          external_ref c ∷ [],
          external_ref c,
          paper-IsMapped lib show c,
          inl refl,
          idx_key-ExternalId id.id
              ∙ ap (λ t. ok (codes "_idx" ∷ codes "CommercialPaper" ∷ codes "ExternalId" ∷ t ∷ []))
                  (sym e),
          at,
        )),
  )
