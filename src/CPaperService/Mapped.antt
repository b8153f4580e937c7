-- ===== src/CPaperService/Mapped.antt =====
-- examples/cpaper_asservice/service: the mappings that the service makes, and the keys that a paper has
-- by them.
use cckit.Base.{
  ◌≡◌, ◌⊎◌, refl, ap, sym, ◌∙◌, subst, Bool, true, false, none, some, List, [], ◌∷◌, Text, codes,
  text_eq, find, store, In, inl, inr, drop,
}
use cckit.CPaperService.{state_mappings, empty_paper, paper_of, id_of}
use cckit.CPaperService.Messages.{
  CommercialPaper, CommercialPaperId, Message, paper, paper_id, paper_list, Library, reflect,
  messages, type_name, issuing, buying, redeeming,
}
use cckit.Lang.Error.{Error}
use cckit.Lang.Result.{Result, ok}
use cckit.Lang.Strings.{join}
use cckit.Lang.Value.{obj}
use cckit.Mapping.Diff.Sets.{ref_string}
use cckit.Mapping.Index.{LeavesRefs, IsMapped-functional}
use cckit.Mapping.Index.Put.{HasStrings}
use cckit.Mapping.Keyers.{
  attrs_keyer, attrs_loop, attrs_from, names_kept, skip_field, has_prefix, field_by_name,
  key_from_value, keyer_as_multi, struct_of,
}
use cckit.Mapping.KeyRefs.{
  mapped_key, mapped_keys, keys, index_refs, new_key_ref, new_key_ref_mapped,
}
use cckit.Mapping.KeyRefs.Laws.{ref_key_of}
use cckit.Mapping.MappedState.Writes.{IsMapped}
use cckit.Mapping.Options.{
  add, apply_opts, with_defaults, with_index, add_index, index_named, p_key_schema,
}
use cckit.Mapping.Schema.{Entity, app, key_ref, key_ref_id, KeyRef, fields}
use cckit.Mapping.StateMappings.{
  StateIndex, StateMapping, StateMappings, ProtoStateMapped, map_entry, map_key, primary_key,
  schema_namespace, type_in_package, from_dot, key_eq,
}
use cckit.Mapping.StateMappings.{get as get_mapping}
use cckit.State.Key.{Key, key_string}

abbrev pub paper_key : Text → Text → Key
paper_key issuer number = codes "CommercialPaper" ∷ issuer ∷ number ∷ []

abbrev pub key_of_paper : {T : Type 0} → CommercialPaper T → Key
key_of_paper c = paper_key c.issuer c.paper_number

-- The index entry of a paper.
abbrev pub external_ref : {T : Type 0} → CommercialPaper T → KeyRef
external_ref c = record {
  schema = codes "CommercialPaper";
  idx = codes "ExternalId";
  ref_key = c.external_id ∷ [];
  p_key = key_of_paper c;
}

module _ {T : Type 0} (lib : Library T) (show : Error → Text) where
  abbrev paper_indexes : List (StateIndex (Message T))
  paper_indexes =
      record {
        name = codes "ExternalId";
        uniq = true;
        required = true;
        keyer =
            keyer_as_multi
              (attrs_keyer (messages lib) show (reflect lib) (codes "ExternalId" ∷ []));
      }
      ∷ []

  abbrev pub paper_mapping : StateMapping (Message T)
  paper_mapping = record {
    schema = paper_of lib show (empty_paper lib show);
    namespace = codes "CommercialPaper" ∷ [];
    keyer_for_schema = none;
    primary_keyer =
        some (
          attrs_keyer (messages lib) show (reflect lib)
            (codes "Issuer" ∷ codes "PaperNumber" ∷ []));
    list = some (obj (app (paper_list [])));
    indexes = paper_indexes;
  }

  abbrev pub id_mapping : StateMapping (Message T)
  id_mapping = record {
    schema = id_of lib show (record { issuer = []; paper_number = [] });
    namespace = codes "CommercialPaper" ∷ [];
    keyer_for_schema = some (paper_of lib show (empty_paper lib show));
    primary_keyer =
        some (
          attrs_keyer (messages lib) show (reflect lib)
            (codes "Issuer" ∷ codes "PaperNumber" ∷ []));
    list = none;
    indexes = [];
  }

  abbrev pub mappings : StateMappings (Message T)
  mappings =
      (codes "*schema.CommercialPaperId", id_mapping)
      ∷ (codes "*schema.CommercialPaper", paper_mapping)
      ∷ []

  pub state_mappings-mappings : state_mappings lib show ≡ ok mappings
  unfolding state_mappings add apply_opts with_defaults with_index add_index index_named
      p_key_schema store schema_namespace type_in_package from_dot attrs_from names_kept skip_field
      has_prefix struct_of fields text_eq messages reflect type_name
  state_mappings-mappings = refl

  abbrev pub mapped_paper : CommercialPaper T → ProtoStateMapped (Message T)
  mapped_paper c = record { instance_ = obj (app (paper c)); state_mapper = paper_mapping }

  abbrev pub mapped_id : CommercialPaperId → ProtoStateMapped (Message T)
  mapped_id i = record { instance_ = obj (app (paper_id i)); state_mapper = id_mapping }

  pub paper-IsMapped :
      (c : CommercialPaper T)
      → IsMapped
          (messages lib)
          show
          (reflect lib)
          mappings
          (obj (app (paper c)))
          (mapped_paper c)
          (key_of_paper c)
          (external_ref c ∷ [])
  unfolding mapped_key mapped_keys keys primary_key index_refs keyer_as_multi attrs_keyer struct_of
      fields attrs_loop field_by_name key_from_value text_eq new_key_ref_mapped new_key_ref join
      schema_namespace type_in_package from_dot map_entry get_mapping map_key find messages reflect
      type_name
  paper-IsMapped c = record { is_mapped = refl; key = refl; refs = refl }

  pub id-IsMapped :
      (i : CommercialPaperId)
      → IsMapped
          (messages lib)
          show
          (reflect lib)
          mappings
          (obj (app (paper_id i)))
          (mapped_id i)
          (paper_key i.issuer i.paper_number)
          []
  unfolding mapped_key mapped_keys keys primary_key attrs_keyer struct_of fields attrs_loop
      field_by_name key_from_value text_eq map_entry get_mapping map_key find messages reflect
      type_name
  id-IsMapped i = record { is_mapped = refl; key = refl; refs = refl }

  abbrev is_ok : {A : Type 0} → Result A → Bool
  is_ok (ok a) = true
  is_ok _ = false

  -- The entities that have a mapping, with their keys.
  abbrev IsKeyed : Entity (Message T) → Key → List KeyRef → Type 0
  IsKeyed x pk rs =
      ((c : CommercialPaper T) × (x ≡ app (paper c))
        × (pk ≡ key_of_paper c)
        × (rs ≡ external_ref c ∷ []))
      ⊎ ((i : CommercialPaperId) × (x ≡ app (paper_id i))
          × (pk ≡ paper_key i.issuer i.paper_number)
          × (rs ≡ []))

  -- No other entity has one.
  unmapped :
      (x : Entity (Message T)) (pm : ProtoStateMapped (Message T)) (pk : Key) (rs : List KeyRef)
      → is_ok (map_entry (messages lib) show (reflect lib) (obj x) mappings) ≡ false
      → ¬ (IsMapped (messages lib) show (reflect lib) mappings (obj x) pm pk rs)
  unmapped x pm pk rs h a = let e = sym h ∙ ap is_ok a.is_mapped in cc

  pub IsMapped-cases :
      (x : Entity (Message T)) (pm : ProtoStateMapped (Message T)) (pk : Key) (rs : List KeyRef)
      → IsMapped (messages lib) show (reflect lib) mappings (obj x) pm pk rs
      → IsKeyed x pk rs
  unfolding map_entry get_mapping map_key find text_eq messages type_name
  IsMapped-cases (app (paper c)) pm pk rs a =
      let (p, r) =
        IsMapped-functional (messages lib) show (reflect lib) mappings (obj (app (paper c))) pm
          (mapped_paper c) pk (key_of_paper c) rs (external_ref c ∷ []) a (paper-IsMapped c) in
      inl (c, refl, p, r)
  IsMapped-cases (app (paper_id i)) pm pk rs a =
      let (p, r) =
        IsMapped-functional (messages lib) show (reflect lib) mappings (obj (app (paper_id i))) pm
          (mapped_id i) pk (paper_key i.issuer i.paper_number) rs [] a (id-IsMapped i) in
      inr (i, refl, p, r)
  IsMapped-cases (app (paper_list l)) pm pk rs a = absurd (unmapped _ pm pk rs refl a)
  IsMapped-cases (app (issuing d)) pm pk rs a = absurd (unmapped _ pm pk rs refl a)
  IsMapped-cases (app (buying d)) pm pk rs a = absurd (unmapped _ pm pk rs refl a)
  IsMapped-cases (app (redeeming d)) pm pk rs a = absurd (unmapped _ pm pk rs refl a)
  IsMapped-cases (key_ref r) pm pk rs a = absurd (unmapped _ pm pk rs refl a)
  IsMapped-cases (key_ref_id r) pm pk rs a = absurd (unmapped _ pm pk rs refl a)

  no_ref :
      (r : KeyRef) (pm : ProtoStateMapped (Message T))
      → ¬ (map_entry (messages lib) show (reflect lib) (obj (key_ref r)) mappings ≡ ok pm)
  unfolding map_entry get_mapping map_key find text_eq messages type_name
  no_ref r pm h = let e : false ≡ true = ap is_ok h in cc

  pub leaves : LeavesRefs (messages lib) show (reflect lib) mappings
  unfolding key_eq text_eq
  leaves = record {
    no_ref = no_ref;
    apart = λ x pm pk rs r a. elim (IsMapped-cases x pm pk rs a) [
      | inl (c, e, p, q) ↦ rw p refl
      | inr (i, e, p, q) ↦ rw p refl
    ];
  }

  In-one :
      (x : Entity (Message T)) (pk : Key) (rs : List KeyRef) (r : KeyRef)
      → IsKeyed x pk rs
      → In r rs
      → (c : CommercialPaper T) × (r ≡ external_ref c)
  In-one x pk rs r (inl (c, e, p, q)) i = elim (subst (λ l. In r l) q i) [
    | inl same ↦ (c, same)
    | inr nothing ↦ absurd nothing
  ]
  In-one x pk rs r (inr (j, e, p, q)) i = absurd (subst (λ l. In r l) q i)

  external_of_string :
      (c d : CommercialPaper T)
      → ref_string (external_ref c) ≡ ref_string (external_ref d)
      → c.external_id ≡ d.external_id
  unfolding key_string join
  external_of_string c d h = ap (drop 38) h

  pub strings : HasStrings (messages lib) show (reflect lib) mappings
  strings = record {
    same_key = λ x y pm pm' pk pk' rs qs r q a b i j h.
        let (c, e) = In-one x pk rs r (IsMapped-cases x pm pk rs a) i in
        let (d, f) = In-one y pk' qs q (IsMapped-cases y pm' pk' qs b) j in
        let same = external_of_string c d (ap ref_string (sym e) ∙ h ∙ ap ref_string f) in
        ap ref_key_of e
        ∙ ap (λ t. codes "_idx" ∷ codes "CommercialPaper" ∷ codes "ExternalId" ∷ t ∷ []) same
        ∙ sym (ap ref_key_of f);
  }
