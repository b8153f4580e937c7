-- ===== src/Mapping/KeyRefs/Laws.antt =====
-- state/mapping: where the entries of unique indexes stand, and what they refer to.
use cckit.Base.{
  ◌≡◌, refl, ap, sym, subst, ◌∙◌, Option, List, [], ◌∷◌, ◌++◌, Text, codes, All, All-append, map,
  map-append, text_eq, is_empty, Bool-cases, inl, inr,
}
use cckit.Lang.Error.{Error}
use cckit.Lang.Result.{ok, >>=-eq-ok, ok-injective}
use cckit.Lang.Value.{obj, Methods}
use cckit.Mapping.KeyRefs.{
  new_key_ref, new_key_ref_id, new_key_ref_mapped, new_key_ref_id_mapped, mapped_key, idx_key,
  index_refs, keys, refs_of, uniq_error, key_ref_mapper,
}
use cckit.Mapping.Keyers.{attrs_keyer, attrs_loop, field_by_name, struct_of, key_from_value}
use cckit.Mapping.Schema.{Entity, key_ref, Schema, KeyRef, Field, fields}
use cckit.Mapping.StateMappings.{StateMapping, StateIndex, ProtoStateMapped, primary_key}
use cckit.State.Key.{Key}

-- The ledger key of an entry of an index.
abbrev pub ref_key_of : KeyRef → Key
ref_key_of r = codes "_idx" ∷ r.schema ∷ r.idx ∷ r.ref_key

module _ {U : Type 0} (m : Methods (Entity U)) (show : Error → Text)
    (reflect : U → Option (List Field)) where
  abbrev pub as_mapped : KeyRef → ProtoStateMapped U
  as_mapped r = record { instance_ = obj (key_ref r); state_mapper = key_ref_mapper m show reflect }

  pub mapped_key-as_mapped :
      (r : KeyRef) → mapped_key m show reflect (as_mapped r) ≡ ok (ref_key_of r)
  unfolding mapped_key primary_key attrs_keyer struct_of fields attrs_loop field_by_name
      key_from_value text_eq
  mapped_key-as_mapped r = refl

  -- The entry of an index stands where IdxKey looks for it.
  pub idx_key-new_key_ref :
      (target : Schema U) (idx : Text) (rk pk : Key)
      → idx_key m show reflect target idx rk
        ≡ mapped_key m show reflect (new_key_ref_mapped m show reflect target idx rk pk)
  unfolding idx_key new_key_ref_id_mapped new_key_ref_id new_key_ref_mapped new_key_ref mapped_key
      primary_key attrs_keyer struct_of fields attrs_loop field_by_name key_from_value text_eq
  idx_key-new_key_ref target idx rk pk = refl

  pub mapped_key-id :
      (target : Schema U) (idx : Text) (rk pk : Key)
      → mapped_key m show reflect (new_key_ref_id_mapped m show reflect target idx rk)
        ≡ ok (ref_key_of (new_key_ref m show reflect target idx rk pk))
  unfolding new_key_ref_id_mapped new_key_ref_id new_key_ref mapped_key primary_key attrs_keyer
      struct_of fields attrs_loop field_by_name key_from_value text_eq
  mapped_key-id target idx rk pk = refl

  -- The entries that Keys gives, by what they hold.
  abbrev pub IsRefOf : StateMapping U → Key → KeyRef → Type 0
  IsRefOf sm pk r = (idx : Text) × (rk : Key) × (r ≡ new_key_ref m show reflect sm.schema idx rk pk)

  refs_of-AreRefs :
      (sm : StateMapping U) (idx : StateIndex U) (pk : Key) (ks : List Key)
      → (rs : List KeyRef) × (refs_of m show reflect sm idx pk ks ≡ map as_mapped rs)
        × All (IsRefOf sm pk) rs
  unfolding new_key_ref_mapped
  refs_of-AreRefs sm idx pk [] = ([], refl, tt)
  refs_of-AreRefs sm idx pk (k ∷ ks) =
      let (rs, e, h) = refs_of-AreRefs sm idx pk ks in
      let r = new_key_ref m show reflect sm.schema idx.name k pk in
      (r ∷ rs, ap (λ l. as_mapped r ∷ l) e, ((idx.name, k, refl), h))

  index_refs-AreRefs :
      (sm : StateMapping U) (entity : Schema U) (pk : Key) (indexes : List (StateIndex U))
      (refs : List (ProtoStateMapped U))
      → index_refs m show reflect sm entity pk indexes ≡ ok refs
      → (rs : List KeyRef) × (refs ≡ map as_mapped rs) × All (IsRefOf sm pk) rs
  unfolding index_refs
  index_refs-AreRefs sm entity pk [] refs h = ([], cc, tt)
  index_refs-AreRefs sm entity pk (idx ∷ indexes) refs h =
      let (ks, e, r) = >>=-eq-ok (uniq_error m show reflect idx (idx.keyer entity)) _ h in
      let (rest, e', r') = >>=-eq-ok (index_refs m show reflect sm entity pk indexes) _ r in
      let (rs, f, p) = refs_of-AreRefs sm idx pk ks in
      let (rs', f', p') = index_refs-AreRefs sm entity pk indexes rest e' in
      (
        rs ++ rs',
        ok-injective (sym r')
            ∙ ap (λ l. l ++ rest) f
            ∙ ap (λ l. map as_mapped rs ++ l) f'
            ∙ sym (map-append as_mapped rs rs'),
        All-append (IsRefOf sm pk) rs rs' p p',
      )

  -- Every entry that Keys gives refers to the primary key of the entity, in an index of its schema.
  pub keys-AreRefs :
      (sm : StateMapping U) (entity : Schema U) (refs : List (ProtoStateMapped U))
      → keys m show reflect sm entity ≡ ok refs
      → (rs : List KeyRef) × (refs ≡ map as_mapped rs)
        × ((pk : Key) → primary_key m show reflect sm entity ≡ ok pk → All (IsRefOf sm pk) rs)
  unfolding keys
  keys-AreRefs sm entity refs h = elim (Bool-cases (is_empty sm.indexes)) [
    | inl e ↦ ([], ok-injective (sym (rw e at h)), λ pk p. tt)
    | inr e ↦
        let (pk, f, r) = >>=-eq-ok (primary_key m show reflect sm entity) _ (rw e at h) in
        let (rs, g, a) = index_refs-AreRefs sm entity pk sm.indexes refs r in
        (rs, g, λ pk' f'. subst (λ k. All (IsRefOf sm k) rs) (ok-injective (sym f ∙ f')) a)
  ]
