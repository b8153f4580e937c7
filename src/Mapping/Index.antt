-- ===== src/Mapping/Index.antt =====
-- state/mapping: the unique indexes of what a state holds. An entity stands at its primary key, every
-- entry of its indexes refers to it, and every entry of an index belongs to an entity.
pub mod Insert
pub mod Delete
pub mod Cases
pub mod Put
use cckit.Base.{
  ◌≡◌, ◌⊎◌, refl, ap, sym, ◌∙◌, subst, Bool, true, false, Option, none, some, List, [], ◌∷◌, ◌++◌,
  map, Text, Bytes, codes, arith, All, All-implies, In, In-All, inl, inr, Bool-cases,
}
use cckit.Lang.Error.{Error, noted}
use cckit.Lang.Result.{Result, ok, err, panic, on_err, ok-injective, >>=-eq-ok}
use cckit.Lang.Value.{obj, Methods}
use cckit.Mapping.KeyRefs.{mapped_key, mapped_keys, key_of_instance, new_key_ref}
use cckit.Mapping.KeyRefs.Laws.{ref_key_of, as_mapped, keys-AreRefs, IsRefOf}
use cckit.Mapping.MappedState.Loops.{insertions, deletions, IsApart, AreFree}
use cckit.Mapping.MappedState.Writes.{IsMapped}
use cckit.Mapping.Schema.{Entity, key_ref, Schema, KeyRef, Field}
use cckit.Mapping.StateMappings.{
  StateMapping, StateMappings, ProtoStateMapped, map_entry, get, map_by, key_eq, primary_key,
}
use cckit.Mapping.Views.{View, key_eq_refl}
use cckit.State.Key.{Key}

-- Entries of indexes at one ledger key that refer to one entity are the same.
pub same_ref : (r q : KeyRef) → ref_key_of r ≡ ref_key_of q → r.p_key ≡ q.p_key → r ≡ q
same_ref r q k p = ground arith

cons-injective : {A : Type 0} {a b : A} {as' bs : List A} → a ∷ as' ≡ b ∷ bs → (a ≡ b) × (as' ≡ bs)
cons-injective h = (cc, cc)

key_ref_injective :
    {U : Type 0} {r q : KeyRef} → ◌≡◌ {A = Schema U} (obj (key_ref r)) (obj (key_ref q)) → r ≡ q
key_ref_injective h = cc

map_by-instance :
    {U : Type 0} (m : Methods (Entity U)) (show : Error → Text) (reflect : U → Option (List Field))
    (sm : StateMapping U) (entry : Schema U) (marshalled : Option (Result Bytes))
    (pm : ProtoStateMapped U)
    → map_by m show reflect sm entry marshalled ≡ ok pm
    → pm.instance_ ≡ entry
map_by-instance m show reflect sm entry (some b) pm h =
    ap (λ (q : ProtoStateMapped _). q.instance_) (ok-injective (sym h))
map_by-instance m show reflect sm entry none pm h = cc

module _ {U : Type 0} (m : Methods (Entity U)) (show : Error → Text)
    (reflect : U → Option (List Field)) (mappings : StateMappings U) where
  pub record IsIndexed (w : View (Entity U)) : Type 0 where
    pub complete :
        (j : Key) (x : Entity U) (pm : ProtoStateMapped U) (pk : Key) (rs : List KeyRef)
        → w j ≡ some x
        → IsMapped m show reflect mappings (obj x) pm pk rs
        → (j ≡ pk) × All (λ (r : KeyRef). w (ref_key_of r) ≡ some (key_ref r)) rs
    pub sound :
        (j : Key) (r : KeyRef)
        → w j ≡ some (key_ref r)
        → (x : Entity U) × (pm : ProtoStateMapped U) × (rs : List KeyRef) × (w r.p_key ≡ some x)
          × IsMapped m show reflect mappings (obj x) pm r.p_key rs
          × In r rs
          × (j ≡ ref_key_of r)

  -- The mappings leave the entries of the indexes alone: none is of their type, and no primary key is
  -- in their namespace.
  pub record LeavesRefs : Type 0 where
    pub no_ref :
        (r : KeyRef) (pm : ProtoStateMapped U)
        → ¬ (map_entry m show reflect (obj (key_ref r)) mappings ≡ ok pm)
    pub apart :
        (x : Entity U) (pm : ProtoStateMapped U) (pk : Key) (rs : List KeyRef) (r : KeyRef)
        → IsMapped m show reflect mappings (obj x) pm pk rs
        → key_eq (ref_key_of r) pk ≡ false

  as_mapped_injective :
      (rs qs : List KeyRef)
      → map (as_mapped m show reflect) rs ≡ map (as_mapped m show reflect) qs
      → rs ≡ qs
  as_mapped_injective [] [] e = refl
  as_mapped_injective [] (q ∷ qs) e = cc
  as_mapped_injective (r ∷ rs) [] e = cc
  as_mapped_injective (r ∷ rs) (q ∷ qs) e =
      let (i, j) = cons-injective e in
      let same : r ≡ q = key_ref_injective (ap (λ (pm : ProtoStateMapped U). pm.instance_) i) in
      cc (as_mapped_injective rs qs j)

  -- An entry has one key and one list of index entries.
  pub IsMapped-functional :
      (v : Schema U) (pm pm' : ProtoStateMapped U) (pk pk' : Key) (rs rs' : List KeyRef)
      → IsMapped m show reflect mappings v pm pk rs
      → IsMapped m show reflect mappings v pm' pk' rs'
      → (pk ≡ pk') × (rs ≡ rs')
  IsMapped-functional v pm pm' pk pk' rs rs' a b =
      let same : pm ≡ pm' = ok-injective (sym a.is_mapped ∙ b.is_mapped) in
      (
        ok-injective (sym a.key ∙ ap (mapped_key m show reflect) same ∙ b.key),
        as_mapped_injective rs rs'
            (ok-injective (sym a.refs ∙ ap (mapped_keys m show reflect) same ∙ b.refs)),
      )

  pub map_entry-instance :
      (x : Entity U) (pm : ProtoStateMapped U)
      → map_entry m show reflect (obj x) mappings ≡ ok pm
      → pm.instance_ ≡ obj x
  unfolding map_entry
  map_entry-instance x pm h =
      let (sm, e, f) =
        >>=-eq-ok (on_err (noted (codes "mapping")) (get m show reflect (obj x) mappings)) _ h in
      map_by-instance m show reflect sm (obj x) (m.proto_marshal x) pm f

  -- The index entries of an entity refer to its primary key.
  pub IsMapped-own :
      (x : Entity U) (pm : ProtoStateMapped U) (pk : Key) (rs : List KeyRef)
      → IsMapped m show reflect mappings (obj x) pm pk rs
      → All (λ (r : KeyRef). r.p_key ≡ pk) rs
  unfolding mapped_key mapped_keys new_key_ref
  IsMapped-own x pm pk rs a =
      let inst = map_entry-instance x pm a.is_mapped in
      let key : primary_key m show reflect pm.state_mapper pm.instance_ ≡ ok pk =
        subst (λ v. primary_key m show reflect pm.state_mapper v ≡ ok pk) (sym inst)
          (subst (λ v. key_of_instance m show reflect pm.state_mapper v ≡ ok pk) inst a.key) in
      let (qs, e, f) = keys-AreRefs m show reflect pm.state_mapper pm.instance_ _ a.refs in
      let same = as_mapped_injective rs qs e in
      subst (λ l. All (λ (r : KeyRef). r.p_key ≡ pk) l) (sym same)
        (All-implies (λ r (idx, rk, h). ap (λ (q : KeyRef). q.p_key) h) qs (f pk key))
