-- ===== src/Mapping/Options.antt =====
-- state/mapping/state_mapping_opt.go: the options of a mapping, and Add and AddIndex of
-- state_mapping.go. A pointer to a mapping is the mapping as the options left it.
use cckit.Base.{
  Bool, true, false, Option, none, some, List, [], ◌∷◌, ◌++◌, Text, store, codes, text_eq, is_empty,
  if◌then◌else◌,
}
use cckit.Lang.Error.{Error, base, index_already_exists}
use cckit.Lang.Result.{Result, ok, err, ◌>>=◌}
use cckit.Lang.Value.{Methods}
use cckit.Mapping.Keyers.{
  InstanceKeyer, InstanceMultiKeyer, attrs_keyer, attr_multi_keyer, attrs_from, keyer_as_multi,
}
use cckit.Mapping.Schema.{Entity, Schema, Field}
use cckit.State.Key.{Key}
use cckit.Mapping.StateMappings.{StateIndex, StateMapping, StateMappings, schema_namespace}

pub record StateIndexDef (U : Type 0) : Type 0 where
  pub name : Text
  pub fields : List Text
  pub required : Bool
  pub multi : Bool
  pub keyer : Option (InstanceMultiKeyer U)

abbrev pub StateMappingOpt : Type 0 → Type 0
StateMappingOpt U = StateMapping U × StateMappings U → StateMapping U × StateMappings U

-- Index
unfoldable pub index_named : {U : Type 0} → Text → List (StateIndex U) → Option (StateIndex U)
index_named name [] = none
index_named name (idx ∷ indexes) =
    let rest = index_named name indexes in if text_eq idx.name name then some idx else rest

-- AddIndex; WithIndex drops its error.
abbrev pub add_unless :
    {U : Type 0} → Option (StateIndex U) → StateIndex U → StateMapping U → Result (StateMapping U)
add_unless (some _) idx sm = err (base index_already_exists)
add_unless none idx sm = ok (record sm { indexes = sm.indexes ++ idx ∷ [] })

unfoldable pub add_index : {U : Type 0} → StateIndex U → StateMapping U → Result (StateMapping U)
unfolding index_named
add_index idx sm = add_unless (index_named idx.name sm.indexes) idx sm

-- `_ = sm.AddIndex(…)`
abbrev pub or_same : {U : Type 0} → StateMapping U → Result (StateMapping U) → StateMapping U
or_same sm (ok sm') = sm'
or_same sm _ = sm

module _ {U : Type 0} (m : Methods (Entity U)) (show : Error → Text)
    (reflect : U → Option (List Field)) where
  -- The options.
  abbrev pub state_namespace : Key → StateMappingOpt U
  state_namespace namespace (sm, smm) = (record sm { namespace = namespace }, smm)

  abbrev pub keyer_for : Schema U → StateMappingOpt U
  keyer_for schema (sm, smm) = (record sm { keyer_for_schema = some schema }, smm)

  abbrev pub list_of : Schema U → StateMappingOpt U
  list_of list (sm, smm) = (record sm { list = some list }, smm)

  abbrev pub p_keyer : InstanceKeyer U → StateMappingOpt U
  p_keyer keyer (sm, smm) = (record sm { primary_keyer = some keyer }, smm)

  abbrev pub p_key_attr : List Text → StateMappingOpt U
  p_key_attr attrs = p_keyer (attrs_keyer m show reflect attrs)

  abbrev pub p_key_id : StateMappingOpt U
  p_key_id = p_key_attr (codes "Id" ∷ [])

  abbrev pub p_key_const : Key → StateMappingOpt U
  p_key_const key = p_keyer (λ _. ok key)

  -- `aa[0]` of the fields, or of the name where there are none.
  abbrev attrs_of : StateIndexDef U → List Text → List Text
  attrs_of idx [] = idx.name ∷ []
  attrs_of idx (f ∷ fs) = f ∷ fs

  abbrev first_of : List Text → Text
  first_of [] = []
  first_of (a ∷ _) = a

  abbrev index_keyer : StateIndexDef U → Option (InstanceMultiKeyer U) → InstanceMultiKeyer U
  index_keyer idx (some keyer) = keyer
  index_keyer idx none =
      let aa = attrs_of idx idx.fields in
      if idx.multi
      then attr_multi_keyer m show reflect (first_of aa)
      else keyer_as_multi (attrs_keyer m show reflect aa)

  unfoldable pub with_index : StateIndexDef U → StateMappingOpt U
  unfolding add_index
  with_index idx (sm, smm) = if is_empty idx.name then (sm, smm) else (
    or_same sm (
        add_index
          (record {
            name = idx.name;
            uniq = true;
            required = idx.required;
            keyer = index_keyer idx idx.keyer;
          })
          sm),
    smm,
  )

  -- UniqKey, with the fields that may be left out.
  abbrev pub uniq_key : Text → List Text → StateMappingOpt U
  uniq_key name ff =
      with_index (record { name = name; fields = ff; required = true; multi = false; keyer = none })

  abbrev pub new_mapping : Schema U → StateMapping U
  new_mapping schema = record {
    schema = schema;
    namespace = [];
    keyer_for_schema = none;
    primary_keyer = none;
    list = none;
    indexes = [];
  }

  unfoldable pub apply_opts :
      List (StateMappingOpt U) → StateMapping U × StateMappings U → StateMapping U × StateMappings U
  apply_opts [] p = p
  apply_opts (opt ∷ opts) p = apply_opts opts (opt p)

  -- applyStateMappingDefaults
  unfoldable pub with_defaults : StateMapping U → StateMapping U
  with_defaults sm =
      if is_empty sm.namespace
      then record sm { namespace = schema_namespace m show reflect sm.schema }
      else sm

  unfoldable pub add : Schema U → List (StateMappingOpt U) → StateMappings U → StateMappings U
  unfolding with_defaults
  add schema opts smm =
      let (sm, smm') = apply_opts opts (new_mapping schema, smm) in
      store (m.type_name schema) (with_defaults sm) smm'

  -- The mapping of the schema of a primary key, which PKeySchema and PKeyComplexId add, given the
  -- names of its fields.
  abbrev pub add_p_key_schema : Schema U → List Text → StateMappingOpt U
  add_p_key_schema pkey_schema attrs (sm, smm) = (
    sm,
    add pkey_schema
        (state_namespace (schema_namespace m show reflect sm.schema)
          ∷ p_key_attr attrs
          ∷ keyer_for sm.schema
          ∷ [])
        smm,
  )

  unfoldable pub p_key_schema : Schema U → Result (StateMappingOpt U)
  p_key_schema pkey_schema = attrs_from m show reflect pkey_schema >>= λ attrs.
      ok (λ p. add_p_key_schema pkey_schema attrs (p_key_attr attrs p))

  unfoldable pub p_key_complex_id : Schema U → Result (StateMappingOpt U)
  p_key_complex_id pkey_schema = attrs_from m show reflect pkey_schema >>= λ attrs.
      ok (λ p. add_p_key_schema pkey_schema attrs (p_key_id p))
