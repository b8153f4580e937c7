-- ===== src/Mapping/StateMappings.antt =====
-- state/mapping/state_mapping.go: mappings, and how an entry finds its mapping. A Go map of mappings
-- is iterated in no set order: GetByNamespace takes the first that fits here. A pointer to a mapping is
-- the mapping as the options left it.
use cckit.Base.{
  Bool, true, false, ◌&&◌, Option, none, some, List, [], ◌∷◌, ◌++◌, Text, Bytes, Map, find, codes,
  text_eq, ◌==◌, if◌then◌else◌,
}
use cckit.Lang.Error.{
  Error, base, noted, errorf, entry_type_not_supported, state_mapping_not_found,
  primary_keyer_not_defined,
}
use cckit.Lang.Result.{Result, ok, err, panic, on_err, ◌>>=◌}
use cckit.Lang.Value.{nil, strs, obj, Methods}
use cckit.Mapping.Keyers.{InstanceKeyer, InstanceMultiKeyer}
use cckit.Mapping.Schema.{Entity, Schema, Field}
use cckit.State.Key.{Key, key_string}

pub record StateIndex (U : Type 0) : Type 0 where
  pub name : Text
  pub uniq : Bool
  pub required : Bool
  pub keyer : InstanceMultiKeyer U

pub record StateMapping (U : Type 0) : Type 0 where
  pub schema : Schema U
  pub namespace : Key
  pub keyer_for_schema : Option (Schema U)
  pub primary_keyer : Option (InstanceKeyer U)
  pub list : Option (Schema U)
  pub indexes : List (StateIndex U)

abbrev pub StateMappings : Type 0 → Type 0
StateMappings U = Map (StateMapping U)

-- ProtoStateMapped
pub record ProtoStateMapped (U : Type 0) : Type 0 where
  pub instance_ : Schema U
  pub state_mapper : StateMapping U

-- `t[strings.Index(t, ".")+1:]`
abbrev behind_dot : Text → Option Text → Text
behind_dot t none = t
behind_dot t (some rest) = rest

unfoldable pub from_dot : Text → Option Text
from_dot [] = none
from_dot (c ∷ t) = let rest = from_dot t in if c == 46 then some t else rest

unfoldable pub type_in_package : Text → Text
unfolding from_dot
type_in_package t = behind_dot t (from_dot t)

unfoldable pub key_eq : Key → Key → Bool
key_eq [] [] = true
key_eq (a ∷ j) (b ∷ k) = text_eq a b && key_eq j k
key_eq _ _ = false

module _ {U : Type 0} (m : Methods (Entity U)) (show : Error → Text)
    (reflect : U → Option (List Field)) where
  -- mapKey: a nil entry has no type.
  unfoldable pub map_key : Schema U → Result Text
  map_key nil = panic
  map_key v = ok (m.type_name v)

  unfoldable pub schema_namespace : Schema U → Key
  schema_namespace schema = type_in_package (m.type_name schema) ∷ []

  abbrev is_of_namespace : Key → StateMapping U → Option (Schema U) → Bool
  is_of_namespace namespace mapping none = key_eq mapping.namespace namespace
  is_of_namespace namespace mapping (some _) = false

  unfoldable pub get_by_namespace : Key → StateMappings U → Result (StateMapping U)
  unfolding key_eq
  get_by_namespace namespace [] = err (errorf state_mapping_not_found (key_string namespace))
  get_by_namespace namespace ((_, mapping) ∷ smm) =
      let rest = get_by_namespace namespace smm in
      if is_of_namespace namespace mapping mapping.keyer_for_schema then ok mapping else rest

  abbrev pub or_not_found : Text → Option (StateMapping U) → Result (StateMapping U)
  or_not_found key none = err (errorf state_mapping_not_found key)
  or_not_found key (some mapping) = ok mapping

  -- Get: the first part of a []string names a namespace, and there must be one.
  unfoldable pub get : Schema U → StateMappings U → Result (StateMapping U)
  unfolding map_key
  get (strs []) smm = panic
  get (strs (n ∷ _)) smm = get_by_namespace (n ∷ []) smm
  get entry smm = map_key entry >>= λ key. or_not_found key (find key smm)

  -- The test of Exists, that Get returns no error; a panic goes through.
  abbrev pub is_found : {A : Type 0} → Result A → Result Bool
  is_found (ok _) = ok true
  is_found (err _) = ok false
  is_found panic = panic

  unfoldable pub exists : Schema U → StateMappings U → Result Bool
  exists entry smm = is_found (get entry smm)

  -- What is put in `%s` for the schema and the namespace of a mapping.
  abbrev no_keyer : StateMapping U → Error
  no_keyer sm = errorf primary_keyer_not_defined (key_string sm.namespace)

  abbrev pub primary_key_by : StateMapping U → Option (InstanceKeyer U) → Schema U → Result Key
  primary_key_by sm none entity = err (no_keyer sm)
  primary_key_by sm (some keyer) entity = keyer entity >>= λ key. ok (sm.namespace ++ key)

  -- StateMapping.PrimaryKey
  unfoldable pub primary_key : StateMapping U → Schema U → Result Key
  primary_key sm entity = primary_key_by sm sm.primary_keyer entity

  unfoldable pub primary_key_of : Schema U → StateMappings U → Result Key
  primary_key_of entry smm = get entry smm >>= λ sm. primary_key sm entry

  abbrev pub map_by :
      StateMapping U → Schema U → Option (Result Bytes) → Result (ProtoStateMapped U)
  map_by sm entry (some _) = ok (record { instance_ = entry; state_mapper = sm })
  map_by sm entry none = err (base entry_type_not_supported)

  abbrev map_with : StateMapping U → Schema U → Result (ProtoStateMapped U)
  map_with sm (strs k) = ok (record { instance_ = strs k; state_mapper = sm })
  map_with sm (obj e) = map_by sm (obj e) (m.proto_marshal e)
  map_with sm _ = err (base entry_type_not_supported)

  -- StateMappings.Map
  unfoldable pub map_entry : Schema U → StateMappings U → Result (ProtoStateMapped U)
  map_entry entry smm = on_err (noted (codes "mapping")) (get entry smm) >>= λ sm. map_with sm entry
