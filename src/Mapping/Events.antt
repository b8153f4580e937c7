-- ===== src/Mapping/Events.antt =====
-- state/mapping/event.go, event_mapping.go, event_mapped.go: events that take their name from a mapping.
-- A mapped event is a name with its bytes; the interface state.Event takes an entry as it is or mapped.

pub mod Laws
use cckit.Base.{
  Bool, true, false, Option, none, some, List, [], ◌∷◌, Text, Bytes, Map, find, store, codes,
  is_empty, if◌then◌else◌,
}
use cckit.Lang.Error.{Error, base, noted, errorf, event_mapping_not_found, entry_type_not_supported}
use cckit.Lang.Exec.{Exec, lift}
use cckit.Lang.Result.{Result, ok, err, panic, on_err, ◌>>=◌}
use cckit.Lang.Value.{Value, obj, Methods}
use cckit.Mapping.StateMappings.{type_in_package}

pub record EventMapping (U : Type 0) : Type 0 where
  pub schema : Value U
  pub name : Text

abbrev pub EventMappings : Type 0 → Type 0
EventMappings U = Map (EventMapping U)

abbrev pub EventMappingOpt : Type 0 → Type 0
EventMappingOpt U = EventMapping U → EventMapping U

-- ProtoEventMapped
pub record ProtoEventMapped (U : Type 0) : Type 0 where
  pub instance_ : Value U
  pub event_mapper : EventMapping U

-- The name of a mapped event; Namer of state/event.go.
unfoldable pub event_name : {U : Type 0} → ProtoEventMapped U → Result Text
event_name em = ok em.event_mapper.name

-- What the wrapped event is given.
pub data EventArg (U : Type 0) : Type 0 where
  as_is : Value U → EventArg U
  mapped : ProtoEventMapped U → EventArg U

module _ {U : Type 0} (m : Methods U) where
  -- applyEventMappingDefaults
  unfoldable pub with_event_defaults : EventMapping U → EventMapping U
  with_event_defaults em =
      if is_empty em.name then record em { name = type_in_package (m.type_name em.schema) } else em

  unfoldable pub apply_event_opts : List (EventMappingOpt U) → EventMapping U → EventMapping U
  apply_event_opts [] em = em
  apply_event_opts (opt ∷ opts) em = apply_event_opts opts (opt em)

  unfoldable pub add : Value U → List (EventMappingOpt U) → EventMappings U → EventMappings U
  unfolding with_event_defaults apply_event_opts
  add schema opts emm =
      let em = apply_event_opts opts (record { schema = schema; name = [] }) in
      store (m.type_name schema) (with_event_defaults em) emm

  -- mapKey; a nil entry has no type.
  abbrev event_key : Value U → Result Text
  event_key Value.nil = panic
  event_key v = ok (m.type_name v)

  abbrev or_no_mapping : Text → Option (EventMapping U) → Result (EventMapping U)
  or_no_mapping key none = err (errorf event_mapping_not_found key)
  or_no_mapping key (some em) = ok em

  unfoldable pub get : Value U → EventMappings U → Result (EventMapping U)
  get entry emm = event_key entry >>= λ key. or_no_mapping key (find key emm)

  abbrev is_found : {A : Type 0} → Result A → Result Bool
  is_found (ok _) = ok true
  is_found (err _) = ok false
  is_found panic = panic

  unfoldable pub exists : Value U → EventMappings U → Result Bool
  unfolding get
  exists entry emm = is_found (get entry emm)

  abbrev map_proto : EventMapping U → Value U → Option (Result Bytes) → Result (ProtoEventMapped U)
  map_proto em entry (some _) = ok (record { instance_ = entry; event_mapper = em })
  map_proto em entry none = err (base entry_type_not_supported)

  abbrev map_with : EventMapping U → Value U → Result (ProtoEventMapped U)
  map_with em (obj u) = map_proto em (obj u) (m.proto_marshal u)
  map_with em _ = err (base entry_type_not_supported)

  -- EventMappings.Map
  unfoldable pub map_event : Value U → EventMappings U → Result (ProtoEventMapped U)
  map_event entry emm = on_err (noted (codes "mapping")) (get entry emm) >>= λ em. map_with em entry

  -- ProtoEventMapped.ToBytes
  abbrev marshalled : Option (Result Bytes) → Result Bytes
  marshalled (some r) = r
  marshalled none = panic

  abbrev bytes_of_instance : Value U → Result Bytes
  bytes_of_instance (obj u) = marshalled (m.proto_marshal u)
  bytes_of_instance _ = panic

  unfoldable pub event_bytes : ProtoEventMapped U → Result Bytes
  event_bytes em = bytes_of_instance em.instance_

  module _ {S : Type 0} (set_event : EventArg U → List (Value U) → Exec S (Unit {0})) where
    abbrev without_mapping : Value U → List (Value U) → Exec S (Unit {0})
    without_mapping entry [] =
        lift (event_key entry >>= λ key. err (errorf event_mapping_not_found key))
    without_mapping entry (v ∷ vs) = set_event (as_is entry) (v ∷ vs)

    abbrev with_mapping : Result (ProtoEventMapped U) → List (Value U) → Exec S (Unit {0})
    with_mapping (ok em) value = set_event (mapped em) value
    with_mapping (err e) value = lift (err e)
    with_mapping panic value = lift panic

    -- `exists`, and `mapped` where it is true.
    abbrev set_if :
        Result Bool → Result (ProtoEventMapped U) → Value U → List (Value U) → Exec S (Unit {0})
    set_if (ok true) em entry value = with_mapping em value
    set_if (ok false) em entry value = without_mapping entry value
    set_if (err e) em entry value = lift (err e)
    set_if panic em entry value = lift panic

    -- EventImpl.Set, with mapIfMappingExists
    unfoldable pub set : EventMappings U → Value U → List (Value U) → Exec S (Unit {0})
    unfolding exists map_event
    set emm entry value = set_if (exists entry emm) (map_event entry emm) entry value
