-- ===== src/Mapping/Events/Laws.antt =====
-- state/mapping: what Add of event mappings makes of Set.
use cckit.Base.{
  [], ◌≡◌, ◌≢◌, refl, sym, some, List, find-store, find-store_self, text_eq, text_eq_iff, Bytes,
  Bool-cases, inl, inr, true,
}
use cckit.Lang.Exec.{Exec}
use cckit.Lang.Result.{Result, ok}
use cckit.Lang.Value.{Value, obj, Methods}
use cckit.Mapping.Events.{
  EventMapping, EventMappings, EventMappingOpt, EventArg, mapped, with_event_defaults,
  apply_event_opts, add, get, exists, map_event, set,
}

module _ {S U : Type 0} (m : Methods U)
    (set_event : EventArg U → List (Value U) → Exec S (Unit {0})) (schema : Value U)
    (opts : List (EventMappingOpt U)) (emm : EventMappings U) where
  abbrev em : EventMapping U
  em = with_event_defaults m (apply_event_opts m opts (record { schema = schema; name = [] }))

  get-add :
      (u : U)
      → m.type_name (obj u) ≡ m.type_name schema
      → get m (obj u) (add m schema opts emm) ≡ ok em
  unfolding get add
  get-add u same = rw (same, find-store_self (m.type_name schema) em emm) refl

  get-add_ne :
      (w : U)
      → m.type_name (obj w) ≢ m.type_name schema
      → get m (obj w) (add m schema opts emm) ≡ get m (obj w) emm
  unfolding get add
  get-add_ne w ne = elim (Bool-cases (text_eq (m.type_name schema) (m.type_name (obj w)))) [
    | inl e ↦ absurd (ne (sym ((text_eq_iff (m.type_name schema) (m.type_name (obj w))).0 e)))
    | inr e ↦ rw (find-store (m.type_name schema) (m.type_name (obj w)) em emm, e) refl
  ]

  exists-add :
      (u : U)
      → m.type_name (obj u) ≡ m.type_name schema
      → exists m (obj u) (add m schema opts emm) ≡ ok true
  unfolding exists
  exists-add u same = rw (get-add u same) refl

  map_event-add :
      (u : U) (b : Result Bytes)
      → m.type_name (obj u) ≡ m.type_name schema
      → m.proto_marshal u ≡ some b
      → map_event m (obj u) (add m schema opts emm)
        ≡ ok (record { instance_ = obj u; event_mapper = em })
  unfolding map_event
  map_event-add u b same proto = rw (get-add u same) (rw proto refl)

  exists-add_ne :
      (w : U)
      → m.type_name (obj w) ≢ m.type_name schema
      → exists m (obj w) (add m schema opts emm) ≡ exists m (obj w) emm
  unfolding exists
  exists-add_ne w ne = rw (get-add_ne w ne) refl

  map_event-add_ne :
      (w : U)
      → m.type_name (obj w) ≢ m.type_name schema
      → map_event m (obj w) (add m schema opts emm) ≡ map_event m (obj w) emm
  unfolding map_event
  map_event-add_ne w ne = rw (get-add_ne w ne) refl

  -- Once a mapping is added for a schema, Set of a proto message of its type sets the event with
  -- the message as it is and the mapping that the options, and the default for its name, have made;
  -- Set of an entity of another type does what it did before.
  pub set-add :
      (u w : U) (b : Result Bytes) (value : List (Value U))
      → m.type_name (obj u) ≡ m.type_name schema
      → m.proto_marshal u ≡ some b
      → m.type_name (obj w) ≢ m.type_name schema
      → (set m set_event (add m schema opts emm) (obj u) value
          ≡ set_event
              (mapped (record {
                instance_ = obj u;
                event_mapper =
                    with_event_defaults m
                      (apply_event_opts m opts (record { schema = schema; name = [] }));
              }))
              value)
        × (set m set_event (add m schema opts emm) (obj w) value
            ≡ set m set_event emm (obj w) value)
  unfolding set
  set-add u w b value same proto ne = (
    rw (exists-add u same, map_event-add u b same proto) refl,
    rw (exists-add_ne w ne, map_event-add_ne w ne) refl,
  )
