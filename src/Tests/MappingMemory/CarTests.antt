-- ===== src/Tests/MappingMemory/CarTests.antt =====
-- Tests of state/mapping on Impl of state/state.go, and its theorems at concrete inputs: a car that is
-- inserted, found and deleted, in a transaction each.
use cckit.Base.{
  ◌≡◌, ◌↔◌, refl, ap, sym, ◌∙◌, subst, true, some, none, List, [], ◌∷◌, codes, text_eq, find, In,
}
use cckit.Lang.Error.{errorf, mapping_uniq_key_exists}
use cckit.Lang.Exec.{for_each}
use cckit.Lang.Result.{ok, err, ok-injective}
use cckit.Lang.Strings.{join}
use cckit.Lang.Value.{obj}
use cckit.Mapping.Filled.Promises.{impl_promises}
use cckit.Mapping.Index.{IsIndexed}
use cckit.Mapping.KeyRefs.{
  mapped_key, mapped_keys, keys, index_refs, new_key_ref, new_key_ref_mapped, new_key_ref_id,
  new_key_ref_id_mapped, idx_key,
}
use cckit.Mapping.KeyRefs.Laws.{ref_key_of}
use cckit.Mapping.Keyers.{
  attrs_keyer, attrs_loop, struct_of, field_by_name, key_from_value, keyer_as_multi,
}
use cckit.Mapping.MappedState.{insert, delete, get, get_by_key}
use cckit.Mapping.MappedState.Laws.{insert-IsIndexed, delete-IsIndexed, get_by_key_iff}
use cckit.Mapping.MappedState.Loops.{AreFree}
use cckit.Mapping.MappedState.Writes.{IsMapped}
use cckit.Mapping.Schema.{Entity, app, key_ref, key_ref_id, KeyRef, fields}
use cckit.Mapping.StateMappings.{
  ProtoStateMapped, map_entry, map_key, exists, primary_key, schema_namespace, type_in_package,
  from_dot, key_eq,
}
use cckit.Mapping.StateMappings.{get as get_mapping}
use cckit.State.Key.{Key}
use cckit.Tests.MappingMemory.{Peer, commit, bare, peer-Ledger, view-bare, calls}
use cckit.Tests.MappingMemory.Codec.{written, text_then, read, ref_of_texts}
use cckit.Tests.MappingMemory.Cars.{
  Car, cars, show, reflect, mappings, car, car_key, mapped_car, map_car, mapped_key_car, target_at,
  state_cars, one_spec, typed, leaves, car-Stores, none-some, no_ref, no_ref_id,
}

unfoldable pub computes : Unit {0}
unfolding insert delete get get_by_key exists map_entry get_mapping map_key find text_eq mapped_key
    mapped_keys primary_key attrs_keyer struct_of fields attrs_loop field_by_name key_from_value
    keys index_refs keyer_as_multi new_key_ref_mapped new_key_ref new_key_ref_id
    new_key_ref_id_mapped join schema_namespace type_in_package from_dot for_each key_eq calls
    written text_then read ref_of_texts
computes = tt

abbrev pub red_ref : KeyRef
red_ref = record {
  schema = codes "Car";
  idx = codes "Vin";
  ref_key = codes "V1" ∷ [];
  p_key = car_key (codes "red");
}

abbrev pub red_car : Entity Car
red_car = car (codes "red") (codes "V1")

abbrev pub red_mapped : ProtoStateMapped Car
red_mapped = mapped_car (codes "red") (codes "V1")

bare-writes : (j : Key) → one_spec.writes bare j ≡ none
unfolding one_spec impl_promises peer-Ledger find
bare-writes j = view-bare cars target_at j

bare-IsIndexed : IsIndexed cars show reflect mappings (one_spec.writes bare)
bare-IsIndexed = record {
  complete = λ j x pm pk rs h mp. absurd (none-some (sym (bare-writes j) ∙ h));
  sound = λ j r h. absurd (none-some (sym (bare-writes j) ∙ h));
}

abbrev pub after_insert : Peer
after_insert = (insert cars show reflect state_cars mappings (obj red_car) [] bare).1

inserted :
    insert cars show reflect state_cars mappings (obj red_car) [] bare ≡ (ok tt, after_insert)
unfolding computes
inserted = refl

-- A key of red_car, at which it may stand.
red-Stores : (k : Key) → mapped_key cars show reflect red_mapped ≡ ok k → one_spec.stores k red_car
unfolding one_spec impl_promises
red-Stores k h =
    subst (λ j. one_spec.stores j red_car)
      (ok-injective (sym (mapped_key_car (codes "red") (codes "V1")) ∙ h))
      (car-Stores (codes "red") (codes "V1"))

bare_start : one_spec.reads bare ≡ one_spec.writes bare
unfolding one_spec impl_promises peer-Ledger
bare_start = refl

insert-IsIndexed_example :
    (pk : Key) × (rs : List KeyRef) × IsMapped cars show reflect mappings
      (obj red_car)
      red_mapped
      pk
      rs
    × (one_spec.writes bare pk ≡ none)
    × AreFree (one_spec.writes bare) rs
    × (one_spec.writes after_insert pk ≡ some red_car)
    × IsIndexed cars show reflect mappings (one_spec.writes after_insert)
insert-IsIndexed_example =
    insert-IsIndexed cars show reflect state_cars mappings one_spec typed leaves red_car red_mapped
      [] bare after_insert bare_start bare-IsIndexed (map_car (codes "red") (codes "V1")) red-Stores
      inserted

-- The next transaction starts with the car.
abbrev pub one_car : Peer
one_car = commit after_insert

pub one_start : one_spec.reads one_car ≡ one_spec.writes one_car
unfolding one_spec impl_promises peer-Ledger
one_start = refl

pub one-IsIndexed : IsIndexed cars show reflect mappings (one_spec.writes one_car)
unfolding one_spec impl_promises peer-Ledger
one-IsIndexed = insert-IsIndexed_lem.6
  where
    insert-IsIndexed_lem :
        (pk : Key) × (rs : List KeyRef) × IsMapped cars show reflect mappings
          (obj red_car)
          red_mapped
          pk
          rs
        × (one_spec.writes bare pk ≡ none)
        × AreFree (one_spec.writes bare) rs
        × (one_spec.writes after_insert pk ≡ some red_car)
        × IsIndexed cars show reflect mappings (one_spec.writes after_insert)
    insert-IsIndexed_lem =
        insert-IsIndexed cars show reflect state_cars mappings one_spec typed leaves red_car
          red_mapped [] bare after_insert bare_start bare-IsIndexed
          (map_car (codes "red") (codes "V1")) red-Stores inserted

abbrev after_delete : Peer
after_delete = (delete cars show reflect state_cars mappings (obj red_car) one_car).1

car_exists : exists cars show reflect (obj red_car) mappings ≡ ok true
unfolding exists get_mapping map_key find text_eq
car_exists = refl

deleted : delete cars show reflect state_cars mappings (obj red_car) one_car ≡ (ok tt, after_delete)
unfolding computes
deleted = refl

-- A second car of one vehicle number is refused, whatever its id.
taken :
    insert cars show reflect state_cars mappings (obj (car (codes "blue") (codes "V1"))) [] one_car
    ≡ (err (errorf mapping_uniq_key_exists []), one_car)
unfolding computes
taken = refl

pub red-IsMapped :
    IsMapped cars show reflect mappings
      (obj red_car)
      red_mapped
      (car_key (codes "red"))
      (red_ref ∷ [])
unfolding mapped_keys keys primary_key index_refs keyer_as_multi attrs_keyer struct_of fields
    attrs_loop field_by_name key_from_value text_eq new_key_ref_mapped new_key_ref join
    schema_namespace type_in_package from_dot
red-IsMapped = record {
  is_mapped = map_car (codes "red") (codes "V1");
  key = mapped_key_car (codes "red") (codes "V1");
  refs = refl;
}

delete-IsIndexed_example :
    (pk : Key) × (x : Entity Car) × (mapped_key cars show reflect red_mapped ≡ ok pk)
    × (one_spec.writes one_car pk ≡ some x)
    × (one_spec.writes after_delete pk ≡ none)
    × IsIndexed cars show reflect mappings (one_spec.writes after_delete)
delete-IsIndexed_example =
    delete-IsIndexed cars show reflect state_cars mappings one_spec typed leaves (obj red_car)
      red_mapped one_car after_delete one_start one-IsIndexed car_exists
      (map_car (codes "red") (codes "V1")) deleted

-- What is mapped is read as a car.
car_target :
    (y : Entity Car) (pm : ProtoStateMapped Car) (pk : Key) (rs : List KeyRef)
    → IsMapped cars show reflect mappings (obj y) pm pk rs
    → one_spec.fits pk (obj red_car)
unfolding one_spec impl_promises text_eq
car_target (app c) pm pk rs is =
    let same : mapped_car c.id c.vin ≡ pm =
      ok-injective (sym (map_car c.id c.vin) ∙ is.is_mapped) in
    let key : car_key c.id ≡ pk =
      ok-injective
        (sym (mapped_key_car c.id c.vin) ∙ ap (mapped_key cars show reflect) same ∙ is.key) in
    subst (λ k. one_spec.fits k (obj red_car)) key (tt, (red_car, refl, refl))
car_target (key_ref r) pm pk rs is = absurd (no_ref r pm is.is_mapped)
car_target (key_ref_id r) pm pk rs is = absurd (no_ref_id r pm is.is_mapped)

get_by_key_iff_example :
    (get_by_key cars show reflect state_cars mappings
        (obj red_car)
        (codes "Vin")
        (codes "V1" ∷ [])
        (obj red_car ∷ [])
        one_car
      ≡ ok (obj red_car))
    ↔ ((pm : ProtoStateMapped Car) × (rs : List KeyRef) × (r : KeyRef) × IsMapped cars show reflect
          mappings
          (obj red_car)
          pm
          r.p_key
          rs
        × In r rs
        × (idx_key cars show reflect (obj red_car) (codes "Vin") (codes "V1" ∷ [])
            ≡ ok (ref_key_of r))
        × (one_spec.reads one_car r.p_key ≡ some red_car))
get_by_key_iff_example =
    get_by_key_iff cars show reflect state_cars mappings one_spec typed leaves (obj red_car)
      (obj red_car) (codes "Vin") (codes "V1" ∷ []) red_car one_car
      (subst (IsIndexed cars show reflect mappings) (sym one_start) one-IsIndexed) car_exists
      car_target

-- The car is found by its vehicle number.
found_by_vin :
    get_by_key cars show reflect state_cars mappings
      (obj red_car)
      (codes "Vin")
      (codes "V1" ∷ [])
      (obj red_car ∷ [])
      one_car
    ≡ ok (obj red_car)
unfolding computes
found_by_vin = refl
