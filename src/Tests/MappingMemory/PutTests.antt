-- ===== src/Tests/MappingMemory/PutTests.antt =====
-- Tests of Put of state/mapping: a car that gets another vehicle number.
use cckit.Base.{
  ◌≡◌, refl, ap, sym, ◌∙◌, subst, some, some_injective, List, [], ◌∷◌, Text, codes, text_eq, In,
  inl, inr, drop,
}
use cckit.Lang.Result.{ok}
use cckit.Lang.Strings.{join}
use cckit.Lang.Value.{obj}
use cckit.Mapping.Diff.{key_refs_diff, by_string, missing_in}
use cckit.Mapping.Diff.Sets.{ref_string}
use cckit.Mapping.Index.{IsIndexed, IsMapped-functional}
use cckit.Mapping.Index.Put.{HasStrings}
use cckit.Mapping.Keyers.{
  attrs_keyer, attrs_loop, field_by_name, key_from_value, keyer_as_multi, struct_of,
}
use cckit.Mapping.KeyRefs.{mapped_keys, keys, index_refs, new_key_ref, new_key_ref_mapped}
use cckit.Mapping.KeyRefs.Laws.{ref_key_of}
use cckit.Mapping.MappedState.{put}
use cckit.Mapping.MappedState.Puts.{put-IsIndexed}
use cckit.Mapping.MappedState.Writes.{IsMapped}
use cckit.Mapping.Schema.{Entity, app, key_ref, key_ref_id, KeyRef, fields}
use cckit.Mapping.StateMappings.{
  ProtoStateMapped, primary_key, schema_namespace, type_in_package, from_dot,
}
use cckit.State.Key.{Key, key_string}
use cckit.Mapping.Filled.Promises.{impl_promises}
use cckit.Tests.MappingMemory.{Peer, peer-Ledger}
use cckit.Tests.MappingMemory.Cars.{
  Car, cars, show, reflect, mappings, state_cars, one_spec, typed, leaves, car, car_key, mapped_car,
  map_car, mapped_key_car, no_ref, no_ref_id, car-Stores,
}
use cckit.Tests.MappingMemory.CarTests.{
  computes, red_ref, red_car, one_car, one_start, one-IsIndexed, red-IsMapped,
}

abbrev car_ref : Text → Text → KeyRef
car_ref id vin = record {
  schema = codes "Car";
  idx = codes "Vin";
  ref_key = vin ∷ [];
  p_key = car_key id;
}

car-IsMapped :
    (id vin : Text)
    → IsMapped cars show reflect mappings
        (obj (car id vin))
        (mapped_car id vin)
        (car_key id)
        (car_ref id vin ∷ [])
unfolding mapped_keys keys primary_key index_refs keyer_as_multi attrs_keyer struct_of fields
    attrs_loop field_by_name key_from_value text_eq new_key_ref_mapped new_key_ref join
    schema_namespace type_in_package from_dot
car-IsMapped id vin = record {
  is_mapped = map_car id vin;
  key = mapped_key_car id vin;
  refs = refl;
}

-- The index entry of a car is known by its vehicle number.
ref_of_car :
    (x : Entity Car) (pm : ProtoStateMapped Car) (pk : Key) (rs : List KeyRef) (r : KeyRef)
    → IsMapped cars show reflect mappings (obj x) pm pk rs
    → In r rs
    → (id : Text) × (vin : Text) × (r ≡ car_ref id vin)
ref_of_car (app c) pm pk rs r a i =
    let (_, e) =
      IsMapped-functional cars show reflect mappings (obj (app c)) pm (mapped_car c.id c.vin) pk
        (car_key c.id) rs (car_ref c.id c.vin ∷ []) a (car-IsMapped c.id c.vin) in
    elim (subst (λ l. In r l) e i) [ inl same ↦ (c.id, c.vin, same) | inr nothing ↦ absurd nothing ]
ref_of_car (key_ref q) pm pk rs r a i = absurd (no_ref q pm a.is_mapped)
ref_of_car (key_ref_id q) pm pk rs r a i = absurd (no_ref_id q pm a.is_mapped)

vin_of_string :
    (id id' vin vin' : Text)
    → ref_string (car_ref id vin) ≡ ref_string (car_ref id' vin')
    → vin ≡ vin'
unfolding key_string join
vin_of_string id id' vin vin' h = ap (drop 19) h

strings : HasStrings cars show reflect mappings
strings = record {
  same_key = λ x y pm pm' pk pk' rs qs r q a b i j h.
      let (id, vin, e) = ref_of_car x pm pk rs r a i in
      let (id', vin', e') = ref_of_car y pm' pk' qs q b j in
      let same = vin_of_string id id' vin vin' (ap ref_string (sym e) ∙ h ∙ ap ref_string e') in
      ap ref_key_of e ∙ ap (λ v. ref_key_of (car_ref id v)) same ∙ sym (ap ref_key_of e');
}

abbrev renumbered : Peer
renumbered =
    (put cars show reflect state_cars mappings (obj (car (codes "red") (codes "V2"))) [] one_car).1

renumber :
    put cars show reflect state_cars mappings (obj (car (codes "red") (codes "V2"))) [] one_car
    ≡ (ok tt, renumbered)
unfolding computes put key_refs_diff by_string missing_in key_string
renumber = refl

-- The red car is what is read at its key.
held_red : one_spec.reads one_car (car_key (codes "red")) ≡ some red_car
unfolding computes one_spec impl_promises peer-Ledger
held_red = refl

new-Stores : one_spec.stores (car_key (codes "red")) (car (codes "red") (codes "V2"))
unfolding one_spec impl_promises
new-Stores = car-Stores (codes "red") (codes "V2")

put-IsIndexed_example :
    (one_spec.writes renumbered (car_key (codes "red")) ≡ some (car (codes "red") (codes "V2")))
    × IsIndexed cars show reflect mappings (one_spec.writes renumbered)
put-IsIndexed_example =
    put-IsIndexed cars show reflect state_cars mappings one_spec typed
      (car (codes "red") (codes "V2")) (mapped_car (codes "red") (codes "V2"))
      (car_key (codes "red")) (car_ref (codes "red") (codes "V2") ∷ []) [] one_car renumbered leaves
      strings one_start one-IsIndexed (car-IsMapped (codes "red") (codes "V2")) refl new-Stores
      (λ y h. (
        mapped_car (codes "red") (codes "V1"),
        red_ref ∷ [],
        subst
            (λ z.
              IsMapped cars show reflect mappings (obj z) (mapped_car (codes "red") (codes "V1"))
                (car_key (codes "red")) (red_ref ∷ []))
            (some_injective (sym held_red ∙ h)) red-IsMapped,
      ))
      renumber
