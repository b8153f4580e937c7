-- ===== src/Tests/MappingMemory/Cars.antt =====
-- The cars of the tests of state/mapping, with a key by id and an index by their vehicle number, on
-- the peer of the tests: their messages, mappings and what stands at their keys.
use cckit.Base.{
  ◌≡◌, refl, ap, sym, ◌∙◌, subst, Bool, true, false, Option, some, none, List, [], ◌∷◌, Text, Bytes,
  contains, codes, text_eq, find, store, inl, inr, is_empty, some_injective, All-of-In, Bool-cases,
  if◌then◌else◌,
}
use cckit.Lang.Error.{Error, external, noted}
use cckit.Lang.Result.{Result, ok, err, ok-injective, on_err, on_err-eq-ok}
use cckit.Lang.Value.{obj, strs, Methods, struct}
use cckit.Mapping.Interface.{State}
use cckit.Mapping.Index.{LeavesRefs}
use cckit.Mapping.Keyers.{
  attrs_keyer, attrs_loop, struct_of, field_by_name, key_from_value, keyer_as_multi,
}
use cckit.Mapping.KeyRefs.{mapped_key}
use cckit.Mapping.KeyRefs.Laws.{ref_key_of}
use cckit.Mapping.MappedState.Writes.{IsMapped, IsTyped}
use cckit.Mapping.Options.{
  add, apply_opts, with_defaults, with_index, add_index, index_named, p_key_attr, uniq_key,
}
use cckit.Mapping.Schema.{
  Entity, app, key_ref, key_ref_id, Schema, KeyRef, Field, string_value, fields,
}
use cckit.Mapping.StateMappings.{
  StateIndex, StateMapping, StateMappings, ProtoStateMapped, map_entry, map_key, get_by_namespace,
  primary_key, schema_namespace, type_in_package, from_dot, key_eq,
}
use cckit.Mapping.StateMappings.{get as get_mapping}
use cckit.Mapping.Spec.{StateSpec}
use cckit.Mapping.Views.{key_eq_sound}
use cckit.State.Key.{Key}
use cckit.State.Key.Laws.{IsPlainKey}
use cckit.Tests.MappingMemory.{Peer, peer, peer-Ledger, peer-CompositeKeys}
use cckit.Tests.MappingMemory.Codec.{
  written, read, read-written, is_empty-written, texts_of_ref, ref_of_texts,
  ref_of_texts-texts_of_ref,
}
use cckit.Mapping.Filled.{filled}
use cckit.Mapping.Filled.Writing.{Messages, Fits, Stores}
use cckit.Mapping.Filled.Promises.{impl_promises}
use cckit.State.Transformer.{convert_from_bytes}
use cckit.Convert.{from_bytes}
use cckit.Mapping.MappedState.{target_of_mapping, key_ref_target}

pub none-some : {A : Type 0} {a : A} → ¬ (none ≡ some a)
none-some h = cc

pub record Car : Type 0 where
  pub id : Text
  pub vin : Text

abbrev pub show : Error → Text
show e = []

abbrev text_field : Text → Text → Field
text_field name s = record { name = name; can_set = true; value = string_value s }

abbrev pub reflect : Car → Option (List Field)
reflect c = some (text_field (codes "Id") c.id ∷ text_field (codes "Vin") c.vin ∷ [])

abbrev pub type_of : Schema Car → Text
type_of (obj (app c)) = codes "*cars.Car"
type_of (obj (key_ref r)) = codes "*schema.KeyRef"
type_of (obj (key_ref_id r)) = codes "*schema.KeyRefId"
type_of (strs k) = codes "[]string"
type_of v = codes "other"

abbrev car_of : List Text → Entity Car
car_of (id ∷ vin ∷ _) = app (record { id = id; vin = vin })
car_of _ = app (record { id = []; vin = [] })

-- Of the messages of the tests, cars and the entries of indexes are marshalled.
abbrev marshal : Entity Car → Result Bytes
marshal (app c) = ok (written (c.id ∷ c.vin ∷ []))
marshal (key_ref r) = ok (written (texts_of_ref r))
marshal (key_ref_id r) = err (external 0)

abbrev by_type : Text → List Text → Result (Schema Car)
by_type t ts =
    if text_eq t (codes "*cars.Car")
    then ok (obj (car_of ts))
    else if text_eq t (codes "*schema.KeyRef")
    then ok (obj (key_ref (ref_of_texts ts)))
    else err (external 0)

abbrev pub cars : Methods (Entity Car)
cars = record {
  type_name = type_of;
  kind = λ u. struct;
  text = λ u. [];
  keyer = λ u. none;
  namer = λ u. none;
  to_byter = λ u. none;
  from_byter = λ u. none;
  proto_marshal = λ u. some (marshal u);
  marshal_any = λ u. ok [];
  proto_unmarshal = λ u. some (λ b. by_type (type_of (obj u)) (read b));
  json_marshal = λ v. err (external 0);
  json_unmarshal = λ v b. err (external 0);
}

by_type-message :
    (t : Text) (ts : List Text) (v : Schema Car)
    → by_type t ts ≡ ok v
    → (y : Entity Car) × (v ≡ obj y)
by_type-message t ts v h = elim (Bool-cases (text_eq t (codes "*cars.Car"))) [
  | inl e ↦ (car_of ts, ok-injective (sym (rw e at h)))
  | inr e ↦ elim (Bool-cases (text_eq t (codes "*schema.KeyRef"))) [
    | inl f ↦ (key_ref (ref_of_texts ts), ok-injective (sym (rw f at (rw e at h))))
    | inr f ↦ absurd (let c = rw f at (rw e at h) in cc)
  ]
]

-- The bytes of a message are read as the message at its type.
by_type-marshal :
    (x : Entity Car) (bb : Bytes)
    → some (marshal x) ≡ some (ok bb)
    → by_type (type_of (obj x)) (read bb) ≡ ok (obj x)
unfolding text_eq
by_type-marshal (app c) bb h =
    let e : read bb ≡ c.id ∷ c.vin ∷ [] =
      ap read (sym (ok-injective (some_injective h))) ∙ read-written (c.id ∷ c.vin ∷ []) in
    ap (λ ts. by_type (codes "*cars.Car") ts) e
by_type-marshal (key_ref r) bb h =
    let e : read bb ≡ texts_of_ref r =
      ap read (sym (ok-injective (some_injective h))) ∙ read-written (texts_of_ref r) in
    ap (λ ts. by_type (codes "*schema.KeyRef") ts) e
    ∙ ap (λ q. ok (obj (key_ref q))) (ref_of_texts-texts_of_ref r)
by_type-marshal (key_ref_id r) bb h = absurd (let e = some_injective h in cc)

marshal-full : (x : Entity Car) (bb : Bytes) → some (marshal x) ≡ some (ok bb) → is_empty bb ≡ false
marshal-full (app c) bb h =
    ap is_empty (sym (ok-injective (some_injective h))) ∙ is_empty-written c.id (c.vin ∷ [])
marshal-full (key_ref r) bb h =
    ap is_empty (sym (ok-injective (some_injective h)))
    ∙ is_empty-written r.schema (r.idx ∷ written r.ref_key ∷ written r.p_key ∷ [])
marshal-full (key_ref_id r) bb h = absurd (let e = some_injective h in cc)

convert_car :
    (x : Entity Car) (bb : Bytes)
    → convert_from_bytes cars bb (obj x ∷ [])
      ≡ on_err
          (noted (codes "unable to convert value to struct"))
          (by_type (type_of (obj x)) (read bb))
unfolding convert_from_bytes from_bytes
convert_car x bb = refl

cars-Messages : Messages cars
cars-Messages = record {
  same_type = λ x y bb e.
      convert_car x bb
      ∙ ap (λ t. on_err (noted (codes "unable to convert value to struct")) (by_type t (read bb))) e
      ∙ sym (convert_car y bb);
  message = λ x bb v h.
      by_type-message (type_of (obj x)) (read bb) v (on_err-eq-ok _ _ (sym (convert_car x bb) ∙ h));
  unmarshal-marshal = λ x y bb h e.
      convert_car y bb
      ∙ ap (on_err (noted (codes "unable to convert value to struct")))
          (ap (λ t. by_type t (read bb)) (sym e) ∙ by_type-marshal x bb h);
}

-- What stands under `_idx` is read as an entry of an index, and all else as a car.
abbrev pub target_at : Key → Entity Car
target_at [] = app (record { id = []; vin = [] })
target_at (p ∷ ps) =
    if text_eq p (codes "_idx")
    then key_ref (record { schema = []; idx = []; ref_key = []; p_key = [] })
    else app (record { id = []; vin = [] })

-- Impl of state/state.go on the peer.
abbrev pub state_cars : State Peer Car
state_cars = filled cars show reflect peer

refs_targets : (r : KeyRef) → type_of key_ref_target ≡ type_of (obj (target_at (ref_key_of r)))
unfolding text_eq
refs_targets r = refl

unfoldable pub one_spec : StateSpec cars show reflect state_cars
unfolding refs_targets cars-Messages convert_car by_type-message by_type-marshal
one_spec =
    impl_promises cars show reflect peer target_at peer-Ledger peer-CompositeKeys cars-Messages
      refs_targets

abbrev pub car : Text → Text → Entity Car
car id vin = app (record { id = id; vin = vin })

abbrev car_indexes : List (StateIndex Car)
car_indexes =
    record {
      name = codes "Vin";
      uniq = true;
      required = true;
      keyer = keyer_as_multi (attrs_keyer cars show reflect (codes "Vin" ∷ []));
    }
    ∷ []

abbrev car_mapping : StateMapping Car
car_mapping = record {
  schema = obj (car [] []);
  namespace = codes "Car" ∷ [];
  keyer_for_schema = none;
  primary_keyer = some (attrs_keyer cars show reflect (codes "Id" ∷ []));
  list = none;
  indexes = car_indexes;
}

abbrev pub mappings : StateMappings Car
mappings = (codes "*cars.Car", car_mapping) ∷ []

-- The mapping is what Add makes of the options.
mappings_test :
    add cars show reflect
      (obj (car [] []))
      (p_key_attr cars show reflect (codes "Id" ∷ [])
        ∷ uniq_key cars show reflect (codes "Vin") []
        ∷ [])
      []
    ≡ mappings
unfolding add apply_opts with_defaults with_index add_index index_named store schema_namespace
    type_in_package from_dot
mappings_test = refl

abbrev pub mapped_car : Text → Text → ProtoStateMapped Car
mapped_car id vin = record { instance_ = obj (car id vin); state_mapper = car_mapping }

pub map_car :
    (id vin : Text)
    → map_entry cars show reflect (obj (car id vin)) mappings ≡ ok (mapped_car id vin)
unfolding map_entry get_mapping map_key find text_eq
map_car id vin = refl

abbrev pub car_key : Text → Key
car_key id = codes "Car" ∷ id ∷ []

pub mapped_key_car :
    (id vin : Text) → mapped_key cars show reflect (mapped_car id vin) ≡ ok (car_key id)
unfolding mapped_key primary_key attrs_keyer struct_of fields attrs_loop field_by_name
    key_from_value text_eq
mapped_key_car id vin = refl

abbrev is_ok : {A : Type 0} → Result A → Bool
is_ok (ok a) = true
is_ok _ = false

pub no_ref :
    (r : KeyRef) (pm : ProtoStateMapped Car)
    → ¬ (map_entry cars show reflect (obj (key_ref r)) mappings ≡ ok pm)
unfolding map_entry get_mapping map_key find text_eq
no_ref r pm h = let e : false ≡ true = ap is_ok h in cc

pub no_ref_id :
    (r : _) (pm : ProtoStateMapped Car)
    → ¬ (map_entry cars show reflect (obj (key_ref_id r)) mappings ≡ ok pm)
unfolding map_entry get_mapping map_key find text_eq
no_ref_id r pm h = let e : false ≡ true = ap is_ok h in cc

apart :
    (x : Entity Car) (pm : ProtoStateMapped Car) (pk : Key) (rs : List KeyRef) (r : KeyRef)
    → IsMapped cars show reflect mappings (obj x) pm pk rs
    → key_eq (ref_key_of r) pk ≡ false
unfolding key_eq text_eq
apart (app c) pm pk rs r a =
    let same : mapped_car c.id c.vin ≡ pm = ok-injective (sym (map_car c.id c.vin) ∙ a.is_mapped) in
    let key : car_key c.id ≡ pk =
      ok-injective
        (sym (mapped_key_car c.id c.vin) ∙ ap (mapped_key cars show reflect) same ∙ a.key) in
    subst (λ k. key_eq (ref_key_of r) k ≡ false) key refl
apart (key_ref q) pm pk rs r a = absurd (no_ref q pm a.is_mapped)
apart (key_ref_id q) pm pk rs r a = absurd (no_ref_id q pm a.is_mapped)

pub leaves : LeavesRefs cars show reflect mappings
leaves = record { no_ref = no_ref; apart = apart }

abbrev first_of : Key → Text
first_of [] = []
first_of (p ∷ ps) = p

car_keys-IsPlainKey : (l : List Text) → IsPlainKey (codes "Car" ∷ l)
unfolding contains
car_keys-IsPlainKey [] = refl
car_keys-IsPlainKey (p ∷ ps) = tt

-- A key of the namespace of cars is one of an entry of them.
strs-Fits :
    (l : List Text) (pm : ProtoStateMapped Car) (k : Key)
    → map_entry cars show reflect (strs (codes "Car" ∷ l)) mappings ≡ ok pm
    → mapped_key cars show reflect pm ≡ ok k
    → Fits cars show reflect peer target_at k
        (target_of_mapping pm.state_mapper pm.state_mapper.keyer_for_schema)
unfolding map_entry get_mapping get_by_namespace mapped_key text_eq key_eq
strs-Fits l pm k e ke =
    let same : ◌≡◌ {A = ProtoStateMapped Car}
        (record { instance_ = strs (codes "Car" ∷ l); state_mapper = car_mapping }) pm =
      ok-injective e in
    let key : codes "Car" ∷ l ≡ k = ok-injective (ap (mapped_key cars show reflect) same ∙ ke) in
    subst
      (λ (p : ProtoStateMapped Car).
        Fits cars show reflect peer target_at k
          (target_of_mapping p.state_mapper p.state_mapper.keyer_for_schema))
      same
      (subst (λ j. Fits cars show reflect peer target_at j (obj (car [] []))) key
        (car_keys-IsPlainKey l, (car [] [], refl, refl)))

strs_missed :
    (n : Text) (l : List Text)
    → key_eq (codes "Car" ∷ []) (n ∷ []) ≡ false
    → is_ok (map_entry cars show reflect (strs (n ∷ l)) mappings) ≡ false
unfolding map_entry get_mapping get_by_namespace
strs_missed n l h = rw h refl

typed_target :
    (entry : Schema Car) (pm : ProtoStateMapped Car) (k : Key)
    → map_entry cars show reflect entry mappings ≡ ok pm
    → mapped_key cars show reflect pm ≡ ok k
    → Fits cars show reflect peer target_at k
        (target_of_mapping pm.state_mapper pm.state_mapper.keyer_for_schema)
unfolding map_entry get_mapping map_key find text_eq get_by_namespace mapped_key
typed_target (obj (app c)) pm k e ke =
    let same : mapped_car c.id c.vin ≡ pm = ok-injective (sym (map_car c.id c.vin) ∙ e) in
    let key : car_key c.id ≡ k =
      ok-injective
        (sym (mapped_key_car c.id c.vin) ∙ ap (mapped_key cars show reflect) same ∙ ke) in
    subst
      (λ (p : ProtoStateMapped Car).
        Fits cars show reflect peer target_at k
          (target_of_mapping p.state_mapper p.state_mapper.keyer_for_schema))
      same
      (subst (λ j. Fits cars show reflect peer target_at j (obj (car [] []))) key
        (tt, (car [] [], refl, refl)))
typed_target (obj (key_ref r)) pm k e ke = absurd (no_ref r pm e)
typed_target (obj (key_ref_id r)) pm k e ke = absurd (no_ref_id r pm e)
typed_target (strs []) pm k e ke = absurd (let f : false ≡ true = ap is_ok e in cc)
typed_target (strs (n ∷ l)) pm k e ke = elim (Bool-cases (key_eq (codes "Car" ∷ []) (n ∷ []))) [
  | inl same ↦
      let car_n : codes "Car" ≡ n = ap first_of (key_eq_sound (codes "Car" ∷ []) (n ∷ []) same) in
      strs-Fits l pm k
        (subst (λ p. map_entry cars show reflect (strs (p ∷ l)) mappings ≡ ok pm) (sym car_n) e) ke
  | inr other ↦ absurd (let f : false ≡ true = sym (strs_missed n l other) ∙ ap is_ok e in cc)
]
typed_target v pm k e ke = absurd (let f : false ≡ true = ap is_ok e in cc)

ref-Stores : (r : KeyRef) → Stores cars show reflect peer target_at (ref_key_of r) (key_ref r)
unfolding text_eq
ref-Stores r = (tt, refl, marshal-full (key_ref r))

pub car-Stores : (id vin : Text) → Stores cars show reflect peer target_at (car_key id) (car id vin)
unfolding text_eq
car-Stores id vin = (tt, refl, marshal-full (car id vin))

pub typed : IsTyped cars show reflect state_cars mappings one_spec
unfolding one_spec impl_promises
typed = record {
  target = typed_target;
  refs = λ entry pm rs e re. All-of-In rs (λ r i. ref-Stores r);
}
