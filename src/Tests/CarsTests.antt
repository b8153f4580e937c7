-- ===== src/Tests/CarsTests.antt =====
-- Tests of the cars, and their theorem at a concrete input: Alice owns the chaincode.
use cckit.Base.{
  ◌≡◌, refl, ℕ, true, some, none, List, [], ◌∷◌, ◌++◌, Text, Bytes, Option, codes, text_eq,
  is_empty, find, store, contains, length, take, drop, take-append_length, drop-append_length,
  if◌then◌else◌,
}
use cckit.Cars.{Car, CarPayload, CarTypes, key, registered, invoke_car_register, car_register}
use cckit.Cars.Laws.{car_register-only}
use cckit.Convert.{to_bytes, from_bytes}
use cckit.Lang.Error.{base, external, owner_only}
use cckit.Lang.Result.{Result, ok, err, ok-injective}
use cckit.Lang.Strings.{join, split}
use cckit.Lang.Value.{Value, obj, state_key, Methods, struct}
use cckit.Owner.{
  Identity, Entry, Identities, is_setted, get_owner, insert_entry, set_from_creator, only,
  is_invoker, is_same_as,
}
use cckit.State.Cached.{WithTxCache, with_cache, cached_put, cached_get, stub_of}
use cckit.State.Cached.Laws.{with_cache-ReadsWrites}
use cckit.State.Event.{EventImpl, new_event, set, arg_name_value, normalize_event_name}
use cckit.State.Impl.{Impl, new_state, get, exists, put, insert, key_of, put_args, arg_key_value}
use cckit.State.Impl.Laws.{Decodes}
use cckit.State.Key.{
  strings_id_to_str, strings_id_from_str, key_to_string, key_from_composite, key_string,
  normalize_key,
}
use cckit.State.Transformer.{convert_from_bytes, convert_to_bytes}
use cckit.Tests.Memory.{Memory, empty, memory_stub}
use cckit.Tests.Memory.Cached.{memory_stub-ReadsFrame}
use cckit.Tests.Memory.Composite.{create, split_key}

data Item : Type 0 where
  an_entry : Entry → Item
  a_car : Car ℕ → Item

abbrev alice : Identity
alice = record { msp_id = codes "Org1"; subject = codes "alice"; issuer = []; pem = [] }

abbrev bob : Identity
bob = record { msp_id = codes "Org1"; subject = codes "bob"; issuer = []; pem = [] }

abbrev of_subject : Text → Entry
of_subject s = record { msp_id = codes "Org1"; subject = s; issuer = []; pem = [] }

abbrev with_text : Text → Bytes → Bytes
with_text t rest = length t ∷ (t ++ rest)

abbrev encode : Car ℕ → Bytes
encode c = with_text c.id (with_text c.title (with_text c.owner (c.updated_at ∷ [])))

abbrev read_text : Bytes → Text × Bytes
read_text [] = ([], [])
read_text (n ∷ b) = (take n b, drop n b)

abbrev with_time : Text → Text → Text → Bytes → Result (Value Item)
with_time a b c (t ∷ []) =
    ok (obj (a_car (record { id = a; title = b; owner = c; updated_at = t })))
with_time a b c bb = err (external 0)

unfoldable decode : Bytes → Result (Value Item)
decode bb =
    let (a, ra) = read_text bb in
    let (b, rb) = read_text ra in let (c, rc) = read_text rb in with_time a b c rc

decode-encode : (c : Car ℕ) → decode (encode c) ≡ ok (obj (a_car c))
unfolding decode
decode-encode c = simp (take-append_length, drop-append_length)

abbrev keyer_of : Item → Option (Result (List Text))
keyer_of (an_entry e) = none
keyer_of (a_car c) = some (key c)

abbrev bytes_of : Item → Option (Result Bytes)
bytes_of (an_entry e) = some (ok e.subject)
bytes_of (a_car c) = some (ok (encode c))

abbrev reader_of : Item → Option (Bytes → Result (Value Item))
reader_of (an_entry e) = some (λ bb. ok (obj (an_entry (of_subject bb))))
reader_of (a_car c) = some decode

abbrev items : Methods Item
items = record {
  type_name = λ v. [];
  kind = λ u. struct;
  text = λ u. [];
  keyer = keyer_of;
  namer = λ u. none;
  to_byter = bytes_of;
  from_byter = reader_of;
  proto_marshal = λ u. none;
  marshal_any = λ u. err (external 0);
  proto_unmarshal = λ u. none;
  json_marshal = λ v. err (external 0);
  json_unmarshal = λ v b. err (external 0);
}

abbrev entry_in : Value Item → Option Entry
entry_in (obj (an_entry e)) = some e
entry_in _ = none

-- The transaction with a transient map is Bob's, the other is Alice's.
abbrev ids : Identities (WithTxCache Memory) Item
ids = record {
  from_stub = λ s. ok (if is_empty s.0.transient then alice else bob);
  new = λ msp_id cert. ok bob;
  get_args = λ s. [];
  entry_value = an_entry;
  as_entry = entry_in;
  target = an_entry (of_subject []);
}

abbrev types : CarTypes (WithTxCache Memory) Item ℕ
types = record { car_value = a_car; zero_time = 0; time = λ s. 7 }

abbrev cached : Impl (WithTxCache Memory) Item
cached = with_cache (new_state items memory_stub)

abbrev emitter : EventImpl (WithTxCache Memory) Item
emitter = new_event items (stub_of memory_stub)

abbrev bmw : CarPayload
bmw = record { id = codes "A7"; title = codes "BMW"; owner = codes "vic" }

abbrev owned : WithTxCache Memory
owned = (set_from_creator items ids cached (empty, [])).1

abbrev by_bob : WithTxCache Memory
by_bob = (record owned.0 { transient = (codes "k", []) ∷ [] }, owned.1)

abbrev after_register : WithTxCache Memory
after_register = (car_register items types cached emitter ids bmw owned).1

abbrev bmw_car : Car ℕ
bmw_car = registered items types cached emitter bmw 7

computes : Unit {0}
unfolding strings_id_to_str strings_id_from_str join split contains to_bytes from_bytes
    key_to_string key_from_composite key_string normalize_key convert_from_bytes convert_to_bytes
    create split_key find store text_eq get exists put insert key_of put_args arg_key_value
    new_state with_cache cached_put cached_get stub_of is_setted insert_entry set_from_creator
    get_owner only is_invoker new_event set arg_name_value normalize_event_name invoke_car_register
    car_register decode
computes = tt

registers : car_register items types cached emitter ids bmw owned ≡ (ok bmw_car, after_register)
unfolding computes
registers = refl

refused : car_register items types cached emitter ids bmw by_bob ≡ (err (base owner_only), by_bob)
unfolding computes
refused = refl

owner_alice : get_owner items ids cached owned ≡ ok (of_subject (codes "alice"))
unfolding computes
owner_alice = refl

invoker_alice : ids.from_stub owned ≡ ok alice
unfolding computes
invoker_alice = refl

car-Decodes : (d : Car ℕ) → Decodes cached (obj (a_car d)) (obj (a_car bmw_car) ∷ [])
unfolding with_cache new_state convert_from_bytes convert_to_bytes from_bytes to_bytes
car-Decodes d = record {
  decodes = λ bb e. let e' : encode d ≡ bb = ok-injective e in rw (← e') (refl, decode-encode d);
}

car_register-only_example :
    (is_same_as items ids cached (of_subject (codes "alice")) alice ≡ true)
    × (bmw_car ≡ bmw_car)
    × (get items cached
          (state_key (codes "CAR" ∷ codes "A7" ∷ []))
          (obj (a_car bmw_car) ∷ [])
          after_register
        ≡ ok (obj (a_car bmw_car)))
    × (exists items cached (state_key (codes "CAR" ∷ codes "A7" ∷ [])) after_register ≡ ok true)
car_register-only_example =
    car_register-only items types cached emitter ids (λ c. refl) bmw bmw_car
      (obj (a_car bmw_car) ∷ []) (of_subject (codes "alice")) alice owned after_register
      (unfold with_cache new_state in
        with_cache-ReadsWrites (new_state items memory_stub) memory_stub-ReadsFrame)
      car-Decodes owner_alice invoker_alice registers
