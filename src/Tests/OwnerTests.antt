-- ===== src/Tests/OwnerTests.antt =====
-- Tests of the owner, and its theorems at concrete inputs.
use cckit.Base.{
  ◌≡◌, refl, Bool, true, false, ◌&&◌, some, none, [], ◌∷◌, Text, Option, codes, text_eq, is_empty,
  find, store, contains, if◌then◌else◌,
}
use cckit.Convert.{to_bytes, from_bytes}
use cckit.Lang.Error.{base, owner_only, external}
use cckit.Lang.Exec.{Exec}
use cckit.Lang.Result.{ok, err}
use cckit.Lang.Strings.{join, split}
use cckit.Lang.Value.{Value, obj, Methods, struct}
use cckit.Owner.{
  Identity, Entry, create_entry, owner_state_key, Identities, is_setted, insert_entry,
  set_from_creator, only,
}
use cckit.Owner.Laws.{only-set_from_creator}
use cckit.State.Cached.{WithTxCache, with_cache, cached_put, cached_get, stub_of}
use cckit.State.Cached.Laws.{with_cache-ReadsWrites}
use cckit.State.Impl.{Impl, new_state, get, exists, put, insert, key_of, put_args, arg_key_value}
use cckit.State.Impl.Laws.{Decodes}
use cckit.State.Key.{
  strings_id_to_str, strings_id_from_str, key_to_string, key_from_composite, key_string,
  normalize_key,
}
use cckit.State.Stub.{ReadsWrites}
use cckit.State.Transformer.{convert_from_bytes, convert_to_bytes}
use cckit.Tests.Memory.{Memory, empty, memory_stub}
use cckit.Tests.Memory.Cached.{memory_stub-ReadsFrame}
use cckit.Tests.Memory.Composite.{create, split_key}

abbrev alice : Identity
alice = record { msp_id = codes "Org1"; subject = codes "alice"; issuer = []; pem = [] }

abbrev bob : Identity
bob = record { msp_id = codes "Org1"; subject = codes "bob"; issuer = []; pem = [] }

-- Entries of one organization, written as their subjects.
abbrev of_subject : Text → Entry
of_subject s = record { msp_id = codes "Org1"; subject = s; issuer = []; pem = [] }

abbrev entries : Methods Entry
entries = record {
  type_name = λ v. [];
  kind = λ u. struct;
  text = λ u. [];
  keyer = λ u. none;
  namer = λ u. none;
  to_byter = λ u. some (ok u.subject);
  from_byter = λ u. some (λ bb. ok (obj (of_subject bb)));
  proto_marshal = λ u. none;
  marshal_any = λ u. err (external 0);
  proto_unmarshal = λ u. none;
  json_marshal = λ v. err (external 0);
  json_unmarshal = λ v b. err (external 0);
}

abbrev entry_in : Value Entry → Option Entry
entry_in (obj e) = some e
entry_in _ = none

-- The transaction with a transient map is Bob's, the other is Alice's.
abbrev ids : Identities (WithTxCache Memory) Entry
ids = record {
  from_stub = λ s. ok (if is_empty s.0.transient then alice else bob);
  new = λ msp_id cert. ok bob;
  get_args = λ s. codes "Org1" ∷ [] ∷ [];
  entry_value = λ e. e;
  as_entry = entry_in;
  target = of_subject [];
}

abbrev cached : Impl (WithTxCache Memory) Entry
cached = with_cache (new_state entries memory_stub)

abbrev start : WithTxCache Memory
start = (empty, [])

abbrev after : WithTxCache Memory
after = (
  record empty { writes = (codes "OWNER", codes "alice") ∷ [] },
  (codes "OWNER", codes "alice") ∷ [],
)

-- Another invoker, of the same state.
abbrev later : WithTxCache Memory
later = (record after.0 { transient = (codes "k", []) ∷ [] }, after.1)

computes : Unit {0}
unfolding strings_id_to_str strings_id_from_str join split contains to_bytes from_bytes
    key_to_string key_from_composite key_string normalize_key convert_from_bytes convert_to_bytes
    create split_key find store text_eq get exists put insert key_of put_args arg_key_value
    new_state with_cache cached_put cached_get stub_of is_setted insert_entry set_from_creator
computes = tt

free : is_setted entries ids cached start ≡ ok false
unfolding computes
free = refl

set_alice : set_from_creator entries ids cached start ≡ (ok (create_entry alice), after)
unfolding computes
set_alice = refl

same_record :
    get entries cached owner_state_key (obj (of_subject []) ∷ []) later
    ≡ get entries cached owner_state_key (obj (of_subject []) ∷ []) after
unfolding computes
same_record = refl

alice-Decodes : Decodes cached (obj (create_entry alice)) (obj (of_subject []) ∷ [])
unfolding with_cache new_state convert_from_bytes convert_to_bytes from_bytes to_bytes
alice-Decodes = record {
  decodes = λ bb h. let e : codes "alice" ≡ bb = cc in rw (← e) (refl, refl);
}

cached-ReadsWrites : ReadsWrites cached.get_state cached.put_state
unfolding with_cache new_state
cached-ReadsWrites = with_cache-ReadsWrites (new_state entries memory_stub) memory_stub-ReadsFrame

-- A handler that only the owner may run.
abbrev guarded : Exec (WithTxCache Memory) Bool
guarded s = (ok true, s)

only-set_from_creator_example :
    (is_setted entries ids cached after ≡ ok true)
    × (create_entry alice ≡ create_entry alice)
    × (only entries ids cached guarded later ≡ (
        if text_eq alice.msp_id bob.msp_id && text_eq alice.subject bob.subject
        then guarded later
        else (err (base owner_only), later)))
only-set_from_creator_example =
    only-set_from_creator entries ids cached guarded alice bob (create_entry alice) start after
      later cached-ReadsWrites alice-Decodes refl free refl set_alice same_record refl
