-- ===== src/Tests/Erc20Tests.antt =====
-- Tests of the token, and its theorems at concrete inputs: Alice holds ten of it.
use cckit.Base.{
  ◌≡◌, ◌≢◌, refl, ap, sym, ℕ, false, some, none, [], ◌∷◌, Text, codes, text_eq, is_empty, find,
  store, contains,
}
use cckit.Convert.{to_bytes, from_bytes}
use cckit.Erc20.{
  Payloads, balance_key, allowance_key, get_balance, set_balance, get_allowance, set_allowance,
  move, invoker_id, invoke_transfer, invoke_transfer_from, invoke_approve,
}
use cckit.Erc20.Balances.{HoldsTokens}
use cckit.Erc20.Laws.{HasMoved, HasMinted, invoke_transfer-HasMoved}
use cckit.Erc20.Spending.{HasSpent, invoke_transfer_from-HasMoved, invoke_transfer_from-HasMinted}
use cckit.Identity.{ShortId, id, id_raw, id_of_cert, same_id}
use cckit.Lang.Int64.{add, sub, lt, to_bits, of_bits}
use cckit.Lang.Result.{Result, ok, ok-injective}
use cckit.Lang.Strconv.{IsInt, atoi, atoi-format_int, format_int}
use cckit.Lang.Strings.{join, split}
use cckit.Lang.Value.{str, int, ℤ, pos, negsuc, Methods}
use cckit.Owner.{Identity, Identities}
use cckit.Router.Context.{Context, new_context, param, param_string, param_int}
use cckit.State.Cached.{WithTxCache, with_cache, cached_put, cached_get, stub_of}
use cckit.State.Cached.Laws.{with_cache-ReadsWrites}
use cckit.State.Event.{EventImpl, new_event, set, arg_name_value, normalize_event_name}
use cckit.State.Impl.{
  Impl, new_state, get, get_int, exists, put, insert, key_of, put_args, arg_key_value,
}
use cckit.State.Impl.Laws.{Decodes}
use cckit.State.Key.{
  strings_id_to_str, strings_id_from_str, key_to_string, key_from_composite, key_string,
  normalize_key,
}
use cckit.State.Transformer.{convert_from_bytes, convert_to_bytes}
use cckit.Tests.Memory.{Memory, empty, memory_stub, no_methods}
use cckit.Tests.Memory.Cached.{memory_stub-ReadsFrame, stub_of-CompositeKeys}
use cckit.Tests.Memory.Composite.{create, split_key}

-- The payloads of the events are encoded to nothing.
abbrev events : Methods ℕ
events = record no_methods { to_byter = λ u. some (ok []) }

abbrev alice : Identity
alice = record { msp_id = codes "Org1"; subject = codes "alice"; issuer = codes "ca"; pem = [] }

abbrev ids : Identities (WithTxCache Memory) ℕ
ids = record {
  from_stub = λ s. ok alice;
  new = λ msp_id cert. ok alice;
  get_args = λ s. [];
  entry_value = λ e. 0;
  as_entry = λ v. none;
  target = 0;
}

abbrev encoding : Text → Text
encoding t = t

abbrev payloads : Payloads ℕ
payloads = record { transfer = λ t. 1; approve = λ a. 2 }

abbrev cached : Impl (WithTxCache Memory) ℕ
cached = with_cache (new_state events memory_stub)

abbrev emitter : EventImpl (WithTxCache Memory) ℕ
emitter = new_event events (stub_of memory_stub)

abbrev alice_id : ShortId
alice_id = record { msp = codes "Org1"; cert = codes "x509::alice::ca" }

abbrev bob_id : ShortId
bob_id = record { msp = codes "Org2"; cert = codes "bob" }

abbrev carol_id : ShortId
carol_id = record { msp = codes "Org3"; cert = codes "carol" }

-- A request with a payer, a recipient and an amount.
abbrev request : ShortId → ShortId → ℤ → Context (WithTxCache Memory) ℕ
request from to z = record (new_context (empty, [])) {
  params =
      (codes "fromMspId", str from.msp)
      ∷ (codes "fromCertId", str from.cert)
      ∷ (codes "toMspId", str to.msp)
      ∷ (codes "toCertId", str to.cert)
      ∷ (codes "spenderMspId", str from.msp)
      ∷ (codes "spenderCertId", str from.cert)
      ∷ (codes "amount", int z)
      ∷ [];
}

computes : Unit {0}
unfolding strings_id_to_str strings_id_from_str join split contains to_bytes from_bytes
    key_to_string key_from_composite key_string normalize_key convert_from_bytes convert_to_bytes
    create split_key find store text_eq get get_int exists put insert key_of put_args arg_key_value
    new_state with_cache cached_put cached_get stub_of new_event set arg_name_value
    normalize_event_name id id_raw id_of_cert same_id add sub lt to_bits of_bits atoi format_int
    new_context param param_string param_int get_balance set_balance get_allowance set_allowance
    move balance_key allowance_key invoke_transfer invoke_transfer_from invoke_approve
computes = tt

-- Alice holds ten, and may herself spend five of it.
abbrev start : WithTxCache Memory
start =
    (set_allowance events cached alice_id alice_id (pos 5)
      (set_balance events cached alice_id (pos 10) (empty, [])).1).1

abbrev to_bob : Context (WithTxCache Memory) ℕ
to_bob = request alice_id bob_id (pos 3)

abbrev to_self : Context (WithTxCache Memory) ℕ
to_self = request alice_id alice_id (pos 3)

abbrev after_transfer : WithTxCache Memory
after_transfer = (invoke_transfer events ids encoding payloads cached emitter to_bob start).1

transferred :
    invoke_transfer events ids encoding payloads cached emitter to_bob start
    ≡ (ok (int (pos 7)), after_transfer)
unfolding computes
transferred = refl

full : (t : Text) (z : ℤ) → atoi t ≡ some z → is_empty t ≡ false
unfolding atoi
full [] z h = cc
full (a ∷ t) z h = refl

int-Decodes : (z : ℤ) → IsInt z → Decodes cached (int z) (int (pos 1) ∷ int (pos 0) ∷ [])
unfolding with_cache new_state convert_from_bytes convert_to_bytes from_bytes to_bytes
int-Decodes z h = record {
  decodes = λ bb e.
      let e' : format_int z ≡ bb = ok-injective e in
      let back = atoi-format_int z h in rw (← e') (full (format_int z) z back, rw back refl);
}

holds : HoldsTokens cached emitter
unfolding with_cache new_state new_event stub_of cached_get
holds = record {
  reads_writes = with_cache-ReadsWrites (new_state events memory_stub) memory_stub-ReadsFrame;
  decodes = int-Decodes;
  composite = stub_of-CompositeKeys;
  plain = refl;
  event = λ name b s s' h k.
      ap (λ (p : Result (Unit {0}) × WithTxCache Memory). cached_get memory_stub k p.1) (sym h);
}

alice_invokes :
    (c : Context (WithTxCache Memory) ℕ) (s : WithTxCache Memory)
    → invoker_id events ids encoding payloads cached emitter c s ≡ ok alice_id
unfolding computes
alice_invokes c s = refl

alice-ne-carol : alice_id ≢ carol_id
alice-ne-carol h = let e : codes "Org1" ≡ codes "Org3" = ap (λ (a : ShortId). a.msp) h in cc

alice-ne-bob : alice_id ≢ bob_id
alice-ne-bob h = let e : codes "Org1" ≡ codes "Org2" = ap (λ (a : ShortId). a.msp) h in cc

bob-ne-carol : bob_id ≢ carol_id
bob-ne-carol h = let e : codes "Org2" ≡ codes "Org3" = ap (λ (a : ShortId). a.msp) h in cc

invoke_transfer-HasMoved_example :
    (alice_id ≢ bob_id)
    × HasMoved events cached emitter holds alice_id bob_id carol_id
        (pos 3)
        (int (pos 7))
        start
        after_transfer
unfolding computes
invoke_transfer-HasMoved_example =
    invoke_transfer-HasMoved events ids encoding payloads cached emitter to_bob holds alice_id
      carol_id (int (pos 7)) start after_transfer (alice_invokes to_bob start) alice-ne-carol
      bob-ne-carol transferred

abbrev after_spending : WithTxCache Memory
after_spending = (invoke_transfer_from events ids encoding payloads cached emitter to_bob start).1

spent :
    invoke_transfer_from events ids encoding payloads cached emitter to_bob start
    ≡ (ok (int (pos 7)), after_spending)
unfolding computes
spent = refl

invoke_transfer_from-HasMoved_example :
    HasSpent events ids encoding payloads cached emitter to_bob holds alice_id start after_spending
    × HasMoved events cached emitter holds alice_id bob_id carol_id
        (pos 3)
        (int (pos 7))
        start
        after_spending
unfolding computes
invoke_transfer_from-HasMoved_example =
    invoke_transfer_from-HasMoved events ids encoding payloads cached emitter to_bob holds alice_id
      carol_id (int (pos 7)) start after_spending (alice_invokes to_bob start) alice-ne-bob
      alice-ne-carol bob-ne-carol spent

abbrev after_minting : WithTxCache Memory
after_minting = (invoke_transfer_from events ids encoding payloads cached emitter to_self start).1

minted :
    invoke_transfer_from events ids encoding payloads cached emitter to_self start
    ≡ (ok (int (pos 7)), after_minting)
unfolding computes
minted = refl

-- Alice has thirteen.
minted_balance : get_balance events cached alice_id after_minting ≡ ok (pos 13)
unfolding computes
minted_balance = refl

invoke_transfer_from-HasMinted_example :
    HasSpent events ids encoding payloads cached emitter to_self holds alice_id start after_minting
    × HasMinted events cached emitter holds alice_id (pos 3) (int (pos 7)) start after_minting
unfolding computes
invoke_transfer_from-HasMinted_example =
    invoke_transfer_from-HasMinted events ids encoding payloads cached emitter to_self holds
      alice_id (int (pos 7)) start after_minting (alice_invokes to_self start) refl minted

-- A negative amount takes from the recipient.
abbrev taking : Context (WithTxCache Memory) ℕ
taking = request alice_id bob_id (negsuc 3)

taken :
    (r : _) × (invoke_transfer events ids encoding payloads cached emitter taking start
      ≡ (ok (int (pos 14)), r))
    × (get_balance events cached bob_id r ≡ ok (negsuc 3))
unfolding computes
taken = (_, refl, refl)
