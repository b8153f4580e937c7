-- ===== src/Tests/MappingMemory/Papers.antt =====
-- The messages of the service of commercial papers on the peer of the tests: papers and the entries of
-- indexes are marshalled, and timestamps are numbers that have no validator.
use cckit.Base.{
  ◌≡◌, refl, ap, sym, ◌∙◌, ℕ, zero, suc, false, Bool-cases, inl, inr, Option, some, none,
  some_injective, List, [], ◌∷◌, Text, Bytes, codes, text_eq, is_empty, if◌then◌else◌,
}
use cckit.CPaperService.{empty_paper}
use cckit.CPaperService.Messages.{
  State, issued, trading, redeemed, other_state, CommercialPaper, Message, paper, paper_id,
  paper_list, issuing, buying, redeeming, Library, reflect, messages, type_name,
}
use cckit.Convert.{from_bytes}
use cckit.Lang.Error.{Error, external, noted}
use cckit.Lang.Result.{Result, ok, err, ok-injective, on_err, on_err-eq-ok}
use cckit.Lang.Value.{obj, ℤ, pos, negsuc}
use cckit.Mapping.Filled.{filled}
use cckit.Mapping.Filled.Promises.{impl_promises}
use cckit.Mapping.Filled.Writing.{Messages}
use cckit.Mapping.Interface as Interface
use cckit.Mapping.KeyRefs.Laws.{ref_key_of}
use cckit.Mapping.MappedState.{key_ref_target}
use cckit.Mapping.Schema.{Entity, app, key_ref, key_ref_id, Schema, KeyRef}
use cckit.Mapping.Spec.{StateSpec}
use cckit.State.Key.{Key}
use cckit.State.Transformer.{convert_from_bytes}
use cckit.Tests.MappingMemory.{Peer, peer, peer-Ledger, peer-CompositeKeys}
use cckit.Tests.MappingMemory.Codec.{
  written, read, read-written, is_empty-written, texts_of_ref, ref_of_texts,
  ref_of_texts-texts_of_ref,
}

abbrev text_of_date : Option ℕ → Text
text_of_date none = []
text_of_date (some n) = n ∷ []

abbrev date_of_text : Text → Option ℕ
date_of_text [] = none
date_of_text (n ∷ _) = some n

abbrev text_of_int : ℤ → Text
text_of_int (pos n) = 0 ∷ n ∷ []
text_of_int (negsuc n) = 1 ∷ n ∷ []

abbrev int_of_text : Text → ℤ
int_of_text (zero ∷ n ∷ _) = pos n
int_of_text (_ ∷ n ∷ _) = negsuc n
int_of_text _ = pos 0

abbrev text_of_state : State → Text
text_of_state issued = 0 ∷ []
text_of_state trading = 1 ∷ []
text_of_state redeemed = 2 ∷ []
text_of_state (other_state z) = 3 ∷ text_of_int z

abbrev state_of_text : Text → State
state_of_text (zero ∷ _) = issued
state_of_text (suc zero ∷ _) = trading
state_of_text (suc (suc zero) ∷ _) = redeemed
state_of_text (_ ∷ t) = other_state (int_of_text t)
state_of_text [] = issued

date_round : (d : Option ℕ) → date_of_text (text_of_date d) ≡ d
date_round none = refl
date_round (some n) = refl

int_round : (z : ℤ) → int_of_text (text_of_int z) ≡ z
int_round (pos n) = refl
int_round (negsuc n) = refl

state_round : (s : State) → state_of_text (text_of_state s) ≡ s
state_round issued = refl
state_round trading = refl
state_round redeemed = refl
state_round (other_state z) = ap other_state (int_round z)

abbrev texts_of_paper : CommercialPaper ℕ → List Text
texts_of_paper c =
    c.issuer
    ∷ c.paper_number
    ∷ c.owner
    ∷ text_of_date c.issue_date
    ∷ text_of_date c.maturity_date
    ∷ text_of_int c.face_value
    ∷ text_of_state c.state
    ∷ c.external_id
    ∷ []

abbrev paper_of_texts : List Text → Message ℕ
paper_of_texts (a ∷ b ∷ c ∷ d ∷ e ∷ f ∷ g ∷ h ∷ _) = paper (record {
  issuer = a;
  paper_number = b;
  owner = c;
  issue_date = date_of_text d;
  maturity_date = date_of_text e;
  face_value = int_of_text f;
  state = state_of_text g;
  external_id = h;
})
paper_of_texts _ = paper_list []

paper_round : (c : CommercialPaper ℕ) → paper_of_texts (texts_of_paper c) ≡ paper c
paper_round c =
    rw
      (
        date_round c.issue_date,
        date_round c.maturity_date,
        int_round c.face_value,
        state_round c.state,
      )
      refl

abbrev marshal : Entity (Message ℕ) → Result Bytes
marshal (app (paper c)) = ok (written (texts_of_paper c))
marshal (key_ref r) = ok (written (texts_of_ref r))
marshal _ = err (external 0)

abbrev by_type : Text → List Text → Result (Schema (Message ℕ))
by_type t ts =
    if text_eq t (codes "*schema.CommercialPaper")
    then ok (obj (app (paper_of_texts ts)))
    else if text_eq t (codes "*schema.KeyRef")
    then ok (obj (key_ref (ref_of_texts ts)))
    else err (external 0)

-- The name of the type of a message, for the library, which the messages are made with.
abbrev blank : Library ℕ
blank = record {
  day = λ t. none;
  call_validator = λ t. ok tt;
  proto_marshal = λ e. err (external 0);
  proto_unmarshal = λ e b. err (external 0);
  marshal_any = λ e. ok [];
  json_marshal = λ v. err (external 0);
  json_unmarshal = λ v b. err (external 0);
}

abbrev pub lib : Library ℕ
lib = record {
  day = λ t. some (codes "2020-01-01");
  call_validator = λ t. ok tt;
  proto_marshal = marshal;
  proto_unmarshal = λ e b. by_type (type_name blank (obj e)) (read b);
  marshal_any = λ e. ok [];
  json_marshal = λ v. err (external 0);
  json_unmarshal = λ v b. err (external 0);
}

abbrev pub show : Error → Text
show e = []

abbrev pub kit : Interface.State Peer (Message ℕ)
kit = filled (messages lib) show (reflect lib) peer

by_type-message :
    (t : Text) (ts : List Text) (v : Schema (Message ℕ))
    → by_type t ts ≡ ok v
    → (y : Entity (Message ℕ)) × (v ≡ obj y)
by_type-message t ts v h = elim (Bool-cases (text_eq t (codes "*schema.CommercialPaper"))) [
  | inl e ↦ (app (paper_of_texts ts), ok-injective (sym (rw e at h)))
  | inr e ↦ elim (Bool-cases (text_eq t (codes "*schema.KeyRef"))) [
    | inl f ↦ (key_ref (ref_of_texts ts), ok-injective (sym (rw f at (rw e at h))))
    | inr f ↦ absurd (let c = rw f at (rw e at h) in cc)
  ]
]

refused :
    {A : Type 0} {e : Error} {b : A} → ¬ (◌≡◌ {A = Option (Result A)} (some (err e)) (some (ok b)))
refused h = let e = some_injective h in cc

-- The bytes of a message are read as the message at its type.
by_type-marshal :
    (x : Entity (Message ℕ)) (bb : Bytes)
    → some (marshal x) ≡ some (ok bb)
    → by_type (type_name blank (obj x)) (read bb) ≡ ok (obj x)
unfolding text_eq type_name
by_type-marshal (app (paper c)) bb h =
    ap (by_type (codes "*schema.CommercialPaper"))
      (ap read (sym (ok-injective (some_injective h))) ∙ read-written (texts_of_paper c))
    ∙ ap (λ m. ok (obj (app m))) (paper_round c)
by_type-marshal (key_ref r) bb h =
    ap (by_type (codes "*schema.KeyRef"))
      (ap read (sym (ok-injective (some_injective h))) ∙ read-written (texts_of_ref r))
    ∙ ap (λ q. ok (obj (key_ref q))) (ref_of_texts-texts_of_ref r)
by_type-marshal (app (paper_id i)) bb h = absurd (refused h)
by_type-marshal (app (paper_list i)) bb h = absurd (refused h)
by_type-marshal (app (issuing i)) bb h = absurd (refused h)
by_type-marshal (app (buying i)) bb h = absurd (refused h)
by_type-marshal (app (redeeming i)) bb h = absurd (refused h)
by_type-marshal (key_ref_id i) bb h = absurd (refused h)

pub paper-full :
    (c : CommercialPaper ℕ) (bb : Bytes)
    → some (marshal (app (paper c))) ≡ some (ok bb)
    → is_empty bb ≡ false
paper-full c bb h =
    ap is_empty (sym (ok-injective (some_injective h))) ∙ is_empty-written c.issuer _

pub ref-full :
    (r : KeyRef) (bb : Bytes) → some (marshal (key_ref r)) ≡ some (ok bb) → is_empty bb ≡ false
ref-full r bb h = ap is_empty (sym (ok-injective (some_injective h))) ∙ is_empty-written r.schema _

abbrev note : Error → Error
note = noted (codes "unable to convert value to struct")

convert_paper :
    (x : Entity (Message ℕ)) (bb : Bytes)
    → convert_from_bytes (messages lib) bb (obj x ∷ [])
      ≡ on_err note (by_type (type_name blank (obj x)) (read bb))
unfolding convert_from_bytes from_bytes messages
convert_paper x bb = refl

type_names : (x : Entity (Message ℕ)) → (messages lib).type_name (obj x) ≡ type_name blank (obj x)
unfolding messages type_name
type_names (app (paper c)) = refl
type_names (app (paper_id i)) = refl
type_names (app (paper_list i)) = refl
type_names (app (issuing i)) = refl
type_names (app (buying i)) = refl
type_names (app (redeeming i)) = refl
type_names (key_ref r) = refl
type_names (key_ref_id r) = refl

by_same_type :
    (x y : Entity (Message ℕ)) (bb : Bytes)
    → (messages lib).type_name (obj x) ≡ (messages lib).type_name (obj y)
    → by_type (type_name blank (obj x)) (read bb) ≡ by_type (type_name blank (obj y)) (read bb)
by_same_type x y bb e = ap (λ t. by_type t (read bb)) (sym (type_names x) ∙ e ∙ type_names y)

pub marshals :
    (x : Entity (Message ℕ)) (bb : Bytes)
    → (messages lib).proto_marshal x ≡ some (ok bb)
    → some (marshal x) ≡ some (ok bb)
unfolding messages
marshals x bb h = h

papers-Messages : Messages (messages lib)
papers-Messages = record {
  same_type = λ x y bb e.
      convert_paper x bb ∙ ap (on_err note) (by_same_type x y bb e) ∙ sym (convert_paper y bb);
  message = λ x bb v h.
      by_type-message (type_name blank (obj x)) (read bb) v
        (on_err-eq-ok _ _ (sym (convert_paper x bb) ∙ h));
  unmarshal-marshal = λ x y bb h e.
      convert_paper y bb
      ∙ ap (on_err note) (sym (by_same_type x y bb e) ∙ by_type-marshal x bb (marshals x bb h));
}

-- What stands under `_idx` is read as an entry of an index, and all else as a paper.
abbrev pub target_at : Key → Entity (Message ℕ)
target_at [] = app (paper (empty_paper lib show))
target_at (p ∷ ps) =
    if text_eq p (codes "_idx")
    then key_ref (record { schema = []; idx = []; ref_key = []; p_key = [] })
    else app (paper (empty_paper lib show))

refs_targets :
    (r : KeyRef)
    → (messages lib).type_name key_ref_target
      ≡ (messages lib).type_name (obj (target_at (ref_key_of r)))
unfolding text_eq
refs_targets r = refl

unfoldable pub promises : StateSpec (messages lib) show (reflect lib) kit
unfolding refs_targets papers-Messages convert_paper by_type-message by_type-marshal by_same_type
    type_names paper_round refused date_round int_round state_round marshals
promises =
    impl_promises (messages lib) show (reflect lib) peer target_at peer-Ledger peer-CompositeKeys
      papers-Messages refs_targets
