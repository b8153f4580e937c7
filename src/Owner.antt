-- ===== src/Owner.antt =====
-- extensions/owner/owner.go, modifier.go, and CreateEntry of identity/entry.go. A pointer to an Entry
-- is not told from the Entry. The state of the context is a parameter; the identity of the invoker is
-- read from the creator with crypto/x509, which is outside the repository.
pub mod Laws
use cckit.Base.{
  Bool, true, false, ◌&&◌, Option, none, some, List, [], ◌∷◌, Text, Bytes, codes, text_eq,
  if◌then◌else◌,
}
use cckit.Lang.Error.{Error, base, noted, owner_only, owner_not_provided, owner_already_setted}
use cckit.Lang.Exec.{Exec, lift, reads, ◌>>=◌, ◌>>◌, continue}
use cckit.Lang.Result.{Result, ok, err, panic, on_err}
use cckit.Lang.Result.{◌>>=◌ as bind}
use cckit.Lang.Value.{Value, str, obj, Methods}
use cckit.State.Impl.{Impl, get, exists, insert}

-- CertIdentity, by what the code asks it for.
pub record Identity : Type 0 where
  pub msp_id : Text
  pub subject : Text
  pub issuer : Text
  pub pem : Bytes

-- Entry, without the certificate that is kept for a time.
pub record Entry : Type 0 where
  pub msp_id : Text
  pub subject : Text
  pub issuer : Text
  pub pem : Bytes

-- CreateEntry
abbrev pub create_entry : Identity → Entry
create_entry i = record { msp_id = i.msp_id; subject = i.subject; issuer = i.issuer; pem = i.pem }

-- OwnerStateKey
abbrev pub owner_state_key : {U : Type 0} → Value U
owner_state_key = str (codes "OWNER")

-- What the code uses of identity, of the stub and of the type Entry.
pub record Identities (S U : Type 0) : Type 0 where
  pub from_stub : S → Result Identity
  pub new : Text → Bytes → Result Identity
  pub get_args : S → List Bytes
  pub entry_value : Entry → U
  -- the assertion `.(identity.Entry)`
  pub as_entry : Value U → Option Entry
  -- `&identity.Entry{}`
  pub target : U

abbrev pub assert_entry : Option Entry → Result Entry
assert_entry (some e) = ok e
assert_entry none = panic

module _ {S U : Type 0} (m : Methods U) (ids : Identities S U) (i : Impl S U) where
  unfoldable pub is_setted : S → Result Bool
  is_setted s = exists m i owner_state_key s

  -- Get and IdentityEntryFromState
  unfoldable pub get_owner : S → Result Entry
  get_owner s =
      bind (get m i owner_state_key (obj ids.target ∷ []) s) λ v. assert_entry (ids.as_entry v)

  -- `return entry, c.State().Insert(OwnerStateKey, entry)`
  unfoldable pub insert_entry : Entry → Exec S Entry
  insert_entry e = do insert m i owner_state_key (obj (ids.entry_value e) ∷ []); lift (ok e)

  unfoldable pub set_from_creator : Exec S Entry
  unfolding insert_entry
  set_from_creator = do
    setted ← reads is_setted
    let found = reads get_owner
    let put_creator = do creator ← reads ids.from_stub; insert_entry (create_entry creator)
    if setted then found else put_creator

  -- Insert
  unfoldable pub insert_owner : Text → Bytes → Exec S Entry
  unfolding insert_entry
  insert_owner msp_id cert = do
    setted ← reads (λ s. on_err (noted (codes "check owner is set")) (is_setted s))
    let put_new = do id ← lift (ids.new msp_id cert); insert_entry (create_entry id)
    if setted then lift (err (base owner_already_setted)) else put_new

  -- SetFromArgs where there are not two arguments.
  unfoldable pub owner_if_set : Exec S Entry
  owner_if_set = do
    setted ← reads is_setted
    if setted then reads get_owner else lift (err (base owner_not_provided))

  abbrev pub set_from : List Bytes → Exec S Entry
  set_from (msp_id ∷ cert ∷ []) = insert_owner msp_id cert
  set_from _ = owner_if_set

  unfoldable pub set_from_args : Exec S Entry
  set_from_args s = set_from (ids.get_args s) s

  abbrev pub is_same_as : Entry → Identity → Bool
  is_same_as e invoker = text_eq e.msp_id invoker.msp_id && text_eq e.subject invoker.subject

  unfoldable pub is_invoker : S → Result Bool
  is_invoker s = bind (ids.from_stub s) λ invoker. bind (get_owner s) λ e. ok (is_same_as e invoker)

  unfoldable pub any_is : List Identity → Identity → Bool
  any_is [] invoker = false
  any_is (a ∷ allowed) invoker =
      let rest = any_is allowed invoker in
      if text_eq a.msp_id invoker.msp_id && text_eq a.subject invoker.subject then true else rest

  unfoldable pub is_invoker_or : List Identity → S → Result Bool
  is_invoker_or allowed s =
      bind (is_invoker s) λ is_owner. if is_owner then ok true else or_allowed allowed s
    where
      or_allowed : List Identity → S → Result Bool
      or_allowed [] s = ok false
      or_allowed (a ∷ more) s = bind (ids.from_stub s) λ invoker. ok (any_is (a ∷ more) invoker)

  -- `if invokerIsOwner && err == nil`; a panic goes through.
  abbrev pub only_if : {A : Type 0} → Result Bool → Exec S A → Exec S A
  only_if (ok true) next s = next s
  only_if panic next s = (panic, s)
  only_if _ next s = (err (base owner_only), s)

  unfoldable pub only : {A : Type 0} → Exec S A → Exec S A
  only next s = only_if (is_invoker s) next s
