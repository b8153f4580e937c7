-- ===== src/CPaper.antt =====
-- examples/cpaper/chaincode.go: commercial papers in the state, issued once, sold by their owner and
-- redeemed at last. The handlers take the struct that the router has read from the argument. A time
-- is a value of a type `T`; a pointer to a paper is not told from the paper; the texts of errors
-- name no paper.
pub mod Store
pub mod Sale
pub mod Lifecycle
pub mod Ledger
pub mod History
use cckit.Base.{
  Bool, true, false, Option, none, some, List, [], ◌∷◌, Text, Bytes, codes, text_eq, if◌then◌else◌,
}
use cckit.Lang.Error.{Error, noted, message}
use cckit.Lang.Exec.{Exec, lift, reads, ◌>>=◌, ◌>>◌}
use cckit.Lang.Result.{Result, ok, err, panic, on_err}
use cckit.Lang.Result.{◌>>=◌ as bind}
use cckit.Lang.Value.{Value, str, obj, ℤ, pos, Kind, struct, Methods}
use cckit.State.Impl.{Impl, get, put, insert}
use cckit.State.Impl.Listing.{Listing, list_state}
use cckit.State.Key.{Key}

-- TaskState
abbrev pub TaskState : Type 0
TaskState = Text

abbrev pub commercial_paper_issued : TaskState
commercial_paper_issued = codes "issued"

abbrev pub commercial_paper_trading : TaskState
commercial_paper_trading = codes "trading"

abbrev pub commercial_paper_redeemed : TaskState
commercial_paper_redeemed = codes "redeemed"

abbrev pub commercial_paper_type_name : Text
commercial_paper_type_name = codes "CommercialPaper"

pub record CommercialPaper (T : Type 0) : Type 0 where
  pub issuer : Text
  pub paper_number : Text
  pub owner : Text
  pub issue_date : T
  pub maturity_date : T
  pub face_value : ℤ
  pub state : TaskState

-- CommercialPaper.Key
abbrev pub key : {T : Type 0} → CommercialPaper T → Result Key
key c = ok (commercial_paper_type_name ∷ c.issuer ∷ c.paper_number ∷ [])

pub record IssueCommercialPaper (T : Type 0) : Type 0 where
  pub issuer : Text
  pub paper_number : Text
  pub issue_date : T
  pub maturity_date : T
  pub face_value : ℤ

pub record BuyCommercialPaper (T : Type 0) : Type 0 where
  pub issuer : Text
  pub paper_number : Text
  pub current_owner : Text
  pub new_owner : Text
  pub price : ℤ
  pub purchase_date : T

pub record RedeemCommercialPaper (T : Type 0) : Type 0 where
  pub issuer : Text
  pub paper_number : Text
  pub redeeming_owner : Text
  pub redeem_date : T

-- What the papers take of the libraries: the zero time, and encoding/json.
pub record Library (T : Type 0) : Type 0 where
  pub zero_time : T
  pub type_name : Value (CommercialPaper T) → Text
  pub json_marshal : Value (CommercialPaper T) → Result Bytes
  pub json_unmarshal : Value (CommercialPaper T) → Bytes → Result (Value (CommercialPaper T))

module _ {T : Type 0} (lib : Library T) where
  -- The methods of a paper: a struct whose only method is Key.
  unfoldable pub papers : Methods (CommercialPaper T)
  papers = record {
    type_name = lib.type_name;
    kind = λ c. struct;
    text = λ c. [];
    keyer = λ c. some (key c);
    namer = λ c. none;
    to_byter = λ c. none;
    from_byter = λ c. none;
    proto_marshal = λ c. none;
    marshal_any = λ c. err (message []);
    proto_unmarshal = λ c. none;
    json_marshal = lib.json_marshal;
    json_unmarshal = lib.json_unmarshal;
  }

  -- `&CommercialPaper{Issuer: …, PaperNumber: …}`
  abbrev pub paper_of : Text → Text → CommercialPaper T
  paper_of issuer number = record {
    issuer = issuer;
    paper_number = number;
    owner = [];
    issue_date = lib.zero_time;
    maturity_date = lib.zero_time;
    face_value = pos 0;
    state = [];
  }

  -- `cp.(CommercialPaper)`
  abbrev pub assert_paper : Value (CommercialPaper T) → Result (CommercialPaper T)
  assert_paper (obj c) = ok c
  assert_paper _ = panic

  abbrev pub issued_paper : IssueCommercialPaper T → CommercialPaper T
  issued_paper data_ = record {
    issuer = data_.issuer;
    paper_number = data_.paper_number;
    owner = data_.issuer;
    issue_date = data_.issue_date;
    maturity_date = data_.maturity_date;
    face_value = data_.face_value;
    state = commercial_paper_issued;
  }

  -- The first sale moves the paper from issued to trading.
  abbrev pub start_trading : CommercialPaper T → CommercialPaper T
  start_trading c =
      if text_eq c.state commercial_paper_issued
      then record c { state = commercial_paper_trading }
      else c

  abbrev pub if_trading : BuyCommercialPaper T → CommercialPaper T → Result (CommercialPaper T)
  if_trading data_ c =
      if text_eq c.state commercial_paper_trading
      then ok (record c { owner = data_.new_owner })
      else err (message (codes "paper is not trading"))

  -- What buy makes of the paper that it has read.
  unfoldable pub bought : BuyCommercialPaper T → CommercialPaper T → Result (CommercialPaper T)
  bought data_ c =
      if text_eq c.owner data_.current_owner
      then if_trading data_ (start_trading c)
      else err (message (codes "paper is not owned by"))

  abbrev pub if_owned : RedeemCommercialPaper T → CommercialPaper T → Result (CommercialPaper T)
  if_owned data_ c =
      if text_eq c.owner data_.redeeming_owner
      then ok (record c { owner = data_.issuer; state = commercial_paper_redeemed })
      else err (message (codes "redeeming owner does not own paper"))

  -- What redeem makes of the paper that it has read.
  unfoldable pub redeemed : RedeemCommercialPaper T → CommercialPaper T → Result (CommercialPaper T)
  redeemed data_ c =
      if text_eq c.state commercial_paper_redeemed
      then err (message (codes "paper is already redeemed"))
      else if_owned data_ c

  module _ {S : Type 0} (i : Impl S (CommercialPaper T)) where
    -- get returns what the state holds, as bytes.
    unfoldable pub get_paper : Text → Text → S → Result (Value (CommercialPaper T))
    get_paper issuer number = get papers i (obj (paper_of issuer number)) []

    unfoldable pub list_papers : S → Result (Listing (CommercialPaper T))
    list_papers = list_state papers i (str commercial_paper_type_name) (obj (paper_of [] []) ∷ [])

    unfoldable pub issue : IssueCommercialPaper T → Exec S (CommercialPaper T)
    issue data_ = do insert papers i (obj (issued_paper data_)) []; lift (ok (issued_paper data_))

    -- The paper that buy and redeem read.
    unfoldable pub current : Text → Text → S → Result (CommercialPaper T)
    current issuer number s =
        bind
          (on_err (noted (codes "paper not found"))
            (get papers i (obj (paper_of issuer number)) (obj (paper_of [] []) ∷ []) s))
          assert_paper

    -- `return commercialPaper, c.State().Put(commercialPaper)`
    abbrev pub stored : CommercialPaper T → Exec S (CommercialPaper T)
    stored c = do put papers i (obj c) []; lift (ok c)

    unfoldable pub buy : BuyCommercialPaper T → Exec S (CommercialPaper T)
    buy data_ = do
      found ← reads (current data_.issuer data_.paper_number)
      paper ← lift (bought data_ found)
      stored paper

    unfoldable pub redeem : RedeemCommercialPaper T → Exec S (CommercialPaper T)
    redeem data_ = do
      found ← reads (current data_.issuer data_.paper_number)
      paper ← lift (redeemed data_ found)
      stored paper
