-- ===== src/CPaperService.antt =====
-- examples/cpaper_asservice/service/service.go: the service of commercial papers, over a state and an
-- event with mappings. The context gives the state and the event that are wrapped, as parameters; a
-- message is what the router has decoded. The schema of a paper is that of CPaperService/Messages.
pub mod Messages
pub mod Mapped
pub mod Indexed
pub mod Handlers
pub mod Ledger
pub mod Lookup
use cckit.Base.{
  Bool, true, false, Option, none, some, List, [], ◌∷◌, Text, codes, text_eq, if◌then◌else◌,
}
use cckit.CPaperService.Messages.{
  State, issued, trading, redeemed, other_state, CommercialPaper, CommercialPaperId, ExternalId,
  IssueCommercialPaper, BuyCommercialPaper, RedeemCommercialPaper, Message, paper, paper_id,
  paper_list, issuing, buying, redeeming, Library, reflect, messages, validate_issue,
}
use cckit.Lang.Error.{Error, noted, message}
use cckit.Lang.Exec.{Exec, lift, reads, ◌>>=◌, ◌>>◌}
use cckit.Lang.Result.{Result, ok, err, panic, on_err}
use cckit.Lang.Result.{◌>>=◌ as bind}
use cckit.Lang.Value.{Value, obj, ℤ, pos}
use cckit.Mapping.Events.{EventArg, EventMappings}
use cckit.Mapping.Events as Events
use cckit.Mapping.Interface as Interface
use cckit.Mapping.MappedState as MappedState
use cckit.Mapping.Options.{add, p_key_schema, list_of, uniq_key}
use cckit.Mapping.Schema.{Entity, app, Schema}
use cckit.Mapping.StateMappings.{StateMappings}
use cckit.State.Impl.Listing.{Listing}

module _ {T : Type 0} (lib : Library T) (show : Error → Text) where
  -- `&schema.CommercialPaper{}` and `&schema.CommercialPaperId{}`
  abbrev pub empty_paper : CommercialPaper T
  empty_paper = record {
    issuer = [];
    paper_number = [];
    owner = [];
    issue_date = none;
    maturity_date = none;
    face_value = pos 0;
    state = issued;
    external_id = [];
  }

  abbrev pub paper_of : CommercialPaper T → Schema (Message T)
  paper_of c = obj (app (paper c))

  abbrev pub id_of : CommercialPaperId → Schema (Message T)
  id_of i = obj (app (paper_id i))

  -- The mappings of State.
  unfoldable pub state_mappings : Result (StateMappings (Message T))
  state_mappings =
      bind
        (p_key_schema (messages lib) show (reflect lib)
          (id_of (record { issuer = []; paper_number = [] })))
        λ pkey. ok (
          add (messages lib) show (reflect lib) (paper_of empty_paper)
            (pkey
              ∷ list_of (messages lib) show (reflect lib) (obj (app (paper_list [])))
              ∷ uniq_key (messages lib) show (reflect lib) (codes "ExternalId") []
              ∷ [])
            [])

  abbrev empty_issue : IssueCommercialPaper T
  empty_issue = record {
    issuer = [];
    paper_number = [];
    issue_date = none;
    maturity_date = none;
    face_value = pos 0;
    external_id = [];
  }

  abbrev empty_buy : BuyCommercialPaper T
  empty_buy = record {
    issuer = [];
    paper_number = [];
    current_owner = [];
    new_owner = [];
    price = pos 0;
    purchase_date = none;
  }

  abbrev empty_redeem : RedeemCommercialPaper T
  empty_redeem = record { issuer = []; paper_number = []; redeeming_owner = []; redeem_date = none }

  -- The mappings of Event.
  unfoldable pub event_mappings : EventMappings (Entity (Message T))
  event_mappings = Events.add (messages lib) (obj (app (redeeming empty_redeem))) [] (
      Events.add (messages lib) (obj (app (buying empty_buy))) []
        (Events.add (messages lib) (obj (app (issuing empty_issue))) [] []))

  abbrev pub issued_paper : IssueCommercialPaper T → CommercialPaper T
  issued_paper d = record {
    issuer = d.issuer;
    paper_number = d.paper_number;
    owner = d.issuer;
    issue_date = d.issue_date;
    maturity_date = d.maturity_date;
    face_value = d.face_value;
    state = issued;
    external_id = d.external_id;
  }

  abbrev pub start_trading : State → State
  start_trading issued = trading
  start_trading s = s

  abbrev pub if_trading :
      State → CommercialPaper T → BuyCommercialPaper T → Result (CommercialPaper T)
  if_trading trading c d = ok (record c { owner = d.new_owner; state = trading })
  if_trading _ c d = err (message (codes "paper is not trading"))

  -- What Buy makes of the paper that it has read.
  unfoldable pub bought : BuyCommercialPaper T → CommercialPaper T → Result (CommercialPaper T)
  bought d c =
      if text_eq c.owner d.current_owner
      then if_trading (start_trading c.state) c d
      else err (message (codes "paper is not owned by"))

  abbrev pub unless_redeemed : State → Result (CommercialPaper T) → Result (CommercialPaper T)
  unless_redeemed redeemed rest = err (message (codes "paper is already redeemed"))
  unless_redeemed _ rest = rest

  -- What Redeem makes of the paper that it has read.
  unfoldable pub paid : RedeemCommercialPaper T → CommercialPaper T → Result (CommercialPaper T)
  paid d c = unless_redeemed c.state (
      if text_eq c.owner d.redeeming_owner
      then ok (record c { owner = d.issuer; state = redeemed })
      else err (message (codes "redeeming owner does not own paper")))

  -- `res.(*schema.CommercialPaper)`
  abbrev pub assert_paper : Schema (Message T) → Result (CommercialPaper T)
  assert_paper (obj (app (paper c))) = ok c
  assert_paper _ = panic

  module _ {S : Type 0} (st : Interface.State S (Message T))
      (set_event : EventArg (Entity (Message T))
        → List (Schema (Message T))
        → Exec S (Unit {0})) where
    -- A call on State(ctx), which makes the mappings.
    abbrev pub with_mappings : {A : Type 0} → (StateMappings (Message T) → Exec S A) → Exec S A
    with_mappings f = do smm ← lift state_mappings; f smm

    -- `Event(ctx).Set(…)`
    abbrev pub emit : Message T → Exec S (Unit {0})
    emit e = Events.set (messages lib) set_event event_mappings (obj (app e)) []

    -- List; its assertion that the listing is a CommercialPaperList is left out.
    unfoldable pub list_papers : S → Result (Listing (Entity (Message T)))
    list_papers s =
        bind state_mappings λ smm.
          MappedState.list (messages lib) show (reflect lib) st smm (paper_of empty_paper) [] s

    unfoldable pub get_paper : CommercialPaperId → S → Result (CommercialPaper T)
    get_paper id s = bind state_mappings λ smm.
        bind
          (MappedState.get (messages lib) show (reflect lib) st smm (id_of id)
            (paper_of empty_paper ∷ []) s)
          assert_paper

    unfoldable pub get_by_external_id : ExternalId → S → Result (CommercialPaper T)
    get_by_external_id id s = bind state_mappings λ smm.
        bind
          (MappedState.get_by_key (messages lib) show (reflect lib) st smm (paper_of empty_paper)
            (codes "ExternalId") (id.id ∷ []) (paper_of empty_paper ∷ []) s)
          assert_paper

    unfoldable pub issue : IssueCommercialPaper T → Exec S (CommercialPaper T)
    issue d = do
      lift (on_err (noted (codes "payload validation")) (validate_issue lib d))
      emit (issuing d)
      with_mappings λ smm.
          MappedState.insert (messages lib) show (reflect lib) st smm (paper_of (issued_paper d)) []
      lift (ok (issued_paper d))

    -- `State(ctx).Put(cpaper)`, which Buy and Redeem end with.
    abbrev pub put_paper : CommercialPaper T → Exec S (CommercialPaper T)
    put_paper c = do
      with_mappings λ smm. MappedState.put (messages lib) show (reflect lib) st smm (paper_of c) []
      lift (ok c)

    abbrev pub id_at : Text → Text → CommercialPaperId
    id_at issuer number = record { issuer = issuer; paper_number = number }

    abbrev pub current : CommercialPaperId → S → Result (CommercialPaper T)
    current id s = on_err (noted (codes "get cpaper")) (get_paper id s)

    unfoldable pub buy : BuyCommercialPaper T → Exec S (CommercialPaper T)
    unfolding get_paper
    buy d = do
      found ← reads (current (id_at d.issuer d.paper_number))
      sold ← lift (bought d found)
      emit (buying d)
      put_paper sold

    unfoldable pub redeem : RedeemCommercialPaper T → Exec S (CommercialPaper T)
    unfolding get_paper
    redeem d = do
      found ← reads (current (id_at d.issuer d.paper_number))
      closed ← lift (paid d found)
      emit (redeeming d)
      put_paper closed

    unfoldable pub delete : CommercialPaperId → Exec S (CommercialPaper T)
    unfolding get_paper
    delete id = do
      found ← reads (current id)
      with_mappings λ smm. MappedState.delete (messages lib) show (reflect lib) st smm (id_of id)
      lift (ok found)
