-- ===== src/CPaperExtended.antt =====
-- examples/cpaper_extended/chaincode.go: the chaincode of commercial papers with mappings, whose
-- middleware wraps the state and the event of the context. Its messages and mappings are those of
-- examples/cpaper_asservice, in a package of their own. The parameter of a handler is what the router
-- has decoded.
pub mod Laws
use cckit.Base.{List, [], ◌∷◌, Text, codes}
use cckit.CPaperService.{
  empty_paper, paper_of, id_of, issued_paper, bought, paid, assert_paper, state_mappings,
  event_mappings,
}
use cckit.CPaperService.Messages.{
  CommercialPaper, CommercialPaperId, IssueCommercialPaper, BuyCommercialPaper,
  RedeemCommercialPaper, Message, paper, paper_id, issuing, buying, redeeming, Library, reflect,
  messages, validate_issue,
}
use cckit.Lang.Error.{Error, noted}
use cckit.Lang.Exec.{Exec, lift, reads, ◌>>=◌, ◌>>◌}
use cckit.Lang.Result.{Result, ok, err, on_err}
use cckit.Lang.Result.{◌>>=◌ as bind}
use cckit.Lang.Value.{obj}
use cckit.Mapping.Events.{EventArg}
use cckit.Mapping.Events as Events
use cckit.Mapping.Interface as Interface
use cckit.Mapping.MappedState as MappedState
use cckit.Mapping.Schema.{Entity, app, Schema}
use cckit.Mapping.StateMappings.{StateMappings}
use cckit.State.Impl.Listing.{Listing}

module _ {T S : Type 0} (lib : Library T) (show : Error → Text) (st : Interface.State S (Message T))
    (set_event : EventArg (Entity (Message T))
      → List (Schema (Message T))
      → Exec S (Unit {0})) where
  -- The context of a handler, once MapStates and MapEvents have wrapped it; StateMappings is made when
  -- the package is loaded.
  abbrev on_mapped : {A : Type 0} → (StateMappings (Message T) → S → Result A) → S → Result A
  on_mapped f s = bind (state_mappings lib show) λ smm. f smm s

  abbrev pub with_mapped : {A : Type 0} → (StateMappings (Message T) → Exec S A) → Exec S A
  with_mapped f = do smm ← lift (state_mappings lib show); f smm

  abbrev pub emit : Message T → Exec S (Unit {0})
  emit e = Events.set (messages lib) set_event (event_mappings lib show) (obj (app e)) []

  unfoldable pub query_cpapers : S → Result (Listing (Entity (Message T)))
  query_cpapers = on_mapped λ smm.
      MappedState.list (messages lib) show (reflect lib) st smm
        (paper_of lib show (empty_paper lib show)) []

  unfoldable pub query_cpaper : CommercialPaperId → S → Result (Schema (Message T))
  query_cpaper id =
      on_mapped
        λ smm. MappedState.get (messages lib) show (reflect lib) st smm (id_of lib show id) []

  unfoldable pub query_cpaper_get_by_external_id : Text → S → Result (Schema (Message T))
  query_cpaper_get_by_external_id external_id = on_mapped λ smm.
      MappedState.get_by_key (messages lib) show (reflect lib) st smm
        (paper_of lib show (empty_paper lib show)) (codes "ExternalId") (external_id ∷ []) []

  unfoldable pub invoke_cpaper_issue : IssueCommercialPaper T → Exec S (CommercialPaper T)
  invoke_cpaper_issue d = do
    lift (on_err (noted (codes "payload validation")) (validate_issue lib d))
    emit (issuing d)
    with_mapped λ smm.
        MappedState.insert (messages lib) show (reflect lib) st smm
          (paper_of lib show (issued_paper lib show d)) []
    lift (ok (issued_paper lib show d))

  -- `return cpaper, c.State().Put(cpaper)`
  abbrev pub stored : CommercialPaper T → Exec S (CommercialPaper T)
  stored c = do
    with_mapped
        λ smm. MappedState.put (messages lib) show (reflect lib) st smm (paper_of lib show c) []
    lift (ok c)

  -- `c.State().Get(key, &schema.CommercialPaper{})`, asserted to be a paper.
  abbrev pub found_at : Schema (Message T) → Text → S → Result (CommercialPaper T)
  found_at key note s =
      bind
        (on_err (noted note) (
          on_mapped
            (λ smm.
              MappedState.get (messages lib) show (reflect lib) st smm key
                (paper_of lib show (empty_paper lib show) ∷ []))
            s))
        (assert_paper lib show)

  unfoldable pub invoke_cpaper_buy : BuyCommercialPaper T → Exec S (CommercialPaper T)
  invoke_cpaper_buy d = do
    cpaper ← reads (
        found_at (id_of lib show (record { issuer = d.issuer; paper_number = d.paper_number }))
          (codes "not found"))
    sold ← lift (bought lib show d cpaper)
    emit (buying d)
    stored sold

  -- Redeem takes a paper for the key, of which only the issuer and the number are set.
  abbrev pub keyed_paper : Text → Text → CommercialPaper T
  keyed_paper issuer number = record (empty_paper lib show) {
    issuer = issuer;
    paper_number = number;
  }

  unfoldable pub invoke_cpaper_redeem : RedeemCommercialPaper T → Exec S (CommercialPaper T)
  invoke_cpaper_redeem d = do
    commercial_paper ← reads (
        found_at (paper_of lib show (keyed_paper d.issuer d.paper_number))
          (codes "paper not found"))
    closed ← lift (paid lib show d commercial_paper)
    emit (redeeming d)
    stored closed

  unfoldable pub invoke_cpaper_delete : CommercialPaperId → Exec S (Unit {0})
  invoke_cpaper_delete id =
      with_mapped
        λ smm. MappedState.delete (messages lib) show (reflect lib) st smm (id_of lib show id)
