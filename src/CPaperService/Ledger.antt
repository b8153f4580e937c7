-- ===== src/CPaperService/Ledger.antt =====
-- examples/cpaper_asservice/service: the papers along committed transactions, and that no two of them
-- have one external id.
use cckit.Base.{◌≡◌, ap, sym, ◌∙◌, subst, some, some_injective, List, [], ◌∷◌, Text, codes}
use cckit.CPaperService.{issue, buy, redeem, delete}
use cckit.CPaperService.Handlers.{
  IsReady, AreIndexed, IsHeld, issue-IsIndexed, buy-IsIndexed, redeem-IsIndexed, delete-AreIndexed,
}
use cckit.CPaperService.Indexed.{IsQuiet, KeepsPapers}
use cckit.CPaperService.Mapped.{key_of_paper, external_ref, mappings, mapped_paper, paper-IsMapped}
use cckit.CPaperService.Messages.{
  CommercialPaper, CommercialPaperId, IssueCommercialPaper, BuyCommercialPaper,
  RedeemCommercialPaper, Message, paper, Library, reflect, messages,
}
use cckit.Lang.Error.{Error}
use cckit.Lang.Exec.{Exec}
use cckit.Lang.Result.{ok}
use cckit.Mapping.Events.{EventArg}
use cckit.Mapping.Index.{IsIndexed}
use cckit.Mapping.Interface as Interface
use cckit.Mapping.KeyRefs.Laws.{ref_key_of}
use cckit.Mapping.Schema.{Entity, app, key_ref, Schema, KeyRef}
use cckit.Mapping.Spec.{StateSpec}
use cckit.Mapping.Views.{View}

key_ref_injective : {U : Type 0} {r q : KeyRef} → ◌≡◌ {A = Entity U} (key_ref r) (key_ref q) → r ≡ q
key_ref_injective h = cc

module _ {T S : Type 0} (lib : Library T) (show : Error → Text) (st : Interface.State S (Message T))
    (set_event : EventArg (Entity (Message T))
      → List (Schema (Message T))
      → Exec S (Unit {0})) where
  -- One transaction that succeeds.
  pub data Commits : S → S → Type 0 where
    issues :
        (s s' : S) (d : IssueCommercialPaper T) (c : CommercialPaper T)
        → issue lib show st set_event d s ≡ (ok c, s')
        → Commits s s'
    buys :
        (s s' : S) (d : BuyCommercialPaper T) (c : CommercialPaper T)
        → buy lib show st set_event d s ≡ (ok c, s')
        → Commits s s'
    redeems :
        (s s' : S) (d : RedeemCommercialPaper T) (c : CommercialPaper T)
        → redeem lib show st set_event d s ≡ (ok c, s')
        → Commits s s'
    deletes :
        (s s' : S) (i : CommercialPaperId) (c : CommercialPaper T)
        → delete lib show st set_event i s ≡ (ok c, s')
        → Commits s s'

  module _ (spec : StateSpec (messages lib) show (reflect lib) st) where
    -- What a transaction has written is what the next one reads and starts from.
    pub record IsApplied (s t : S) : Type 0 where
      pub reads_applied : spec.reads t ≡ spec.writes s
      pub writes_applied : spec.writes t ≡ spec.writes s

    pub data Ledger (s : S) : S → Type 0 where
      start : Ledger s s
      next : (t u v : S) → Ledger s t → Commits t u → IsApplied u v → Ledger s v

    module _ (keeps : KeepsPapers lib show st set_event spec)
        (events : IsQuiet lib show st set_event spec) where
      Commits-AreIndexed :
          (s s' : S)
          → IsReady lib show st set_event spec keeps events s
          → Commits s s'
          → AreIndexed lib show st set_event spec keeps events s'
      Commits-AreIndexed _ _ ready (issues s s' d c h) =
          (issue-IsIndexed lib show st set_event spec keeps events d c s s' ready h).3
      Commits-AreIndexed _ _ ready (buys s s' d c h) =
          (buy-IsIndexed lib show st set_event spec keeps events d c s s' ready h).5
      Commits-AreIndexed _ _ ready (redeems s s' d c h) =
          (redeem-IsIndexed lib show st set_event spec keeps events d c s s' ready h).5
      Commits-AreIndexed _ _ ready (deletes s s' i c h) =
          (delete-AreIndexed lib show st set_event spec keeps events i c s s' ready h).2

      pub ledger-IsReady :
          (s t : S)
          → IsReady lib show st set_event spec keeps events s
          → Ledger s t
          → IsReady lib show st set_event spec keeps events t
      ledger-IsReady s _ ready start = ready
      ledger-IsReady s _ ready (next t u v l h applied) = record {
        reads_held = applied.reads_applied ∙ sym applied.writes_applied;
        indexed =
            subst (IsIndexed (messages lib) show (reflect lib) (mappings lib show))
              (sym applied.writes_applied) (Commits-AreIndexed t u (ledger-IsReady s t ready l) h);
      }

      held_injective :
          (c d : CommercialPaper T) (w : View (Entity (Message T))) (k : _)
          → w k ≡ some (app (paper c))
          → w k ≡ some (app (paper d))
          → c ≡ d
      held_injective c d w k a b = let e = sym a ∙ b in cc

      -- Along any transactions that succeed, from a state whose papers are indexed, each of which
      -- issues, sells, redeems or deletes a paper of the service and starts from what the one
      -- before has written, two papers that are held and have one external id are one paper, given
      -- what a state promises, a state that reads papers at the keys of papers and may hold those
      -- that are not empty, and events that change no state.
      pub ledger-external_id :
          (s t : S) (c d : CommercialPaper T)
          → IsReady lib show st set_event spec keeps events s
          → Ledger s t
          → IsHeld lib show st set_event spec keeps events c t
          → IsHeld lib show st set_event spec keeps events d t
          → c.external_id ≡ d.external_id
          → c ≡ d
      ledger-external_id s t c d ready l hc hd same =
          let w = spec.writes t in
          let indexed = (ledger-IsReady s t ready l).indexed in
          let (rc, _) =
            (indexed.complete (key_of_paper c) (app (paper c)) (mapped_paper lib show c)
              (key_of_paper c) (external_ref c ∷ []) hc (paper-IsMapped lib show c)).1 in
          let (rd, _) =
            (indexed.complete (key_of_paper d) (app (paper d)) (mapped_paper lib show d)
              (key_of_paper d) (external_ref d ∷ []) hd (paper-IsMapped lib show d)).1 in
          let at : w (ref_key_of (external_ref d)) ≡ some (key_ref (external_ref c)) =
            ap (λ x. w (codes "_idx" ∷ codes "CommercialPaper" ∷ codes "ExternalId" ∷ x ∷ []))
              (sym same)
            ∙ rc in
          let refs : external_ref c ≡ external_ref d =
            key_ref_injective (some_injective (sym at ∙ rd)) in
          held_injective c d w (key_of_paper d)
            (ap w (ap (λ (r : KeyRef). r.p_key) (sym refs)) ∙ hc) hd
