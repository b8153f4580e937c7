-- ===== src/Tests/MappingMemory/ServiceTests.antt =====
-- Tests of the service of commercial papers, and its theorems at concrete inputs: a paper on Impl of
-- state/state.go, which no event changes.
use cckit.Base.{
  ◌≡◌, ◌↔◌, refl, ap, sym, ◌∙◌, subst, ℕ, some, none, List, [], codes, text_eq, find, store,
}
use cckit.CPaperExtended.{invoke_cpaper_buy, invoke_cpaper_redeem}
use cckit.CPaperExtended.Laws.{invoke_cpaper-service}
use cckit.CPaperService.{
  issue, buy, redeem, delete, get_paper, get_by_external_id, bought, paid, issued_paper,
  state_mappings, event_mappings,
}
use cckit.CPaperService.Handlers.{IsReady, IsHeld}
use cckit.CPaperService.Indexed.{IsQuiet}
use cckit.CPaperService.Ledger.{
  Ledger, start, next, issues, buys, IsApplied, ledger-IsReady, ledger-external_id,
}
use cckit.CPaperService.Lookup.{get_by_external_id_iff}
use cckit.CPaperService.Mapped.{key_of_paper, mappings}
use cckit.CPaperService.Messages.{
  trading, CommercialPaper, IssueCommercialPaper, BuyCommercialPaper, RedeemCommercialPaper,
  Message, paper, reflect, messages, type_name, validate_issue,
}
use cckit.Lang.Error.{errorf, mapping_uniq_key_exists}
use cckit.Lang.Exec.{Exec, for_each}
use cckit.Lang.Result.{Result, ok, err}
use cckit.Lang.Strings.{join}
use cckit.Lang.Value.{pos}
use cckit.Mapping.Diff.{key_refs_diff, by_string, missing_in}
use cckit.Mapping.Events.{EventArg}
use cckit.Mapping.Events as Events
use cckit.Mapping.Keyers.{
  attrs_keyer, attrs_loop, attrs_from, names_kept, skip_field, has_prefix, field_by_name,
  key_from_value, keyer_as_multi, struct_of,
}
use cckit.Mapping.KeyRefs.{
  mapped_key, mapped_keys, keys, index_refs, new_key_ref, new_key_ref_mapped, new_key_ref_id,
  new_key_ref_id_mapped,
}
use cckit.Mapping.MappedState as MappedState
use cckit.Mapping.Options.{
  add, apply_opts, with_defaults, with_index, add_index, index_named, p_key_schema,
}
use cckit.Mapping.Schema.{Entity, app, Schema, fields}
use cckit.Mapping.StateMappings as Mappings
use cckit.Mapping.StateMappings.{
  map_entry, map_key, primary_key, schema_namespace, type_in_package, from_dot, key_eq,
}
use cckit.State.Key.{key_string}
use cckit.Mapping.Index.{IsIndexed}
use cckit.Mapping.Filled.Promises.{impl_promises}
use cckit.Tests.MappingMemory.{Peer, peer-Ledger, commit, bare, view-bare, calls}
use cckit.Tests.MappingMemory.Cars.{none-some}
use cckit.Tests.MappingMemory.Codec.{written, text_then, read, ref_of_texts}
use cckit.Tests.MappingMemory.PaperKeys.{typed, keeps}
use cckit.Tests.MappingMemory.Papers.{lib, show, kit, target_at, promises}
use cckit.State.Key.{Key}

abbrev set_event : EventArg (Entity (Message ℕ)) → List (Schema (Message ℕ)) → Exec Peer (Unit {0})
set_event a v s = (ok tt, s)

computes : Unit {0}
unfolding issue buy redeem delete get_paper get_by_external_id bought paid state_mappings
    event_mappings validate_issue Events.set Events.exists Events.map_event Events.get Events.add
    Events.with_event_defaults Events.apply_event_opts MappedState.get MappedState.put
    MappedState.insert MappedState.delete MappedState.get_by_key add apply_opts with_defaults
    with_index add_index index_named p_key_schema attrs_from names_kept skip_field has_prefix store
    mapped_key mapped_keys keys primary_key index_refs keyer_as_multi attrs_keyer struct_of fields
    attrs_loop field_by_name key_from_value text_eq new_key_ref_mapped new_key_ref new_key_ref_id
    new_key_ref_id_mapped join schema_namespace type_in_package from_dot map_entry Mappings.get
    Mappings.exists map_key find key_eq for_each key_refs_diff by_string missing_in key_string
    messages reflect type_name calls written text_then read ref_of_texts
computes = tt

abbrev offer : IssueCommercialPaper ℕ
offer = record {
  issuer = codes "M";
  paper_number = codes "1";
  issue_date = some 1;
  maturity_date = some 2;
  face_value = pos 50;
  external_id = codes "E";
}

abbrev sale : BuyCommercialPaper ℕ
sale = record {
  issuer = codes "M";
  paper_number = codes "1";
  current_owner = codes "M";
  new_owner = codes "D";
  price = pos 49;
  purchase_date = some 1;
}

abbrev first_paper : CommercialPaper ℕ
first_paper = issued_paper lib show offer

abbrev sold_paper : CommercialPaper ℕ
sold_paper = record first_paper { owner = codes "D"; state = trading }

abbrev written_issue : Peer
written_issue = (issue lib show kit set_event offer bare).1

abbrev after_issue : Peer
after_issue = commit written_issue

issued_test : issue lib show kit set_event offer bare ≡ (ok first_paper, written_issue)
unfolding computes
issued_test = refl

abbrev written_sale : Peer
written_sale = (buy lib show kit set_event sale after_issue).1

abbrev after_sale : Peer
after_sale = commit written_sale

sold_test : buy lib show kit set_event sale after_issue ≡ (ok sold_paper, written_sale)
unfolding computes
sold_test = refl

-- A paper with another number is refused where the external id is taken.
taken_test :
    (issue lib show kit set_event (record offer { paper_number = codes "2" }) after_sale).0
    ≡ err (errorf mapping_uniq_key_exists [])
unfolding computes
taken_test = refl

events : IsQuiet lib show kit set_event promises
events = record {
  quiet = λ a v s s' h.
      let e : s' ≡ s = ap (λ (p : Result (Unit {0}) × Peer). p.1) (sym h) in
      (ap promises.reads e, ap promises.writes e);
}

bare-writes : (j : Key) → promises.writes bare j ≡ none
unfolding promises impl_promises peer-Ledger find
bare-writes j = view-bare (messages lib) target_at j

bare_start : promises.reads bare ≡ promises.writes bare
unfolding promises impl_promises peer-Ledger
bare_start = refl

bare-IsReady : IsReady lib show kit set_event promises (keeps set_event) events bare
bare-IsReady = record {
  reads_held = bare_start;
  indexed = record {
    complete = λ j x pm pk rs h mp. absurd (none-some (sym (bare-writes j) ∙ h));
    sound = λ j r h. absurd (none-some (sym (bare-writes j) ∙ h));
  };
}

applied : (s : Peer) → IsApplied lib show kit set_event promises s (commit s)
unfolding promises impl_promises peer-Ledger
applied s = record { reads_applied = refl; writes_applied = refl }

two_steps : Ledger lib show kit set_event promises bare after_sale
two_steps =
    next after_issue written_sale after_sale
      (next bare written_issue after_issue start
        (issues bare written_issue offer first_paper issued_test) (applied written_issue))
      (buys after_issue written_sale sale sold_paper sold_test) (applied written_sale)

sold-IsHeld : IsHeld lib show kit set_event promises (keeps set_event) events sold_paper after_sale
unfolding computes promises impl_promises peer-Ledger
sold-IsHeld = refl

ledger-external_id_example : sold_paper ≡ sold_paper
ledger-external_id_example =
    ledger-external_id lib show kit set_event promises (keeps set_event) events bare after_sale
      sold_paper sold_paper bare-IsReady two_steps sold-IsHeld sold-IsHeld refl

get_by_external_id_iff_example :
    (get_by_external_id lib show kit set_event (record { id = codes "E" }) after_sale
      ≡ ok sold_paper)
    ↔ ((promises.reads after_sale (key_of_paper sold_paper) ≡ some (app (paper sold_paper)))
        × (codes "E" ≡ codes "E"))
get_by_external_id_iff_example =
    get_by_external_id_iff lib show kit set_event promises typed (record { id = codes "E" })
      sold_paper after_sale
      (subst (IsIndexed (messages lib) show (reflect lib) (mappings lib show))
        (sym
          (ledger-IsReady lib show kit set_event promises (keeps set_event) events bare after_sale
            bare-IsReady two_steps).reads_held)
        (ledger-IsReady lib show kit set_event promises (keeps set_event) events bare after_sale
          bare-IsReady two_steps).indexed)

abbrev payment : RedeemCommercialPaper ℕ
payment = record {
  issuer = codes "M";
  paper_number = codes "1";
  redeeming_owner = codes "D";
  redeem_date = some 2;
}

invoke_cpaper-service_example :
    ((invoke_cpaper_buy lib show kit set_event sale after_issue ≡ (ok sold_paper, written_sale))
      ↔ (buy lib show kit set_event sale after_issue ≡ (ok sold_paper, written_sale)))
    × ((invoke_cpaper_redeem lib show kit set_event payment after_issue
          ≡ (ok sold_paper, written_sale))
        ↔ (redeem lib show kit set_event payment after_issue ≡ (ok sold_paper, written_sale)))
invoke_cpaper-service_example =
    invoke_cpaper-service lib show kit set_event promises typed sale payment sold_paper after_issue
      written_sale
