-- ===== src/CPaperService/Handlers.antt =====
-- examples/cpaper_asservice/service: every handler that succeeds leaves the papers indexed.
use cckit.Base.{
  ◌≡◌, refl, ap, sym, ◌∙◌, subst, none, some, some_injective, List, [], ◌∷◌, Text, codes, text_eq,
  find, store, true, inl, inr,
}
use cckit.CPaperService.{
  paper_of, id_of, bought, paid, issue, buy, redeem, delete, get_paper, put_paper, emit, current,
  id_at, issued_paper, event_mappings, with_mappings,
}
use cckit.CPaperService.Indexed.{
  IsSamePaper, IsQuiet, KeepsPapers, validate_issue-issuer, get_paper-eq-ok, bought-IsSamePaper,
  paid-IsSamePaper,
}
use cckit.CPaperService.Mapped.{
  paper_key, key_of_paper, external_ref, mappings, mapped_paper, mapped_id, paper-IsMapped,
  id-IsMapped, leaves, strings, state_mappings-mappings,
}
use cckit.CPaperService.Messages.{
  CommercialPaper, CommercialPaperId, IssueCommercialPaper, BuyCommercialPaper,
  RedeemCommercialPaper, Message, paper, Library, reflect, messages, type_name, issuing, buying,
  redeeming, validate_issue,
}
use cckit.Lang.Error.{Error, noted}
use cckit.Lang.Exec.{Exec, continue, continue-eq-ok, read-eq-ok}
use cckit.Lang.Result.{Result, ok, on_err, on_err-eq-ok, ok-injective}
use cckit.Lang.Value.{obj}
use cckit.Mapping.Events.{EventArg}
use cckit.Mapping.Events as Events
use cckit.Mapping.Index.{IsIndexed}
use cckit.Mapping.Interface as Interface
use cckit.Mapping.MappedState as MappedState
use cckit.Mapping.MappedState.Laws.{insert-IsIndexed, delete-IsIndexed}
use cckit.Mapping.MappedState.Puts.{put-IsIndexed}
use cckit.Mapping.MappedState.Writes.{IsMapped}
use cckit.Mapping.Schema.{Entity, app, Schema, KeyRef}
use cckit.Mapping.Spec.{StateSpec}
use cckit.Mapping.StateMappings as Mappings
use cckit.Mapping.StateMappings.{ProtoStateMapped, map_key, type_in_package, from_dot, map_entry}

module _ {T S : Type 0} (lib : Library T) (show : Error → Text) (st : Interface.State S (Message T))
    (set_event : EventArg (Entity (Message T)) → List (Schema (Message T)) → Exec S (Unit {0}))
    (spec : StateSpec (messages lib) show (reflect lib) st)
    (keeps : KeepsPapers lib show st set_event spec)
    (events : IsQuiet lib show st set_event spec) where
  -- What is read is what is held, and it is indexed.
  pub record IsReady (s : S) : Type 0 where
    pub reads_held : spec.reads s ≡ spec.writes s
    pub indexed : IsIndexed (messages lib) show (reflect lib) (mappings lib show) (spec.writes s)

  abbrev pub AreIndexed : S → Type 0
  AreIndexed s = IsIndexed (messages lib) show (reflect lib) (mappings lib show) (spec.writes s)

  abbrev pub IsHeld : CommercialPaper T → S → Type 0
  IsHeld c s = spec.writes s (key_of_paper c) ≡ some (app (paper c))

  after_event :
      (s t : S)
      → (spec.reads t ≡ spec.reads s) × (spec.writes t ≡ spec.writes s)
      → IsReady s
      → IsReady t
  after_event s t (er, ew) ready = record {
    reads_held = er ∙ ready.reads_held ∙ sym ew;
    indexed =
        subst (IsIndexed (messages lib) show (reflect lib) (mappings lib show)) (sym ew)
          ready.indexed;
  }

  computes : Unit {0}
  unfolding Events.set Events.exists Events.map_event Events.get event_mappings Events.add
      Events.with_event_defaults Events.apply_event_opts type_in_package from_dot find store text_eq
      messages type_name
  computes = tt

  issuing-quiet :
      (d : IssueCommercialPaper T) (s t : S)
      → emit lib show st set_event (issuing d) s ≡ (ok tt, t)
      → (spec.reads t ≡ spec.reads s) × (spec.writes t ≡ spec.writes s)
  unfolding computes
  issuing-quiet d s t h = events.quiet _ [] s t h

  buying-quiet :
      (d : BuyCommercialPaper T) (s t : S)
      → emit lib show st set_event (buying d) s ≡ (ok tt, t)
      → (spec.reads t ≡ spec.reads s) × (spec.writes t ≡ spec.writes s)
  unfolding computes
  buying-quiet d s t h = events.quiet _ [] s t h

  redeeming-quiet :
      (d : RedeemCommercialPaper T) (s t : S)
      → emit lib show st set_event (redeeming d) s ≡ (ok tt, t)
      → (spec.reads t ≡ spec.reads s) × (spec.writes t ≡ spec.writes s)
  unfolding computes
  redeeming-quiet d s t h = events.quiet _ [] s t h

  pub issue-IsIndexed :
      (d : IssueCommercialPaper T) (c : CommercialPaper T) (s s' : S)
      → IsReady s
      → issue lib show st set_event d s ≡ (ok c, s')
      → (c ≡ issued_paper lib show d)
        × (spec.writes s (key_of_paper c) ≡ none)
        × IsHeld c s'
        × AreIndexed s'
  unfolding issue
  issue-IsIndexed d c s s' ready h =
      let (u, valid, h1) =
        read-eq-ok (on_err (noted (codes "payload validation")) (validate_issue lib d)) s _ c s'
          h in
      let (u', t, emitted, h2) =
        continue-eq-ok (emit lib show st set_event (issuing d) s) _ c s' h1 in
      let (u'', t', put, h3) =
        continue-eq-ok
          (with_mappings lib show st set_event
            (λ smm.
              MappedState.insert (messages lib) show (reflect lib) st smm
                (paper_of lib show (issued_paper lib show d)) [])
            t)
          _ c s' h2 in
      let frame = issuing-quiet d s t emitted in
      let ready' = after_event s t frame ready in
      let made : issued_paper lib show d ≡ c = ok-injective (ap (λ p. p.0) h3) in
      let put' = put ∙ ap (λ (p : Result (CommercialPaper T) × S). (ok tt, p.1)) h3 in
      let is = paper-IsMapped lib show (issued_paper lib show d) in
      let (pk, rs, is', free, frees, at, indexed) =
        insert-IsIndexed (messages lib) show (reflect lib) st (mappings lib show) spec keeps.typed
          (leaves lib show) (app (paper (issued_paper lib show d)))
          (mapped_paper lib show (issued_paper lib show d)) [] t s' ready'.reads_held ready'.indexed
          is.is_mapped
          (λ k ke.
            subst (λ j. spec.stores j (app (paper (issued_paper lib show d))))
              (ok-injective (sym is.key ∙ ke))
              (keeps.kept (issued_paper lib show d)
                (inl (validate_issue-issuer lib show d (on_err-eq-ok _ _ valid)))))
          (rw (state_mappings-mappings lib show) at put') in
      let same : pk ≡ key_of_paper (issued_paper lib show d) =
        ok-injective (sym is'.key ∙ is.key) in
      (
        sym made,
        ap (λ w. w (key_of_paper c)) (sym frame.1)
            ∙ ap (λ e. spec.writes t (key_of_paper e)) (sym made)
            ∙ ap (spec.writes t) (sym same)
            ∙ free,
        subst (λ e. IsHeld e s') made (ap (spec.writes s') (sym same) ∙ at),
        indexed,
      )

  put_paper-eq-ok :
      (c d : CommercialPaper T) (t s' : S)
      → put_paper lib show st set_event c t ≡ (ok d, s')
      → (MappedState.put
            (messages lib)
            show
            (reflect lib)
            st
            (mappings lib show)
            (paper_of lib show c)
            []
            t
          ≡ (ok tt, s'))
        × (c ≡ d)
  put_paper-eq-ok c d t s' h =
      let (u, t', put, h1) =
        continue-eq-ok
          (with_mappings lib show st set_event
            (λ smm.
              MappedState.put (messages lib) show (reflect lib) st smm (paper_of lib show c) [])
            t)
          _ d s' h in
      (
        rw (state_mappings-mappings lib show) at put
            ∙ ap (λ (p : Result (CommercialPaper T) × S). (ok tt, p.1)) h1,
        ok-injective (ap (λ p. p.0) h1),
      )

  -- A paper that is put over one of the same key and external id.
  changed-IsIndexed :
      (o c : CommercialPaper T) (t s' : S)
      → IsReady t
      → IsHeld o t
      → IsSamePaper c o
      → MappedState.put
          (messages lib)
          show
          (reflect lib)
          st
          (mappings lib show)
          (paper_of lib show c)
          []
          t
        ≡ (ok tt, s')
      → IsHeld c s' × AreIndexed s'
  unfolding messages type_name
  changed-IsIndexed o c t s' ready at same h =
      put-IsIndexed (messages lib) show (reflect lib) st (mappings lib show) spec keeps.typed
        (app (paper c)) (mapped_paper lib show c) (key_of_paper c) (external_ref c ∷ []) [] t s'
        (leaves lib show) (strings lib show) ready.reads_held ready.indexed
        (paper-IsMapped lib show c) refl (keeps.kept c (inr same.moved))
        (λ y held.
          let was : app (paper o) ≡ y = some_injective (
            sym at
            ∙ ap (λ w. w (key_of_paper o)) (sym ready.reads_held)
            ∙ ap (spec.reads t) (sym same.key)
            ∙ held) in
          subst
            (λ z.
              (pm' : ProtoStateMapped (Message T)) × (qs : List KeyRef) × IsMapped (messages lib)
                show (reflect lib) (mappings lib show) (obj z) pm' (key_of_paper c) qs)
            was
            (
              mapped_paper lib show o,
              external_ref o ∷ [],
              subst
                  (λ k.
                    IsMapped (messages lib) show (reflect lib) (mappings lib show)
                      (obj (app (paper o))) (mapped_paper lib show o) k (external_ref o ∷ []))
                  (sym same.key) (paper-IsMapped lib show o),
            ))
        h

  -- The paper that a get finds is held at its own key, that of the id.
  found-IsHeld :
      (i : CommercialPaperId) (o : CommercialPaper T) (s : S)
      → IsReady s
      → get_paper lib show st set_event i s ≡ ok o
      → (paper_key i.issuer i.paper_number ≡ key_of_paper o) × IsHeld o s
  found-IsHeld i o s ready h =
      let at =
        ap (λ w. w (paper_key i.issuer i.paper_number)) (sym ready.reads_held)
        ∙ get_paper-eq-ok lib show st set_event spec keeps i o s h in
      let own =
        (ready.indexed.complete (paper_key i.issuer i.paper_number) (app (paper o))
          (mapped_paper lib show o) (key_of_paper o) (external_ref o ∷ []) at
          (paper-IsMapped lib show o)).0 in
      (own, ap (spec.writes s) (sym own) ∙ at)

  -- What Buy and Redeem have in common: a paper is read, changed, announced and put.
  change-IsIndexed :
      (i : CommercialPaperId) (change : CommercialPaper T → Result (CommercialPaper T))
      (e : Message T) (c : CommercialPaper T) (s s' : S)
      → ((o d : CommercialPaper T) → change o ≡ ok d → IsSamePaper d o)
      → ((t : S)
          → emit lib show st set_event e s ≡ (ok tt, t)
          → (spec.reads t ≡ spec.reads s) × (spec.writes t ≡ spec.writes s))
      → IsReady s
      → continue
          (current lib show st set_event i s, s)
          (λ o s1.
            continue
              (change o, s1)
              (λ d s2.
                continue
                  (emit lib show st set_event e s2)
                  (λ _. put_paper lib show st set_event d)))
        ≡ (ok c, s')
      → (o : CommercialPaper T) × IsHeld o s
        × (paper_key i.issuer i.paper_number ≡ key_of_paper o)
        × (change o ≡ ok c)
        × IsHeld c s'
        × AreIndexed s'
  change-IsIndexed i change e c s s' same quiet ready h =
      let (o, found, h1) = read-eq-ok (current lib show st set_event i s) s _ c s' h in
      let (d, made, h2) = read-eq-ok (change o) s _ c s' h1 in
      let (u, t, emitted, h3) = continue-eq-ok (emit lib show st set_event e s) _ c s' h2 in
      let (put, dc) = put_paper-eq-ok d c t s' h3 in
      let frame = quiet t emitted in
      let (own, at) = found-IsHeld i o s ready (on_err-eq-ok _ _ found) in
      let (held, indexed) =
        changed-IsIndexed o d t s' (after_event s t frame ready)
          (ap (λ w. w (key_of_paper o)) frame.1 ∙ at) (same o d made) put in
      (o, at, own, made ∙ ap ok dc, subst (λ z. IsHeld z s') dc held, indexed)

  pub buy-IsIndexed :
      (d : BuyCommercialPaper T) (c : CommercialPaper T) (s s' : S)
      → IsReady s
      → buy lib show st set_event d s ≡ (ok c, s')
      → (o : CommercialPaper T) × IsHeld o s
        × (paper_key d.issuer d.paper_number ≡ key_of_paper o)
        × (bought lib show d o ≡ ok c)
        × IsHeld c s'
        × AreIndexed s'
  unfolding buy
  buy-IsIndexed d c s s' ready h =
      change-IsIndexed (id_at lib show st set_event d.issuer d.paper_number) (bought lib show d)
        (buying d) c s s' (λ o e. bought-IsSamePaper lib show d o e) (λ t. buying-quiet d s t) ready
        h

  pub redeem-IsIndexed :
      (d : RedeemCommercialPaper T) (c : CommercialPaper T) (s s' : S)
      → IsReady s
      → redeem lib show st set_event d s ≡ (ok c, s')
      → (o : CommercialPaper T) × IsHeld o s
        × (paper_key d.issuer d.paper_number ≡ key_of_paper o)
        × (paid lib show d o ≡ ok c)
        × IsHeld c s'
        × AreIndexed s'
  unfolding redeem
  redeem-IsIndexed d c s s' ready h =
      change-IsIndexed (id_at lib show st set_event d.issuer d.paper_number) (paid lib show d)
        (redeeming d) c s s' (λ o e. paid-IsSamePaper lib show d o e) (λ t. redeeming-quiet d s t)
        ready h

  id_exists :
      (i : CommercialPaperId)
      → Mappings.exists (messages lib) show (reflect lib) (id_of lib show i) (mappings lib show)
        ≡ ok true
  unfolding Mappings.exists Mappings.get map_key find text_eq messages type_name
  id_exists i = refl

  pub delete-AreIndexed :
      (i : CommercialPaperId) (c : CommercialPaper T) (s s' : S)
      → IsReady s
      → delete lib show st set_event i s ≡ (ok c, s')
      → IsHeld c s × (spec.writes s' (key_of_paper c) ≡ none) × AreIndexed s'
  unfolding delete
  delete-AreIndexed i c s s' ready h =
      let (o, found, h1) = read-eq-ok (current lib show st set_event i s) s _ c s' h in
      let (u, t, gone, h2) =
        continue-eq-ok
          (with_mappings lib show st set_event
            (λ smm. MappedState.delete (messages lib) show (reflect lib) st smm (id_of lib show i))
            s)
          _ c s' h1 in
      let same : o ≡ c = ok-injective (ap (λ p. p.0) h2) in
      let gone' =
        rw (state_mappings-mappings lib show) at gone
        ∙ ap (λ (p : Result (CommercialPaper T) × S). (ok tt, p.1)) h2 in
      let (own, at) = found-IsHeld i o s ready (on_err-eq-ok _ _ found) in
      let is = id-IsMapped lib show i in
      let (pk, x, ke, was, none_left, indexed) =
        delete-IsIndexed (messages lib) show (reflect lib) st (mappings lib show) spec keeps.typed
          (leaves lib show) (id_of lib show i) (mapped_id lib show i) s s' ready.reads_held
          ready.indexed (id_exists i) is.is_mapped gone' in
      let kp : pk ≡ key_of_paper o = ok-injective (sym ke ∙ is.key) ∙ own in
      (
        subst (λ z. IsHeld z s) same at,
        subst (λ z. spec.writes s' (key_of_paper z) ≡ none) same
            (ap (spec.writes s') (sym kp) ∙ none_left),
        indexed,
      )
