-- ===== src/CPaperExtended/Laws.antt =====
-- examples/cpaper_extended: its sales and redemptions are those of examples/cpaper_asservice, although
-- the two read the paper by different keys and note other errors.
use cckit.Base.{◌≡◌, ◌↔◌, refl, ap, sym, ◌∙◌, subst, some, List, [], ◌∷◌, Text}
use cckit.CPaperExtended.{found_at, keyed_paper, invoke_cpaper_buy, invoke_cpaper_redeem}
use cckit.CPaperService.{
  empty_paper, paper_of, id_of, assert_paper, get_paper, buy, redeem, current,
}
use cckit.CPaperService.Indexed.{assert_paper-eq-ok}
use cckit.CPaperService.Mapped.{
  paper_key, mappings, mapped_id, paper-IsMapped, id-IsMapped, state_mappings-mappings,
}
use cckit.CPaperService.Messages.{
  CommercialPaper, CommercialPaperId, BuyCommercialPaper, RedeemCommercialPaper, Message, paper,
  Library, reflect, messages, type_name,
}
use cckit.Lang.Error.{Error, noted}
use cckit.Lang.Exec.{Exec, continue, read-eq-ok}
use cckit.Lang.Result.{Result, ok, on_err, on_err-eq-ok, >>=-eq-ok, ok-injective}
use cckit.Mapping.Events.{EventArg}
use cckit.Mapping.Interface as Interface
use cckit.Mapping.MappedState as MappedState
use cckit.Mapping.MappedState.Writes.{IsMapped, IsTyped}
use cckit.Mapping.Schema.{Entity, app, Schema, KeyRef}
use cckit.Mapping.Spec.{StateSpec}
use cckit.Mapping.StateMappings.{ProtoStateMapped}
use cckit.State.Key.{Key}

-- Two reads that find the same go on to the same results.
same_run :
    {S A B : Type 0} (r r' : Result A) (f : A → Exec S B) (b : B) (s s' : S)
    → ((a : A) → r ≡ ok a → r' ≡ ok a)
    → continue (r, s) f ≡ (ok b, s')
    → continue (r', s) f ≡ (ok b, s')
same_run r r' f b s s' same h = let (a, e, h') = read-eq-ok r s f b s' h in rw (same a e) h'

module _ {T S : Type 0} (lib : Library T) (show : Error → Text) (st : Interface.State S (Message T))
    (set_event : EventArg (Entity (Message T)) → List (Schema (Message T)) → Exec S (Unit {0}))
    (spec : StateSpec (messages lib) show (reflect lib) st)
    (typed : IsTyped (messages lib) show (reflect lib) st (mappings lib show) spec) where
  abbrev got : Schema (Message T) → S → Result (Schema (Message T))
  got key s =
      MappedState.get (messages lib) show (reflect lib) st (mappings lib show) key
        (paper_of lib show (empty_paper lib show) ∷ []) s

  -- A read by any key with a mapping finds the paper that the state reads at that key.
  got-eq-ok :
      (key v : Schema (Message T)) (pm : ProtoStateMapped (Message T)) (pk : Key) (rs : List KeyRef)
      (c : CommercialPaper T) (s : S)
      → IsMapped (messages lib) show (reflect lib) (mappings lib show) key pm pk rs
      → spec.fits pk (paper_of lib show (empty_paper lib show))
      → got key s ≡ ok v
      → assert_paper lib show v ≡ ok c
      → spec.reads s pk ≡ some (app (paper c))
  unfolding MappedState.get
  got-eq-ok key v pm pk rs c s is fits h a =
      let (k, x, ke, ve, at) =
        spec.get-eq-ok pm v (paper_of lib show (empty_paper lib show)) s
          (λ k ke.
            subst (λ j. spec.fits j (paper_of lib show (empty_paper lib show)))
              (ok-injective (sym is.key ∙ ke)) fits)
          (rw (is.is_mapped) at h) in
      let xe = assert_paper-eq-ok lib show x c (subst (λ z. assert_paper lib show z ≡ ok c) ve a) in
      ap (spec.reads s) (ok-injective (sym is.key ∙ ke)) ∙ at ∙ ap some xe

  got-of-read :
      (key : Schema (Message T)) (pm : ProtoStateMapped (Message T)) (pk : Key) (rs : List KeyRef)
      (c : CommercialPaper T) (s : S)
      → IsMapped (messages lib) show (reflect lib) (mappings lib show) key pm pk rs
      → spec.fits pk (paper_of lib show (empty_paper lib show))
      → spec.reads s pk ≡ some (app (paper c))
      → got key s ≡ ok (paper_of lib show c)
  unfolding MappedState.get messages type_name
  got-of-read key pm pk rs c s is fits at = rw (is.is_mapped) (
      spec.get-reads pm pk (app (paper c)) (paper_of lib show (empty_paper lib show)) s is.key at
        fits)

  found_at-read :
      (key : Schema (Message T)) (note : Text) (pm : ProtoStateMapped (Message T)) (pk : Key)
      (rs : List KeyRef) (c : CommercialPaper T) (s : S)
      → IsMapped (messages lib) show (reflect lib) (mappings lib show) key pm pk rs
      → spec.fits pk (paper_of lib show (empty_paper lib show))
      → found_at lib show st set_event key note s ≡ ok c
      → spec.reads s pk ≡ some (app (paper c))
  found_at-read key note pm pk rs c s is fits h =
      let (v, e, a) =
        >>=-eq-ok (on_err (noted note) (got key s)) _
          (rw (state_mappings-mappings lib show) at h) in
      got-eq-ok key v pm pk rs c s is fits (on_err-eq-ok _ _ e) a

  found_at-of-read :
      (key : Schema (Message T)) (note : Text) (pm : ProtoStateMapped (Message T)) (pk : Key)
      (rs : List KeyRef) (c : CommercialPaper T) (s : S)
      → IsMapped (messages lib) show (reflect lib) (mappings lib show) key pm pk rs
      → spec.fits pk (paper_of lib show (empty_paper lib show))
      → spec.reads s pk ≡ some (app (paper c))
      → found_at lib show st set_event key note s ≡ ok c
  found_at-of-read key note pm pk rs c s is fits at =
      rw (state_mappings-mappings lib show) (rw (got-of-read key pm pk rs c s is fits at) refl)

  -- An id is read as a paper.
  id-fits :
      (i : CommercialPaperId)
      → spec.fits (paper_key i.issuer i.paper_number) (paper_of lib show (empty_paper lib show))
  id-fits i =
      typed.target (id_of lib show i) (mapped_id lib show i) (paper_key i.issuer i.paper_number)
        (id-IsMapped lib show i).is_mapped (id-IsMapped lib show i).key

  current-read :
      (i : CommercialPaperId) (c : CommercialPaper T) (s : S)
      → current lib show st set_event i s ≡ ok c
      → spec.reads s (paper_key i.issuer i.paper_number) ≡ some (app (paper c))
  unfolding get_paper
  current-read i c s h =
      let (v, e, a) =
        >>=-eq-ok (got (id_of lib show i) s) _
          (rw (state_mappings-mappings lib show) at (on_err-eq-ok _ _ h)) in
      got-eq-ok (id_of lib show i) v (mapped_id lib show i) (paper_key i.issuer i.paper_number) [] c
        s (id-IsMapped lib show i) (id-fits i) e a

  current-of-read :
      (i : CommercialPaperId) (c : CommercialPaper T) (s : S)
      → spec.reads s (paper_key i.issuer i.paper_number) ≡ some (app (paper c))
      → current lib show st set_event i s ≡ ok c
  unfolding get_paper
  current-of-read i c s at = rw (state_mappings-mappings lib show) (
      rw
        (got-of-read (id_of lib show i) (mapped_id lib show i) (paper_key i.issuer i.paper_number)
          [] c s (id-IsMapped lib show i) (id-fits i) at)
        refl)

  -- A sale or a redemption by the extended chaincode succeeds exactly where that by the service
  -- does, with the same paper and the same state after it, although redemption reads the paper by a
  -- paper with only an issuer and a number, where the service reads it by an id, given what a state
  -- promises and mappings that agree with it on the types of what stands at a key.
  pub invoke_cpaper-service :
      (b : BuyCommercialPaper T) (r : RedeemCommercialPaper T) (c : CommercialPaper T) (s s' : S)
      → ((invoke_cpaper_buy lib show st set_event b s ≡ (ok c, s'))
          ↔ (buy lib show st set_event b s ≡ (ok c, s')))
        × ((invoke_cpaper_redeem lib show st set_event r s ≡ (ok c, s'))
            ↔ (redeem lib show st set_event r s ≡ (ok c, s')))
  unfolding invoke_cpaper_buy invoke_cpaper_redeem buy redeem
  invoke_cpaper-service b r c s s' =
      let bi : CommercialPaperId = record { issuer = b.issuer; paper_number = b.paper_number } in
      let ri : CommercialPaperId = record { issuer = r.issuer; paper_number = r.paper_number } in
      let key = keyed_paper lib show st set_event r.issuer r.paper_number in
      (
        (
          same_run _ _ _ c s s' (λ a e.
              current-of-read bi a s
                (found_at-read _ _ _ _ _ a s (id-IsMapped lib show bi) (id-fits bi) e)),
          same_run _ _ _ c s s' (λ a e.
              found_at-of-read _ _ _ _ _ a s (id-IsMapped lib show bi) (id-fits bi)
                (current-read bi a s e)),
        ),
        (
          same_run _ _ _ c s s' (λ a e.
              current-of-read ri a s
                (found_at-read _ _ _ _ _ a s (paper-IsMapped lib show key) (id-fits ri) e)),
          same_run _ _ _ c s s' (λ a e.
              found_at-of-read _ _ _ _ _ a s (paper-IsMapped lib show key) (id-fits ri)
                (current-read ri a s e)),
        ),
      )
