-- ===== src/CPaperService/Indexed.antt =====
-- examples/cpaper_asservice/service: what the handlers read, and that they keep the index of the
-- external ids.
use cckit.Base.{
  ◌≡◌, ◌⊎◌, is_empty, refl, ap, sym, ◌∙◌, subst, Bool, true, false, Bool-cases, some, List, [], ◌∷◌,
  Text, text_eq, inl, inr, if◌then◌else◌,
}
use cckit.CPaperService.{
  CommercialPaper, empty_paper, paper_of, id_of, assert_paper, bought, paid, get_paper, if_trading,
  start_trading, unless_redeemed,
}
use cckit.CPaperService.Mapped.{
  paper_key, key_of_paper, mappings, mapped_id, id-IsMapped, state_mappings-mappings,
}
use cckit.CPaperService.Messages.{
  State, issued, trading, redeemed, other_state, CommercialPaperId, BuyCommercialPaper,
  RedeemCommercialPaper, IssueCommercialPaper, validate_issue, Message, paper, paper_id, Library,
  reflect, messages, issuing, buying, redeeming,
}
use cckit.Lang.Error.{Error}
use cckit.Lang.Exec.{Exec}
use cckit.Lang.Result.{ok, err, >>=-eq-ok, ok-injective}
use cckit.Lang.Value.{obj}
use cckit.Mapping.Events.{EventArg}
use cckit.Mapping.Interface as Interface
use cckit.Mapping.MappedState as MappedState
use cckit.Mapping.Schema.{Entity, app, key_ref, key_ref_id, Schema}
use cckit.Mapping.MappedState.Writes.{IsTyped}
use cckit.Mapping.Spec.{StateSpec}

pub paper_key-injective : (a b c d : Text) → paper_key a b ≡ paper_key c d → (a ≡ c) × (b ≡ d)
paper_key-injective a b c d h = (cc, cc)

obj_injective : {U : Type 0} {x y : U} → obj x ≡ obj y → x ≡ y
obj_injective h = cc

-- What no sale changes, the key and the external id; and the paper is no longer as it was issued.
pub record IsSamePaper {T : Type 0} (c d : CommercialPaper T) : Type 0 where
  pub key : key_of_paper c ≡ key_of_paper d
  pub external_id : c.external_id ≡ d.external_id
  pub moved : ¬ (c.state ≡ issued)

module _ {T : Type 0} (lib : Library T) (show : Error → Text) where
  pub assert_paper-eq-ok :
      (x : Entity (Message T)) (c : CommercialPaper T)
      → assert_paper lib show (obj x) ≡ ok c
      → x ≡ app (paper c)
  assert_paper-eq-ok (app (paper d)) c h = ap (λ e. app (paper e)) (ok-injective h)
  assert_paper-eq-ok (app (paper_id d)) c h = cc
  assert_paper-eq-ok (app (Message.paper_list d)) c h = cc
  assert_paper-eq-ok (app (issuing d)) c h = cc
  assert_paper-eq-ok (app (buying d)) c h = cc
  assert_paper-eq-ok (app (redeeming d)) c h = cc
  assert_paper-eq-ok (key_ref r) c h = cc
  assert_paper-eq-ok (key_ref_id r) c h = cc

  -- A paper that is validated has an issuer.
  pub validate_issue-issuer :
      (d : IssueCommercialPaper T) → validate_issue lib d ≡ ok tt → is_empty d.issuer ≡ false
  unfolding validate_issue
  validate_issue-issuer d h = elim (Bool-cases (is_empty d.issuer)) [
    | inl e ↦ absurd (let c = rw e at h in cc)
    | inr e ↦ e
  ]

  same_after : (c d e : CommercialPaper T) → ok c ≡ ok d → IsSamePaper c e → IsSamePaper d e
  same_after c d e h same = subst (λ z. IsSamePaper z e) (ok-injective h) same

  if_trading-same :
      (s : State) (b : BuyCommercialPaper T) (c d : CommercialPaper T)
      → if_trading lib show s c b ≡ ok d
      → IsSamePaper d c
  if_trading-same trading b c d h =
      same_after _ d c h (record { key = refl; external_id = refl; moved = λ m. cc })
  if_trading-same issued b c d h = cc
  if_trading-same redeemed b c d h = cc
  if_trading-same (other_state z) b c d h = cc

  pub bought-IsSamePaper :
      (b : BuyCommercialPaper T) (c d : CommercialPaper T)
      → bought lib show b c ≡ ok d
      → IsSamePaper d c
  unfolding bought
  bought-IsSamePaper b c d h = elim (Bool-cases (text_eq c.owner b.current_owner)) [
    | inl e ↦ if_trading-same (start_trading lib show c.state) b c d (rw e at h)
    | inr e ↦ cc (rw e at h)
  ]

  paid_if-same :
      (s : State) (own : Bool) (r : RedeemCommercialPaper T) (e : Error) (c d : CommercialPaper T)
      → unless_redeemed lib show s
          (if own then ok (record c { owner = r.issuer; state = redeemed }) else err e)
        ≡ ok d
      → IsSamePaper d c
  paid_if-same redeemed own r e c d h = cc
  paid_if-same issued true r e c d h =
      same_after _ d c h (record { key = refl; external_id = refl; moved = λ m. cc })
  paid_if-same trading true r e c d h =
      same_after _ d c h (record { key = refl; external_id = refl; moved = λ m. cc })
  paid_if-same (other_state z) true r e c d h =
      same_after _ d c h (record { key = refl; external_id = refl; moved = λ m. cc })
  paid_if-same issued false r e c d h = cc
  paid_if-same trading false r e c d h = cc
  paid_if-same (other_state z) false r e c d h = cc

  pub paid-IsSamePaper :
      (r : RedeemCommercialPaper T) (c d : CommercialPaper T)
      → paid lib show r c ≡ ok d
      → IsSamePaper d c
  unfolding paid
  paid-IsSamePaper r c d h = paid_if-same c.state (text_eq c.owner r.redeeming_owner) r _ c d h

module _ {T S : Type 0} (lib : Library T) (show : Error → Text) (st : Interface.State S (Message T))
    (set_event : EventArg (Entity (Message T)) → List (Schema (Message T)) → Exec S (Unit {0}))
    (spec : StateSpec (messages lib) show (reflect lib) st) where
  -- Events change nothing that the state reads or holds.
  pub record IsQuiet : Type 0 where
    pub quiet :
        (a : EventArg (Entity (Message T))) (v : List (Schema (Message T))) (s s' : S)
        → set_event a v s ≡ (ok tt, s')
        → (spec.reads s' ≡ spec.reads s) × (spec.writes s' ≡ spec.writes s)

  -- What marshals to something: a paper with an issuer, or one that is not as it was issued.
  abbrev pub IsNotEmpty : CommercialPaper T → Type 0
  IsNotEmpty c = (is_empty c.issuer ≡ false) ⊎ (¬ (c.state ≡ issued))

  -- The state reads papers at their keys, and ids are read there as papers; papers that are not empty
  -- may stand there.
  pub record KeepsPapers : Type 0 where
    pub typed : IsTyped (messages lib) show (reflect lib) st (mappings lib show) spec
    pub kept : (c : CommercialPaper T) → IsNotEmpty c → spec.stores (key_of_paper c) (app (paper c))

  -- What a get of a paper has read.
  pub get_paper-eq-ok :
      KeepsPapers
      → (i : CommercialPaperId) (c : CommercialPaper T) (s : S)
      → get_paper lib show st set_event i s ≡ ok c
      → spec.reads s (paper_key i.issuer i.paper_number) ≡ some (app (paper c))
  unfolding get_paper MappedState.get
  get_paper-eq-ok keeps i c s h =
      let (v, e, h') =
        >>=-eq-ok
          (MappedState.get (messages lib) show (reflect lib) st (mappings lib show)
            (id_of lib show i) (paper_of lib show (empty_paper lib show) ∷ []) s)
          _ (rw (state_mappings-mappings lib show) at h) in
      let (k, x, ke, ve, at) =
        spec.get-eq-ok (mapped_id lib show i) v (paper_of lib show (empty_paper lib show)) s
          (λ k ke.
            keeps.typed.target (id_of lib show i) (mapped_id lib show i) k
              (id-IsMapped lib show i).is_mapped ke)
          (rw ((id-IsMapped lib show i).is_mapped) at e) in
      let xe =
        assert_paper-eq-ok lib show x c (subst (λ z. assert_paper lib show z ≡ ok c) ve h') in
      let same : k ≡ paper_key i.issuer i.paper_number =
        ok-injective (sym ke ∙ (id-IsMapped lib show i).key) in
      subst (λ z. spec.reads s z ≡ some (app (paper c))) same (at ∙ ap some xe)
