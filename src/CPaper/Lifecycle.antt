-- ===== src/CPaper/Lifecycle.antt =====
-- examples/cpaper: the life of one paper, issued, trading, redeemed, as steps.
use cckit.Base.{◌≡◌, ◌≢◌, inl, inr, refl, ap, sym, ◌∙◌, drop, Text}
use cckit.CPaper.{
  CommercialPaper, Library, IssueCommercialPaper, issued_paper, commercial_paper_issued,
  commercial_paper_trading, commercial_paper_redeemed,
}
use cckit.CPaper.Sale.{IsOnSale, sold_to, paid_by}

-- A paper is sold while it is issued or trading, and is redeemed once, to its issuer.
pub data Step {T : Type 0} : CommercialPaper T → CommercialPaper T → Type 0 where
  sold : (c : CommercialPaper T) (who : Text) → IsOnSale c.state → Step c (sold_to who c)
  paid : (c : CommercialPaper T) → c.state ≢ commercial_paper_redeemed → Step c (paid_by c.issuer c)

pub data Reaches {T : Type 0} (c : CommercialPaper T) : CommercialPaper T → Type 0 where
  unchanged : Reaches c c
  after : (d e : CommercialPaper T) → Reaches c d → Step d e → Reaches c e

-- A paper is in one of three states, and an issued or redeemed one is its issuer's.
pub data HasStanding {T : Type 0} (c : CommercialPaper T) : Type 0 where
  at_issue : c.state ≡ commercial_paper_issued → c.owner ≡ c.issuer → HasStanding c
  on_market : c.state ≡ commercial_paper_trading → HasStanding c
  paid_out : c.state ≡ commercial_paper_redeemed → c.owner ≡ c.issuer → HasStanding c

-- What no step changes.
pub record HasTerms {T : Type 0} (c d : CommercialPaper T) : Type 0 where
  pub issuer : d.issuer ≡ c.issuer
  pub paper_number : d.paper_number ≡ c.paper_number
  pub issue_date : d.issue_date ≡ c.issue_date
  pub maturity_date : d.maturity_date ≡ c.maturity_date
  pub face_value : d.face_value ≡ c.face_value

module _ {T : Type 0} where
  pub step-HasTerms : (c d : CommercialPaper T) → Step c d → HasTerms c d
  step-HasTerms _ _ (sold c who sale) = record {
    issuer = refl;
    paper_number = refl;
    issue_date = refl;
    maturity_date = refl;
    face_value = refl;
  }
  step-HasTerms _ _ (paid c unpaid) = record {
    issuer = refl;
    paper_number = refl;
    issue_date = refl;
    maturity_date = refl;
    face_value = refl;
  }

  pub Reaches-HasTerms : (c d : CommercialPaper T) → Reaches c d → HasTerms c d
  Reaches-HasTerms c _ unchanged = record {
    issuer = refl;
    paper_number = refl;
    issue_date = refl;
    maturity_date = refl;
    face_value = refl;
  }
  Reaches-HasTerms c _ (after d e r s) =
      let a = Reaches-HasTerms c d r in
      let b = step-HasTerms d e s in
      record {
        issuer = b.issuer ∙ a.issuer;
        paper_number = b.paper_number ∙ a.paper_number;
        issue_date = b.issue_date ∙ a.issue_date;
        maturity_date = b.maturity_date ∙ a.maturity_date;
        face_value = b.face_value ∙ a.face_value;
      }

  pub issued-HasStanding :
      (lib : Library T) (d : IssueCommercialPaper T) → HasStanding (issued_paper lib d)
  issued-HasStanding lib d = at_issue refl refl

  pub step-HasStanding : (c d : CommercialPaper T) → Step c d → HasStanding d
  step-HasStanding _ _ (sold c who sale) = on_market refl
  step-HasStanding _ _ (paid c unpaid) = paid_out refl refl

  -- A redeemed paper takes no step.
  pub step-redeemed : (c d : CommercialPaper T) → c.state ≡ commercial_paper_redeemed → ¬ (Step c d)
  step-redeemed _ _ e (sold c who (inl f)) = let x = ap (drop 0) (sym e ∙ f) in cc
  step-redeemed _ _ e (sold c who (inr f)) = let x = ap (drop 0) (sym e ∙ f) in cc
  step-redeemed _ _ e (paid c unpaid) = unpaid e

  -- What a redeemed paper reaches is itself.
  pub Reaches-redeemed :
      (c d : CommercialPaper T) → c.state ≡ commercial_paper_redeemed → Reaches c d → d ≡ c
  Reaches-redeemed c _ e unchanged = refl
  Reaches-redeemed c _ e (after d f r s) =
      let same = Reaches-redeemed c d e r in
      absurd (step-redeemed d f (ap (λ x. x.state) same ∙ e) s)
