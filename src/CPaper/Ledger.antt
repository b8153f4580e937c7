-- ===== src/CPaper/Ledger.antt =====
-- examples/cpaper: the papers along the transactions that are committed, which are those that succeed.
use cckit.Base.{◌≡◌, ◌⊎◌, inl, inr, refl, ap, sym, ◌∙◌, subst, false, Text, []}
use cckit.CPaper.{
  CommercialPaper, Library, IssueCommercialPaper, BuyCommercialPaper, RedeemCommercialPaper, papers,
  current, issue, buy, redeem, issued_paper,
}
use cckit.CPaper.Lifecycle.{
  Step, sold, paid, HasStanding, step-HasTerms, step-HasStanding, issued-HasStanding,
}
use cckit.CPaper.Sale.{paid_by, buy-eq-ok, redeem-eq-ok, issue-eq-ok}
use cckit.CPaper.Store.{
  KeepsPapers, paper_key, same-or-other, current-put, current-put_ne, current-free,
}
use cckit.Lang.Result.{ok, ok-injective}
use cckit.Lang.Value.{obj}
use cckit.State.Impl.{Impl, put, exists}

-- A paper that is held under its issuer and its number.
pub record IsSound {T : Type 0} (issuer number : Text) (c : CommercialPaper T) : Type 0 where
  pub issuer_eq : c.issuer ≡ issuer
  pub number_eq : c.paper_number ≡ number
  pub standing : HasStanding c

module _ {T S : Type 0} (lib : Library T) (i : Impl S (CommercialPaper T)) where
  -- One committed transaction.
  pub data Commits : S → S → Type 0 where
    issues :
        (s s' : S) (d : IssueCommercialPaper T) (c : CommercialPaper T)
        → issue lib i d s ≡ (ok c, s')
        → Commits s s'
    buys :
        (s s' : S) (b : BuyCommercialPaper T) (c : CommercialPaper T)
        → buy lib i b s ≡ (ok c, s')
        → Commits s s'
    redeems :
        (s s' : S) (r : RedeemCommercialPaper T) (c : CommercialPaper T)
        → redeem lib i r s ≡ (ok c, s')
        → Commits s s'

  -- Any number of committed transactions.
  pub data Ledger (s : S) : S → Type 0 where
    start : Ledger s s
    next : (t u : S) → Ledger s t → Commits t u → Ledger s u

  abbrev pub AreSound : S → Type 0
  AreSound s =
      (issuer number : Text) (c : CommercialPaper T)
      → current lib i issuer number s ≡ ok c
      → IsSound issuer number c

  -- Where the paper that a transaction writes comes from.
  abbrev Origin : CommercialPaper T → S → Type 0
  Origin c s =
      ((d : IssueCommercialPaper T) × (c ≡ issued_paper lib d)
        × (exists (papers lib) i (obj c) s ≡ ok false))
      ⊎ ((b : CommercialPaper T) × (current lib i b.issuer b.paper_number s ≡ ok b) × Step b c)

  current-own :
      (issuer number : Text) (c : CommercialPaper T) (s : S)
      → IsSound issuer number c
      → current lib i issuer number s ≡ ok c
      → current lib i c.issuer c.paper_number s ≡ ok c
  current-own issuer number c s sound at =
      ap (λ x. current lib i x c.paper_number s) sound.issuer_eq
      ∙ ap (λ x. current lib i issuer x s) sound.number_eq
      ∙ at

  Commits-Origin :
      (s s' : S)
      → AreSound s
      → Commits s s'
      → (c : CommercialPaper T) × (put (papers lib) i (obj c) [] s ≡ (ok tt, s')) × Origin c s
  Commits-Origin _ _ sound (issues s s' d c h) =
      let (made, free, w) = issue-eq-ok lib i d c s s' h in (c, w, inl (d, made, free))
  Commits-Origin _ _ sound (buys s s' b c h) =
      let (o, at, owned, sale, made, w) = buy-eq-ok lib i b c s s' h in
      let is = sound b.issuer b.paper_number o at in
      (
        c,
        w,
        inr (
          o,
          current-own b.issuer b.paper_number o s is at,
          subst (Step o) (sym made) (sold o b.new_owner sale),
        ),
      )
  Commits-Origin _ _ sound (redeems s s' r c h) =
      let (o, at, owned, unpaid, made, w) = redeem-eq-ok lib i r c s s' h in
      let is = sound r.issuer r.paper_number o at in
      (
        c,
        w,
        inr (
          o,
          current-own r.issuer r.paper_number o s is at,
          subst (Step o) (ap (λ x. paid_by x o) is.issuer_eq ∙ sym made) (paid o unpaid),
        ),
      )

  module _ (keeps : KeepsPapers lib i) where
    Origin-HasStanding : (c : CommercialPaper T) (s : S) → AreSound s → Origin c s → HasStanding c
    Origin-HasStanding c s sound (inl (d, made, free)) =
        subst HasStanding (sym made) (issued-HasStanding lib d)
    Origin-HasStanding c s sound (inr (b, at, step)) = step-HasStanding b c step

    Commits-AreSound : (s s' : S) → AreSound s → Commits s s' → AreSound s'
    Commits-AreSound s s' sound h issuer number e at =
        let (c, w, from) = Commits-Origin s s' sound h in
        elim (same-or-other c.issuer c.paper_number issuer number) [
          | inl (ei, en) ↦
              let same : c ≡ e = ok-injective (
                sym (current-put lib i keeps c s s' w)
                ∙ ap (λ x. current lib i x c.paper_number s') ei
                ∙ ap (λ x. current lib i issuer x s') en
                ∙ at) in
              subst (IsSound issuer number) same (record {
                issuer_eq = ei;
                number_eq = en;
                standing = Origin-HasStanding c s sound from;
              })
          | inr ne ↦
              sound issuer number e
                (sym (current-put_ne lib i keeps c issuer number s s' ne w) ∙ at)
        ]

    -- From sound papers, any committed transactions lead to sound papers.
    pub ledger-AreSound : (s s' : S) → AreSound s → Ledger s s' → AreSound s'
    ledger-AreSound s _ sound start = sound
    ledger-AreSound s _ sound (next t u l h) = Commits-AreSound t u (ledger-AreSound s t sound l) h

    -- A paper after one transaction.
    pub Commits-current :
        (issuer number : Text) (a : CommercialPaper T) (s s' : S)
        → AreSound s
        → current lib i issuer number s ≡ ok a
        → Commits s s'
        → (c : CommercialPaper T) × (current lib i issuer number s' ≡ ok c) × ((c ≡ a) ⊎ Step a c)
    Commits-current issuer number a s s' sound at h =
        let (c, w, from) = Commits-Origin s s' sound h in
        elim (same-or-other c.issuer c.paper_number issuer number) [
          | inr ne ↦ (a, current-put_ne lib i keeps c issuer number s s' ne w ∙ at, inl refl)
          | inl (ei, en) ↦
              let key = ap (λ x. paper_key x c.paper_number) ei ∙ ap (paper_key issuer) en in
              let now =
                ap (λ x. current lib i x number s') (sym ei)
                ∙ ap (λ x. current lib i c.issuer x s') (sym en)
                ∙ current-put lib i keeps c s s' w in
              elim from [
                | inl (d, made, free) ↦ absurd (current-free lib i issuer number c a s key free at)
                | inr (b, was, step) ↦
                    let terms = step-HasTerms b c step in
                    let same : b ≡ a = ok-injective (
                      sym was
                      ∙ ap (λ x. current lib i x b.paper_number s) (sym terms.issuer ∙ ei)
                      ∙ ap (λ x. current lib i issuer x s) (sym terms.paper_number ∙ en)
                      ∙ at) in
                    (c, now, inr (subst (λ x. Step x c) same step))
              ]
        ]
