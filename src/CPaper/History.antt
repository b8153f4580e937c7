-- ===== src/CPaper/History.antt =====
-- examples/cpaper: what a paper that is held becomes along a ledger, that a redeemed paper stays, and
-- that its owner can always redeem one that is not.
use cckit.Base.{◌≡◌, ◌≢◌, ◌⊎◌, inl, inr, refl, ap, sym, ◌∙◌, codes, drop, Text, [], ◌∷◌}
use cckit.CPaper.{
  CommercialPaper, Library, IssueCommercialPaper, BuyCommercialPaper, RedeemCommercialPaper, papers,
  current, issue, buy, redeem, commercial_paper_redeemed,
}
use cckit.CPaper.Ledger.{Ledger, start, next, AreSound, ledger-AreSound, Commits-current}
use cckit.CPaper.Lifecycle.{
  Reaches, unchanged, after, HasStanding, at_issue, on_market, paid_out, HasTerms, Reaches-HasTerms,
  Reaches-redeemed,
}
use cckit.CPaper.Sale.{IsOnSale, paid_by, buy-eq-ok, redeem-eq-ok, issue-eq-ok, redeem-of-owned}
use cckit.CPaper.Store.{KeepsPapers, current-put, current-free}
use cckit.Lang.Result.{ok, ok-injective}
use cckit.Lang.Value.{obj}
use cckit.State.Impl.{Impl, put}

module _ {T : Type 0} where
  -- A paper is redeemed, or on sale.
  standing-cases :
      (c : CommercialPaper T)
      → HasStanding c
      → (c.state ≡ commercial_paper_redeemed)
        ⊎ (IsOnSale c.state × (c.state ≢ commercial_paper_redeemed))
  standing-cases c (at_issue e o) = inr (inl e, λ f. let x = ap (drop 0) (sym e ∙ f) in cc)
  standing-cases c (on_market e) = inr (inr e, λ f. let x = ap (drop 0) (sym e ∙ f) in cc)
  standing-cases c (paid_out e o) = inl e

module _ {T S : Type 0} (lib : Library T) (i : Impl S (CommercialPaper T))
    (keeps : KeepsPapers lib i) where
  -- A paper that a sound state reads is read after any transactions that succeed, whatever papers
  -- they issue, sell or redeem: it has come there by sales while it was issued or trading and by at
  -- most one redemption, in favour of its issuer, and its issuer, number, dates and face value are
  -- the same, given a state that reads its writes back, does not transform keys and decodes a paper
  -- as it encodes it.
  pub ledger-Reaches :
      (issuer number : Text) (a : CommercialPaper T) (s s' : S)
      → AreSound lib i s
      → current lib i issuer number s ≡ ok a
      → Ledger lib i s s'
      → (c : CommercialPaper T) × (current lib i issuer number s' ≡ ok c)
        × Reaches a c
        × HasTerms a c
  ledger-Reaches issuer number a s _ sound at start =
      (a, at, unchanged, Reaches-HasTerms a a unchanged)
  ledger-Reaches issuer number a s _ sound at (next t u l h) =
      let (c, now, r, terms) = ledger-Reaches issuer number a s t sound at l in
      let (e, later, moved) =
        Commits-current lib i keeps issuer number c t u (ledger-AreSound lib i keeps s t sound l)
          now h in
      elim moved [
        | inl same ↦ (c, later ∙ ap ok same, r, terms)
        | inr step ↦ (e, later, after c e r step, Reaches-HasTerms a e (after c e r step))
      ]

  -- No transaction on a paper that is redeemed succeeds.
  abbrev pub IsFinal : Text → Text → S → Type 0
  IsFinal issuer number s =
      ((d : IssueCommercialPaper T) (c : CommercialPaper T) (t : S)
        → d.issuer ≡ issuer
        → d.paper_number ≡ number
        → issue lib i d s ≢ (ok c, t))
      × ((b : BuyCommercialPaper T) (c : CommercialPaper T) (t : S)
          → b.issuer ≡ issuer
          → b.paper_number ≡ number
          → buy lib i b s ≢ (ok c, t))
      × ((r : RedeemCommercialPaper T) (c : CommercialPaper T) (t : S)
          → r.issuer ≡ issuer
          → r.paper_number ≡ number
          → redeem lib i r s ≢ (ok c, t))

  held-of :
      (issuer number j n : Text) (a o : CommercialPaper T) (s : S)
      → j ≡ issuer
      → n ≡ number
      → current lib i issuer number s ≡ ok a
      → current lib i j n s ≡ ok o
      → o ≡ a
  held-of issuer number j n a o s ej en at at' =
      ok-injective
        (sym at' ∙ ap (λ x. current lib i x n s) ej ∙ ap (λ x. current lib i issuer x s) en ∙ at)

  redeemed-IsFinal :
      (issuer number : Text) (a : CommercialPaper T) (s : S)
      → current lib i issuer number s ≡ ok a
      → a.state ≡ commercial_paper_redeemed
      → IsFinal issuer number s
  redeemed-IsFinal issuer number a s at paid = (
    λ d c t ei en h.
        let (made, free, w) = issue-eq-ok lib i d c s t h in
        let ci = ap (λ x. x.issuer) made ∙ ei in
        let cn = ap (λ x. x.paper_number) made ∙ en in
        current-free lib i issuer number c a s
          (ap (λ x. codes "CommercialPaper" ∷ x ∷ c.paper_number ∷ []) ci
            ∙ ap (λ x. codes "CommercialPaper" ∷ issuer ∷ x ∷ []) cn)
          free at,
    λ b c t ei en h.
        let (o, was, owned, sale, made, w) = buy-eq-ok lib i b c s t h in
        let same = held-of issuer number b.issuer b.paper_number a o s ei en at was in
        let at_end = ap (λ x. x.state) same ∙ paid in
        elim sale [
          | inl e ↦ let x = ap (drop 0) (sym at_end ∙ e) in cc
          | inr e ↦ let x = ap (drop 0) (sym at_end ∙ e) in cc
        ],
    λ r c t ei en h.
        let (o, was, owned, unpaid, made, w) = redeem-eq-ok lib i r c s t h in
        let same = held-of issuer number r.issuer r.paper_number a o s ei en at was in
        unpaid (ap (λ x. x.state) same ∙ paid),
  )

  -- A redeemed paper that a sound state reads is read unchanged after any transactions that
  -- succeed, and there no issue, sale or redemption of that issuer and number succeeds, given the
  -- same of the state.
  pub ledger-redeemed :
      (issuer number : Text) (a : CommercialPaper T) (s s' : S)
      → AreSound lib i s
      → current lib i issuer number s ≡ ok a
      → a.state ≡ commercial_paper_redeemed
      → Ledger lib i s s'
      → (current lib i issuer number s' ≡ ok a) × IsFinal issuer number s'
  ledger-redeemed issuer number a s s' sound at paid l =
      let (c, now, r, terms) = ledger-Reaches issuer number a s s' sound at l in
      let still = now ∙ ap ok (Reaches-redeemed a c paid r) in
      (still, redeemed-IsFinal issuer number a s' still paid)

  -- After any transactions that succeed, a paper that a sound state reads is redeemed, or its owner
  -- of then can redeem it: redeem in the name of that owner succeeds, the paper is then read as
  -- redeemed and owned by its issuer, and no further issue, sale or redemption of it succeeds,
  -- given the same of the state and that Put of a paper with that issuer and number succeeds.
  pub ledger-redeem :
      (issuer number : Text) (a : CommercialPaper T) (date : T) (s s' : S)
      → AreSound lib i s
      → ((c : CommercialPaper T) (t : S)
          → c.issuer ≡ issuer
          → c.paper_number ≡ number
          → (t' : S) × (put (papers lib) i (obj c) [] t ≡ (ok tt, t')))
      → current lib i issuer number s ≡ ok a
      → Ledger lib i s s'
      → (c : CommercialPaper T) × (current lib i issuer number s' ≡ ok c)
        × ((c.state ≡ commercial_paper_redeemed)
            ⊎ ((t : S) × (redeem lib i
                    (record {
                      issuer = issuer;
                      paper_number = number;
                      redeeming_owner = c.owner;
                      redeem_date = date;
                    })
                    s'
                  ≡ (ok (paid_by issuer c), t))
                × (current lib i issuer number t ≡ ok (paid_by issuer c))
                × IsFinal issuer number t))
  ledger-redeem issuer number a date s s' sound can_put at l =
      let (c, now, r, terms) = ledger-Reaches issuer number a s s' sound at l in
      let is = ledger-AreSound lib i keeps s s' sound l issuer number c now in
      elim (standing-cases c is.standing) [
        | inl paid ↦ (c, now, inl paid)
        | inr (sale, unpaid) ↦
            let (t, w) = can_put (paid_by issuer c) s' is.issuer_eq is.number_eq in
            let then_ =
              ap (λ x. current lib i x number t) (sym is.issuer_eq)
              ∙ ap (λ x. current lib i c.issuer x t) (sym is.number_eq)
              ∙ current-put lib i keeps (paid_by issuer c) s' t w in
            (
              c,
              now,
              inr (
                t,
                redeem-of-owned lib i _ c s' t now refl unpaid w,
                then_,
                redeemed-IsFinal issuer number (paid_by issuer c) t then_ refl,
              ),
            )
      ]
