-- ===== src/CPaper/Sale.antt =====
-- examples/cpaper: what buy and redeem make of a paper, on every branch, and when the handlers succeed.
use cckit.Base.{
  ◌≡◌, ◌≢◌, ◌↔◌, ◌⊎◌, inl, inr, refl, ap, sym, ◌∙◌, subst, false, Bool-cases, Text, text_eq,
  text_eq_iff, [],
}
use cckit.CPaper.{
  CommercialPaper, TaskState, Library, BuyCommercialPaper, RedeemCommercialPaper,
  IssueCommercialPaper, papers, current, issue, buy, redeem, bought, redeemed, issued_paper,
  commercial_paper_issued, commercial_paper_trading, commercial_paper_redeemed, stored,
}
use cckit.Lang.Exec.{continue-eq-ok, read-eq-ok}
use cckit.Lang.Result.{Result, ok, ok-injective}
use cckit.Lang.Value.{obj}
use cckit.State.Impl.{Impl, put, insert, exists}
use cckit.State.Impl.Laws.{insert_iff}

-- A paper that can be sold is issued or trading.
abbrev pub IsOnSale : TaskState → Type 0
IsOnSale s = (s ≡ commercial_paper_issued) ⊎ (s ≡ commercial_paper_trading)

-- A paper after its sale, and after it was redeemed.
abbrev pub sold_to : {T : Type 0} → Text → CommercialPaper T → CommercialPaper T
sold_to owner c = record c { owner = owner; state = commercial_paper_trading }

abbrev pub paid_by : {T : Type 0} → Text → CommercialPaper T → CommercialPaper T
paid_by issuer c = record c { owner = issuer; state = commercial_paper_redeemed }

module _ {T : Type 0} (lib : Library T) where
  pub bought-sold :
      (b : BuyCommercialPaper T) (c d : CommercialPaper T)
      → bought lib b c ≡ ok d
      → (c.owner ≡ b.current_owner) × IsOnSale c.state × (d ≡ sold_to b.new_owner c)
  unfolding bought text_eq
  bought-sold b c d h = elim (Bool-cases (text_eq c.owner b.current_owner)) [
    | inr e ↦ cc (rw e at h)
    | inl e ↦ elim (Bool-cases (text_eq c.state commercial_paper_issued)) [
      | inl f ↦
          let g = rw f at (rw e at h) in
          ((text_eq_iff _ _).0 e, inl ((text_eq_iff _ _).0 f), sym (ok-injective g))
      | inr f ↦ elim (Bool-cases (text_eq c.state commercial_paper_trading)) [
        | inl g ↦
            let k = rw g at (rw f at (rw e at h)) in
            let trading = (text_eq_iff c.state commercial_paper_trading).0 g in
            (
              (text_eq_iff _ _).0 e,
              inr trading,
              sym (ok-injective k) ∙ ap (λ z. record c { owner = b.new_owner; state = z }) trading,
            )
        | inr g ↦ cc (rw g at (rw f at (rw e at h)))
      ]
    ]
  ]

  pub sold-bought :
      (b : BuyCommercialPaper T) (c : CommercialPaper T)
      → c.owner ≡ b.current_owner
      → IsOnSale c.state
      → bought lib b c ≡ ok (sold_to b.new_owner c)
  unfolding bought text_eq
  sold-bought b c o (inl e) = rw ((text_eq_iff c.owner b.current_owner).1 o, e) refl
  sold-bought b c o (inr e) = rw ((text_eq_iff c.owner b.current_owner).1 o, e) refl

  pub redeemed-paid :
      (r : RedeemCommercialPaper T) (c d : CommercialPaper T)
      → redeemed lib r c ≡ ok d
      → (c.owner ≡ r.redeeming_owner)
        × (c.state ≢ commercial_paper_redeemed)
        × (d ≡ paid_by r.issuer c)
  unfolding redeemed
  redeemed-paid r c d h = elim (Bool-cases (text_eq c.state commercial_paper_redeemed)) [
    | inl e ↦ cc (rw e at h)
    | inr e ↦ elim (Bool-cases (text_eq c.owner r.redeeming_owner)) [
      | inr f ↦ cc (rw f at (rw e at h))
      | inl f ↦ (
        (text_eq_iff _ _).0 f,
        λ same. let clash = (text_eq_iff c.state commercial_paper_redeemed).1 same in cc,
        sym (ok-injective (rw f at (rw e at h))),
      )
    ]
  ]

  pub paid-redeemed :
      (r : RedeemCommercialPaper T) (c : CommercialPaper T)
      → c.owner ≡ r.redeeming_owner
      → c.state ≢ commercial_paper_redeemed
      → redeemed lib r c ≡ ok (paid_by r.issuer c)
  unfolding redeemed
  paid-redeemed r c o ne = elim (Bool-cases (text_eq c.state commercial_paper_redeemed)) [
    | inl e ↦ absurd (ne ((text_eq_iff _ _).0 e))
    | inr e ↦ rw (e, (text_eq_iff c.owner r.redeeming_owner).1 o) refl
  ]

  module _ {S : Type 0} (i : Impl S (CommercialPaper T)) where
    stored-eq-ok :
        (c d : CommercialPaper T) (s s' : S)
        → stored lib i c s ≡ (ok d, s')
        → (put (papers lib) i (obj c) [] s ≡ (ok tt, s')) × (c ≡ d)
    stored-eq-ok c d s s' h =
        let (u, t, e, g) = continue-eq-ok (put (papers lib) i (obj c) [] s) _ d s' h in
        (
          e ∙ ap (λ (p : Result (CommercialPaper T) × S). (ok tt, p.1)) g,
          ok-injective (ap (λ p. p.0) g),
        )

    stored-put :
        (c : CommercialPaper T) (s s' : S)
        → put (papers lib) i (obj c) [] s ≡ (ok tt, s')
        → stored lib i c s ≡ (ok c, s')
    stored-put c s s' h = rw h

    -- What a purchase that succeeds has read and written.
    pub buy-eq-ok :
        (b : BuyCommercialPaper T) (d : CommercialPaper T) (s s' : S)
        → buy lib i b s ≡ (ok d, s')
        → (c : CommercialPaper T) × (current lib i b.issuer b.paper_number s ≡ ok c)
          × (c.owner ≡ b.current_owner)
          × IsOnSale c.state
          × (d ≡ sold_to b.new_owner c)
          × (put (papers lib) i (obj d) [] s ≡ (ok tt, s'))
    unfolding buy
    buy-eq-ok b d s s' h =
        let (c, at, h1) = read-eq-ok (current lib i b.issuer b.paper_number s) s _ d s' h in
        let (e, is, h2) = read-eq-ok (bought lib b c) s _ d s' h1 in
        let (w, same) = stored-eq-ok e d s s' h2 in
        let (owned, sale, made) = bought-sold b c e is in
        (
          c,
          at,
          owned,
          sale,
          sym same ∙ made,
          subst (λ z. put (papers lib) i (obj z) [] s ≡ (ok tt, s')) same w,
        )

    pub buy-of-owned :
        (b : BuyCommercialPaper T) (c : CommercialPaper T) (s s' : S)
        → current lib i b.issuer b.paper_number s ≡ ok c
        → c.owner ≡ b.current_owner
        → IsOnSale c.state
        → put (papers lib) i (obj (sold_to b.new_owner c)) [] s ≡ (ok tt, s')
        → buy lib i b s ≡ (ok (sold_to b.new_owner c), s')
    unfolding buy
    buy-of-owned b c s s' at owned sale w =
        rw (at, sold-bought b c owned sale) (stored-put (sold_to b.new_owner c) s s' w)

    -- A purchase succeeds exactly where the paper is held, is owned by the seller that is named and is
    -- issued or trading, and the paper that trades in the name of the buyer is put.
    pub buy_iff :
        (b : BuyCommercialPaper T) (d : CommercialPaper T) (s s' : S)
        → (buy lib i b s ≡ (ok d, s')) ↔ (
            (c : CommercialPaper T) × (current lib i b.issuer b.paper_number s ≡ ok c)
            × (c.owner ≡ b.current_owner)
            × IsOnSale c.state
            × (d ≡ sold_to b.new_owner c)
            × (put (papers lib) i (obj d) [] s ≡ (ok tt, s')))
    buy_iff b d s s' = (
      buy-eq-ok b d s s',
      λ (c, at, owned, sale, made, w).
          subst (λ z. buy lib i b s ≡ (ok z, s')) (sym made)
            (buy-of-owned b c s s' at owned sale
              (subst (λ z. put (papers lib) i (obj z) [] s ≡ (ok tt, s')) made w)),
    )

    pub redeem-eq-ok :
        (r : RedeemCommercialPaper T) (d : CommercialPaper T) (s s' : S)
        → redeem lib i r s ≡ (ok d, s')
        → (c : CommercialPaper T) × (current lib i r.issuer r.paper_number s ≡ ok c)
          × (c.owner ≡ r.redeeming_owner)
          × (c.state ≢ commercial_paper_redeemed)
          × (d ≡ paid_by r.issuer c)
          × (put (papers lib) i (obj d) [] s ≡ (ok tt, s'))
    unfolding redeem
    redeem-eq-ok r d s s' h =
        let (c, at, h1) = read-eq-ok (current lib i r.issuer r.paper_number s) s _ d s' h in
        let (e, is, h2) = read-eq-ok (redeemed lib r c) s _ d s' h1 in
        let (w, same) = stored-eq-ok e d s s' h2 in
        let (owned, unpaid, made) = redeemed-paid r c e is in
        (
          c,
          at,
          owned,
          unpaid,
          sym same ∙ made,
          subst (λ z. put (papers lib) i (obj z) [] s ≡ (ok tt, s')) same w,
        )

    pub redeem-of-owned :
        (r : RedeemCommercialPaper T) (c : CommercialPaper T) (s s' : S)
        → current lib i r.issuer r.paper_number s ≡ ok c
        → c.owner ≡ r.redeeming_owner
        → c.state ≢ commercial_paper_redeemed
        → put (papers lib) i (obj (paid_by r.issuer c)) [] s ≡ (ok tt, s')
        → redeem lib i r s ≡ (ok (paid_by r.issuer c), s')
    unfolding redeem
    redeem-of-owned r c s s' at owned unpaid w =
        rw (at, paid-redeemed r c owned unpaid) (stored-put (paid_by r.issuer c) s s' w)

    pub issue-eq-ok :
        (d : IssueCommercialPaper T) (c : CommercialPaper T) (s s' : S)
        → issue lib i d s ≡ (ok c, s')
        → (c ≡ issued_paper lib d)
          × (exists (papers lib) i (obj c) s ≡ ok false)
          × (put (papers lib) i (obj c) [] s ≡ (ok tt, s'))
    unfolding issue
    issue-eq-ok d c s s' h =
        let (u, t, e, g) =
          continue-eq-ok (insert (papers lib) i (obj (issued_paper lib d)) [] s) _ c s' h in
        let made : issued_paper lib d ≡ c = ok-injective (ap (λ p. p.0) g) in
        let e' = e ∙ ap (λ (p : Result (CommercialPaper T) × S). (ok tt, p.1)) g in
        let (free, w) = (insert_iff (papers lib) i (obj (issued_paper lib d)) [] s s').0 e' in
        (
          sym made,
          subst (λ z. exists (papers lib) i (obj z) s ≡ ok false) made free,
          subst (λ z. put (papers lib) i (obj z) [] s ≡ (ok tt, s')) made w,
        )
