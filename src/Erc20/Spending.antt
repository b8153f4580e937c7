-- ===== src/Erc20/Spending.antt =====
-- examples/erc20/erc20_ops.go: transferFrom, which spends an allowance.
use cckit.Base.{◌≡◌, ◌≢◌, ◌∙◌, subst, false, Bool-cases, inl, inr, Text}
use cckit.Erc20.{
  Payloads, allowance_key, get_allowance, set_allowance, move, invoker_id, amount, to_id, from_id,
  invoke_transfer_from, set_transfer,
}
use cckit.Erc20.Balances.{HoldsTokens, get_int-put, get_int-event}
use cckit.Erc20.Laws.{
  HasMoved, HasMinted, IsQuiet, move-eq-ok, move-HasMoved, move-HasMinted,
  get_balance-set_allowance, event-IsQuiet, refused,
}
use cckit.Identity.{ShortId}
use cckit.Lang.Exec.{Exec, continue-eq-ok, read-eq-ok, ◌>>◌}
use cckit.Lang.Int64.{sub, lt, IsInt-sub}
use cckit.Lang.Result.{ok}
use cckit.Lang.Value.{Value, ℤ, Methods}
use cckit.Owner.{Identities}
use cckit.Router.Context.{Context}
use cckit.State.Event.{EventImpl}
use cckit.State.Impl.{Impl}

module _ {S U : Type 0} (m : Methods U) (ids : Identities S U) (base64 : Text → Text)
    (payloads : Payloads U) (i : Impl S U) (e : EventImpl S U) (c : Context S U)
    (holds : HoldsTokens i e) where
  -- What follows the balances.
  abbrev rest : ShortId → ℤ → Exec S (Unit {0})
  rest invoker al =
      set_allowance m i (from_id m ids base64 payloads i e c) invoker
        (sub al (amount m ids base64 payloads i e c))
      >> set_transfer m ids base64 payloads i e c (from_id m ids base64 payloads i e c)
          (to_id m ids base64 payloads i e c)

  rest-IsQuiet : (invoker : ShortId) (al : ℤ) → IsQuiet m i e holds (rest invoker al)
  rest-IsQuiet invoker al a t t' h =
      let from = from_id m ids base64 payloads i e c in
      let (_, t1, e1, h1) = continue-eq-ok (set_allowance m i from invoker _ t) _ tt t' h in
      event-IsQuiet m ids base64 payloads i e c holds from _ a t1 t' h1
      ∙ get_balance-set_allowance m i e holds from invoker a _ t t1 e1

  rest-allowance :
      (invoker : ShortId) (al : ℤ) (t t' : S)
      → rest invoker al t ≡ (ok tt, t')
      → get_allowance m i (from_id m ids base64 payloads i e c) invoker t'
        ≡ ok (sub al (amount m ids base64 payloads i e c))
  unfolding get_allowance set_allowance allowance_key
  rest-allowance invoker al t t' h =
      let from = from_id m ids base64 payloads i e c in
      let (_, t1, e1, h1) = continue-eq-ok (set_allowance m i from invoker _ t) _ tt t' h in
      get_int-event m i e holds _ _ (allowance_key from invoker) t1 t' h1
      ∙ get_int-put m i e holds _ _ t t1 (IsInt-sub al _) e1

  -- The allowance around a transferFrom: it covers the amount and is lowered by it.
  abbrev pub HasSpent : ShortId → S → S → Type 0
  HasSpent invoker s s' =
      (al : ℤ) × (get_allowance m i (from_id m ids base64 payloads i e c) invoker s ≡ ok al)
      × (lt al (amount m ids base64 payloads i e c) ≡ false)
      × (get_allowance m i (from_id m ids base64 payloads i e c) invoker s'
          ≡ ok (sub al (amount m ids base64 payloads i e c)))

  transfer_from-eq-ok :
      (invoker : ShortId) (v : Value U) (s s' : S)
      → invoker_id m ids base64 payloads i e c s ≡ ok invoker
      → invoke_transfer_from m ids base64 payloads i e c s ≡ (ok v, s')
      → HasSpent invoker s s'
        × ((al : ℤ) × (move m i
                (from_id m ids base64 payloads i e c)
                (to_id m ids base64 payloads i e c)
                (amount m ids base64 payloads i e c)
                (rest invoker al)
                s
              ≡ (ok v, s')))
  unfolding invoke_transfer_from
  transfer_from-eq-ok invoker v s s' inv h =
      let from = from_id m ids base64 payloads i e c in
      let z = amount m ids base64 payloads i e c in
      let (al, ea, h1) = read-eq-ok (get_allowance m i from invoker s) s _ v s' (rw inv at h) in
      elim (Bool-cases (lt al z)) [
        | inl short ↦ absurd (refused (rw short at h1))
        | inr enough ↦
            let h2 = rw enough at h1 in
            let (_, _, _, s2, _, _, _, _, _, e5, _) =
              move-eq-ok m i e holds from (to_id m ids base64 payloads i e c) z (rest invoker al) v
                s s' h2 in
            ((al, ea, enough, rest-allowance invoker al s2 s' e5), (al, h2))
      ]

  -- A transferFrom between two accounts that succeeds moves the amount from the payer to the
  -- recipient, where the payer has it, and lowers the allowance of the invoker, which covers it, by
  -- it, given the same of the state and the events.
  pub invoke_transfer_from-HasMoved :
      (invoker other : ShortId) (v : Value U) (s s' : S)
      → invoker_id m ids base64 payloads i e c s ≡ ok invoker
      → from_id m ids base64 payloads i e c ≢ to_id m ids base64 payloads i e c
      → from_id m ids base64 payloads i e c ≢ other
      → to_id m ids base64 payloads i e c ≢ other
      → invoke_transfer_from m ids base64 payloads i e c s ≡ (ok v, s')
      → HasSpent invoker s s'
        × HasMoved m i e holds
            (from_id m ids base64 payloads i e c)
            (to_id m ids base64 payloads i e c)
            other
            (amount m ids base64 payloads i e c)
            v
            s
            s'
  invoke_transfer_from-HasMoved invoker other v s s' inv ne nf nt h =
      let (spent, (al, h')) = transfer_from-eq-ok invoker v s s' inv h in
      (
        spent,
        move-HasMoved m i e holds _ _ other _ (rest invoker al) v s s' (rest-IsQuiet invoker al) ne
            nf nt h',
      )

  -- A transferFrom from an account to itself that succeeds raises its balance by the amount,
  -- although it returns the balance lowered by it, and lowers the allowance of the invoker by it,
  -- given the same of the state and the events.
  pub invoke_transfer_from-HasMinted :
      (invoker : ShortId) (v : Value U) (s s' : S)
      → invoker_id m ids base64 payloads i e c s ≡ ok invoker
      → from_id m ids base64 payloads i e c ≡ to_id m ids base64 payloads i e c
      → invoke_transfer_from m ids base64 payloads i e c s ≡ (ok v, s')
      → HasSpent invoker s s'
        × HasMinted m i e holds
            (to_id m ids base64 payloads i e c)
            (amount m ids base64 payloads i e c)
            v
            s
            s'
  invoke_transfer_from-HasMinted invoker v s s' inv same h =
      let (spent, (al, h')) = transfer_from-eq-ok invoker v s s' inv h in
      let to = to_id m ids base64 payloads i e c in
      let h'' =
        subst
          (λ a. move m i a to (amount m ids base64 payloads i e c) (rest invoker al) s ≡ (ok v, s'))
          same h' in
      (
        spent,
        move-HasMinted m i e holds to _ (rest invoker al) v s s' (rest-IsQuiet invoker al) h'',
      )
