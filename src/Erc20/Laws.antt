-- ===== src/Erc20/Laws.antt =====
-- examples/erc20/erc20_ops.go: what the transfers do to the balances and the allowance.
use cckit.Base.{
  ◌≡◌, ◌≢◌, ◌+◌, ◌%◌, refl, ap, sym, ◌∙◌, subst, Bool, true, false, [], ◌∷◌, Text, codes, arith,
  Bool-cases, inl, inr, text_eq_refl,
}
use cckit.Erc20.{
  Payloads, balance_key, allowance_key, get_balance, set_balance, set_allowance, move, invoker_id,
  amount, to_id, invoke_transfer, set_transfer,
}
use cckit.Erc20.Balances.{HoldsTokens, get_int-put, get_int-put_ne, get_int-event}
use cckit.Identity.{ShortId, same_id}
use cckit.Lang.Error.{Error}
use cckit.Lang.Exec.{Exec, continue-eq-ok, read-eq-ok}
use cckit.Lang.Int64.{add, sub, lt, to_bits, IsInt-add, IsInt-sub, bits-sub-add}
use cckit.Lang.Result.{Result, ok, err, ok-injective}
use cckit.Lang.Strconv.{IsInt}
use cckit.Lang.Value.{Value, int, ℤ, pos, Methods}
use cckit.Owner.{Identities}
use cckit.Router.Context.{Context}
use cckit.State.Event.{EventImpl}
use cckit.State.Impl.{Impl}
use cckit.State.Key.{Key}

balance_parts : ShortId → Key
balance_parts a = codes "BALANCE" ∷ a.msp ∷ a.cert ∷ []

allowance_parts : ShortId → ShortId → Key
allowance_parts a b = codes "APPROVE" ∷ a.msp ∷ a.cert ∷ b.msp ∷ b.cert ∷ []

abbrev second : Key → Text
second (a ∷ b ∷ _) = b
second _ = []

abbrev third : Key → Text
third (a ∷ b ∷ c ∷ _) = c
third _ = []

abbrev is_long : Key → Bool
is_long (a ∷ b ∷ c ∷ d ∷ _) = true
is_long _ = false

balance_parts_injective : (a b : ShortId) → balance_parts a ≡ balance_parts b → a ≡ b
unfolding balance_parts
balance_parts_injective a b h =
    let e : a.msp ≡ b.msp = ap second h in let f : a.cert ≡ b.cert = ap third h in ground arith

allowance-ne-balance : (a b c : ShortId) → allowance_parts a b ≢ balance_parts c
unfolding balance_parts allowance_parts
allowance-ne-balance a b c h = let e : true ≡ false = ap is_long h in cc

same_id_refl : (a : ShortId) → same_id a a ≡ true
unfolding same_id
same_id_refl a = rw (text_eq_refl a.msp, text_eq_refl a.cert) refl

pub refused :
    {S A : Type 0} {x : Error} {a : A} {s s' : S} → ¬ (◌≡◌ {A = Result A × S} (err x, s) (ok a, s'))
refused h = let e = ap (λ p. p.0) h in cc

module _ {S U : Type 0} (m : Methods U) (i : Impl S U) (e : EventImpl S U)
    (holds : HoldsTokens i e) where
  get-set_balance :
      (a : ShortId) (z : ℤ) (s s' : S)
      → IsInt z
      → set_balance m i a z s ≡ (ok tt, s')
      → get_balance m i a s' ≡ ok z
  unfolding get_balance set_balance balance_key
  get-set_balance a z s s' h p = get_int-put m i e holds _ z s s' h p

  get-set_balance_ne :
      (a b : ShortId) (z : ℤ) (s s' : S)
      → a ≢ b
      → set_balance m i a z s ≡ (ok tt, s')
      → get_balance m i b s' ≡ get_balance m i b s
  unfolding get_balance set_balance balance_key balance_parts
  get-set_balance_ne a b z s s' ne p =
      get_int-put_ne m i e holds (balance_parts a) (balance_parts b) _ s s' tt tt
        (λ h. ne (balance_parts_injective a b h)) p

  pub get_balance-set_allowance :
      (a b c : ShortId) (z : ℤ) (s s' : S)
      → set_allowance m i a b z s ≡ (ok tt, s')
      → get_balance m i c s' ≡ get_balance m i c s
  unfolding get_balance set_allowance balance_key allowance_key balance_parts allowance_parts
  get_balance-set_allowance a b c z s s' p =
      get_int-put_ne m i e holds (allowance_parts a b) (balance_parts c) _ s s' tt tt
        (allowance-ne-balance a b c) p

  -- What a move that succeeds has done.
  pub move-eq-ok :
      (from to : ShortId) (z : ℤ) (rest : Exec S (Unit {0})) (v : Value U) (s s' : S)
      → move m i from to z rest s ≡ (ok v, s')
      → (b r : ℤ) × (s1 s2 : S) × (get_balance m i from s ≡ ok b)
        × (get_balance m i to s ≡ ok r)
        × (lt (sub b z) (pos 0) ≡ false)
        × (set_balance m i from (sub b z) s ≡ (ok tt, s1))
        × (set_balance m i to (add r z) s1 ≡ (ok tt, s2))
        × (rest s2 ≡ (ok tt, s'))
        × (v ≡ int (sub b z))
  unfolding move
  move-eq-ok from to z rest v s s' h =
      let (b, e1, h1) = read-eq-ok (get_balance m i from s) s _ v s' h in
      elim (Bool-cases (lt (sub b z) (pos 0))) [
        | inl short ↦ absurd (refused (rw short at h1))
        | inr enough ↦
            let (r, e2, h2) = read-eq-ok (get_balance m i to s) s _ v s' (rw enough at h1) in
            let (_, s1, e3, h3) = continue-eq-ok (set_balance m i from (sub b z) s) _ v s' h2 in
            let (_, s2, e4, h4) = continue-eq-ok (set_balance m i to (add r z) s1) _ v s' h3 in
            let (_, s3, e5, h5) = continue-eq-ok (rest s2) _ v s' h4 in
            (
              b,
              r,
              s1,
              s2,
              e1,
              e2,
              enough,
              e3,
              e4,
              e5 ∙ ap (λ (p : Result (Value U) × S). (ok tt, p.1)) h5,
              ok-injective (ap (λ p. p.0) (sym h5)),
            )
      ]

  -- The balances around a move: those of the two accounts by the amount, whose sum is the same modulo
  -- 2 ^ 64, and that of another account not at all.
  abbrev pub HasMoved : ShortId → ShortId → ShortId → ℤ → Value U → S → S → Type 0
  HasMoved from to other z v s s' =
      (b r : ℤ) × (get_balance m i from s ≡ ok b)
      × (get_balance m i to s ≡ ok r)
      × (lt (sub b z) (pos 0) ≡ false)
      × (v ≡ int (sub b z))
      × (get_balance m i from s' ≡ ok (sub b z))
      × (get_balance m i to s' ≡ ok (add r z))
      × ((to_bits (sub b z) + to_bits (add r z)) % 18446744073709551616
          ≡ (to_bits b + to_bits r) % 18446744073709551616)
      × (get_balance m i other s' ≡ get_balance m i other s)

  abbrev pub IsQuiet : Exec S (Unit {0}) → Type 0
  IsQuiet rest =
      (a : ShortId) (t t' : S) → rest t ≡ (ok tt, t') → get_balance m i a t' ≡ get_balance m i a t

  pub move-HasMoved :
      (from to other : ShortId) (z : ℤ) (rest : Exec S (Unit {0})) (v : Value U) (s s' : S)
      → IsQuiet rest
      → from ≢ to
      → from ≢ other
      → to ≢ other
      → move m i from to z rest s ≡ (ok v, s')
      → HasMoved from to other z v s s'
  move-HasMoved from to other z rest v s s' quiet ne nf nt h =
      let (b, r, s1, s2, e1, e2, enough, e3, e4, e5, ve) = move-eq-ok from to z rest v s s' h in
      (
        b,
        r,
        e1,
        e2,
        enough,
        ve,
        quiet from s2 s' e5
            ∙ get-set_balance_ne to from _ s1 s2 (λ q. ne (sym q)) e4
            ∙ get-set_balance from _ s s1 (IsInt-sub b z) e3,
        quiet to s2 s' e5 ∙ get-set_balance to _ s1 s2 (IsInt-add r z) e4,
        bits-sub-add b r z,
        quiet other s2 s' e5
            ∙ get-set_balance_ne to other _ s1 s2 nt e4
            ∙ get-set_balance_ne from other _ s s1 nf e3,
      )

  -- Where payer and recipient are one, the second write of the balance is the one that stays.
  abbrev pub HasMinted : ShortId → ℤ → Value U → S → S → Type 0
  HasMinted a z v s s' =
      (b : ℤ) × (get_balance m i a s ≡ ok b)
      × (v ≡ int (sub b z))
      × (get_balance m i a s' ≡ ok (add b z))

  pub move-HasMinted :
      (a : ShortId) (z : ℤ) (rest : Exec S (Unit {0})) (v : Value U) (s s' : S)
      → IsQuiet rest
      → move m i a a z rest s ≡ (ok v, s')
      → HasMinted a z v s s'
  move-HasMinted a z rest v s s' quiet h =
      let (b, r, s1, s2, e1, e2, enough, e3, e4, e5, ve) = move-eq-ok a a z rest v s s' h in
      (
        b,
        e1,
        ve,
        quiet a s2 s' e5
            ∙ get-set_balance a _ s1 s2 (IsInt-add r z) e4
            ∙ ap (λ y. ok (add y z)) (ok-injective (sym e2 ∙ e1)),
      )

module _ {S U : Type 0} (m : Methods U) (ids : Identities S U) (base64 : Text → Text)
    (payloads : Payloads U) (i : Impl S U) (e : EventImpl S U) (c : Context S U)
    (holds : HoldsTokens i e) where
  pub event-IsQuiet :
      (from to : ShortId) → IsQuiet m i e holds (set_transfer m ids base64 payloads i e c from to)
  unfolding get_balance
  event-IsQuiet from to a t t' h = get_int-event m i e holds _ _ (balance_key a) t t' h

  -- A transfer that succeeds takes the amount from the invoker, which is not the recipient, and
  -- adds it to the recipient, where the invoker has it; their sum is the same modulo 2^64, the
  -- balance of any other account is the same, and the new balance of the invoker is returned, given
  -- a state that reads its writes back, does not transform keys and decodes ints as it encodes
  -- them, and events that change no state.
  pub invoke_transfer-HasMoved :
      (from other : ShortId) (v : Value U) (s s' : S)
      → invoker_id m ids base64 payloads i e c s ≡ ok from
      → from ≢ other
      → to_id m ids base64 payloads i e c ≢ other
      → invoke_transfer m ids base64 payloads i e c s ≡ (ok v, s')
      → (from ≢ to_id m ids base64 payloads i e c)
        × HasMoved m i e holds from
            (to_id m ids base64 payloads i e c)
            other
            (amount m ids base64 payloads i e c)
            v
            s
            s'
  unfolding invoke_transfer
  invoke_transfer-HasMoved from other v s s' inv nf nt h =
      let to = to_id m ids base64 payloads i e c in
      elim (Bool-cases (same_id from to)) [
        | inl same ↦ absurd (refused (rw same at (rw inv at h)))
        | inr apart ↦
            let ne : from ≢ to =
              λ q. let k = subst (λ x. same_id from x ≡ true) q (same_id_refl from) in cc in
            (
              ne,
              move-HasMoved m i e holds from to other (amount m ids base64 payloads i e c) _ v s s'
                  (event-IsQuiet from to) ne nf nt (rw apart at (rw inv at h)),
            )
      ]
