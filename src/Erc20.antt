-- ===== src/Erc20.antt =====
-- examples/erc20/erc20_ops.go and erc20_fixedsupply.go: a token of fixed supply, whose balances and
-- allowances are ints in the state. The context gives the parameters, its state and its event; the
-- payload types of the events are those of the application.
pub mod Balances
pub mod Laws
pub mod Spending
use cckit.Base.{Bool, List, [], ◌∷◌, Text, codes, if◌then◌else◌, true}
use cckit.Identity.{ShortId, id_of_cert, id_of_entry, same_id}
use cckit.Lang.Error.{
  base, noted, not_enough_funds, forbidden_to_transfer_to_same_account, spender_not_have_allowance,
}
use cckit.Lang.Exec.{Exec, lift, reads, ◌>>=◌, ◌>>◌}
use cckit.Lang.Int64.{add, sub, lt}
use cckit.Lang.Result.{Result, ok, err, on_err}
use cckit.Lang.Result.{◌>>=◌ as bind}
use cckit.Lang.Value.{Value, str, strs, int, bool, obj, ℤ, pos, Methods}
use cckit.Owner.{Identities, set_from_creator}
use cckit.Router.Context.{Context, param_string, param_int}
use cckit.State.Event.{EventImpl, set}
use cckit.State.Impl.{Impl, get, get_int, put, insert}

-- Transfer and Approve
pub record Transfer : Type 0 where
  pub from : ShortId
  pub to : ShortId
  pub amount : ℤ

pub record Approve : Type 0 where
  pub from : ShortId
  pub spender : ShortId
  pub amount : ℤ

-- `&Transfer{…}` and `&Approve{…}` as values of the application.
pub record Payloads (U : Type 0) : Type 0 where
  pub transfer : Transfer → U
  pub approve : Approve → U

unfoldable pub balance_key : {U : Type 0} → ShortId → Value U
balance_key owner = strs (codes "BALANCE" ∷ owner.msp ∷ owner.cert ∷ [])

unfoldable pub allowance_key : {U : Type 0} → ShortId → ShortId → Value U
allowance_key owner spender =
    strs (codes "APPROVE" ∷ owner.msp ∷ owner.cert ∷ spender.msp ∷ spender.cert ∷ [])

abbrev pub symbol_key : {U : Type 0} → Value U
symbol_key = str (codes "symbol")

abbrev pub name_key : {U : Type 0} → Value U
name_key = str (codes "name")

abbrev pub total_supply_key : {U : Type 0} → Value U
total_supply_key = str (codes "totalSupply")

module _ {S U : Type 0} (m : Methods U) (i : Impl S U) where
  unfoldable pub get_balance : ShortId → S → Result ℤ
  get_balance owner s = get_int m i (balance_key owner) (pos 0) s

  unfoldable pub set_balance : ShortId → ℤ → Exec S (Unit {0})
  set_balance owner balance = put m i (balance_key owner) (int balance ∷ [])

  unfoldable pub get_allowance : ShortId → ShortId → S → Result ℤ
  get_allowance owner spender s = get_int m i (allowance_key owner spender) (pos 0) s

  unfoldable pub set_allowance : ShortId → ShortId → ℤ → Exec S (Unit {0})
  set_allowance owner spender amount = put m i (allowance_key owner spender) (int amount ∷ [])

  -- Both transfers from the balance of the payer on; `rest` is what follows the two balances.
  unfoldable pub move : ShortId → ShortId → ℤ → Exec S (Unit {0}) → Exec S (Value U)
  move from to amount rest = do
    balance ← reads (get_balance from)
    let moved = do
      recipient_balance ← reads (get_balance to)
      set_balance from (sub balance amount)
      set_balance to (add recipient_balance amount)
      rest
      lift (ok (int (sub balance amount)))
    if lt (sub balance amount) (pos 0) then lift (err (base not_enough_funds)) else moved

module _ {S U : Type 0} (m : Methods U) (ids : Identities S U) (base64 : Text → Text)
    (payloads : Payloads U) (i : Impl S U) (e : EventImpl S U) (c : Context S U) where
  unfoldable pub query_symbol : S → Result (Value U)
  query_symbol s = get m i symbol_key [] s

  unfoldable pub query_name : S → Result (Value U)
  query_name s = get m i name_key [] s

  unfoldable pub query_total_supply : S → Result (Value U)
  query_total_supply s = get m i total_supply_key [] s

  -- The id in two parameters.
  abbrev pub id_param : Text → Text → ShortId
  id_param msp cert = record { msp = param_string msp c; cert = param_string cert c }

  abbrev pub amount : ℤ
  amount = param_int (codes "amount") c

  abbrev pub to_id : ShortId
  to_id = id_param (codes "toMspId") (codes "toCertId")

  abbrev pub from_id : ShortId
  from_id = id_param (codes "fromMspId") (codes "fromCertId")

  abbrev pub spender_id : ShortId
  spender_id = id_param (codes "spenderMspId") (codes "spenderCertId")

  abbrev pub invoker_id : S → Result ShortId
  invoker_id s = bind (ids.from_stub s) λ ci. ok (id_of_cert base64 ci)

  unfoldable pub query_balance_of : S → Result ℤ
  query_balance_of = get_balance m i (id_param (codes "mspId") (codes "certId"))

  unfoldable pub query_allowance : S → Result ℤ
  query_allowance =
      get_allowance m i (id_param (codes "ownerMspId") (codes "ownerCertId")) spender_id

  abbrev pub set_transfer : ShortId → ShortId → Exec S (Unit {0})
  set_transfer from to =
      set m e (str (codes "transfer"))
        (obj (payloads.transfer (record { from = from; to = to; amount = amount })) ∷ [])

  unfoldable pub invoke_transfer : Exec S (Value U)
  invoke_transfer = do
    invoker ← reads invoker_id
    let moved = move m i invoker to_id amount (set_transfer invoker to_id)
    if same_id invoker to_id then lift (err (base forbidden_to_transfer_to_same_account)) else moved

  unfoldable pub invoke_approve : Exec S (Value U)
  invoke_approve = do
    invoker ← reads invoker_id
    set_allowance m i invoker spender_id amount
    set m e (str (codes "approve")) (
        obj (payloads.approve (record { from = invoker; spender = spender_id; amount = amount }))
        ∷ [])
    lift (ok (bool true))

  unfoldable pub invoke_transfer_from : Exec S (Value U)
  invoke_transfer_from = do
    invoker ← reads invoker_id
    allowance ← reads (get_allowance m i from_id invoker)
    let moved =
        move m i from_id to_id amount
          (do set_allowance m i from_id invoker (sub allowance amount); set_transfer from_id to_id)
    if lt allowance amount then lift (err (base spender_not_have_allowance)) else moved

  unfoldable pub invoke_init_fixed_supply : Exec S (Value U)
  invoke_init_fixed_supply = do
    owner ← λ s.
        let (r, s') = set_from_creator m ids i s in
        (on_err (noted (codes "set chaincode owner")) r, s')
    insert m i symbol_key (str (param_string (codes "symbol") c) ∷ [])
    insert m i name_key (str (param_string (codes "name") c) ∷ [])
    insert m i total_supply_key (int (param_int (codes "totalSupply") c) ∷ [])
    λ s.
        let (r, s') =
          set_balance m i (id_of_entry base64 owner) (param_int (codes "totalSupply") c) s in
        (on_err (noted (codes "set owner initial balance")) r, s')
    lift (ok (obj (ids.entry_value owner)))
