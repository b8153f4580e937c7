-- ===== src/Tests/ParamsTests.antt =====
-- Tests of the parameters of routes, and their theorem at concrete inputs: the route transfer of the
-- token, with an argument too many.
use cckit.Base.{
  ◌≡◌, ◌≢◌, refl, ℕ, some, List, [], ◌∷◌, Text, Bytes, codes, find, store, text_eq, text_eq_iff,
  false, arith,
}
use cckit.Convert.{from_bytes}
use cckit.Lang.Int64.{add, to_bits, of_bits}
use cckit.Lang.Result.{ok}
use cckit.Lang.Strconv.{atoi}
use cckit.Lang.Value.{Value, nil, str, int, pos}
use cckit.Router.Context.{Context, new_context, param, set_param, get_args}
use cckit.Router.Group.{HandlerFunc, wrap_all, wrap_down, apply_at}
use cckit.Router.Params.{last_pos_key, param_of, value_from_context, arg_at}
use cckit.Router.Params.Laws.{AreOther, AreDistinct, AreRead, AreSet, params_of, wrap_all-params_of}
use cckit.Tests.Memory.{Memory, empty, memory_stub, no_methods}

abbrev parameters : List (Text × Value ℕ)
parameters =
    (codes "toMspId", str []) ∷ (codes "toCertId", str []) ∷ (codes "amount", int (pos 1)) ∷ []

abbrev arguments : List Bytes
arguments = codes "Org2" ∷ codes "bob" ∷ codes "42" ∷ codes "more" ∷ []

abbrev values : List (Value ℕ)
values = str (codes "Org2") ∷ str (codes "bob") ∷ int (pos 42) ∷ []

abbrev request : Context Memory ℕ
request = record (new_context empty) { args = some (codes "transfer" ∷ arguments) }

-- A handler that returns its amount.
abbrev amount_of : HandlerFunc Memory ℕ
amount_of c = (ok (param (codes "amount" ∷ []) c), c)

text_ne : (a b : Text) → text_eq a b ≡ false → a ≢ b
text_ne a b f e = let k = (text_eq_iff a b).1 e in cc

not_positions : AreOther last_pos_key parameters
unfolding text_eq
not_positions = (text_ne _ _ refl, (text_ne _ _ refl, (text_ne _ _ refl, tt)))

are_distinct : AreDistinct parameters
unfolding text_eq
are_distinct = ((text_ne _ _ refl, (text_ne _ _ refl, tt)), ((text_ne _ _ refl, tt), (tt, tt)))

are_read : AreRead no_methods memory_stub parameters arguments values
unfolding from_bytes atoi
are_read = (refl, (refl, (refl, tt)))

request_args : get_args no_methods memory_stub request ≡ codes "transfer" ∷ arguments
unfolding get_args new_context
request_args = refl

no_pos : param (last_pos_key ∷ []) request ≡ nil
unfolding param new_context find
no_pos = refl

wrap_all-params_of_example :
    (c' : Context Memory ℕ) × (wrap_all
        (params_of no_methods memory_stub parameters)
        amount_of
        request
      ≡ amount_of c')
    × AreSet parameters values c'
    × (get_args no_methods memory_stub c' ≡ codes "transfer" ∷ arguments)
wrap_all-params_of_example =
    wrap_all-params_of no_methods memory_stub parameters values (codes "transfer") arguments
      amount_of request not_positions are_distinct (omega arith) request_args no_pos are_read

-- The amount that is returned.
returned :
    (wrap_all (params_of no_methods memory_stub parameters) amount_of request).0 ≡ ok (int (pos 42))
unfolding wrap_all wrap_down apply_at param_of value_from_context arg_at get_args param set_param
    find store text_eq from_bytes atoi add to_bits of_bits new_context
returned = refl
