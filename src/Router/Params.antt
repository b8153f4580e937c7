-- ===== src/Router/Params.antt =====
-- router/param: middleware that turns the arguments of a transaction into parameters of the context.
pub mod Laws
use cckit.Base.{
  ℕ, zero, suc, Bool, true, false, Option, none, some, List, [], ◌∷◌, ◌++◌, Text, Bytes, codes,
  length, ltb, if◌then◌else◌,
}
use cckit.Convert.{from_bytes}
use cckit.Lang.Error.{Error, message}
use cckit.Lang.Exec.{Exec, lift, continue}
use cckit.Lang.Int64.{add}
use cckit.Lang.Result.{Result, ok, err, panic}
use cckit.Lang.Strconv.{format_int, format_nat}
use cckit.Lang.Value.{Value, str, int, bool, strs, bytes, ℤ, pos, negsuc, Methods}
use cckit.Router.Context.{Context, default_param, param, set_param, get_args, path}
use cckit.Router.Group.{HandlerFunc, MiddlewareFunc}
use cckit.State.Stub.{Stub}

-- LastPosKey
abbrev pub last_pos_key : Text
last_pos_key = codes "_lastPos"

-- Parameter
pub record Parameter (U : Type 0) : Type 0 where
  pub name : Text
  pub type : Value U
  pub arg_pos : ℤ

-- `lastPos, ok := c.Param(LastPosKey).(int)`, and the position behind it.
abbrev pub next_pos : {U : Type 0} → Value U → ℤ
next_pos (int last_pos) = add last_pos (pos 1)
next_pos _ = pos 0

-- `args[n]` where n is below the length.
unfoldable pub arg_at : ℕ → List Bytes → Option Bytes
arg_at n [] = none
arg_at zero (a ∷ args) = some a
arg_at (suc n) (a ∷ args) = arg_at n args

module _ {S U : Type 0} (m : Methods U) (stub : Stub S) where
  -- The position of the parameter; -1 stands for the next one, which is kept.
  abbrev pub with_pos : {A : Type 0} → ℤ → (ℤ → Exec (Context S U) A) → Exec (Context S U) A
  with_pos (negsuc zero) f c =
      let arg_pos = next_pos (param (last_pos_key ∷ []) c) in
      f arg_pos (set_param last_pos_key (int arg_pos) c)
  with_pos arg_pos f c = f arg_pos c

  abbrev no_param : Text → ℤ → ℕ → Text → Error
  no_param name arg_pos n method = message (
      codes "method \""
      ++ (method
          ++ (codes "\", param \""
              ++ (name
                  ++ (codes "\" not exists, param expected at pos : "
                      ++ (format_int arg_pos ++ (codes ", stub args length: " ++ format_nat n)))))))

  abbrev value_of : Parameter U → Error → Option Bytes → Result (Value U)
  value_of p e (some bb) = from_bytes m (some bb) p.type
  value_of p e none = err e

  -- `args[argPos]` panics at a negative position.
  abbrev value_at : Parameter U → ℤ → List Bytes → Text → Result (Value U)
  value_at p (pos n) args method =
      value_of p (no_param p.name (pos n) (length args) method) (arg_at n args)
  value_at p (negsuc n) args method = panic

  -- `c.GetArgs()[1:]` panics where there is no argument at all.
  abbrev value_behind : Parameter U → ℤ → List Bytes → Text → Result (Value U)
  value_behind p arg_pos [] method = panic
  value_behind p arg_pos (_ ∷ args) method = value_at p arg_pos args method

  unfoldable pub value_from_context : Parameter U → Exec (Context S U) (Value U)
  unfolding arg_at
  value_from_context p =
      with_pos p.arg_pos
        λ arg_pos c. (value_behind p arg_pos (get_args m stub c) (path m stub c), c)

  abbrev pub pos_of : List ℤ → ℤ
  pos_of [] = negsuc 0
  pos_of (p ∷ _) = p

  -- Param
  unfoldable pub param_of : Text → Value U → List ℤ → MiddlewareFunc S U
  unfolding value_from_context
  param_of name param_type arg_poss next _ c =
      let parameter : Parameter U = record {
        name = name;
        type = param_type;
        arg_pos = pos_of arg_poss;
      } in
      continue (value_from_context parameter c) λ arg c'. next (set_param name arg c')

  -- type.go and defparam/type.go
  abbrev pub string_param : Text → List ℤ → MiddlewareFunc S U
  string_param name = param_of name (str [])

  abbrev pub strings_param : Text → List ℤ → MiddlewareFunc S U
  strings_param name = param_of name (strs [])

  abbrev pub int_param : Text → List ℤ → MiddlewareFunc S U
  int_param name = param_of name (int (pos 1))

  abbrev pub bool_param : Text → List ℤ → MiddlewareFunc S U
  bool_param name = param_of name (bool true)

  abbrev pub struct_param : Text → Value U → List ℤ → MiddlewareFunc S U
  struct_param name target = param_of name target

  abbrev pub bytes_param : Text → List ℤ → MiddlewareFunc S U
  bytes_param name = param_of name (bytes [])

  -- What Proto makes of a target that is no proto.Message it drops.
  abbrev pub proto_param : Text → Value U → List ℤ → MiddlewareFunc S U
  proto_param name target = param_of name target

  abbrev pub default_string_param : List ℤ → MiddlewareFunc S U
  default_string_param = string_param default_param

  abbrev pub default_proto_param : Value U → List ℤ → MiddlewareFunc S U
  default_proto_param = proto_param default_param

  -- StrictKnown
  abbrev pub strict_known : MiddlewareFunc S U
  strict_known next _ c = next c
