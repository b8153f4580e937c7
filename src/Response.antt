-- ===== src/Response.antt =====
-- peer.Response of fabric-protos-go, with the two constructors of shim, which are outside the
-- repository; and response/response.go, which makes one of what a handler returns. The text of an
-- error, `show`, is a parameter: `Error` keeps less than the messages say.
use cckit.Base.{ℕ, Bool, true, false, Text, Bytes, [], ◌∷◌, codes}
use cckit.Convert.{to_bytes}
use cckit.Lang.Error.{Error, message}
use cckit.Lang.Result.{Result, ok, err, panic}
use cckit.Lang.Value.{Value, Methods}

pub record Response : Type 0 where
  pub status : ℕ
  pub message : Text
  pub payload : Bytes

-- shim.OK, shim.ERROR
abbrev pub ok_status : ℕ
ok_status = 200

abbrev pub error_status : ℕ
error_status = 500

abbrev pub shim_success : Bytes → Response
shim_success b = record { status = ok_status; message = []; payload = b }

abbrev pub shim_error : Text → Response
shim_error t = record { status = error_status; message = t; payload = [] }

-- The values that `err interface{}` of Create may hold.
pub data ErrValue : Type 0 where
  nil_err : ErrValue
  bool_err : Bool → ErrValue
  str_err : Text → ErrValue
  error_err : Error → ErrValue
  other_err : ErrValue

module _ {U : Type 0} (m : Methods U) (show : Error → Text) where
  -- response.Error of an error
  abbrev pub error_response : Error → Response
  error_response e = shim_error (show e)

  abbrev payload_or_nil : Result Bytes → Result Response
  payload_or_nil (ok b) = ok (shim_success b)
  payload_or_nil (err _) = ok (shim_success [])
  payload_or_nil panic = panic

  -- response.Success
  unfoldable pub success_response : Value U → Result Response
  success_response v = payload_or_nil (to_bytes m v)

  -- response.Create
  unfoldable pub create_response : Value U → ErrValue → Result Response
  unfolding success_response
  create_response v nil_err = success_response v
  create_response v (bool_err true) = success_response v
  create_response v (bool_err false) = ok (error_response (message (codes "boolean error: false")))
  create_response v (str_err []) = success_response v
  create_response v (str_err (c ∷ s)) = ok (error_response (message (c ∷ s)))
  create_response v (error_err e) = ok (error_response e)
  create_response v other_err = panic
