-- ===== src/State/Invoke.antt =====
-- state/invoke.go: a call of another chaincode, whose response is decoded.
use cckit.Base.{List, ◌==◌, Text, Bytes, some, is_empty, if◌then◌else◌}
use cckit.Convert.{args_to_bytes, from_bytes}
use cckit.Lang.Error.{base, message, empty_chaincode_response_payload}
use cckit.Lang.Exec.{Exec, lift, ◌>>=◌}
use cckit.Lang.Result.{Result, ok, err}
use cckit.Lang.Value.{Value, Methods}
use cckit.Response.{Response, ok_status}
use cckit.State.Stub.{Stub}

-- The payload of a response that is no error and not empty.
abbrev pub payload_of : Response → Result Bytes
payload_of r =
    if r.status == ok_status
    then (if is_empty r.payload then err (base empty_chaincode_response_payload) else ok r.payload)
    else err (message r.message)

unfoldable pub invoke_chaincode :
    {S U : Type 0} → Methods U → Stub S → Text → List (Value U) → Text → Value U → Exec S (Value U)
invoke_chaincode m stub chaincode_name args channel target = do
  conv_args ← lift (args_to_bytes m args)
  response ← stub.invoke_chaincode chaincode_name conv_args channel
  payload ← lift (payload_of response)
  lift (from_bytes m (some payload) target)
