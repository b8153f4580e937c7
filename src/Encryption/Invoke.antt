-- ===== src/Encryption/Invoke.antt =====
-- extensions/encryption/invoke.go: a call of another chaincode, whose response is decrypted. Its
-- arguments are not encrypted.
pub mod Laws
use cckit.Base.{List, [], ◌∷◌, Text, Bytes, codes, some}
use cckit.Convert.{args_to_bytes, from_bytes}
use cckit.Encryption.Aes.{Cipher}
use cckit.Encryption.Codec.{decrypt}
use cckit.Lang.Error.{noted}
use cckit.Lang.Exec.{Exec, lift, ◌>>=◌, ◌>>◌}
use cckit.Lang.Result.{Result, ok, err, on_err}
use cckit.Lang.Value.{Value, Methods}
use cckit.State.Invoke.{payload_of}
use cckit.State.Stub.{Stub}

unfoldable pub invoke_encrypted_chaincode :
    {S U B : Type 0}
    → Cipher B
    → Methods U
    → Stub S
    → Bytes
    → Text
    → List (Value U)
    → Text
    → Value U
    → Exec S (Value U)
invoke_encrypted_chaincode c m stub enc_key chaincode_name args channel target = do
  aa ← lift (on_err (noted (codes "encrypt args")) (args_to_bytes m args))
  response ← stub.invoke_chaincode chaincode_name aa channel
  payload ← lift (payload_of response)
  decrypted ← lift (on_err (noted (codes "decrypt payload")) (decrypt c enc_key payload))
  lift (from_bytes m (some decrypted) target)
