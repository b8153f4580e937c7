-- ===== src/Tests/MiddlewareTests.antt =====
-- The encryption middleware at concrete inputs, over the memory stub with a transient map.
use cckit.Base.{◌≡◌, refl, ℕ, [], ◌∷◌, List, Bytes, codes, find, store, text_eq}
use cckit.Convert.{to_bytes, from_bytes, args_to_bytes}
use cckit.Encryption.Aes.{aes_cbc_encrypt_with_iv, encrypt_bytes}
use cckit.Encryption.Codec.{encrypt, key_from_transient, transient_map_with_key, to_bytes_encryptor}
use cckit.Encryption.Invoke.{invoke_encrypted_chaincode}
use cckit.Encryption.Invoke.Laws.{invoke_encrypted_chaincode-encrypt_invoke_response}
use cckit.State.Invoke.{invoke_chaincode}
use cckit.State.Stub.{Stub}
use cckit.Encryption.Middleware.{
  context_key, args_decrypt, args_decrypt_if_key_provided, encrypt_invoke_response,
  encrypt_with_transient_key,
}
use cckit.Encryption.Middleware.Laws.{args_decrypt-encrypt_args_bytes}
use cckit.Encryption.Padding.{pkcs7_padding}
use cckit.Lang.Error.{
  Error, base, key_not_defined_in_transient_map, empty_chaincode_response_payload,
}
use cckit.Lang.Result.{ok, err, map_each}
use cckit.Lang.Value.{Value, str, bytes}
use cckit.Response.{error_response, shim_success, success_response}
use cckit.Router.Context.{Context, invoke, new_context, replace_args, set_handler, get_args}
use cckit.Router.Group.{HandlerFunc, ContextHandlerFunc}
use cckit.Tests.EncryptionTests.{
  shift, shift-CipherLaws, raw, secret, hi, sealed_hi, encrypt_args_test,
}
use cckit.Tests.Memory.{Memory, empty, memory_stub, no_methods}

computes : Unit {0}
unfolding pkcs7_padding aes_cbc_encrypt_with_iv encrypt_bytes encrypt to_bytes context_key
    key_from_transient find store text_eq transient_map_with_key encrypt_invoke_response
    encrypt_with_transient_key to_bytes_encryptor get_args new_context
computes = tt

abbrev show : Error → Bytes
show e = codes "error"

abbrev sealed : List Bytes
sealed = sealed_hi ∷ sealed_hi ∷ []

-- A request with the key in its transient map, and one without.
abbrev request : Context Memory ℕ
request =
    replace_args sealed
      (new_context (record empty { transient = (codes "ENCODE_KEY", secret) ∷ [] }))

abbrev plain_request : Context Memory ℕ
plain_request = new_context empty

request_key : context_key shift raw no_methods show memory_stub request ≡ ok secret
unfolding computes
request_key = refl

plain_key :
    context_key shift raw no_methods show memory_stub plain_request
    ≡ err (base key_not_defined_in_transient_map)
unfolding computes
plain_key = refl

abbrev handler : ContextHandlerFunc Memory ℕ
handler ctx = (ok (shim_success []), ctx)

args_decrypt_example :
    (args_decrypt shift raw no_methods show memory_stub handler request
      ≡ handler (replace_args (hi ∷ hi ∷ []) request))
    × (args_decrypt_if_key_provided shift raw no_methods show memory_stub handler request
        ≡ handler (replace_args (hi ∷ hi ∷ []) request))
    × (args_decrypt shift raw no_methods show memory_stub handler plain_request ≡ (
      ok (error_response no_methods show (base key_not_defined_in_transient_map)),
      plain_request,
    ))
    × (args_decrypt_if_key_provided shift raw no_methods show memory_stub handler plain_request
        ≡ handler plain_request)
args_decrypt_example =
    args_decrypt-encrypt_args_bytes shift raw no_methods show memory_stub shift-CipherLaws handler
      request plain_request secret (hi ∷ hi ∷ []) sealed request_key (unfold get_args in refl)
      encrypt_args_test plain_key

abbrev invoked : Context Memory ℕ
invoked = set_handler invoke request

abbrev says_hi : HandlerFunc Memory ℕ
says_hi ctx = (ok (str hi), ctx)

invoked_key : context_key shift raw no_methods show memory_stub invoked ≡ ok secret
unfolding computes
invoked_key = refl

sealed_answer :
    encrypt_invoke_response shift raw no_methods show memory_stub says_hi invoked
    ≡ (ok (bytes sealed_hi), invoked)
unfolding computes
sealed_answer = refl

hi_bytes : to_bytes {U = ℕ} no_methods (str hi) ≡ ok hi
unfolding to_bytes
hi_bytes = refl

abbrev answer : Value ℕ
answer = bytes sealed_hi

-- A peer on which the other chaincode answers with what was encrypted.
abbrev peer : Stub Memory
peer = record memory_stub { invoke_chaincode = λ n a c s. (ok (shim_success sealed_hi), s) }

answered : success_response {U = ℕ} no_methods show answer ≡ ok (shim_success sealed_hi)
unfolding success_response to_bytes
answered = refl

no_args : args_to_bytes {U = ℕ} no_methods [] ≡ ok []
unfolding args_to_bytes map_each
no_args = refl

invoke_encrypted_chaincode_example :
    invoke_encrypted_chaincode {U = ℕ} shift no_methods peer secret
      (codes "cc")
      []
      []
      (str hi)
      empty
    ≡ (ok (str hi), empty)
invoke_encrypted_chaincode_example =
    invoke_encrypted_chaincode-encrypt_invoke_response shift raw no_methods show peer memory_stub
      shift-CipherLaws says_hi invoked invoked (str hi) answer secret (shim_success sealed_hi)
      (codes "cc") [] [] [] empty empty tt refl invoked_key refl sealed_answer answered no_args refl

-- The plain call hands on what is encrypted.
invoke_chaincode_test :
    invoke_chaincode {U = ℕ} no_methods peer (codes "cc") [] [] (bytes []) empty
    ≡ (ok (bytes sealed_hi), empty)
unfolding computes invoke_chaincode args_to_bytes map_each from_bytes
invoke_chaincode_test = refl

silent_test :
    invoke_chaincode {U = ℕ} no_methods memory_stub (codes "cc") [] [] (bytes []) empty
    ≡ (err (base empty_chaincode_response_payload), empty)
unfolding computes invoke_chaincode args_to_bytes map_each
silent_test = refl
