-- ===== src/Encryption/Invoke/Laws.antt =====
-- extensions/encryption: a chaincode that encrypts its responses, called by one that decrypts them.
use cckit.Base.{◌≡◌, refl, sym, subst, false, List, [], ◌∷◌, Text, Bytes, is_empty, some}
use cckit.Convert.{to_bytes, from_bytes, args_to_bytes}
use cckit.Convert.RoundTrip.{IsScalar, from_bytes-to_bytes}
use cckit.Encryption.Aes.{Cipher, CipherLaws, decrypt_bytes, aes_cbc_pkcs7_decrypt, aes_cbc_decrypt}
use cckit.Encryption.Codec.{Base64, decrypt}
use cckit.Encryption.Invoke.{invoke_encrypted_chaincode}
use cckit.Encryption.Middleware.{context_key, encrypt_invoke_response}
use cckit.Encryption.Middleware.Laws.{encrypt_invoke_response-decrypt}
use cckit.Lang.Error.{Error}
use cckit.Lang.Result.{ok, >>=-eq-ok, ok-injective}
use cckit.Lang.Value.{Value, bytes, Methods}
use cckit.Response.{Response, success_response, shim_success}
use cckit.Router.Context.{Context, invoke}
use cckit.Router.Group.{HandlerFunc}
use cckit.State.Stub.{Stub}

module _ {B : Type 0} (c : Cipher B) where
  -- Only what is not empty can be decrypted.
  decrypt-full : (key enc bb : Bytes) → decrypt c key enc ≡ ok bb → is_empty enc ≡ false
  unfolding decrypt decrypt_bytes aes_cbc_decrypt aes_cbc_pkcs7_decrypt
  decrypt-full key (a ∷ enc) bb h = refl
  decrypt-full key [] bb h =
      let (src, e, u) = >>=-eq-ok (aes_cbc_decrypt c key []) _ h in
      let (block, n, d) = >>=-eq-ok (c.new_cipher key) _ e in cc

module _ {S S' U B : Type 0} (c : Cipher B) (b64 : Base64) (m : Methods U) (show : Error → Text)
    (stub : Stub S) (callee : Stub S') where
  success_response-bytes :
      (enc : Bytes) (r : Response)
      → success_response m show (bytes enc) ≡ ok r
      → r ≡ shim_success enc
  unfolding success_response to_bytes
  success_response-bytes enc r h = sym (ok-injective h)

  invoke-decrypted :
      (name channel : Text) (args : List (Value U)) (v : Value U) (key enc bb : Bytes)
      (aa : List Bytes) (s s' : S)
      → args_to_bytes m args ≡ ok aa
      → stub.invoke_chaincode name aa channel s ≡ (ok (shim_success enc), s')
      → decrypt c key enc ≡ ok bb
      → from_bytes m (some bb) v ≡ ok v
      → invoke_encrypted_chaincode c m stub key name args channel v s ≡ (ok v, s')
  unfolding invoke_encrypted_chaincode
  invoke-decrypted name channel args v key enc bb aa s s' ea called d back =
      rw (ea, called, decrypt-full c key enc bb d, d, back) refl

  -- Where an invoked chaincode encrypts what its handler returns with the key of its transient map
  -- and responds with it, InvokeChaincode of extensions/encryption with that key and a target of
  -- the type of that value returns the value, for values with a textual form of their own, given
  -- laws of the cipher, arguments that are converted and a stub that hands the response on.
  pub invoke_encrypted_chaincode-encrypt_invoke_response :
      CipherLaws c
      → (pre : HandlerFunc S' U) (ctx done : Context S' U) (v res : Value U) (key : Bytes)
        (r : Response) (name channel : Text) (args : List (Value U)) (aa : List Bytes) (s s' : S)
      → IsScalar v
      → pre ctx ≡ (ok v, done)
      → context_key c b64 m show callee done ≡ ok key
      → done.handler ≡ some invoke
      → encrypt_invoke_response c b64 m show callee pre ctx ≡ (ok res, done)
      → success_response m show res ≡ ok r
      → args_to_bytes m args ≡ ok aa
      → stub.invoke_chaincode name aa channel s ≡ (ok r, s')
      → invoke_encrypted_chaincode c m stub key name args channel v s ≡ (ok v, s')
  invoke_encrypted_chaincode-encrypt_invoke_response laws pre ctx done v res key r name channel args
        aa s s' scalar ran k inv encrypted responds ea called =
      let (bb, tb, back) = from_bytes-to_bytes m v scalar in
      let (enc, re, d) =
        encrypt_invoke_response-decrypt c b64 m show callee laws pre ctx done v key bb res ran k tb
          inv encrypted in
      let same =
        success_response-bytes enc r (subst (λ z. success_response m show z ≡ ok r) re responds) in
      invoke-decrypted name channel args v key enc bb aa s s' ea
        (subst (λ z. stub.invoke_chaincode name aa channel s ≡ (ok z, s')) same called) d back
