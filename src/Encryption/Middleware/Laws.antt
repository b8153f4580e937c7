-- ===== src/Encryption/Middleware/Laws.antt =====
-- extensions/encryption: handlers behind the middleware work on plain arguments, and what an invoke
-- returns is encrypted.
use cckit.Base.{
  ◌≡◌, refl, sym, ap, ◌∙◌, Bool, true, false, some, List, [], Text, Bytes, is_empty, Bool-cases,
  inl, inr,
}
use cckit.Convert.{to_bytes}
use cckit.Encryption.Aes.{Cipher, CipherLaws}
use cckit.Encryption.Codec.{Base64, encrypt_args_bytes, decrypt, encrypt, to_bytes_encryptor}
use cckit.Encryption.Codec.Laws.{decrypt_args-encrypt_args_bytes, decrypt-encrypt_bytes}
use cckit.Encryption.Middleware.{
  context_key, decrypt_replace_args, with_key, args_decryptor, is_excepted, args_decrypt,
  args_decrypt_if_key_provided, encrypt_invoke_response, encrypt_with_transient_key,
}
use cckit.Lang.Error.{Error, base, key_not_defined_in_transient_map}
use cckit.Lang.Result.{ok, err, >>=-eq-ok, ◌>>=◌}
use cckit.Lang.Value.{Value, bytes, Methods}
use cckit.Response.{error_response}
use cckit.Router.Context.{Context, invoke, get_args, replace_args}
use cckit.Router.Group.{HandlerFunc, ContextHandlerFunc}
use cckit.State.Stub.{Stub}

module _ {S U B : Type 0} (c : Cipher B) (b64 : Base64) (m : Methods U) (show : Error → Text)
    (stub : Stub S) where
  -- Without excepted methods only the key counts.
  args_decryptor-no_except :
      (next : ContextHandlerFunc S U) (should : Bool) (ctx : Context S U)
      → args_decryptor c b64 m show stub next should [] ctx
        ≡ with_key c b64 m show stub next should (context_key c b64 m show stub ctx) ctx
  unfolding args_decryptor is_excepted
  args_decryptor-no_except next should ctx = elim (Bool-cases (is_empty (get_args m stub ctx))) [
    | inl e ↦ rw e refl
    | inr e ↦ rw e refl
  ]

  decrypt_replace_args-encrypt :
      CipherLaws c
      → (ctx : Context S U) (key : Bytes) (args encrypted : List Bytes)
      → get_args m stub ctx ≡ encrypted
      → encrypt_args_bytes c key args ≡ ok encrypted
      → decrypt_replace_args c b64 m show stub key ctx ≡ (ok tt, replace_args args ctx)
  unfolding decrypt_replace_args
  decrypt_replace_args-encrypt laws ctx key args encrypted g e =
      rw (g, decrypt_args-encrypt_args_bytes c laws key args encrypted e) refl

  -- The middleware hands on a request whose arguments EncryptArgsBytes made with the key of the
  -- transient map with its plain arguments; without that key ArgsDecrypt responds with
  -- ErrKeyNotDefinedInTransientMap and does not run the handler, and ArgsDecryptIfKeyProvided runs it
  -- with the request as it is.
  pub args_decrypt-encrypt_args_bytes :
      CipherLaws c
      → (next : ContextHandlerFunc S U) (ctx plain : Context S U) (key : Bytes)
        (args encrypted : List Bytes)
      → context_key c b64 m show stub ctx ≡ ok key
      → get_args m stub ctx ≡ encrypted
      → encrypt_args_bytes c key args ≡ ok encrypted
      → context_key c b64 m show stub plain ≡ err (base key_not_defined_in_transient_map)
      → (args_decrypt c b64 m show stub next ctx ≡ next (replace_args args ctx))
        × (args_decrypt_if_key_provided c b64 m show stub next ctx ≡ next (replace_args args ctx))
        × (args_decrypt c b64 m show stub next plain
            ≡ (ok (error_response m show (base key_not_defined_in_transient_map)), plain))
        × (args_decrypt_if_key_provided c b64 m show stub next plain ≡ next plain)
  args_decrypt-encrypt_args_bytes laws next ctx plain key args encrypted k g e unset =
      let d = decrypt_replace_args-encrypt laws ctx key args encrypted g e in
      (
        args_decryptor-no_except next true ctx ∙ rw (k, d) refl,
        args_decryptor-no_except next false ctx ∙ rw (k, d) refl,
        args_decryptor-no_except next true plain ∙ rw unset refl,
        args_decryptor-no_except next false plain ∙ rw unset refl,
      )

  to_bytes_encryptor-of :
      (v : Value U) (key bb : Bytes)
      → to_bytes m v ≡ ok bb
      → to_bytes_encryptor c m key v [] ≡ encrypt c m key (bytes bb)
  unfolding to_bytes_encryptor
  to_bytes_encryptor-of v key bb b = rw b refl

  encrypt_invoke_response-run :
      (pre : HandlerFunc S U) (ctx done : Context S U) (v : Value U) (key bb : Bytes)
      → pre ctx ≡ (ok v, done)
      → context_key c b64 m show stub done ≡ ok key
      → to_bytes m v ≡ ok bb
      → done.handler ≡ some invoke
      → encrypt_invoke_response c b64 m show stub pre ctx
        ≡ ((encrypt c m key (bytes bb) >>= λ enc. ok (bytes enc)), done)
  unfolding encrypt_invoke_response encrypt_with_transient_key context_key encrypt
  encrypt_invoke_response-run pre ctx done v key bb p k b inv =
      rw (p, inv, k, to_bytes_encryptor-of v key bb b) refl

  -- What an invoke returns is encrypted with the key of the transient map, so that Decrypt restores its
  -- bytes.
  pub encrypt_invoke_response-decrypt :
      CipherLaws c
      → (pre : HandlerFunc S U) (ctx done : Context S U) (v : Value U) (key bb : Bytes)
        (res : Value U)
      → pre ctx ≡ (ok v, done)
      → context_key c b64 m show stub done ≡ ok key
      → to_bytes m v ≡ ok bb
      → done.handler ≡ some invoke
      → encrypt_invoke_response c b64 m show stub pre ctx ≡ (ok res, done)
      → (enc : Bytes) × (res ≡ bytes enc) × (decrypt c key enc ≡ ok bb)
  encrypt_invoke_response-decrypt laws pre ctx done v key bb res p k b inv h =
      let (enc, e, r) =
        >>=-eq-ok (encrypt c m key (bytes bb)) (λ x. ok (bytes x))
          (ap (λ x. x.0) (sym (encrypt_invoke_response-run pre ctx done v key bb p k b inv) ∙ h)) in
      (enc, cc, decrypt-encrypt_bytes c laws m key enc bb e)
