-- ===== src/Encryption/Codec/Laws.antt =====
-- What is encrypted with a key is restored with that key.
use cckit.Base.{
  ◌≡◌, refl, ap, false, inl, inr, Bool-cases, List, [], ◌∷◌, arith, Text, Bytes, codes, text_eq,
  text_eq_iff, length, is_empty,
}
use cckit.Convert.{to_bytes}
use cckit.Convert.RoundTrip.{IsScalar, from_bytes-to_bytes}
use cckit.Encryption.Aes.{Cipher, CipherLaws, encrypt_bytes}
use cckit.Encryption.Aes.Laws.{decrypt_bytes-encrypt_bytes, length-encrypt_bytes}
use cckit.Encryption.Codec.{
  Base64, ChaincodeEvent, init_func, encrypt_args_bytes, decrypt_arg, decrypt_args, decrypt,
  encrypt, from_bytes_decryptor, to_bytes_encryptor, key_encryptor, key_decryptor, encrypted_state,
  encrypt_event, decrypt_event,
}
use cckit.Lang.Error.{noted}
use cckit.Lang.Result.{
  ok, on_err, ◌>>=◌, >>=-eq-ok, map_each-nil, map_each-cons, map_each-inverse, on_err-eq-ok,
}
use cckit.Lang.Value.{Value, str, bytes, Methods}
use cckit.State.Impl.{Impl}
use cckit.State.Impl.Laws.{Decodes}
use cckit.State.Key.{Key}

module _ {B : Type 0} (c : Cipher B) (laws : CipherLaws c) where
  arg_back :
      (key : Bytes) (bb src : Bytes)
      → on_err (noted (codes "encryption error")) (encrypt_bytes c key bb) ≡ ok src
      → decrypt_arg c key src ≡ ok bb
  unfolding decrypt_arg
  arg_back key bb src h =
      rw (decrypt_bytes-encrypt_bytes c laws key bb src (on_err-eq-ok _ (encrypt_bytes c key bb) h))

  -- An encrypted argument is too long to be taken for "init".
  encrypted-ne-init :
      (key bb src : Bytes)
      → on_err (noted (codes "encryption error")) (encrypt_bytes c key bb) ≡ ok src
      → text_eq src init_func ≡ false
  encrypted-ne-init key bb src h =
      let l = length-encrypt_bytes c laws key bb src (on_err-eq-ok _ (encrypt_bytes c key bb) h) in
      elim (Bool-cases (text_eq src init_func)) [
        | inl same ↦
            let e = ap (λ (x : Bytes). length x) ((text_eq_iff src init_func).0 same) in
            absurd (omega arith)
        | inr other ↦ other
      ]

  -- Arguments that were encrypted are decrypted to what they were, the method's name included.
  pub decrypt_args-encrypt_args_bytes :
      (key : Bytes) (args encrypted : List Bytes)
      → encrypt_args_bytes c key args ≡ ok encrypted
      → decrypt_args c key encrypted ≡ ok args
  unfolding encrypt_args_bytes decrypt_args
  decrypt_args-encrypt_args_bytes key [] encrypted h = rw (map_each-nil _ encrypted h)
  decrypt_args-encrypt_args_bytes key (a ∷ args) encrypted h =
      let (z, zs, e, e', s) = map_each-cons _ a args encrypted h in
      rw s (
        rw (
          encrypted-ne-init key a z e,
          arg_back key a z e,
          map_each-inverse _ (decrypt_arg c key) args zs (arg_back key) e',
        ))

  -- The argument "init" in front is left as it is, so that HandleInit is found.
  pub decrypt_args-init :
      (key : Bytes) (args encrypted : List Bytes)
      → encrypt_args_bytes c key args ≡ ok encrypted
      → decrypt_args c key (init_func ∷ encrypted) ≡ ok (init_func ∷ args)
  unfolding encrypt_args_bytes decrypt_args text_eq
  decrypt_args-init key args encrypted h =
      rw (map_each-inverse _ (decrypt_arg c key) args encrypted (arg_back key) h)

  module _ {U : Type 0} (m : Methods U) where
    decrypt-encrypt :
        (key src bb : Bytes) (v : Value U)
        → to_bytes m v ≡ ok bb
        → encrypt c m key v ≡ ok src
        → decrypt c key src ≡ ok bb
    unfolding encrypt decrypt
    decrypt-encrypt key src bb v tb h = decrypt_bytes-encrypt_bytes c laws key bb src (rw tb at h)

    pub decrypt-encrypt_bytes :
        (key src bb : Bytes) → encrypt c m key (bytes bb) ≡ ok src → decrypt c key src ≡ ok bb
    decrypt-encrypt_bytes key src bb h =
        decrypt-encrypt key src bb (bytes bb) (unfold to_bytes in refl) h

    encrypt-full : (key src bb : Bytes) → encrypt c m key (bytes bb) ≡ ok src → is_empty src ≡ false
    unfolding encrypt to_bytes
    encrypt-full key [] bb h =
        let l = length-encrypt_bytes c laws key bb [] h in absurd (omega arith)
    encrypt-full key (a ∷ src) bb h = refl

    -- A value that has a textual form of its own is read back from an encrypted state as it was
    -- written.
    pub encrypted_state-Decodes :
        {S : Type 0} (b64 : Base64) (i : Impl S U) (key : Bytes) (v : Value U)
        → IsScalar v
        → Decodes (encrypted_state c m b64 i key) v (v ∷ [])
    unfolding encrypted_state to_bytes_encryptor from_bytes_decryptor
    encrypted_state-Decodes b64 i key v h = record {
      decodes = λ bb e.
          let (tb, w, r) = from_bytes-to_bytes m v h in
          let e' : encrypt c m key (bytes tb) ≡ ok bb = rw w at e in
          (encrypt-full key bb tb e', rw (decrypt-encrypt_bytes key bb tb e') r);
    }

    module _ (b64 : Base64) where
      part_back :
          (key : Bytes) (p q : Text)
          → (on_err (noted (codes "encrypt key")) (encrypt c m key (str p)) >>= λ enc.
              ok (b64.encode_to_string enc))
            ≡ ok q
          → (on_err (noted (codes "decrypt key base4 decode")) (b64.decode_string q) >>= λ enc.
              on_err (noted (codes "decrypt key")) (decrypt c key enc))
            ≡ ok p
      part_back key p q h =
          let (src, e, r) =
            >>=-eq-ok (on_err (noted (codes "encrypt key")) (encrypt c m key (str p))) _ h in
          let q' : q ≡ b64.encode_to_string src = cc in
          rw (
            q',
            b64.decode-encode src,
            decrypt-encrypt key src p (str p) (unfold to_bytes in refl)
                (on_err-eq-ok _ (encrypt c m key (str p)) e),
          )

      -- The reverse key transformer of the encrypted state undoes its key transformer.
      pub key_decryptor-key_encryptor :
          (key : Bytes) (k encrypted : Key)
          → key_encryptor c m b64 key k ≡ ok encrypted
          → key_decryptor c m b64 key encrypted ≡ ok k
      unfolding key_encryptor key_decryptor
      key_decryptor-key_encryptor key k encrypted h =
          map_each-inverse _ _ k encrypted (part_back key) h

      -- DecryptEvent undoes EncryptEvent.
      pub decrypt_event-encrypt_event :
          (key : Bytes) (event encrypted : ChaincodeEvent)
          → encrypt_event c m b64 key event ≡ ok encrypted
          → decrypt_event c m b64 key encrypted ≡ ok event
      unfolding encrypt_event decrypt_event
      decrypt_event-encrypt_event key event encrypted h =
          let (name, en, r) = >>=-eq-ok (encrypt c m key (bytes event.event_name)) _ h in
          let (payload, ep, r') = >>=-eq-ok (encrypt c m key (bytes event.payload)) _ r in
          let e : encrypted
              ≡ record event { event_name = b64.encode_to_string name; payload = payload } =
            cc in
          rw (
            e,
            b64.decode-encode name,
            decrypt-encrypt_bytes key name event.event_name en,
            decrypt-encrypt_bytes key payload event.payload ep,
          )
