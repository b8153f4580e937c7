-- ===== src/Encryption/Aes/Laws.antt =====
-- DecryptBytes undoes EncryptBytes, and when it panics.
use cckit.Base.{
  ◌+◌, ◌%◌, ◌≤◌, ◌≡◌, ◌≢◌, ◌↔◌, ◌⊎◌, refl, ap, true, false, inl, inr, Bool-cases, [], ◌∷◌, ◌++◌,
  arith, Bytes, length, take, drop, replicate, length-drop, ltb, ◌==◌,
}
use cckit.Lang.Error.{Error}
use cckit.Lang.Result.{ok, err, panic, >>=-eq-ok}
use cckit.Encryption.Padding.{
  pkcs7_padding, pkcs7_unpadding, length-pkcs7_padding, pkcs7_unpadding-pkcs7_padding,
  pkcs7_unpadding-ne-panic, pkcs7_unpadding-nil,
}
use cckit.Encryption.Aes.{
  Cipher, CipherLaws, ciphertext_error, aes_cbc_encrypt_with_iv, decrypt_blocks, aes_cbc_decrypt,
  encrypt_bytes, decrypt_bytes,
}

abbrev blank : Bytes
blank = replicate 16 0

module _ {B : Type 0} (c : Cipher B) (laws : CipherLaws c) where
  -- What EncryptBytes returns: the blank IV and the blocks of the padded value.
  encrypt_bytes-eq-ok :
      (key value src : Bytes)
      → encrypt_bytes c key value ≡ ok src
      → (b : B) × (c.new_cipher key ≡ ok b)
        × (src ≡ blank ++ c.cbc_encrypt b blank (pkcs7_padding value))
  unfolding encrypt_bytes aes_cbc_encrypt_with_iv
  encrypt_bytes-eq-ok key value src h =
      let p : (length (pkcs7_padding value) % 16 == 0) ≡ true =
        ground (arith, (length-pkcs7_padding value).0) in
      let (b, e, r) = >>=-eq-ok (c.new_cipher key) _ (rw p at h) in (b, e, cc)

  drop-blank : (s : Bytes) → drop 16 (blank ++ s) ≡ s
  drop-blank s = refl

  decrypt_blocks-blank :
      (b : B) (value : Bytes)
      → decrypt_blocks c b (blank ++ c.cbc_encrypt b blank (pkcs7_padding value))
        ≡ ok (pkcs7_padding value)
  unfolding decrypt_blocks
  decrypt_blocks-blank b value =
      let p = (length-pkcs7_padding value).0 in
      let e = laws.length-encrypt b blank (pkcs7_padding value) p in
      let short : ltb (length (blank ++ c.cbc_encrypt b blank (pkcs7_padding value))) 16 ≡ false =
        ground arith in
      let whole : (length (c.cbc_encrypt b blank (pkcs7_padding value)) % 16 == 0) ≡ true =
        ground (arith, e, p) in
      rw (short, whole, laws.decrypt-encrypt b blank (pkcs7_padding value) p)

  -- What EncryptBytes returns, DecryptBytes restores with the same key.
  pub decrypt_bytes-encrypt_bytes :
      (key value src : Bytes)
      → encrypt_bytes c key value ≡ ok src
      → decrypt_bytes c key src ≡ ok value
  unfolding decrypt_bytes aes_cbc_decrypt
  decrypt_bytes-encrypt_bytes key value src h =
      let (b, e, s) = encrypt_bytes-eq-ok key value src h in
      rw (e, s, decrypt_blocks-blank b value) (pkcs7_unpadding-pkcs7_padding value)

  -- A ciphertext is a blank block and at least one more.
  pub length-encrypt_bytes :
      (key value src : Bytes) → encrypt_bytes c key value ≡ ok src → 32 ≤ length src
  length-encrypt_bytes key value src h =
      let (b, e, s) = encrypt_bytes-eq-ok key value src h in
      let p = length-pkcs7_padding value in
      let l = laws.length-encrypt b blank (pkcs7_padding value) p.0 in
      let t = ap (λ x. length x) s in omega arith

  -- A slice is refused, or it is an IV and whole blocks, which are decrypted.
  decrypt_blocks-cases :
      (b : B) (src : Bytes)
      → ((e : Error) × (decrypt_blocks c b src ≡ err e) × (length src ≢ 16))
        ⊎ ((plain : Bytes) × (decrypt_blocks c b src ≡ ok plain)
            × (length plain % 16 ≡ 0)
            × (length plain + 16 ≡ length src))
  unfolding decrypt_blocks
  decrypt_blocks-cases b src =
      let d = length-drop 16 src in
      let l = laws.length-decrypt b (take 16 src) (drop 16 src) in
      elim (Bool-cases (ltb (length src) 16)) [
        | inl short ↦ inl (ciphertext_error, rw short, ground arith)
        | inr long ↦ elim (Bool-cases (length (drop 16 src) % 16 == 0)) [
          | inl whole ↦
              let w : length (drop 16 src) % 16 ≡ 0 = ground arith in
              inr (
                c.cbc_decrypt b (take 16 src) (drop 16 src),
                rw (long, whole),
                rw (l w) w,
                ground (arith, l w, d),
              )
          | inr broken ↦ inl (ciphertext_error, rw (long, broken), ground (arith, d))
        ]
      ]

  -- With a valid key DecryptBytes panics exactly on a slice of one block, which is an IV alone.
  pub decrypt_bytes-panic_iff :
      (key src : Bytes) (b : B)
      → c.new_cipher key ≡ ok b
      → (decrypt_bytes c key src ≡ panic) ↔ (length src ≡ 16)
  unfolding decrypt_bytes aes_cbc_decrypt
  decrypt_bytes-panic_iff key src b h = rw h (elim (decrypt_blocks-cases b src) [
    | inl (e, r, ne) ↦ rw r ((λ q. cc), (λ q. absurd (ne q)))
    | inr (plain, r, whole, l) ↦
        rw r ((λ q. one_block plain q whole l), (λ q. pkcs7_unpadding-nil plain (omega arith)))
  ])
    where
      one_block :
          (plain : Bytes)
          → pkcs7_unpadding plain ≡ panic
          → length plain % 16 ≡ 0
          → length plain + 16 ≡ length src
          → length src ≡ 16
      one_block [] q whole l = omega arith
      one_block (a ∷ s) q whole l = absurd (pkcs7_unpadding-ne-panic (a ∷ s) (omega arith) q)
