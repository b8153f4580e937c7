-- ===== src/Encryption/Aes.antt =====
-- CBC encryption with PKCS7 padding, extensions/encryption/aes.go. The block cipher and its CBC mode
-- are crypto/aes and crypto/cipher. The decrypter overwrites its argument; the result alone is
-- modelled.
pub mod Laws
use cckit.Base.{
  ℕ, ◌%◌, ◌≡◌, List, [], ◌∷◌, ◌++◌, Bytes, codes, length, take, drop, replicate, ltb, ◌==◌, Bool,
  not, if◌then◌else◌,
}
use cckit.Lang.Error.{Error, message}
use cckit.Lang.Result.{Result, ok, err, panic, ◌>>=◌}
use cckit.Encryption.Padding.{block_size, pkcs7_padding, pkcs7_unpadding}

-- aes.NewCipher, and CryptBlocks of NewCBCEncrypter and NewCBCDecrypter, over the blocks `B`.
pub record Cipher (B : Type 0) : Type 0 where
  pub new_cipher : Bytes → Result B
  pub cbc_encrypt : B → Bytes → Bytes → Bytes
  pub cbc_decrypt : B → Bytes → Bytes → Bytes

-- What crypto/cipher documents of whole blocks: decryption undoes encryption with the same block and
-- IV, and both keep the length.
pub record CipherLaws {B : Type 0} (c : Cipher B) : Type 0 where
  pub decrypt-encrypt :
      (b : B) (iv s : Bytes) → length s % 16 ≡ 0 → c.cbc_decrypt b iv (c.cbc_encrypt b iv s) ≡ s
  pub length-encrypt :
      (b : B) (iv s : Bytes) → length s % 16 ≡ 0 → length (c.cbc_encrypt b iv s) ≡ length s
  pub length-decrypt :
      (b : B) (iv s : Bytes) → length s % 16 ≡ 0 → length (c.cbc_decrypt b iv s) ≡ length s

abbrev pub ciphertext_error : Error
ciphertext_error = message (codes "Invalid ciphertext. It must be a multiple of the block size")

module _ {B : Type 0} (c : Cipher B) where
  unfoldable pub aes_cbc_encrypt_with_iv : Bytes → Bytes → Bytes → Result Bytes
  aes_cbc_encrypt_with_iv iv key s =
      if not (length s % block_size == 0)
      then err (message (codes "Invalid plaintext. It must be a multiple of the block size"))
      else if not (length iv == block_size)
      then err (message (codes "Invalid IV. It must have length the block size"))
      else (c.new_cipher key >>= λ block. ok (iv ++ c.cbc_encrypt block iv s))

  unfoldable pub decrypt_blocks : B → Bytes → Result Bytes
  decrypt_blocks block src =
      if ltb (length src) block_size
      then err ciphertext_error
      else if not (length (drop block_size src) % block_size == 0)
      then err ciphertext_error
      else ok (c.cbc_decrypt block (take block_size src) (drop block_size src))

  unfoldable pub aes_cbc_decrypt : Bytes → Bytes → Result Bytes
  unfolding decrypt_blocks
  aes_cbc_decrypt key src = c.new_cipher key >>= λ block. decrypt_blocks block src

  -- AESCBCPKCS7Decrypt
  unfoldable pub aes_cbc_pkcs7_decrypt : Bytes → Bytes → Result Bytes
  aes_cbc_pkcs7_decrypt key src = aes_cbc_decrypt key src >>= pkcs7_unpadding

  -- EncryptBytes: the IV is blank.
  unfoldable pub encrypt_bytes : Bytes → Bytes → Result Bytes
  encrypt_bytes key value = aes_cbc_encrypt_with_iv (replicate 16 0) key (pkcs7_padding value)

  -- DecryptBytes
  unfoldable pub decrypt_bytes : Bytes → Bytes → Result Bytes
  unfolding aes_cbc_pkcs7_decrypt
  decrypt_bytes key value = aes_cbc_pkcs7_decrypt key value
