-- ===== src/Tests/EncryptionTests.antt =====
-- Encryption with a cipher that adds one to each byte, and base64 replaced by the bytes themselves.
use cckit.Base.{
  ◌≡◌, ◌↔◌, refl, ap, ℕ, suc, ◌-◌, ◌+◌, ◌%◌, ◌<◌, ◌≤◌, [], ◌∷◌, map, Bytes, codes, arith, length,
  replicate,
}
use cckit.Convert.{to_bytes}
use cckit.Encryption.Padding.{pkcs7_padding, pkcs7_unpadding, length-pkcs7_padding}
use cckit.Encryption.Aes.{Cipher, CipherLaws, aes_cbc_encrypt_with_iv, encrypt_bytes, decrypt_bytes}
use cckit.Encryption.Aes.Laws.{decrypt_bytes-encrypt_bytes, decrypt_bytes-panic_iff}
use cckit.Encryption.Codec.{
  Base64, ChaincodeEvent, encrypt_args_bytes, encrypt, key_encryptor, encrypted_state,
  encrypt_event,
}
use cckit.Encryption.Codec.Laws.{encrypted_state-Decodes}
use cckit.Lang.Result.{ok, panic, map_each}
use cckit.Lang.Value.{str}
use cckit.State.Impl.{Impl, new_state}
use cckit.State.Impl.Laws.{Decodes}
use cckit.Tests.Memory.{Memory, memory_stub, no_methods}

abbrev pub shift : Cipher Bytes
shift = record {
  new_cipher = λ key. ok key;
  cbc_encrypt = λ b iv s. map suc s;
  cbc_decrypt = λ b iv s. map (λ x. x - 1) s;
}

length-map : (f : ℕ → ℕ) (s : Bytes) → length (map f s) ≡ length s
length-map f [] = refl
length-map f (x ∷ s) = ap suc (length-map f s)

map-pred-suc : (s : Bytes) → map (λ x. x - 1) (map suc s) ≡ s
map-pred-suc [] = refl
map-pred-suc (x ∷ s) = let e : suc x - 1 ≡ x = omega arith in cc (map-pred-suc s)

pub shift-CipherLaws : CipherLaws shift
shift-CipherLaws = record {
  decrypt-encrypt = λ b iv s h. map-pred-suc s;
  length-encrypt = λ b iv s h. length-map suc s;
  length-decrypt = λ b iv s h. length-map (λ x. x - 1) s;
}

abbrev pub raw : Base64
raw = record { encode_to_string = λ b. b; decode_string = λ s. ok s; decode-encode = λ b. refl }

computes : Unit {0}
unfolding pkcs7_padding pkcs7_unpadding aes_cbc_encrypt_with_iv encrypt_bytes decrypt_bytes
    encrypt_args_bytes map_each encrypt to_bytes key_encryptor encrypt_event
computes = tt

abbrev pub secret : Bytes
secret = codes "k"

abbrev pub hi : Bytes
hi = codes "hi"

padding_test : pkcs7_padding hi ≡ 104 ∷ 105 ∷ replicate 14 14
unfolding computes
padding_test = refl

abbrev hi_block : Bytes
hi_block = 105 ∷ 106 ∷ replicate 14 15

abbrev pub sealed_hi : Bytes
sealed_hi = 0 ∷ 0 ∷ 0 ∷ 0 ∷ 0 ∷ 0 ∷ 0 ∷ 0 ∷ 0 ∷ 0 ∷ 0 ∷ 0 ∷ 0 ∷ 0 ∷ 0 ∷ 0 ∷ hi_block

encrypt_test : encrypt_bytes shift secret hi ≡ ok sealed_hi
unfolding computes
encrypt_test = refl

decrypt_bytes_example : decrypt_bytes shift secret sealed_hi ≡ ok hi
decrypt_bytes_example =
    decrypt_bytes-encrypt_bytes shift shift-CipherLaws secret hi sealed_hi encrypt_test

decrypt_bytes-panic_example :
    (decrypt_bytes shift secret (replicate 16 7) ≡ panic) ↔ (length (replicate {A = ℕ} 16 7) ≡ 16)
decrypt_bytes-panic_example =
    decrypt_bytes-panic_iff shift shift-CipherLaws secret (replicate 16 7) secret refl

pub encrypt_args_test :
    encrypt_args_bytes shift secret (hi ∷ hi ∷ []) ≡ ok (sealed_hi ∷ sealed_hi ∷ [])
unfolding computes
encrypt_args_test = refl

abbrev plain : Impl Memory ℕ
plain = new_state no_methods memory_stub

encrypted_state_example :
    Decodes (encrypted_state shift no_methods raw plain secret) (str hi) (str hi ∷ [])
encrypted_state_example =
    encrypted_state-Decodes shift shift-CipherLaws no_methods raw plain secret (str hi) tt

key_encryptor_test :
    key_encryptor shift no_methods raw secret (hi ∷ hi ∷ []) ≡ ok (sealed_hi ∷ sealed_hi ∷ [])
unfolding computes
key_encryptor_test = refl

abbrev event : ChaincodeEvent
event = record { chaincode_id = codes "cc"; tx_id = codes "1"; event_name = hi; payload = hi }

abbrev sealed_event : ChaincodeEvent
sealed_event = record event { event_name = sealed_hi; payload = sealed_hi }

encrypt_event_test : encrypt_event shift no_methods raw secret event ≡ ok sealed_event
unfolding computes
encrypt_event_test = refl

length-pkcs7_padding_example :
    (length (pkcs7_padding (codes "ab")) % 16 ≡ 0)
    × (length (codes "ab") < length (pkcs7_padding (codes "ab")))
    × (length (pkcs7_padding (codes "ab")) ≤ length (codes "ab") + 16)
length-pkcs7_padding_example = length-pkcs7_padding (codes "ab")
