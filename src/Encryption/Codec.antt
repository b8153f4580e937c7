-- ===== src/Encryption/Codec.antt =====
-- extensions/encryption/encryption.go and the transformers of extensions/encryption/state.go and
-- event.go. The text encoding is base64.StdEncoding.
pub mod Laws
use cckit.Base.{
  ◌≡◌, List, [], ◌∷◌, Text, Bytes, codes, Map, store, find, some, none, Option, text_eq,
  if◌then◌else◌,
}
use cckit.Convert.{to_bytes, from_bytes, args_to_bytes}
use cckit.Encryption.Aes.{Cipher, encrypt_bytes, decrypt_bytes}
use cckit.Lang.Error.{Error, noted, base, key_not_defined_in_transient_map}
use cckit.Lang.Result.{Result, ok, err, on_err, map_each, ◌>>=◌}
use cckit.Lang.Value.{Value, str, bytes, Methods}
use cckit.State.Impl.{
  Impl, use_key_transformer, use_key_reverse_transformer, use_state_get_transformer,
  use_state_put_transformer,
}
use cckit.State.Key.{Key}
use cckit.State.Transformer.{
  FromBytesTransformer, ToBytesTransformer, KeyTransformer, StringTransformer,
}

-- base64.StdEncoding: what is encoded is decoded.
pub record Base64 : Type 0 where
  pub encode_to_string : Bytes → Text
  pub decode_string : Text → Result Bytes
  pub decode-encode : (b : Bytes) → decode_string (encode_to_string b) ≡ ok b

-- TransientMapKey, router.InitFunc
abbrev pub transient_map_key : Text
transient_map_key = codes "ENCODE_KEY"

abbrev pub init_func : Text
init_func = codes "init"

-- peer.ChaincodeEvent
pub record ChaincodeEvent : Type 0 where
  pub chaincode_id : Text
  pub tx_id : Text
  pub event_name : Text
  pub payload : Bytes

-- TransientMapWithKey, and the lookup of KeyFromTransient.
unfoldable pub transient_map_with_key : Bytes → Map Bytes
transient_map_with_key key = store transient_map_key key []

abbrev or_not_defined : Option Bytes → Result Bytes
or_not_defined none = err (base key_not_defined_in_transient_map)
or_not_defined (some key) = ok key

unfoldable pub key_from_transient : Result (Map Bytes) → Result Bytes
key_from_transient tm = tm >>= λ m. or_not_defined (find transient_map_key m)

module _ {B : Type 0} (c : Cipher B) where
  unfoldable pub encrypt_args_bytes : Bytes → List Bytes → Result (List Bytes)
  encrypt_args_bytes key args =
      map_each (λ bb. on_err (noted (codes "encryption error")) (encrypt_bytes c key bb)) args

  decrypt_arg : Bytes → Bytes → Result Bytes
  decrypt_arg key a = on_err (noted (codes "decryption error")) (decrypt_bytes c key a)

  -- The first argument is not decrypted if it is "init".
  unfoldable pub decrypt_args : Bytes → List Bytes → Result (List Bytes)
  unfolding decrypt_arg
  decrypt_args key [] = ok []
  decrypt_args key (a ∷ args) =
      (if text_eq a init_func then ok a else decrypt_arg key a) >>= λ first.
      map_each (decrypt_arg key) args >>= λ rest. ok (first ∷ rest)

  -- Decrypt copies its argument before DecryptBytes overwrites it.
  unfoldable pub decrypt : Bytes → Bytes → Result Bytes
  decrypt key value = decrypt_bytes c key value

  module _ {U : Type 0} (m : Methods U) where
    unfoldable pub encrypt_args : Bytes → List (Value U) → Result (List Bytes)
    encrypt_args key args = args_to_bytes m args >>= encrypt_args_bytes key

    unfoldable pub encrypt : Bytes → Value U → Result Bytes
    encrypt key value =
        on_err (noted (codes "convert values to bytes")) (to_bytes m value) >>= λ bb.
        encrypt_bytes c key bb

    unfoldable pub from_bytes_decryptor : Bytes → FromBytesTransformer U
    from_bytes_decryptor key bb [] =
        on_err (noted (codes "decrypt bytes")) (decrypt key bb) >>= λ decrypted.
        ok (bytes decrypted)
    from_bytes_decryptor key bb (target ∷ _) =
        on_err (noted (codes "decrypt bytes")) (decrypt key bb) >>= λ decrypted.
        from_bytes m (some decrypted) target

    -- `Encrypt(key, bb)` of the bytes of the value.
    unfoldable pub to_bytes_encryptor : Bytes → ToBytesTransformer U
    to_bytes_encryptor key v config = to_bytes m v >>= λ bb. encrypt key (bytes bb)

    module _ (b64 : Base64) where
      unfoldable pub key_encryptor : Bytes → KeyTransformer
      key_encryptor encrypt_key key =
          map_each
            (λ p. on_err (noted (codes "encrypt key")) (encrypt encrypt_key (str p)) >>= λ enc.
              ok (b64.encode_to_string enc))
            key

      unfoldable pub key_decryptor : Bytes → KeyTransformer
      key_decryptor encrypt_key key =
          map_each
            (λ p. on_err (noted (codes "decrypt key base4 decode")) (b64.decode_string p) >>= λ enc.
              on_err (noted (codes "decrypt key")) (decrypt encrypt_key enc))
            key

      unfoldable pub string_encryptor : Bytes → StringTransformer
      string_encryptor key s = encrypt key (bytes s) >>= λ enc. ok (b64.encode_to_string enc)

      -- State: the four transformers of the state of the context.
      unfoldable pub encrypted_state : {S : Type 0} → Impl S U → Bytes → Impl S U
      encrypted_state s key =
          use_state_put_transformer m
            (use_state_get_transformer m
              (use_key_reverse_transformer m (use_key_transformer m s (key_encryptor key))
                (key_decryptor key))
              (from_bytes_decryptor key))
            (to_bytes_encryptor key)

      unfoldable pub encrypt_event : Bytes → ChaincodeEvent → Result ChaincodeEvent
      encrypt_event enc_key event = encrypt enc_key (bytes event.event_name) >>= λ enc_name.
          encrypt enc_key (bytes event.payload) >>= λ enc_payload.
          ok (record event { event_name = b64.encode_to_string enc_name; payload = enc_payload })

      unfoldable pub decrypt_event : Bytes → ChaincodeEvent → Result ChaincodeEvent
      decrypt_event enc_key event =
          on_err (noted (codes "event name base64 decoding")) (b64.decode_string event.event_name)
          >>= λ enc_name_bytes. decrypt enc_key enc_name_bytes >>= λ dec_name.
              decrypt enc_key event.payload >>= λ dec_payload.
              ok (record event { event_name = dec_name; payload = dec_payload })
