-- ===== src/Encryption/Middleware.antt =====
-- extensions/encryption/middleware_pre.go, middleware_after.go and the functions of state.go and
-- event.go that take a context: arguments, state and events under the key of the transient map.
pub mod Laws
use cckit.Base.{
  ◌≡◌, ◌&&◌, not, Bool, true, false, Option, none, some, List, [], ◌∷◌, Text, Bytes, codes, text_eq,
  is_empty, if◌then◌else◌,
}
use cckit.Encryption.Aes.{Cipher}
use cckit.Encryption.Codec.{
  Base64, key_from_transient, decrypt_args, encrypted_state, to_bytes_encryptor, string_encryptor,
}
use cckit.Lang.Error.{Error, base, noted, key_not_defined_in_transient_map}
use cckit.Lang.Exec.{Exec, lift, ◌>>=◌, ◌>>◌}
use cckit.Lang.Result.{Result, ok, err, panic, on_err}
use cckit.Lang.Result.{◌>>=◌ as bind}
use cckit.Lang.Value.{Value, bytes, Methods}
use cckit.Response.{Response, error_response}
use cckit.Router.Context.{
  Context, MethodType, invoke, query, get_args, path, replace_args, state_of, event_of, use_state,
  use_event,
}
use cckit.Router.Group.{HandlerFunc, ContextHandlerFunc}
use cckit.State.Event.{EventImpl, use_set_transformer, use_name_transformer}
use cckit.State.Stub.{Stub}

module _ {S U B : Type 0} (c : Cipher B) (b64 : Base64) (m : Methods U) (show : Error → Text)
    (stub : Stub S) where
  -- KeyFromTransient(c)
  unfoldable pub context_key : Context S U → Result Bytes
  context_key ctx = key_from_transient (stub.get_transient ctx.stub)

  unfoldable pub decrypt_replace_args : Bytes → Exec (Context S U) (Unit {0})
  decrypt_replace_args key ctx = replaced (decrypt_args c key (get_args m stub ctx)) ctx
    where
      replaced : Result (List Bytes) → Exec (Context S U) (Unit {0})
      replaced (ok args) ctx = (ok tt, replace_args args ctx)
      replaced (err e) ctx = (err (noted (codes "args") e), ctx)
      replaced panic ctx = (panic, ctx)

  -- `c.Path() == m` for one of the excepted methods.
  unfoldable pub is_excepted : List Text → Text → Bool
  is_excepted [] p = false
  is_excepted (e ∷ except) p = let rest = is_excepted except p in if text_eq p e then true else rest

  abbrev pub respond_or :
      Result (Unit {0}) × Context S U → ContextHandlerFunc S U → Result Response × Context S U
  respond_or (ok tt, ctx) next = next ctx
  respond_or (err e, ctx) next = (ok (error_response m show e), ctx)
  respond_or (panic, ctx) next = (panic, ctx)

  -- What argsDecryptor does once the key was looked for: an error other than the missing key is
  -- passed over.
  abbrev pub with_key : ContextHandlerFunc S U → Bool → Result Bytes → ContextHandlerFunc S U
  with_key next key_should_be (ok key) ctx = respond_or (decrypt_replace_args key ctx) next
  with_key next true (err (base key_not_defined_in_transient_map)) ctx =
      (ok (error_response m show (base key_not_defined_in_transient_map)), ctx)
  with_key next key_should_be (err e) ctx = next ctx
  with_key next key_should_be panic ctx = (panic, ctx)

  unfoldable pub args_decryptor : ContextHandlerFunc S U → Bool → List Text → ContextHandlerFunc S U
  args_decryptor next key_should_be except ctx =
      if not (is_empty (get_args m stub ctx)) && is_excepted except (path m stub ctx)
      then next ctx
      else with_key next key_should_be (context_key ctx) ctx

  abbrev pub args_decrypt_if_key_provided : ContextHandlerFunc S U → ContextHandlerFunc S U
  args_decrypt_if_key_provided next = args_decryptor next false []

  abbrev pub args_decrypt : ContextHandlerFunc S U → ContextHandlerFunc S U
  args_decrypt next = args_decryptor next true []

  abbrev pub args_decrypt_except : List Text → ContextHandlerFunc S U → ContextHandlerFunc S U
  args_decrypt_except except next = args_decryptor next true except

  -- Event: the two transformers of the event of the context.
  abbrev pub encrypted_event : EventImpl S U → Bytes → EventImpl S U
  encrypted_event e key =
      use_name_transformer m (use_set_transformer m e (to_bytes_encryptor c m key))
        (string_encryptor c m b64 key)

  -- State(c, key) and Event(c, key) change the state and the event of the context themselves.
  unfoldable pub state_with_key : Bytes → Context S U → Context S U
  state_with_key key ctx =
      let (s, ctx1) = state_of m stub ctx in use_state (encrypted_state c m b64 s key) ctx1

  unfoldable pub event_with_key : Bytes → Context S U → Context S U
  event_with_key key ctx =
      let (e, ctx1) = event_of m stub ctx in use_event (encrypted_event e key) ctx1

  abbrev pub after_replacing : Result Bytes → HandlerFunc S U → HandlerFunc S U
  after_replacing (ok key) next ctx = next (event_with_key key (state_with_key key ctx))
  after_replacing (err e) next ctx = (err e, ctx)
  after_replacing panic next ctx = (panic, ctx)

  unfoldable pub enc_state_context : HandlerFunc S U → HandlerFunc S U
  enc_state_context next ctx = after_replacing (context_key ctx) next ctx

  abbrev pub if_key : Result Bytes → HandlerFunc S U → HandlerFunc S U
  if_key (ok key) next ctx = enc_state_context next ctx
  if_key (err e) next ctx = next ctx
  if_key panic next ctx = (panic, ctx)

  unfoldable pub enc_state_context_if_key_provided : HandlerFunc S U → HandlerFunc S U
  enc_state_context_if_key_provided next ctx = if_key (context_key ctx) next ctx

  unfoldable pub encrypt_with_transient_key : Value U → Context S U → Result (Value U)
  encrypt_with_transient_key val ctx =
      bind (context_key ctx) λ key. bind (to_bytes_encryptor c m key val []) λ enc. ok (bytes enc)

  -- A missing handler is a nil pointer.
  abbrev pub encrypt_result : Option MethodType → Value U → Context S U → Result (Value U)
  encrypt_result (some invoke) res ctx = encrypt_with_transient_key res ctx
  encrypt_result (some query) res ctx = ok res
  encrypt_result none res ctx = panic

  abbrev pub encrypt_after : Result (Value U) × Context S U → Result (Value U) × Context S U
  encrypt_after (ok res, ctx) = (encrypt_result ctx.handler res ctx, ctx)
  encrypt_after (err e, ctx) = (err e, ctx)
  encrypt_after (panic, ctx) = (panic, ctx)

  unfoldable pub encrypt_invoke_response : HandlerFunc S U → HandlerFunc S U
  encrypt_invoke_response pre ctx = encrypt_after (pre ctx)
