-- ===== src/Router/Group.antt =====
-- router/router.go. A group that is made from another shares its three maps of handlers, so they are
-- a store of their own, the registry, which the methods that register are given. Loops over
-- middleware run over the positions as written.
pub mod Laws
use cckit.Base.{
  ℕ, zero, suc, Bool, Option, none, some, List, [], ◌∷◌, ◌++◌, Text, Bytes, Map, find, store, codes,
  length, is_empty, if◌then◌else◌,
}
use cckit.Lang.Error.{Error, base, errorf, empty_args, method_not_found}
use cckit.Lang.Exec.{Exec, lift}
use cckit.Lang.Result.{Result, ok, err, panic}
use cckit.Lang.Value.{Value, nil, Methods}
use cckit.Response.{Response, error_response, create_response, ErrValue, nil_err, error_err}
use cckit.Router.Context.{
  Context, MethodType, invoke, query, new_context, set_handler, replace_args, path,
}
use cckit.State.Stub.{Stub}

abbrev pub HandlerFunc : Type 0 → Type 0 → Type 0
HandlerFunc S U = Exec (Context S U) (Value U)

abbrev pub ContextHandlerFunc : Type 0 → Type 0 → Type 0
ContextHandlerFunc S U = Exec (Context S U) Response

abbrev pub StubHandlerFunc : Type 0 → Type 0
StubHandlerFunc S = Exec S Response

abbrev pub MiddlewareFunc : Type 0 → Type 0 → Type 0
MiddlewareFunc S U = HandlerFunc S U → ℕ → HandlerFunc S U

abbrev pub ContextMiddlewareFunc : Type 0 → Type 0 → Type 0
ContextMiddlewareFunc S U = ContextHandlerFunc S U → ℕ → ContextHandlerFunc S U

pub record HandlerMeta (S U : Type 0) : Type 0 where
  pub hdl : HandlerFunc S U
  pub method_type : MethodType

-- The maps that the groups of one router share.
pub record Registry (S U : Type 0) : Type 0 where
  pub stub_handlers : Map (StubHandlerFunc S)
  pub context_handlers : Map (ContextHandlerFunc S U)
  pub handlers : Map (HandlerMeta S U)

pub record Group (S U : Type 0) : Type 0 where
  pub prefix : Text
  pub context_middleware : List (ContextMiddlewareFunc S U)
  pub middleware : List (MiddlewareFunc S U)
  pub pre_middleware : List (ContextMiddlewareFunc S U)
  pub after_middleware : List (MiddlewareFunc S U)

-- `h = middleware[i](h, i)`
unfoldable pub apply_at : {H : Type 0} → List (H → ℕ → H) → ℕ → ℕ → H → H
apply_at [] i pos h = h
apply_at (m ∷ ms) zero pos h = m h pos
apply_at (m ∷ ms) (suc i) pos h = apply_at ms i pos h

-- `for i := len(middleware) - 1; i >= 0; i--`
unfoldable pub wrap_down : {H : Type 0} → List (H → ℕ → H) → ℕ → H → H
unfolding apply_at
wrap_down ms zero h = h
wrap_down ms (suc i) h = wrap_down ms i (apply_at ms i i h)

unfoldable pub wrap_all : {H : Type 0} → List (H → ℕ → H) → H → H
unfolding wrap_down
wrap_all ms h = wrap_down ms (length ms) h

-- `for i := 0; i <= len(g.afterMiddleware)-1; i++`, with position 0.
unfoldable pub wrap_after : {H : Type 0} → List (H → ℕ → H) → H → H
wrap_after [] h = h
wrap_after (m ∷ ms) h = wrap_after ms (m h 0)

module _ {S U : Type 0} where
  -- New
  abbrev pub new_group : Group S U
  new_group = record {
    prefix = [];
    context_middleware = [];
    middleware = [];
    pre_middleware = [];
    after_middleware = [];
  }

  abbrev pub new_registry : Registry S U
  new_registry = record { stub_handlers = []; context_handlers = []; handlers = [] }

  abbrev pub pre : List (ContextMiddlewareFunc S U) → Group S U → Group S U
  pre ms g = record g { pre_middleware = g.pre_middleware ++ ms }

  abbrev pub after : List (MiddlewareFunc S U) → Group S U → Group S U
  after ms g = record g { after_middleware = g.after_middleware ++ ms }

  -- Use
  abbrev pub use_middleware : List (MiddlewareFunc S U) → Group S U → Group S U
  use_middleware ms g = record g { middleware = g.middleware ++ ms }

  -- Group
  unfoldable pub subgroup : Text → Group S U → Group S U
  subgroup p g = record {
    prefix = g.prefix ++ p;
    context_middleware = [];
    middleware = g.middleware;
    pre_middleware = [];
    after_middleware = [];
  }

  unfoldable pub stub_handler : Group S U → Text → StubHandlerFunc S → Registry S U → Registry S U
  stub_handler g p fn r = record r { stub_handlers = store (g.prefix ++ p) fn r.stub_handlers }

  unfoldable pub context_handler :
      Group S U → Text → ContextHandlerFunc S U → Registry S U → Registry S U
  context_handler g p fn r = record r {
    context_handlers = store (g.prefix ++ p) fn r.context_handlers;
  }

  unfoldable pub add_handler :
      Group S U
      → MethodType
      → Text
      → HandlerFunc S U
      → List (MiddlewareFunc S U)
      → Registry S U
      → Registry S U
  add_handler g t p handler ms r = record r {
    handlers =
        store (g.prefix ++ p) (record { hdl = wrap_all ms handler; method_type = t }) r.handlers;
  }

  -- Query, Invoke, Init
  abbrev pub query_method :
      Group S U → Text → HandlerFunc S U → List (MiddlewareFunc S U) → Registry S U → Registry S U
  query_method g = add_handler g query

  abbrev pub invoke_method :
      Group S U → Text → HandlerFunc S U → List (MiddlewareFunc S U) → Registry S U → Registry S U
  invoke_method g = add_handler g invoke

  abbrev pub init_method :
      Group S U → HandlerFunc S U → List (MiddlewareFunc S U) → Registry S U → Registry S U
  init_method g = invoke_method g (codes "init")

module _ {S U : Type 0} (m : Methods U) (show : Error → Text) (stub : Stub S) where
  -- A stub handler is given the stub alone.
  abbrev on_stub : StubHandlerFunc S → ContextHandlerFunc S U
  on_stub h c = let (r, s) = h c.stub in (r, record c { stub = s })

  -- `response.Create(h(c))`
  abbrev pub respond : Result (Value U) × Context S U → Result Response × Context S U
  respond (ok v, c) = (create_response m show v nil_err, c)
  respond (err e, c) = (create_response m show nil (error_err e), c)
  respond (panic, c) = (panic, c)

  unfoldable pub run_handler : Group S U → HandlerMeta S U → ContextHandlerFunc S U
  run_handler g meta c = respond (
      wrap_after g.after_middleware (wrap_all g.middleware meta.hdl)
        (set_handler meta.method_type c))

  abbrev try_handler : Group S U → Option (HandlerMeta S U) → ContextHandlerFunc S U
  try_handler g (some meta) c = run_handler g meta c
  try_handler g none c = (ok (error_response m show (errorf method_not_found (path m stub c))), c)

  abbrev try_context_handler :
      Group S U → Option (ContextHandlerFunc S U) → ContextHandlerFunc S U → ContextHandlerFunc S U
  try_context_handler g (some h) rest c = wrap_all g.context_middleware h c
  try_context_handler g none rest c = rest c

  abbrev try_stub_handler :
      Option (StubHandlerFunc S) → ContextHandlerFunc S U → ContextHandlerFunc S U
  try_stub_handler (some h) rest c = on_stub h c
  try_stub_handler none rest c = rest c

  unfoldable pub handle_context : Group S U → Registry S U → ContextHandlerFunc S U
  handle_context g r c =
      let p = path m stub c in
      try_stub_handler (find p r.stub_handlers)
        (try_context_handler g (find p r.context_handlers) (try_handler g (find p r.handlers))) c

  unfoldable pub build_handler : Group S U → Registry S U → ContextHandlerFunc S U
  build_handler g r = wrap_all g.pre_middleware (handle_context g r)

  -- The response, and the stub as the handlers left it.
  abbrev pub stub_after : Result Response × Context S U → Result Response × S
  stub_after (r, c) = (r, c.stub)

  unfoldable pub handle_init : Group S U → Registry S U → Exec S Response
  handle_init g r s =
      stub_after (build_handler g r (replace_args (codes "init" ∷ stub.get_args s) (new_context s)))

  unfoldable pub handle : Group S U → Registry S U → Exec S Response
  handle g r s =
      if is_empty (stub.get_args s)
      then (ok (error_response m show (base empty_args)), s)
      else stub_after (build_handler g r (new_context s))
