-- ===== src/Router/Group/Laws.antt =====
-- Which handler of a router runs, and what is wrapped around it.
use cckit.Base.{
  ℕ, zero, suc, ◌+◌, ◌≤◌, ◌<◌, ◌≡◌, ◌≢◌, refl, sym, ◌∙◌, ap, inl, inr, Bool-cases, none, List, [],
  ◌∷◌, ◌++◌, arith, Text, Bytes, find, find-store, find-store_self, text_eq, text_eq_iff, codes,
  length, take,
}
use cckit.Lang.Error.{Error}
use cckit.Lang.Result.{Result}
use cckit.Lang.Value.{Methods}
use cckit.Response.{Response}
use cckit.Router.Context.{Context, MethodType, new_context, set_handler, replace_args, path}
use cckit.Router.Group.{
  HandlerFunc, MiddlewareFunc, Registry, Group, apply_at, wrap_down, wrap_all, wrap_after,
  add_handler, init_method, respond, stub_after, run_handler, handle_context, build_handler,
  handle_init, handle,
}
use cckit.State.Stub.{Stub}

-- Middleware around a handler: the first is outermost, and each is given its position.
unfoldable pub nest : {H : Type 0} → ℕ → List (H → ℕ → H) → H → H
nest i [] h = h
nest i (m ∷ ms) h = m (nest (i + 1) ms h) i

module _ {H : Type 0} where
  nest-take :
      (k i : ℕ) (ms : List (H → ℕ → H)) (h : H)
      → i < length ms
      → nest k (take (suc i) ms) h ≡ nest k (take i ms) (apply_at ms i (k + i) h)
  unfolding nest apply_at
  nest-take k i [] h l = absurd (omega arith)
  nest-take k zero (m ∷ ms) h l = ap (m h) (omega arith)
  nest-take k (suc i) (m ∷ ms) h l =
      ap (λ x. m x k)
        (nest-take (k + 1) i ms h (omega arith)
          ∙ ap (λ j. nest (k + 1) (take i ms) (apply_at ms i j h)) (omega arith))

  wrap_down-nest :
      (ms : List (H → ℕ → H)) (i : ℕ) (h : H)
      → i ≤ length ms
      → wrap_down ms i h ≡ nest 0 (take i ms) h
  unfolding wrap_down
  wrap_down-nest ms zero h l = unfold nest in refl
  wrap_down-nest ms (suc i) h l =
      wrap_down-nest ms i (apply_at ms i i h) (omega arith)
      ∙ sym (nest-take 0 i ms h l ∙ ap (λ j. nest 0 (take i ms) (apply_at ms i j h)) (omega arith))

  take-length : (ms : List (H → ℕ → H)) → take (length ms) ms ≡ ms
  take-length [] = refl
  take-length (m ∷ ms) = ap (λ l. m ∷ l) (take-length ms)

  -- The loop that runs down over the middleware nests it.
  pub wrap_all-nest : (ms : List (H → ℕ → H)) (h : H) → wrap_all ms h ≡ nest 0 ms h
  unfolding wrap_all
  wrap_all-nest ms h =
      wrap_down-nest ms (length ms) h (omega arith) ∙ ap (λ l. nest 0 l h) (take-length ms)

module _ {S U : Type 0} (m : Methods U) (show : Error → Text) (stub : Stub S) where
  -- What runs for a handler: the group's middleware around the route's own, and the after
  -- middleware around both.
  abbrev pub run_nested :
      Group S U
      → MethodType
      → HandlerFunc S U
      → List (MiddlewareFunc S U)
      → Context S U
      → Result Response × Context S U
  run_nested g t h ms c =
      respond m show stub
        (wrap_after g.after_middleware (nest 0 g.middleware (nest 0 ms h)) (set_handler t c))

  -- A handler that any group registered is run, where its path is asked for and no stub handler or
  -- context handler has it, by the group that handles the request: with what wrap_after makes of
  -- its after middleware around the middleware of the handling group around the middleware of the
  -- route, where both lists of middleware before the handler are nested with the first outermost
  -- and given their positions.
  pub handle_context-add_handler :
      (g g' : Group S U) (t : MethodType) (p : Text) (h : HandlerFunc S U)
      (ms : List (MiddlewareFunc S U)) (r : Registry S U) (c : Context S U)
      → path m stub c ≡ g'.prefix ++ p
      → find (g'.prefix ++ p) r.stub_handlers ≡ none
      → find (g'.prefix ++ p) r.context_handlers ≡ none
      → handle_context m show stub g (add_handler g' t p h ms r) c ≡ run_nested g t h ms c
  unfolding handle_context add_handler run_handler
  handle_context-add_handler g g' t p h ms r c e no_stub no_context = rw (
    e,
    no_stub,
    no_context,
    find-store_self (g'.prefix ++ p),
    wrap_all-nest ms h,
    wrap_all-nest g.middleware (nest 0 ms h),
  )

  -- Registering a handler changes what runs at no other path.
  pub handle_context-add_handler_ne :
      (g g' : Group S U) (t : MethodType) (p : Text) (h : HandlerFunc S U)
      (ms : List (MiddlewareFunc S U)) (r : Registry S U) (c : Context S U)
      → g'.prefix ++ p ≢ path m stub c
      → handle_context m show stub g (add_handler g' t p h ms r) c
        ≡ handle_context m show stub g r c
  unfolding handle_context add_handler
  handle_context-add_handler_ne g g' t p h ms r c ne =
      elim (Bool-cases (text_eq (g'.prefix ++ p) (path m stub c))) [
        | inl same ↦ absurd (ne ((text_eq_iff _ _).0 same))
        | inr other ↦ rw (find-store (g'.prefix ++ p) (path m stub c), other)
      ]

  build_handler-no_pre :
      (g : Group S U) (r : Registry S U)
      → g.pre_middleware ≡ []
      → build_handler m show stub g r ≡ handle_context m show stub g r
  unfolding build_handler wrap_all wrap_down
  build_handler-no_pre g r no_pre = ap (λ ms. wrap_all ms (handle_context m show stub g r)) no_pre

  path-new_context :
      (s : S) (a : Bytes) (args : List Bytes)
      → stub.get_args s ≡ a ∷ args
      → path m stub (new_context {U = U} s) ≡ a
  unfolding path new_context
  path-new_context s a args e = rw e

  -- In a root group without pre middleware HandleInit runs the handler of Init, with "init" put before
  -- the arguments of the transaction, whatever these are, if neither a stub handler nor a context
  -- handler has the path "init".
  pub handle_init-init_method :
      (g : Group S U) (h : HandlerFunc S U) (ms : List (MiddlewareFunc S U)) (r : Registry S U)
      (s : S)
      → g.prefix ≡ []
      → g.pre_middleware ≡ []
      → find (codes "init") r.stub_handlers ≡ none
      → find (codes "init") r.context_handlers ≡ none
      → handle_init m show stub g (init_method g h ms r) s
        ≡ stub_after m show stub (
            run_nested g MethodType.invoke h ms
              (replace_args (codes "init" ∷ stub.get_args s) (new_context s)))
  unfolding handle_init path
  handle_init-init_method g h ms r s no_prefix no_pre no_stub no_context =
      let init = codes "init" in
      let c = replace_args (init ∷ stub.get_args s) (new_context s) in
      ap (λ f. stub_after m show stub (f c)) (build_handler-no_pre g (init_method g h ms r) no_pre)
      ∙ ap (stub_after m show stub) (
          handle_context-add_handler g g MethodType.invoke init h ms r c
            (sym (ap (λ x. x ++ init) no_prefix))
            (ap (λ x. find (x ++ init) r.stub_handlers) no_prefix ∙ no_stub)
            (ap (λ x. find (x ++ init) r.context_handlers) no_prefix ∙ no_context))

  -- Handle runs the handler that the first argument of the transaction names, if no pre middleware
  -- stands in front and neither a stub handler nor a context handler has the path.
  pub handle-add_handler :
      (g g' : Group S U) (t : MethodType) (p : Text) (h : HandlerFunc S U)
      (ms : List (MiddlewareFunc S U)) (r : Registry S U) (s : S) (args : List Bytes)
      → g.pre_middleware ≡ []
      → find (g'.prefix ++ p) r.stub_handlers ≡ none
      → find (g'.prefix ++ p) r.context_handlers ≡ none
      → stub.get_args s ≡ (g'.prefix ++ p) ∷ args
      → handle m show stub g (add_handler g' t p h ms r) s
        ≡ stub_after m show stub (run_nested g t h ms (new_context s))
  unfolding handle
  handle-add_handler g g' t p h ms r s args no_pre no_stub no_context e = rw e (
      ap (λ f. stub_after m show stub (f (new_context s)))
        (build_handler-no_pre g (add_handler g' t p h ms r) no_pre)
      ∙ ap (stub_after m show stub) (
          handle_context-add_handler g g' t p h ms r (new_context s)
            (path-new_context s (g'.prefix ++ p) args e) no_stub no_context))
