-- ===== src/Tests/RouterTests.antt =====
-- A router with a group of its own for cars, at concrete requests.
use cckit.Base.{
  ◌≡◌, ◌≢◌, refl, ℕ, List, [], ◌∷◌, ◌++◌, Text, Bytes, codes, arith, find, text_eq, store,
}
use cckit.Lang.Error.{Error}
use cckit.Lang.Result.{Result, ok}
use cckit.Lang.Value.{Value, str}
use cckit.Response.{shim_success, create_response, success_response}
use cckit.Convert.{to_bytes}
use cckit.Router.Context.{Context, query, new_context, path, get_args}
use cckit.Router.Group.{
  Group, Registry, HandlerFunc, MiddlewareFunc, new_group, new_registry, subgroup, add_handler,
  use_middleware, handle_context, handle, handle_init, wrap_all, wrap_down, apply_at, wrap_after,
  run_handler, build_handler,
}
use cckit.Router.Group.Laws.{nest, run_nested, handle_context-add_handler}
use cckit.State.Stub.{Stub}
use cckit.Tests.Memory.{Memory, empty, memory_stub, no_methods}

abbrev show : Error → Text
show e = codes "error"

-- A stub with the arguments of a transaction.
abbrev stub_with : List Bytes → Stub Memory
stub_with args = record memory_stub { get_args = λ s. args }

abbrev get_stub : Stub Memory
get_stub = stub_with (codes "carGet" ∷ codes "7" ∷ [])

-- A middleware that answers with its mark before what is inside of it.
mark : Text → MiddlewareFunc Memory ℕ
mark t next pos c = let (r, c') = next c in marked r c'
  where
    marked : Result (Value ℕ) → Context Memory ℕ → Result (Value ℕ) × Context Memory ℕ
    marked (ok (str s)) d = (ok (str (t ++ s)), d)
    marked r d = (r, d)

abbrev car_get : HandlerFunc Memory ℕ
car_get c = (ok (str (codes "red")), c)

abbrev root : Group Memory ℕ
root = use_middleware (mark (codes "a") ∷ mark (codes "b") ∷ []) new_group

abbrev routes : Registry Memory ℕ
routes =
    add_handler (subgroup (codes "car") root) query (codes "Get") car_get (mark (codes "c") ∷ [])
      new_registry

computes : Unit {0}
unfolding mark add_handler subgroup handle_context handle handle_init wrap_all wrap_down apply_at
    wrap_after run_handler build_handler new_context path get_args find store text_eq
    create_response success_response to_bytes nest
computes = tt

-- The root's middleware stands outside the route's, in the order in which it was added.
handle_test :
    (handle no_methods show get_stub root routes empty).0 ≡ ok (shim_success (codes "abcred"))
unfolding computes
handle_test = refl

abbrev request : Context Memory ℕ
request = new_context empty

path-request : path no_methods get_stub request ≡ codes "carGet"
unfolding computes
path-request = refl

handle_context-add_handler_example :
    handle_context no_methods show get_stub root
      (add_handler root query (codes "carGet") car_get (mark (codes "c") ∷ []) new_registry)
      request
    ≡ run_nested no_methods show get_stub root query car_get (mark (codes "c") ∷ []) request
handle_context-add_handler_example =
    handle_context-add_handler no_methods show get_stub root root query (codes "carGet") car_get
      (mark (codes "c") ∷ []) new_registry request path-request (unfold find in refl)
      (unfold find in refl)

other_path : codes "Set" ≢ path no_methods get_stub request
unfolding computes
other_path e = grind arith
