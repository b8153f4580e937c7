-- ===== src/Router/Params/Laws.antt =====
-- router/param: the parameters of a route are read from the arguments in their order.
use cckit.Base.{
  ◌≡◌, ◌≢◌, ℕ, zero, suc, ◌+◌, ◌<◌, refl, ap, sym, ◌∙◌, subst, false, some, List, [], ◌∷◌, map,
  Text, Bytes, find-store, text_eq, text_eq_iff, text_eq_refl, length, drop, arith, All, Bool-cases,
  inl, inr,
}
use cckit.Convert.{from_bytes}
use cckit.Lang.Int64.{add-pos}
use cckit.Lang.Result.{ok}
use cckit.Lang.Value.{Value, nil, int, pos, Methods}
use cckit.Router.Context.{Context, param, set_param, get_args}
use cckit.Router.Group.{HandlerFunc, MiddlewareFunc, wrap_all}
use cckit.Router.Group.Laws.{nest, wrap_all-nest}
use cckit.Router.Params.{param_of, value_from_context, arg_at, next_pos, last_pos_key}
use cckit.State.Stub.{Stub}

arg_at-drop :
    (n : ℕ) (args rest : List Bytes) (a : Bytes)
    → drop n args ≡ a ∷ rest
    → (arg_at n args ≡ some a) × (drop (suc n) args ≡ rest)
unfolding arg_at
arg_at-drop zero [] rest a h = cc
arg_at-drop zero (b ∷ args) rest a h = (cc, cc)
arg_at-drop (suc n) [] rest a h = cc
arg_at-drop (suc n) (b ∷ args) rest a h = arg_at-drop n args rest a h

text_eq-ne : (a b : Text) → a ≢ b → text_eq a b ≡ false
text_eq-ne a b ne = elim (Bool-cases (text_eq a b)) [
  | inl e ↦ absurd (ne ((text_eq_iff a b).0 e))
  | inr e ↦ e
]

module _ {U : Type 0} where
  abbrev pub AreOther : Text → List (Text × Value U) → Type 0
  AreOther n ps = All (λ (p : Text × Value U). p.0 ≢ n) ps

  -- No two parameters of a route have one name.
  abbrev pub AreDistinct : List (Text × Value U) → Type 0
  AreDistinct [] = Unit
  AreDistinct ((n, t) ∷ ps) = AreOther n ps × AreDistinct ps

module _ {S U : Type 0} where
  param-set_param :
      (n : Text) (v : Value U) (c : Context S U) → param (n ∷ []) (set_param n v c) ≡ v
  unfolding param set_param
  param-set_param n v c = rw (find-store n n v c.params, text_eq_refl n) refl

  param-set_param_ne :
      (n j : Text) (v : Value U) (c : Context S U)
      → n ≢ j
      → param (j ∷ []) (set_param n v c) ≡ param (j ∷ []) c
  unfolding param set_param
  param-set_param_ne n j v c ne = rw (find-store n j v c.params, text_eq-ne n j ne) refl

  -- The context after the parameters from a position on.
  bound : ℕ → List (Text × Value U) → List (Value U) → Context S U → Context S U
  bound k ((n, t) ∷ ps) (v ∷ vs) c =
      bound (suc k) ps vs (set_param n v (set_param last_pos_key (int (pos k)) c))
  bound k _ _ c = c

  -- The parameters of the context are these values.
  abbrev pub AreSet : List (Text × Value U) → List (Value U) → Context S U → Type 0
  AreSet ((n, t) ∷ ps) (v ∷ vs) c = (param (n ∷ []) c ≡ v) × AreSet ps vs c
  AreSet _ _ c = Unit

  param-bound :
      (k : ℕ) (j : Text) (ps : List (Text × Value U)) (vs : List (Value U)) (c : Context S U)
      → last_pos_key ≢ j
      → AreOther j ps
      → param (j ∷ []) (bound k ps vs c) ≡ param (j ∷ []) c
  unfolding bound
  param-bound k j [] vs c nl a = refl
  param-bound k j (p ∷ ps) [] c nl a = refl
  param-bound k j ((n, t) ∷ ps) (v ∷ vs) c nl (h, a) =
      param-bound (suc k) j ps vs _ nl a
      ∙ param-set_param_ne n j v _ h
      ∙ param-set_param_ne last_pos_key j _ c nl

  bound-AreSet :
      (k : ℕ) (ps : List (Text × Value U)) (vs : List (Value U)) (c : Context S U)
      → AreOther last_pos_key ps
      → AreDistinct ps
      → AreSet ps vs (bound k ps vs c)
  unfolding bound
  bound-AreSet k [] vs c o d = tt
  bound-AreSet k (p ∷ ps) [] c o d = tt
  bound-AreSet k ((n, t) ∷ ps) (v ∷ vs) c (h, o) (a, d) = (
    param-bound (suc k) n ps vs _ (λ e. h (sym e)) a ∙ param-set_param n v _,
    bound-AreSet (suc k) ps vs _ o d,
  )

module _ {S U : Type 0} (m : Methods U) (stub : Stub S) where
  -- The arguments behind the method, as they are read for the parameters; there may be more of them.
  abbrev pub AreRead : List (Text × Value U) → List Bytes → List (Value U) → Type 0
  AreRead [] args [] = Unit
  AreRead ((n, t) ∷ ps) (a ∷ args) (v ∷ vs) = (from_bytes m (some a) t ≡ ok v) × AreRead ps args vs
  AreRead _ _ _ = ⊥

  abbrev pub params_of : List (Text × Value U) → List (MiddlewareFunc S U)
  params_of ps = map (λ p. param_of m stub p.0 p.1 []) ps

  next_pos-bound :
      (k : ℕ) (n : Text) (v : Value U) (c : Context S U)
      → n ≢ last_pos_key
      → k + 1 < 9223372036854775808
      → next_pos
          (param (last_pos_key ∷ []) (set_param n v (set_param last_pos_key (int (pos k)) c)))
        ≡ pos (suc k)
  next_pos-bound k n v c ne h =
      rw
        (
          param-set_param_ne n last_pos_key v (set_param last_pos_key (int (pos k)) c) ne,
          param-set_param last_pos_key (int (pos k)) c,
        )
        (add-pos k 1 h ∙ ap pos (omega arith))

  get_args-set_param :
      (n j : Text) (v w : Value U) (c : Context S U)
      → get_args m stub (set_param n v (set_param j w c)) ≡ get_args m stub c
  unfolding set_param get_args
  get_args-set_param n j v w c = refl

  param_of-runs :
      (k : ℕ) (fn a : Bytes) (args rest : List Bytes) (n : Text) (t v : Value U)
      (next : HandlerFunc S U) (i : ℕ) (c : Context S U)
      → get_args m stub c ≡ fn ∷ args
      → next_pos (param (last_pos_key ∷ []) c) ≡ pos k
      → drop k args ≡ a ∷ rest
      → from_bytes m (some a) t ≡ ok v
      → param_of m stub n t [] next i c
        ≡ next (set_param n v (set_param last_pos_key (int (pos k)) c))
  unfolding param_of value_from_context set_param get_args
  param_of-runs k fn a args rest n t v next i c ga np dr fb =
      rw (np, ga, (arg_at-drop k args rest a dr).0, fb) refl

  AreRead-cons :
      (n : Text) (t : Value U) (ps : List (Text × Value U)) (args : List Bytes)
      (vs : List (Value U))
      → AreRead ((n, t) ∷ ps) args vs
      → (a : Bytes) × (rest : List Bytes) × (v : Value U) × (ws : List (Value U)) × (args
          ≡ a ∷ rest)
        × (vs ≡ v ∷ ws)
        × (from_bytes m (some a) t ≡ ok v)
        × AreRead ps rest ws
  AreRead-cons n t ps [] vs r = absurd r
  AreRead-cons n t ps (a ∷ rest) [] r = absurd r
  AreRead-cons n t ps (a ∷ rest) (v ∷ ws) (h, r) = (a, rest, v, ws, refl, refl, h, r)

  nest-params_of :
      (ps : List (Text × Value U)) (vs : List (Value U)) (k : ℕ) (fn : Bytes) (args : List Bytes)
      (next : HandlerFunc S U) (i : ℕ) (c : Context S U)
      → AreOther last_pos_key ps
      → get_args m stub c ≡ fn ∷ args
      → next_pos (param (last_pos_key ∷ []) c) ≡ pos k
      → AreRead ps (drop k args) vs
      → k + length ps < 9223372036854775808
      → (nest i (params_of ps) next c ≡ next (bound k ps vs c))
        × (get_args m stub (bound k ps vs c) ≡ fn ∷ args)
  unfolding nest bound
  nest-params_of [] [] k fn args next i c o ga np r h = (refl, ga)
  nest-params_of [] (v ∷ vs) k fn args next i c o ga np r h = absurd r
  nest-params_of ((n, t) ∷ ps) vs k fn args next i c (ne, o) ga np r h =
      let (a, rest, v, ws, dr, ve, fb, r') = AreRead-cons n t ps (drop k args) vs r in
      let c' = set_param n v (set_param last_pos_key (int (pos k)) c) in
      let first =
        param_of-runs k fn a args rest n t v (nest (i + 1) (params_of ps) next) i c ga np dr fb in
      let (run, left) =
        nest-params_of ps ws (suc k) fn args next (i + 1) c' o
          (get_args-set_param n last_pos_key v (int (pos k)) c ∙ ga)
          (next_pos-bound k n v c ne (omega arith))
          (subst (λ l. AreRead ps l ws) (sym (arg_at-drop k args rest a dr).1) r') (omega arith) in
      (
        first ∙ run ∙ ap (λ l. next (bound k ((n, t) ∷ ps) l c)) (sym ve),
        ap (λ l. get_args m stub (bound k ((n, t) ∷ ps) l c)) ve ∙ left,
      )

  -- A route whose parameters have names of their own and no positions runs its handler with each
  -- parameter set to the argument at its place behind the method, converted to its type, if all of
  -- these can be converted, in a request for which no parameter was read before; further arguments
  -- are left alone.
  pub wrap_all-params_of :
      (ps : List (Text × Value U)) (vs : List (Value U)) (fn : Bytes) (args : List Bytes)
      (next : HandlerFunc S U) (c : Context S U)
      → AreOther last_pos_key ps
      → AreDistinct ps
      → length ps < 9223372036854775808
      → get_args m stub c ≡ fn ∷ args
      → param (last_pos_key ∷ []) c ≡ nil
      → AreRead ps args vs
      → (c' : Context S U) × (wrap_all (params_of ps) next c ≡ next c')
        × AreSet ps vs c'
        × (get_args m stub c' ≡ fn ∷ args)
  wrap_all-params_of ps vs fn args next c o d h ga np r =
      let (run, left) =
        nest-params_of ps vs 0 fn args next 0 c o ga (ap next_pos np) r (omega arith) in
      (
        bound 0 ps vs c,
        ap (λ f. f c) (wrap_all-nest (params_of ps) next) ∙ run,
        bound-AreSet 0 ps vs c o d,
        left,
      )
