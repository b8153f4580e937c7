-- ===== src/Cars/Laws.antt =====
-- examples/cars: only the owner registers a car, and a car once.
use cckit.Base.{
  ◌≡◌, refl, ap, sym, ◌∙◌, subst, Bool, true, false, some, List, [], ◌∷◌, ◌++◌, codes,
  if◌then◌else◌,
}
use cckit.Cars.{
  Car, CarPayload, CarTypes, key, car_entity, car_registered_event, registered, invoke_car_register,
  car_register,
}
use cckit.Lang.Error.{base, owner_only}
use cckit.Lang.Exec.{continue-eq-ok}
use cckit.Lang.Result.{Result, ok, err, ok-injective}
use cckit.Lang.Value.{Value, str, obj, Methods, state_key}
use cckit.Owner.{Entry, Identity, Identities, get_owner, is_same_as}
use cckit.Owner.Laws.{only-owner}
use cckit.State.Event.{EventImpl, set}
use cckit.State.Impl.{Impl, get, insert, put, arg_key_value, exists}
use cckit.State.Impl.Laws.{Decodes, insert_iff, put-state_key, get-put}
use cckit.State.Key.{normalize_key}
use cckit.State.Stub.{ReadsWrites}

passed :
    {S A : Type 0} (b : Bool) (run : Result A × S) (a : A) (s s' : S)
    → (if b then run else (err (base owner_only), s)) ≡ (ok a, s')
    → (b ≡ true) × (run ≡ (ok a, s'))
passed true run a s s' h = (refl, h)
passed false run a s s' h = absurd (let e = ap (λ x. x.0) h in cc)

module _ {S U T : Type 0} (m : Methods U) (types : CarTypes S U T) (i : Impl S U)
    (e : EventImpl S U) (ids : Identities S U)
    (keyed : (c : Car T) → m.keyer (types.car_value c) ≡ some (key c)) where
  normalize_car : (c : Car T) → normalize_key i.stub m (obj (types.car_value c)) ≡ key c
  unfolding normalize_key
  normalize_car c = rw (keyed c) refl

  arg_car :
      (c : Car T)
      → arg_key_value m i (obj (types.car_value c)) []
        ≡ ok (car_entity ∷ c.id ∷ [], obj (types.car_value c))
  unfolding arg_key_value
  arg_car c = rw (normalize_car c) refl

  -- What a registration that succeeds has written.
  invoke_car_register-eq-ok :
      (p : CarPayload) (c : Car T) (s s' : S)
      → invoke_car_register m types i e p s ≡ (ok c, s')
      → (u : S) × (c ≡ registered m types i e p (types.time s))
        × (exists m i (obj (types.car_value c)) u ≡ ok false)
        × (put m i (state_key (car_entity ∷ c.id ∷ [])) (obj (types.car_value c) ∷ []) u
            ≡ (ok tt, s'))
  unfolding invoke_car_register
  invoke_car_register-eq-ok p c s s' h =
      let made = registered m types i e p (types.time s) in
      let (_, t, _, h1) =
        continue-eq-ok
          (set m e (str (car_registered_event ++ codes "First")) (obj (types.car_value made) ∷ [])
            s)
          _ c s' h in
      let (_, u, _, h2) =
        continue-eq-ok (set m e (str car_registered_event) (obj (types.car_value made) ∷ []) t) _ c
          s' h1 in
      let (_, v, w, h3) = continue-eq-ok (insert m i (obj (types.car_value made)) [] u) _ c s' h2 in
      let same : made ≡ c = ok-injective (ap (λ p. p.0) h3) in
      let w' = w ∙ ap (λ (p : Result (Car T) × S). (ok tt, p.1)) h3 in
      let (free, put_) = (insert_iff m i (obj (types.car_value made)) [] u s').0 w' in
      (
        u,
        sym same,
        subst (λ z. exists m i (obj (types.car_value z)) u ≡ ok false) same free,
        subst
            (λ z.
              put m i (state_key (car_entity ∷ z.id ∷ [])) (obj (types.car_value z) ∷ []) u
              ≡ (ok tt, s'))
            same
            (ap (λ f. f u)
                (sym (
                  put-state_key m i (obj (types.car_value made)) [] (car_entity ∷ made.id ∷ [])
                    (obj (types.car_value made)) (arg_car made)))
              ∙ put_),
      )

  -- A registration of a car that succeeds was invoked by the owner of the chaincode, by MSP id and
  -- subject; Get and Exists then find the car of the payload and the time of the transaction at the
  -- id of the payload, where the owner is set and the invoker is read, given that cars have their
  -- key, a state that reads its writes back and that Get decodes what Put encodes of a car.
  pub car_register-only :
      (p : CarPayload) (c : Car T) (config : List (Value U)) (owner : Entry) (invoker : Identity)
      (s s' : S)
      → ReadsWrites i.get_state i.put_state
      → ((d : Car T) → Decodes i (obj (types.car_value d)) config)
      → get_owner m ids i s ≡ ok owner
      → ids.from_stub s ≡ ok invoker
      → car_register m types i e ids p s ≡ (ok c, s')
      → (is_same_as m ids i owner invoker ≡ true)
        × (c ≡ registered m types i e p (types.time s))
        × (get m i (state_key (car_entity ∷ p.id ∷ [])) config s' ≡ ok (obj (types.car_value c)))
        × (exists m i (state_key (car_entity ∷ p.id ∷ [])) s' ≡ ok true)
  unfolding car_register
  car_register-only p c config owner invoker s s' rws decodes own inv h =
      let next = invoke_car_register m types i e p in
      let run = sym (only-owner m ids i next owner invoker s own inv) ∙ h in
      let (is, h1) = passed (is_same_as m ids i owner invoker) (next s) c s s' run in
      let (u, made, free, w) = invoke_car_register-eq-ok p c s s' h1 in
      let (got, there) =
        get-put m i rws (state_key (car_entity ∷ c.id ∷ [])) (obj (types.car_value c)) config u s'
          (decodes c) w in
      let id = ap (λ (d : Car T). d.id) made in
      (
        is,
        made,
        ap (λ k. get m i (state_key (car_entity ∷ k ∷ [])) config s') (sym id) ∙ got,
        ap (λ k. exists m i (state_key (car_entity ∷ k ∷ [])) s') (sym id) ∙ there,
      )
