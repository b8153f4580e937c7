-- ===== src/State/Impl/Laws.antt =====
-- What Put, Get, Insert and Exists of state/state.go promise together.
use cckit.Base.{
  ◌≡◌, ◌≢◌, ◌↔◌, ◌⊎◌, inl, inr, refl, sym, ◌∙◌, ap, Bool, true, false, List, [], ◌∷◌, arith, Text,
  Bytes, is_empty,
}
use cckit.Lang.Error.{Error, caused, key_already_exists}
use cckit.Lang.Result.{Result, ok, err, panic, >>=-eq-ok, Result-cases}
use cckit.Lang.Value.{Value, state_key, Methods}
use cckit.State.Key.{Key, key_string, TransformedKey, normalize_key}
use cckit.State.Stub.{ReadsWrites}
use cckit.State.Impl.{Impl, key_of, get, exists, arg_key_value, refuse, put_args, put, insert}

ok_pair :
    {A B : Type 0} {a c : A} {b d : B}
    → ◌≡◌ {A = Result (A × B)} (ok (a, b)) (ok (c, d))
    → (a ≡ c) × (b ≡ d)
ok_pair h = ground arith

-- Get with this config decodes what Put encodes of `v`, which is not empty.
pub record Decodes {S U : Type 0} (i : Impl S U) (v : Value U) (config : List (Value U))
    : Type 0 where
  pub decodes :
      (bb : Bytes)
      → i.put_transformer v [] ≡ ok bb
      → (is_empty bb ≡ false) × (i.get_transformer bb config ≡ ok v)

module _ {S U : Type 0} (m : Methods U) (i : Impl S U) where
  -- Only the key of an entry counts.
  pub key_of-state_key :
      (entry : Value U) (k : Key)
      → normalize_key i.stub m entry ≡ ok k
      → key_of m i entry ≡ key_of m i (state_key k)
  unfolding key_of normalize_key
  key_of-state_key entry k h = rw h

  normalize-key_of :
      (entry : Value U) (t : TransformedKey)
      → key_of m i entry ≡ ok t
      → normalize_key i.stub m entry ≡ ok t.origin
  unfolding key_of
  normalize-key_of entry t h = ground arith

  pub key_of-exists :
      (entry : Value U) (s : S) (b : Bool)
      → exists m i entry s ≡ ok b
      → (t : TransformedKey) × (key_of m i entry ≡ ok t)
  unfolding exists
  key_of-exists entry s b h = let (t, e, r) = >>=-eq-ok (key_of m i entry) _ h in (t, e)

  arg_key_value-state_key :
      (k : Key) (v : Value U) → arg_key_value m i (state_key k) (v ∷ []) ≡ ok (k, v)
  unfolding arg_key_value normalize_key
  arg_key_value-state_key k v = refl

  arg_key_value-one :
      (entry v : Value U) (k : Key) (w : Value U)
      → arg_key_value m i entry (v ∷ []) ≡ ok (k, w)
      → (normalize_key i.stub m entry ≡ ok k) × (w ≡ v)
  unfolding arg_key_value
  arg_key_value-one entry v k w h = ground arith

  pub put-state_key :
      (entry : Value U) (values : List (Value U)) (k : Key) (v : Value U)
      → arg_key_value m i entry values ≡ ok (k, v)
      → put m i entry values ≡ put m i (state_key k) (v ∷ [])
  unfolding put put_args
  put-state_key entry values k v h = rw (h, arg_key_value-state_key k v)

  refuse-ne-ok : (e : Key → Error) (r : Result TransformedKey) → refuse m i e r ≢ ok tt
  refuse-ne-ok e (ok k) h = cc
  refuse-ne-ok e (err x) h = cc
  refuse-ne-ok e panic h = cc

  insert-new :
      (entry : Value U) (values : List (Value U)) (s : S)
      → exists m i entry s ≡ ok false
      → insert m i entry values s ≡ put m i entry values s
  unfolding insert
  insert-new entry values s new = elim (Result-cases (arg_key_value m i entry values)) [
    | inl ((k, v), e) ↦ rw (new, e) (ap (λ f. f s) (sym (put-state_key entry values k v e)))
    | inr (inl (x, e)) ↦ rw (new, e) (unfold put put_args in rw e)
    | inr (inr e) ↦ rw (new, e) (unfold put put_args in rw e)
  ]

  insert-refuse :
      (entry : Value U) (values : List (Value U)) (s : S)
      → exists m i entry s ≡ ok true
      → insert m i entry values s
        ≡ (refuse m i (λ k. caused key_already_exists (key_string k)) (key_of m i entry), s)
  unfolding insert
  insert-refuse entry values s h = rw h

  insert-fault :
      (entry : Value U) (values : List (Value U)) (s s' : S)
      → ((x : Error) × (exists m i entry s ≡ err x)) ⊎ (exists m i entry s ≡ panic)
      → insert m i entry values s ≢ (ok tt, s')
  unfolding insert
  insert-fault entry values s s' (inl (x, e)) h = cc (rw e at h)
  insert-fault entry values s s' (inr e) h = cc (rw e at h)

  -- Insert succeeds exactly where the key is not taken and Put succeeds, and it then does what Put
  -- does.
  pub insert_iff :
      (entry : Value U) (values : List (Value U)) (s s' : S)
      → (insert m i entry values s ≡ (ok tt, s'))
        ↔ ((exists m i entry s ≡ ok false) × (put m i entry values s ≡ (ok tt, s')))
  insert_iff entry values s s' = (there, back)
    where
      there :
          insert m i entry values s ≡ (ok tt, s')
          → (exists m i entry s ≡ ok false) × (put m i entry values s ≡ (ok tt, s'))
      there h = elim (Result-cases (exists m i entry s)) [
        | inl (true, e) ↦ absurd (
            refuse-ne-ok _ (key_of m i entry)
              (ap (λ p. p.0) (sym (insert-refuse entry values s e) ∙ h)))
        | inl (false, e) ↦ (e, sym (insert-new entry values s e) ∙ h)
        | inr (inl (x, e)) ↦ absurd (insert-fault entry values s s' (inl (x, e)) h)
        | inr (inr e) ↦ absurd (insert-fault entry values s s' (inr e) h)
      ]

      back :
          (exists m i entry s ≡ ok false) × (put m i entry values s ≡ (ok tt, s'))
          → insert m i entry values s ≡ (ok tt, s')
      back (new, p) = insert-new entry values s new ∙ p

  -- Where the key is taken, Insert returns ErrKeyAlreadyExists with that key and changes nothing.
  pub insert-taken :
      (entry : Value U) (values : List (Value U)) (s : S)
      → exists m i entry s ≡ ok true
      → (k : Key) × (normalize_key i.stub m entry ≡ ok k)
        × (insert m i entry values s ≡ (err (caused key_already_exists (key_string k)), s))
  insert-taken entry values s h =
      let (t, e) = key_of-exists entry s true h in
      (t.origin, normalize-key_of entry t e, insert-refuse entry values s h ∙ rw e)

  put_args-eq-ok :
      (entry v : Value U) (k : Text) (bb : Bytes)
      → put_args m i entry (v ∷ []) ≡ ok (k, bb)
      → (t : TransformedKey) × (key_of m i entry ≡ ok t)
        × (i.put_transformer v [] ≡ ok bb)
        × (t.string ≡ k)
  unfolding put_args
  put_args-eq-ok entry v k bb h =
      let ((j, w), e, h1) = >>=-eq-ok (arg_key_value m i entry (v ∷ [])) _ h in
      let (b, pt, h2) = >>=-eq-ok (i.put_transformer w []) _ h1 in
      let (t, kt, h3) = >>=-eq-ok (key_of m i (state_key j)) _ h2 in
      let (n, same) = arg_key_value-one entry v j w e in
      let (string, bytes) = ok_pair h3 in
      (
        t,
        key_of-state_key entry j n ∙ kt,
        ap (λ x. i.put_transformer x []) (sym same) ∙ pt ∙ ap ok bytes,
        string,
      )

  -- What a Put that succeeds has computed.
  pub put-eq-ok :
      (entry v : Value U) (s s' : S)
      → put m i entry (v ∷ []) s ≡ (ok tt, s')
      → (t : TransformedKey) × (bb : Bytes) × (key_of m i entry ≡ ok t)
        × (i.put_transformer v [] ≡ ok bb)
        × (i.put_state t.string bb s ≡ (ok tt, s'))
  unfolding put
  put-eq-ok entry v s s' h = elim (Result-cases (put_args m i entry (v ∷ []))) [
    | inl ((k, bb), e) ↦
        let (t, kt, pt, ks) = put_args-eq-ok entry v k bb e in (t, bb, kt, pt, rw ks (rw e at h))
    | inr (inl (x, e)) ↦ cc (rw e at h)
    | inr (inr e) ↦ cc (rw e at h)
  ]

  pub get-of-read :
      (entry v : Value U) (config : List (Value U)) (s : S) (t : TransformedKey) (bb : Bytes)
      → key_of m i entry ≡ ok t
      → i.get_state t.string s ≡ ok bb
      → is_empty bb ≡ false
      → i.get_transformer bb config ≡ ok v
      → get m i entry config s ≡ ok v
  unfolding get
  get-of-read entry v config s t bb kt r full back = rw (kt, r, full) back

  module _ (rws : ReadsWrites i.get_state i.put_state) where
    -- After a Put that succeeds, Get and Exists find the value, if Get decodes what Put encodes.
    pub get-put :
        (entry v : Value U) (config : List (Value U)) (s s' : S)
        → Decodes i v config
        → put m i entry (v ∷ []) s ≡ (ok tt, s')
        → (get m i entry config s' ≡ ok v) × (exists m i entry s' ≡ ok true)
    unfolding exists
    get-put entry v config s s' d h =
        let (t, bb, kt, pt, w) = put-eq-ok entry v s s' h in
        let (full, back) = d.decodes bb pt in
        let r = rws.get-put t.string bb s s' w in
        (get-of-read entry v config s' t bb kt r full back, rw (kt, r, full))

    -- A second Insert of a key fails, whatever its value, and changes nothing.
    pub insert-insert :
        (entry v w : Value U) (config : List (Value U)) (s s' : S)
        → Decodes i v config
        → insert m i entry (v ∷ []) s ≡ (ok tt, s')
        → (k : Key) × (normalize_key i.stub m entry ≡ ok k)
          × (insert m i entry (w ∷ []) s' ≡ (err (caused key_already_exists (key_string k)), s'))
    insert-insert entry v w config s s' d h =
        let p = ((insert_iff entry (v ∷ []) s s').0 h).1 in
        insert-taken entry (w ∷ []) s' (get-put entry v config s s' d p).1

    -- Put changes what is read at no key with another string.
    pub get-put_ne :
        (entry other v : Value U) (config : List (Value U)) (s s' : S) (t u : TransformedKey)
        → key_of m i entry ≡ ok t
        → key_of m i other ≡ ok u
        → t.string ≢ u.string
        → put m i entry (v ∷ []) s ≡ (ok tt, s')
        → (get m i other config s' ≡ get m i other config s)
          × (exists m i other s' ≡ exists m i other s)
    unfolding get exists
    get-put_ne entry other v config s s' t u kt ku ne h =
        let (t', bb, kt', pt, w) = put-eq-ok entry v s s' h in
        let ne' : t'.string ≢ u.string = λ e. ne (ground (arith, kt, kt')) in
        let r = rws.get-put_ne t'.string u.string bb s s' ne' w in (rw (ku, r), rw (ku, r))
