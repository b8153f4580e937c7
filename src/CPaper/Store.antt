-- ===== src/CPaper/Store.antt =====
-- examples/cpaper: what the handlers read of the state after a paper was written.
use cckit.Base.{
  ◌≡◌, ◌≢◌, ◌⊎◌, inl, inr, refl, ap, sym, ◌∙◌, false, true, Bool-cases, [], ◌∷◌, Text, text_eq,
  text_eq_iff, is_empty, arith,
}
use cckit.CPaper.{CommercialPaper, Library, papers, paper_of, current, commercial_paper_type_name}
use cckit.Lang.Error.{Error}
use cckit.Lang.Result.{ok, err, panic, Result-cases, >>=-eq-ok, ok-injective, on_err, on_err-eq-ok}
use cckit.Lang.Value.{Value, obj, state_key}
use cckit.State.Impl.{Impl, get, put, exists, key_of, arg_key_value}
use cckit.State.Impl.Laws.{Decodes, key_of-state_key, put-state_key, get-put, get-put_ne, put-eq-ok}
use cckit.State.Key.{Key, TransformedKey, key_to_string, normalize_key}
use cckit.State.Key.Laws.{key_to_string_injective}
use cckit.State.Stub.{ReadsWrites, CompositeKeys}

abbrev pub paper_key : Text → Text → Key
paper_key issuer number = commercial_paper_type_name ∷ issuer ∷ number ∷ []

-- A state that keeps papers: writes are read back, keys are not transformed, and what Put encodes
-- of a paper decodes to it.
pub record KeepsPapers {T S : Type 0} (lib : Library T) (i : Impl S (CommercialPaper T))
    : Type 0 where
  pub reads_writes : ReadsWrites i.get_state i.put_state
  pub composite : CompositeKeys i.stub
  pub as_is : (k : Key) → i.key_transformer k ≡ ok k
  pub decodes : (c : CommercialPaper T) → Decodes i (obj c) (obj (paper_of lib [] []) ∷ [])

-- Two papers are the same by issuer and number, or have different keys.
pub same-or-other : (a b c d : Text) → ((a ≡ c) × (b ≡ d)) ⊎ (paper_key a b ≢ paper_key c d)
same-or-other a b c d = elim (Bool-cases (text_eq a c)) [
  | inl e ↦ elim (Bool-cases (text_eq b d)) [
    | inl f ↦ inl ((text_eq_iff a c).0 e, (text_eq_iff b d).0 f)
    | inr f ↦ inr (λ h. let x : b ≡ d = cc in let y = (text_eq_iff b d).1 x in cc)
  ]
  | inr e ↦ inr (λ h. let x : a ≡ c = cc in let y = (text_eq_iff a c).1 x in cc)
]

module _ {T S : Type 0} (lib : Library T) (i : Impl S (CommercialPaper T)) where
  normalize_paper :
      (c : CommercialPaper T)
      → normalize_key i.stub (papers lib) (obj c) ≡ ok (paper_key c.issuer c.paper_number)
  unfolding normalize_key papers
  normalize_paper c = refl

  put_paper :
      (c : CommercialPaper T) (s : S)
      → put (papers lib) i (obj c) [] s
        ≡ put (papers lib) i (state_key (paper_key c.issuer c.paper_number)) (obj c ∷ []) s
  unfolding arg_key_value
  put_paper c s =
      ap (λ f. f s)
        (put-state_key (papers lib) i (obj c) [] (paper_key c.issuer c.paper_number) (obj c) named)
    where
      named :
          arg_key_value (papers lib) i (obj c) [] ≡ ok (paper_key c.issuer c.paper_number, obj c)
      named = rw (normalize_paper c)

  -- What current reads.
  current_key :
      (issuer number : Text) (s : S)
      → get (papers lib) i (obj (paper_of lib issuer number)) (obj (paper_of lib [] []) ∷ []) s
        ≡ get (papers lib) i (state_key (paper_key issuer number)) (obj (paper_of lib [] []) ∷ []) s
  unfolding get
  current_key issuer number s = rw (
      key_of-state_key (papers lib) i (obj (paper_of lib issuer number)) (paper_key issuer number)
        (normalize_paper (paper_of lib issuer number)))

  pub current-get :
      (issuer number : Text) (c : CommercialPaper T) (s : S)
      → get (papers lib) i (state_key (paper_key issuer number)) (obj (paper_of lib [] []) ∷ []) s
        ≡ ok (obj c)
      → current lib i issuer number s ≡ ok c
  unfolding current
  current-get issuer number c s h = rw (current_key issuer number s) (rw h)

  current-same :
      (issuer number : Text) (s s' : S)
      → get (papers lib) i (state_key (paper_key issuer number)) (obj (paper_of lib [] []) ∷ []) s'
        ≡ get (papers lib) i (state_key (paper_key issuer number)) (obj (paper_of lib [] []) ∷ []) s
      → current lib i issuer number s' ≡ current lib i issuer number s
  unfolding current
  current-same issuer number s s' h =
      rw (current_key issuer number s, current_key issuer number s') (rw h)

  exists_key :
      (c : CommercialPaper T) (s : S)
      → exists (papers lib) i (obj c) s
        ≡ exists (papers lib) i (state_key (paper_key c.issuer c.paper_number)) s
  unfolding exists
  exists_key c s = rw (key_of-state_key (papers lib) i (obj c) _ (normalize_paper c))

  get-free :
      (issuer number : Text) (v : Value (CommercialPaper T)) (s : S)
      → exists (papers lib) i (state_key (paper_key issuer number)) s ≡ ok false
      → get (papers lib) i (state_key (paper_key issuer number)) (obj (paper_of lib [] []) ∷ []) s
        ≢ ok v
  unfolding get exists
  get-free issuer number v s h g =
      let (t, kt, h1) =
        >>=-eq-ok (key_of (papers lib) i (state_key (paper_key issuer number))) _ h in
      let (bb, r, h2) = >>=-eq-ok (i.get_state t.string s) _ h1 in
      let full : is_empty bb ≡ true = ground arith in
      let g' = rw full at (rw r at (rw kt at g)) in cc

  -- Where no paper is held, none is read.
  pub current-free :
      (issuer number : Text) (c d : CommercialPaper T) (s : S)
      → paper_key c.issuer c.paper_number ≡ paper_key issuer number
      → exists (papers lib) i (obj c) s ≡ ok false
      → current lib i issuer number s ≢ ok d
  unfolding current
  current-free issuer number c d s same h g =
      let (v, e, r) = >>=-eq-ok (on_err _ (get (papers lib) i _ _ s)) _ g in
      get-free issuer number v s
        (ap (λ k. exists (papers lib) i (state_key k) s) (sym same) ∙ sym (exists_key c s) ∙ h)
        (sym (current_key issuer number s) ∙ on_err-eq-ok _ _ e)

  module _ (keeps : KeepsPapers lib i) where
    -- The paper that was written is read.
    pub current-put :
        (c : CommercialPaper T) (s s' : S)
        → put (papers lib) i (obj c) [] s ≡ (ok tt, s')
        → current lib i c.issuer c.paper_number s' ≡ ok c
    current-put c s s' h =
        let k = paper_key c.issuer c.paper_number in
        current-get c.issuer c.paper_number c s'
          (get-put (papers lib) i keeps.reads_writes (state_key k) (obj c) _ s s' (keeps.decodes c)
            (sym (put_paper c s) ∙ h)).0

    key_of_plain :
        (k : Key) (t : TransformedKey)
        → key_of (papers lib) i (state_key k) ≡ ok t
        → key_to_string i.stub k ≡ ok t.string
    unfolding key_of normalize_key
    key_of_plain k t h =
        let (x, e, r) = >>=-eq-ok (key_to_string i.stub k) _ (rw (keeps.as_is k) at h) in
        e ∙ ap ok (ap (λ (u : TransformedKey). u.string) (ok-injective r))

    get-fault :
        (j : Key) (s s' : S)
        → ((x : Error) × (key_of (papers lib) i (state_key j) ≡ err x))
          ⊎ (key_of (papers lib) i (state_key j) ≡ panic)
        → get (papers lib) i (state_key j) (obj (paper_of lib [] []) ∷ []) s'
          ≡ get (papers lib) i (state_key j) (obj (paper_of lib [] []) ∷ []) s
    unfolding get
    get-fault j s s' (inl (x, e)) = rw e
    get-fault j s s' (inr e) = rw e

    -- A paper with another key is read as before.
    pub current-put_ne :
        (c : CommercialPaper T) (issuer number : Text) (s s' : S)
        → paper_key c.issuer c.paper_number ≢ paper_key issuer number
        → put (papers lib) i (obj c) [] s ≡ (ok tt, s')
        → current lib i issuer number s' ≡ current lib i issuer number s
    current-put_ne c issuer number s s' ne h =
        let k = paper_key c.issuer c.paper_number in
        let j = paper_key issuer number in
        let (t, bb, kt, pt, w) =
          put-eq-ok (papers lib) i (state_key k) (obj c) s s' (sym (put_paper c s) ∙ h) in
        current-same issuer number s s' (elim (Result-cases (key_of (papers lib) i (state_key j))) [
          | inl (u, ku) ↦
              (get-put_ne (papers lib) i keeps.reads_writes (state_key k) (state_key j) (obj c) _ s
                s' t u kt ku
                (λ e. ne (
                  key_to_string_injective i.stub keeps.composite k j t.string tt tt
                    (key_of_plain k t kt) (key_of_plain j u ku ∙ ap ok (sym e))))
                (sym (put_paper c s) ∙ h)).0
          | inr fault ↦ get-fault j s s' fault
        ])
