-- ===== src/Erc20/Balances.antt =====
-- examples/erc20/erc20_ops.go: what setBalance and setAllowance change of what getBalance and
-- getAllowance read.
use cckit.Base.{◌≡◌, ◌≢◌, inl, inr, refl, ap, sym, ◌∙◌, subst, List, [], ◌∷◌, Text}
use cckit.Lang.Exec.{continue-eq-ok}
use cckit.Lang.Result.{Result, ok, err, panic, Result-cases, >>=-eq-ok}
use cckit.Lang.Strconv.{IsInt}
use cckit.Lang.Value.{Value, strs, int, ℤ, pos, Methods}
use cckit.State.Event.{EventImpl, set, arg_name_value}
use cckit.State.Impl.{Impl, key_of, get, get_int, put}
use cckit.State.Impl.Laws.{Decodes, put-eq-ok, get-put, get-put_ne}
use cckit.State.Key.{Key, TransformedKey, key_to_string, normalize_key}
use cckit.State.Key.Laws.{IsPlainKey, key_to_string_injective}
use cckit.State.Stub.{CompositeKeys, ReadsWrites}
use cckit.State.Transformer.{key_as_is}

-- What the token asks of its state: what is put is read back, ints are decoded as they were encoded,
-- keys are not transformed, and an event changes nothing that is read.
pub record HoldsTokens {S U : Type 0} (i : Impl S U) (e : EventImpl S U) : Type 0 where
  pub reads_writes : ReadsWrites i.get_state i.put_state
  pub decodes : (z : ℤ) → IsInt z → Decodes i (int z) (int (pos 1) ∷ int (pos 0) ∷ [])
  pub composite : CompositeKeys i.stub
  pub plain : i.key_transformer ≡ key_as_is
  pub event :
      (name : Text) (b : List _) (s s' : S)
      → e.stub.set_event name b s ≡ (ok tt, s')
      → (k : Text) → i.get_state k s' ≡ i.get_state k s

abbrev string_of : Result TransformedKey → Result Text
string_of (ok t) = ok t.string
string_of (err e) = err e
string_of panic = panic

module _ {S U : Type 0} (m : Methods U) (i : Impl S U) (e : EventImpl S U)
    (holds : HoldsTokens i e) where
  key_of-strs :
      (k : Key) (t : TransformedKey)
      → key_of m i (strs k) ≡ ok t
      → key_to_string i.stub k ≡ ok t.string
  unfolding key_of normalize_key
  key_of-strs k t h =
      let (s, f, r) = >>=-eq-ok (key_to_string i.stub k) _ (rw holds.plain at h) in
      f ∙ ap (λ (u : Result TransformedKey). string_of u) r

  -- An int that is put is read back.
  pub get_int-put :
      (k : Key) (z : ℤ) (s s' : S)
      → IsInt z
      → put m i (strs k) (int z ∷ []) s ≡ (ok tt, s')
      → get_int m i (strs k) (pos 0) s' ≡ ok z
  unfolding get_int
  get_int-put k z s s' h p =
      rw
        (get-put m i holds.reads_writes (strs k) (int z) (int (pos 1) ∷ int (pos 0) ∷ []) s s'
          (holds.decodes z h) p).0
        refl

  -- It changes nothing that is read at another key.
  pub get_int-put_ne :
      (j k : Key) (v : Value U) (s s' : S)
      → IsPlainKey j
      → IsPlainKey k
      → j ≢ k
      → put m i (strs j) (v ∷ []) s ≡ (ok tt, s')
      → get_int m i (strs k) (pos 0) s' ≡ get_int m i (strs k) (pos 0) s
  unfolding get_int
  get_int-put_ne j k v s s' pj pk ne p =
      let (t, bb, kt, pt, w) = put-eq-ok m i (strs j) v s s' p in
      elim (Result-cases (key_of m i (strs k))) [
        | inl (u, e) ↦
            let apart : t.string ≢ u.string = λ same. ne (
              key_to_string_injective i.stub holds.composite j k u.string pj pk
                (key_of-strs j t kt ∙ ap ok same) (key_of-strs k u e)) in
            rw (get-put_ne m i holds.reads_writes (strs j) (strs k) v _ s s' t u kt e apart p).0
              refl
        | inr (inl (x, e)) ↦ unfold get in rw e refl
        | inr (inr e) ↦ unfold get in rw e refl
      ]

  -- The event changes nothing that is read.
  pub get_int-event :
      (entry v k : Value U) (s s' : S)
      → set m e entry (v ∷ []) s ≡ (ok tt, s')
      → get_int m i k (pos 0) s' ≡ get_int m i k (pos 0) s
  unfolding set get_int get
  get_int-event entry v k s s' h =
      let ((name, value), t1, e1, h1) =
        continue-eq-ok (arg_name_value m entry (v ∷ []), s) _ tt s' h in
      let (str, t2, e2, h2) = continue-eq-ok (e.name_transformer name, t1) _ tt s' h1 in
      let (bb, t3, e3, h3) = continue-eq-ok (e.set_transformer value [], t2) _ tt s' h2 in
      let same : t3 ≡ s =
        ap (λ x. x.1) (sym e3) ∙ ap (λ x. x.1) (sym e2) ∙ ap (λ x. x.1) (sym e1) in
      let frame =
        holds.event str bb s s' (subst (λ x. e.stub.set_event str bb x ≡ (ok tt, s')) same h3) in
      elim (Result-cases (key_of m i k)) [
        | inl (u, f) ↦ rw (f, frame u.string) refl
        | inr (inl (x, f)) ↦ rw f refl
        | inr (inr f) ↦ rw f refl
      ]
