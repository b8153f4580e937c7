-- ===== src/Owner/Laws.antt =====
-- extensions/owner: the owner is set once, and only the owner passes.
use cckit.Base.{
  ◌≡◌, refl, sym, ap, ◌∙◌, Bool, true, false, ◌&&◌, some, [], ◌∷◌, text_eq, if◌then◌else◌,
}
use cckit.Lang.Error.{base, owner_only}
use cckit.Lang.Exec.{Exec, continue, lift}
use cckit.Lang.Result.{Result, ok, err, panic}
use cckit.Lang.Value.{obj, Methods}
use cckit.Owner.{
  Identity, Entry, create_entry, owner_state_key, Identities, is_setted, get_owner, insert_entry,
  set_from_creator, is_invoker, only, only_if, is_same_as,
}
use cckit.State.Impl.{Impl, get, insert}
use cckit.State.Impl.Laws.{Decodes, get-put, insert_iff}
use cckit.State.Stub.{ReadsWrites}

only_if-ok :
    {S A : Type 0} {U : Type 0} (m : Methods U) (ids : Identities S U) (i : Impl S U) (b : Bool)
    (next : Exec S A) (t : S)
    → only_if m ids i (ok b) next t ≡ (if b then next t else (err (base owner_only), t))
only_if-ok m ids i true next t = refl
only_if-ok m ids i false next t = refl

continue-ok :
    {S A : Type 0} (p : Result (Unit {0}) × S) (e f : A) (s' : S)
    → continue p (λ _. lift (ok e)) ≡ (ok f, s')
    → (p ≡ (ok tt, s')) × (e ≡ f)
continue-ok (ok tt, s) e f s' h = (ap (λ x. (ok tt, x.1)) h, cc)
continue-ok (err x, s) e f s' h = absurd (let k = ap (λ x. x.0) h in cc)
continue-ok (panic, s) e f s' h = absurd (let k = ap (λ x. x.0) h in cc)

module _ {S U : Type 0} (m : Methods U) (ids : Identities S U) (i : Impl S U) where
  insert_entry-ok :
      (e f : Entry) (s s' : S)
      → insert_entry m ids i e s ≡ (ok f, s')
      → (insert m i owner_state_key (obj (ids.entry_value e) ∷ []) s ≡ (ok tt, s')) × (e ≡ f)
  unfolding insert_entry
  insert_entry-ok e f s s' h =
      continue-ok (insert m i owner_state_key (obj (ids.entry_value e) ∷ []) s) e f s' h

  set_from_creator-free :
      (creator : Identity) (s : S)
      → is_setted m ids i s ≡ ok false
      → ids.from_stub s ≡ ok creator
      → set_from_creator m ids i s ≡ insert_entry m ids i (create_entry creator) s
  unfolding set_from_creator
  set_from_creator-free creator s free from = rw (free, from) refl

  pub only-owner :
      {A : Type 0} (next : Exec S A) (e : Entry) (invoker : Identity) (t : S)
      → get_owner m ids i t ≡ ok e
      → ids.from_stub t ≡ ok invoker
      → only m ids i next t
        ≡ (if is_same_as m ids i e invoker then next t else (err (base owner_only), t))
  unfolding only is_invoker
  only-owner next e invoker t o inv =
      rw (inv, o) (only_if-ok m ids i (is_same_as m ids i e invoker) next t)

  -- The owner that SetFromCreator sets is the creator, and from then on, while the record of the owner
  -- reads the same, Only runs its handler for an invoker with the MSP id and the subject of that
  -- creator and refuses every other with ErrOwnerOnly, if Get decodes what Put encodes of the entry.
  pub only-set_from_creator :
      {A : Type 0} (next : Exec S A) (creator invoker : Identity) (e : Entry) (s s' t : S)
      → ReadsWrites i.get_state i.put_state
      → Decodes i (obj (ids.entry_value (create_entry creator))) (obj ids.target ∷ [])
      → ids.as_entry (obj (ids.entry_value (create_entry creator))) ≡ some (create_entry creator)
      → is_setted m ids i s ≡ ok false
      → ids.from_stub s ≡ ok creator
      → set_from_creator m ids i s ≡ (ok e, s')
      → get m i owner_state_key (obj ids.target ∷ []) t
        ≡ get m i owner_state_key (obj ids.target ∷ []) s'
      → ids.from_stub t ≡ ok invoker
      → (is_setted m ids i s' ≡ ok true)
        × (e ≡ create_entry creator)
        × (only m ids i next t ≡ (
            if text_eq creator.msp_id invoker.msp_id && text_eq creator.subject invoker.subject
            then next t
            else (err (base owner_only), t)))
  unfolding is_setted
  only-set_from_creator next creator invoker e s s' t rws d back free from h same_read inv =
      let entry = create_entry creator in
      let (put_it, same_e) =
        insert_entry-ok entry e s s' (sym (set_from_creator-free creator s free from) ∙ h) in
      let (found, there) =
        get-put m i rws owner_state_key (obj (ids.entry_value entry)) (obj ids.target ∷ []) s s' d
          ((insert_iff m i owner_state_key (obj (ids.entry_value entry) ∷ []) s s').0 put_it).1 in
      let owner : get_owner m ids i t ≡ ok entry =
        unfold get_owner in rw (same_read ∙ found, back) refl in
      (there, sym same_e, only-owner next entry invoker t owner inv)
