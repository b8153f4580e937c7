-- ===== src/Debug/Laws.antt =====
-- extensions/debug: what StateClean deletes and counts.
use cckit.Base.{
  ◌≡◌, refl, ap, sym, ◌∙◌, ℕ, ◌+◌, ◌%◌, ◌<◌, false, some, List, [], ◌∷◌, ◌++◌, Text, Map, store,
  find, find-store_self, length, arith, is_empty, codes, inl, inr, if◌then◌else◌,
}
use cckit.Debug.{delete_each, delete_by_prefixes, delete_state_by_prefixes, clean_keys, state_clean}
use cckit.Lang.Error.{noted}
use cckit.Lang.Exec.{continue-eq-ok}
use cckit.Lang.Result.{ok, on_err, on_err-eq-ok, Result-cases}
use cckit.Lang.Value.{str, Methods}
use cckit.State.Impl.{Impl, delete}
use cckit.State.Impl.Listing.{keys}
use cckit.State.Key.{Key, key_to_string}
use cckit.State.Stub.{Stub}

module _ {S U : Type 0} (m : Methods U) (i : Impl S U) where
  delete_each-count :
      (ks : List Text) (n r : ℕ) (s s' : S)
      → n < 4294967296
      → delete_each m i ks n s ≡ (ok r, s')
      → r ≡ (n + length ks) % 4294967296
  unfolding delete_each
  delete_each-count [] n r s s' l h = let e : n ≡ r = cc in omega arith
  delete_each-count (k ∷ ks) n r s s' l h =
      let (u, t, e, f) = continue-eq-ok (delete m i (str k) s) _ r s' h in
      let c = delete_each-count ks ((n + 1) % 4294967296) r t s' (omega arith) f in omega arith

  -- DeleteStateByPrefixes of one prefix, where it succeeds, counts as many matches as Keys lists
  -- keys of the prefix, modulo 2^32.
  pub delete_state_by_prefixes-count :
      (p : Text) (matches : Map ℕ) (s s' : S)
      → delete_state_by_prefixes m i (p ∷ []) s ≡ (ok matches, s')
      → (ks : List Text) × (keys m i (str p) s ≡ ok ks)
        × (find p matches ≡ some (length ks % 4294967296))
  unfolding delete_state_by_prefixes delete_by_prefixes
  delete_state_by_prefixes-count p matches s s' h =
      let (ks, t, e, f) =
        continue-eq-ok (on_err (noted (codes "keys")) (keys m i (str p) s), s) _ matches s' h in
      let (n, t', e', f') = continue-eq-ok (delete_each m i ks 0 t) _ matches s' f in
      let same : store p n [] ≡ matches = cc in
      let count : n ≡ length ks % 4294967296 =
        omega (arith, delete_each-count ks 0 n t t' (omega arith) e') in
      (
        ks,
        on_err-eq-ok _ (keys m i (str p) s) (ap (λ x. x.0) e),
        ap (find p) (sym same) ∙ find-store_self p n [] ∙ ap some count,
      )

clean_keys-empty :
    {S : Type 0} (stub : Stub S) (key : Text) (front : List Key) (p : Key) (rest : List Key)
    → is_empty p ≡ false
    → clean_keys stub key (front ++ p ∷ [] ∷ rest) ≡ clean_keys stub key (front ++ p ∷ p ∷ rest)
unfolding clean_keys
clean_keys-empty stub key [] p rest e = elim (Result-cases (key_to_string stub p)) [
  | inl (k, h) ↦ rw (e, h) refl
  | inr (inl (x, h)) ↦ rw (e, h) refl
  | inr (inr h) ↦ rw (e, h) refl
]
clean_keys-empty stub key (q ∷ front) p rest e =
    elim (Result-cases (if is_empty q then ok key else key_to_string stub q)) [
      | inl (k, h) ↦ rw (h, clean_keys-empty stub k front p rest e) refl
      | inr (inl (x, h)) ↦ rw h refl
      | inr (inr h) ↦ rw h refl
    ]

-- An empty prefix behind another one does not stand for all keys: StateClean does with it what it does
-- where that other prefix is given twice.
pub state_clean-empty_prefix :
    {S U : Type 0} (m : Methods U) (stub : Stub S) (i : Impl S U) (front : List Key) (p : Key)
    (rest : List Key) (s : S)
    → is_empty p ≡ false
    → state_clean m stub i (front ++ p ∷ [] ∷ rest) s
      ≡ state_clean m stub i (front ++ p ∷ p ∷ rest) s
unfolding state_clean
state_clean-empty_prefix m stub i front p rest s e =
    rw (clean_keys-empty stub [] front p rest e) refl
