-- ===== src/Lang/Exec.antt =====
-- Code that changes a state and may fail. What was written before the failure stays written, so the
-- state comes back beside the error too.
use cckit.Base.{◌≡◌, refl, ap, List, [], ◌∷◌}
use cckit.Lang.Result.{Result, ok, err, panic}

abbrev pub Exec : Type 0 → Type 0 → Type 0
Exec S A = S → Result A × S

module _ {S A : Type 0} where
  abbrev pub lift : Result A → Exec S A
  lift r s = (r, s)

  -- A call that only reads.
  abbrev pub reads : (S → Result A) → Exec S A
  reads f s = (f s, s)

module _ {S A B : Type 0} where
  abbrev pub continue : Result A × S → (A → Exec S B) → Result B × S
  continue (ok a, s) f = f a s
  continue (err e, s) f = (err e, s)
  continue (panic, s) f = (panic, s)

  infixl 5 ◌>>=◌ ◌>>◌
  abbrev pub ◌>>=◌ : Exec S A → (A → Exec S B) → Exec S B
  ◌>>=◌ m f s = continue (m s) f

  abbrev pub ◌>>◌ : Exec S A → Exec S B → Exec S B
  ◌>>◌ m n s = continue (m s) (λ _. n)

-- A loop over a list that stops at the first failure.
unfoldable pub for_each : {S A : Type 0} → (A → Exec S (Unit {0})) → List A → Exec S (Unit {0})
for_each f [] s = (ok tt, s)
for_each f (x ∷ xs) s = continue (f x s) (λ _. for_each f xs)

-- Two actions in a row succeed only if both do.
pub continue-eq-ok :
    {S A B : Type 0} (p : Result A × S) (f : A → Exec S B) (b : B) (s' : S)
    → continue p f ≡ (ok b, s')
    → (a : A) × (t : S) × (p ≡ (ok a, t)) × (f a t ≡ (ok b, s'))
continue-eq-ok (ok a, t) f b s' h = (a, t, refl, h)
continue-eq-ok (err e, t) f b s' h = absurd (let k = ap (λ x. x.0) h in cc)
continue-eq-ok (panic, t) f b s' h = absurd (let k = ap (λ x. x.0) h in cc)

-- After a call that only reads, the rest runs in the same state.
pub read-eq-ok :
    {S A B : Type 0} (r : Result A) (s : S) (f : A → Exec S B) (b : B) (s' : S)
    → continue (r, s) f ≡ (ok b, s')
    → (a : A) × (r ≡ ok a) × (f a s ≡ (ok b, s'))
read-eq-ok (ok a) s f b s' h = (a, refl, h)
read-eq-ok (err e) s f b s' h = absurd (let k = ap (λ x. x.0) h in cc)
read-eq-ok panic s f b s' h = absurd (let k = ap (λ x. x.0) h in cc)
