-- ===== src/Lang/Result.antt =====
-- The result `(A, error)` of a Go function. A panic is neither a value nor an error.
use cckit.Base.{◌≡◌, refl, ◌⊎◌, inl, inr, List, [], ◌∷◌}
use cckit.Lang.Error.{Error}

pub data Result {ℓ} (A : Type ℓ) : Type ℓ where
  panic : Result A
  err : Error → Result A
  ok : A → Result A

-- `if err != nil { return …, w(err) }`.
abbrev pub on_err {ℓ} : {A : Type ℓ} → (Error → Error) → Result A → Result A
on_err w panic = panic
on_err w (err e) = err (w e)
on_err w (ok a) = ok a

module _ {ℓ κ} {A : Type ℓ} {B : Type κ} where
  -- `if err != nil { return …, err }` between two calls.
  infixl 5 ◌>>=◌
  abbrev pub ◌>>=◌ : Result A → (A → Result B) → Result B
  panic >>= rest = panic
  err e >>= rest = err e
  ok a >>= rest = rest a

  -- Two calls succeed in a row only if both do.
  pub >>=-eq-ok :
      (first : Result A) (rest : A → Result B) {r : B}
      → (first >>= rest) ≡ ok r
      → (v : A) × (first ≡ ok v) × (rest v ≡ ok r)
  >>=-eq-ok panic rest eq = cc
  >>=-eq-ok (err e) rest eq = cc
  >>=-eq-ok (ok v) rest eq = (v, refl, eq)

-- A loop that makes one fallible call for each element and appends what it returns.
unfoldable pub map_each {ℓ κ} :
    {A : Type ℓ} {B : Type κ} → (A → Result B) → List A → Result (List B)
map_each f [] = ok []
map_each f (x ∷ xs) = f x >>= λ y. map_each f xs >>= λ ys. ok (y ∷ ys)

pub Result-cases {ℓ} :
    {A : Type ℓ} (r : Result A) → ((a : A) × (r ≡ ok a)) ⊎ ((e : Error) × (r ≡ err e)) ⊎ (r ≡ panic)
Result-cases (ok a) = inl (a, refl)
Result-cases (err e) = inr (inl (e, refl))
Result-cases panic = inr (inr refl)

pub map_each-cons {ℓ κ} :
    {A : Type ℓ} {B : Type κ} (f : A → Result B) (x : A) (xs : List A) (ys : List B)
    → map_each f (x ∷ xs) ≡ ok ys
    → (z : B) × (zs : List B) × (f x ≡ ok z) × (map_each f xs ≡ ok zs) × (ys ≡ z ∷ zs)
unfolding map_each
map_each-cons f x xs ys h =
    let (z, e, r) = >>=-eq-ok (f x) _ h in
    let (zs, e', r') = >>=-eq-ok (map_each f xs) _ r in (z, zs, e, e', cc)

-- A loop that undoes each call undoes the loop.
pub map_each-inverse {ℓ κ} :
    {A : Type ℓ} {B : Type κ} (f : A → Result B) (g : B → Result A) (xs : List A) (ys : List B)
    → ((x : A) (y : B) → f x ≡ ok y → g y ≡ ok x)
    → map_each f xs ≡ ok ys
    → map_each g ys ≡ ok xs
unfolding map_each
map_each-inverse f g [] ys back h = let e : ys ≡ [] = cc in rw e
map_each-inverse f g (x ∷ xs) ys back h =
    let (z, zs, e, e', s) = map_each-cons f x xs ys h in
    rw s (rw (back x z e, map_each-inverse f g xs zs back e'))

-- A note on an error changes no success.
pub on_err-eq-ok {ℓ} :
    {A : Type ℓ} (w : Error → Error) (r : Result A) {a : A} → on_err w r ≡ ok a → r ≡ ok a
on_err-eq-ok w (ok b) h = h
on_err-eq-ok w (err e) h = cc
on_err-eq-ok w panic h = cc

pub map_each-nil {ℓ κ} :
    {A : Type ℓ} {B : Type κ} (f : A → Result B) (ys : List B) → map_each f [] ≡ ok ys → ys ≡ []
unfolding map_each
map_each-nil f ys h = cc

pub ok-injective : {A : Type 0} {a b : A} → ok a ≡ ok b → a ≡ b
ok-injective h = cc
