-- ===== src/Prelude/Results.antt =====
-- `anyhow::Result`: a value, an error that the code returns, or a panic that stops it.
use mathlib.Core.Path.{◌≡◌, refl, sym, ap₂, ◌∙◌}
use mathlib.Core.List.{List, [], ◌∷◌, map}
use kuintessence.Prelude.Lists.{All}
use mathlib.Core.Option.{Option, none, some}

pub data Result {ℓ} (E : Type 0) (A : Type ℓ) : Type ℓ where
  ok : A → Result E A
  err : E → Result E A
  -- `unwrap` on a missing value, and `unreachable!`.
  panic : Result E A

infixl 5 ◌>>=◌ ◌>>◌
abbrev pub ◌>>=◌ {ℓ κ} :
    {E : Type 0} {A : Type ℓ} {B : Type κ} → Result E A → (A → Result E B) → Result E B
panic >>= next = panic
err e >>= next = err e
ok x >>= next = next x

abbrev pub ◌>>◌ {ℓ κ} :
    {E : Type 0} {A : Type ℓ} {B : Type κ} → Result E A → Result E B → Result E B
r >> next = r >>= λ _. next

module _ {ℓ} {E : Type 0} {A : Type ℓ} where
  -- `ok_or(e)?`
  abbrev pub ok_or : E → Option A → Result E A
  ok_or e none = err e
  ok_or e (some a) = ok a

  -- `unwrap()`
  abbrev pub unwrap : Option A → Result E A
  unwrap none = panic
  unwrap (some a) = ok a

  -- Where a chain ends well, its first step has.
  pub >>=-eq-ok {κ} :
      {C : Type κ} (r : Result E A) (next : A → Result E C) {c : C}
      → (r >>= next) ≡ ok c
      → (x : A) × (r ≡ ok x) × (next x ≡ ok c)
  >>=-eq-ok (ok x) next done = (x, refl, done)
  >>=-eq-ok (err e) next done = cc
  >>=-eq-ok panic next done = cc

-- A loop whose body may fail: `for x in xs { body(x)? }`, or `map` with an early return.
abbrev pub traverse {ℓ κ} :
    {E : Type 0} {A : Type ℓ} {B : Type κ} → (A → Result E B) → List A → Result E (List B)
traverse f [] = ok []
traverse f (x ∷ xs) = f x >>= λ y. traverse f xs >>= λ ys. ok (y ∷ ys)

module _ {ℓ} {E : Type 0} {A : Type ℓ} where
  pub ok-injective : {a b : A} → ◌≡◌ {A = Result E A} (ok a) (ok b) → a ≡ b
  ok-injective h = cc

  pub err-injective : {e e' : E} → ◌≡◌ {A = Result E A} (err e) (err e') → e ≡ e'
  err-injective h = cc

module _ {ℓ κ} {E : Type 0} {A : Type ℓ} {B : Type κ} (f : A → Result E B) where
  -- A loop that ends well has run its body well on every element.
  pub traverse-All :
      (xs : List A) (ys : List B) → traverse f xs ≡ ok ys → All (λ x. (y : B) × (f x ≡ ok y)) xs
  traverse-All [] ys h = tt
  traverse-All (x ∷ xs) ys h =
      let (y, first, more) = >>=-eq-ok (f x) _ h in
      let (zs, rest, _) = >>=-eq-ok (traverse f xs) _ more in ((y, first), traverse-All xs zs rest)

  -- What it collects, where the body's results are known.
  pub traverse-map :
      (g : A → B) (known : (x : A) (y : B) → f x ≡ ok y → y ≡ g x) (xs : List A) (ys : List B)
      → traverse f xs ≡ ok ys
      → ys ≡ map g xs
  traverse-map g known [] ys h = sym (ok-injective h)
  traverse-map g known (x ∷ xs) ys h =
      let (y, first, more) = >>=-eq-ok (f x) _ h in
      let (zs, rest, last) = >>=-eq-ok (traverse f xs) _ more in
      sym (ok-injective last) ∙ ap₂ ◌∷◌ (known x y first) (traverse-map g known xs zs rest)
