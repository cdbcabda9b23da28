-- ===== src/Workflow/Exec.antt =====
-- Calls that read and change the world and may fail: what was done before an error stays done.
use kuintessence.Prelude.{Result, ok, err, panic, List, [], ◌∷◌}

abbrev pub Exec : Type 0 → Type 0 → Type 0 → Type 0
Exec E S A = S → Result E A × S

module _ {E S A : Type 0} where
  abbrev pub pure : A → Exec E S A
  pure a s = (ok a, s)

  abbrev pub bail : E → Exec E S A
  bail e s = (err e, s)

  -- A computation that needs no world.
  abbrev pub lift : Result E A → Exec E S A
  lift r s = (r, s)

  abbrev pub gets : (S → A) → Exec E S A
  gets f s = (ok (f s), s)

abbrev pub modify : {E S : Type 0} → (S → S) → Exec E S (Unit {0})
modify f s = (ok tt, f s)

module _ {E S A B : Type 0} where
  abbrev pub continue : Result E A → (A → Exec E S B) → Exec E S B
  continue (ok a) f s = f a s
  continue (err e) f s = (err e, s)
  continue panic f s = (panic, s)

  infixl 5 ◌>>=◌ ◌>>◌
  abbrev pub ◌>>=◌ : Exec E S A → (A → Exec E S B) → Exec E S B
  ◌>>=◌ m f s = let (r, s') = m s in continue r f s'

  abbrev pub ◌>>◌ : Exec E S A → Exec E S B → Exec E S B
  m >> n = m >>= λ _. n

-- `for x in xs { body(x).await?; }`
abbrev pub for_each : {E S A : Type 0} → List A → (A → Exec E S (Unit {0})) → Exec E S (Unit {0})
for_each [] body = pure tt
for_each (x ∷ xs) body = body x >>= λ _. for_each xs body
