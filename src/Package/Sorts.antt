-- ===== src/Package/Sorts.antt =====
-- The numbering of the arguments: a HashMap is put in the order of its keys, which have to be 0, 1
-- and so on (src/lib-co-repo/src/services/package_validate.rs).
pub mod Ranges
use kuintessence.Prelude.{ℕ, ◌-◌, [], ◌∷◌, Result, ok, err, leb, ◌==◌, not, if◌then◌else◌, ◌>>=◌}
use kuintessence.Workflow.Common.{HashMap}
use kuintessence.Package.Parts.{PackageError, sort_must_begin_with_0, sort_has_gap}

module _ {V : Type 0} where
  -- `sort_by(|a, b| a.0.cmp(&b.0))`
  unfoldable pub insert_sorted : ℕ × V → HashMap ℕ V → HashMap ℕ V
  insert_sorted x [] = x ∷ []
  insert_sorted x (y ∷ ys) = if leb x.0 y.0 then x ∷ y ∷ ys else y ∷ insert_sorted x ys

  unfoldable pub sort_by_key : HashMap ℕ V → HashMap ℕ V
  unfolding insert_sorted
  sort_by_key [] = []
  sort_by_key (x ∷ xs) = insert_sorted x (sort_by_key xs)

  -- The loop over the rest: the keys ascend, so that the difference is never negative.
  unfoldable pub check_gaps : ℕ → HashMap ℕ V → Result PackageError (Unit {0})
  check_gaps p [] = ok tt
  check_gaps p (x ∷ xs) = if not (x.0 - p == 1) then err (sort_has_gap x.0 p) else check_gaps x.0 xs

  unfoldable pub check_sorted : HashMap ℕ V → Result PackageError (HashMap ℕ V)
  unfolding check_gaps
  check_sorted [] = ok []
  check_sorted (x ∷ xs) =
      if not (x.0 == 0) then err sort_must_begin_with_0 else (check_gaps 0 xs >>= λ _. ok (x ∷ xs))

  unfoldable pub number : HashMap ℕ V → Result PackageError (HashMap ℕ V)
  unfolding sort_by_key check_sorted
  number m = check_sorted (sort_by_key m)
