-- ===== src/Package/Sorts/Ranges.antt =====
-- The numbers of the arguments of an accepted package
-- (src/lib-co-repo/src/services/package_validate.rs).
use kuintessence.Prelude.{
  ℕ, zero, suc, ◌-◌, ◌≡◌, refl, ap₂, List, [], ◌∷◌, map, length, ok, >>=-eq-ok, ok-injective,
  Bool-cases, inl, inr, ==_iff, ◌==◌, arith,
}
use kuintessence.Workflow.Common.{HashMap}
use kuintessence.Package.Sorts.{sort_by_key, check_gaps, check_sorted, number}

-- The numbers from `start` on, `n` of them.
abbrev pub range : ℕ → ℕ → List ℕ
range start zero = []
range start (suc n) = start ∷ range (suc start) n

module _ {V : Type 0} where
  check_gaps-range :
      (p : ℕ) (xs : HashMap ℕ V)
      → check_gaps p xs ≡ ok tt
      → map (λ e. e.0) xs ≡ range (suc p) (length xs)
  unfolding check_gaps
  check_gaps-range p [] h = refl
  check_gaps-range p (x ∷ xs) h = elim (Bool-cases (x.0 - p == 1)) [
    | inl next ↦
        let here : x.0 ≡ suc p = ground arith in
        ap₂ ◌∷◌ here (rw (← here) (check_gaps-range x.0 xs (ground arith)))
    | inr gap ↦ absurd (ground arith)
  ]

  check_sorted-range :
      (xs r : HashMap ℕ V) → check_sorted xs ≡ ok r → map (λ e. e.0) r ≡ range 0 (length r)
  unfolding check_sorted
  check_sorted-range [] r h = rw (← ok-injective h) refl
  check_sorted-range (x ∷ xs) r h = elim (Bool-cases (x.0 == 0)) [
    | inr later ↦ absurd (ground arith)
    | inl first ↦
        let (u, gaps, same) =
          >>=-eq-ok (check_gaps 0 xs) (λ _. ok (x ∷ xs)) {c = r} (ground arith) in
        let here : x.0 ≡ 0 = (==_iff _ _).0 first in
        rw (← ok-injective same) (ap₂ ◌∷◌ here (check_gaps-range 0 xs gaps))
  ]

  pub number-range : (m r : HashMap ℕ V) → number m ≡ ok r → map (λ e. e.0) r ≡ range 0 (length r)
  unfolding number
  number-range m r h = check_sorted-range (sort_by_key m) r h
