-- ===== src/Agent/Collection/Lines.antt =====
-- The last lines of a text (src/agent/service/src/collection_task.rs).
use kuintessence.Prelude.{
  ℕ, zero, suc, ◌^◌, ◌<◌, ◌≤◌, String, ◌≡◌, refl, ap, List, [], ◌∷◌, ◌++◌, length, length-append,
  arith,
}
use kuintessence.Agent.Collection.{take, drop, usize_sub, bottom_lines}

take-all : (xs : List String) → take (length xs) xs ≡ xs
take-all [] = refl
take-all (x ∷ xs) = ap (◌∷◌ x) (take-all xs)

take-nil : (n : ℕ) → take {A = String} n [] ≡ []
take-nil zero = refl
take-nil (suc n) = refl

drop-append : (a b : List String) → drop (length a) (a ++ b) ≡ b
drop-append [] b = refl
drop-append (x ∷ a) b = drop-append a b

drop-all : (n : ℕ) (xs : List String) → length xs ≤ n → drop n xs ≡ []
drop-all zero [] small = refl
drop-all zero (x ∷ xs) small = absurd (omega arith)
drop-all (suc n) [] small = refl
drop-all (suc n) (x ∷ xs) small = drop-all n xs (omega arith)

-- A text of fewer than 2^63 lines: where there are at least as many lines as the rule asks for, the
-- last ones are kept; where there are fewer, and the rule asks for fewer than 2^63, none is kept.
pub bottom_lines-last :
    (before last : List String) (n : ℕ)
    → length (before ++ last) < 2 ^ 63
    → length (before ++ last) < n
    → n < 2 ^ 63
    → (bottom_lines (length last) (before ++ last) ≡ last) × (bottom_lines n (before ++ last) ≡ [])
unfolding bottom_lines
bottom_lines-last before last n small more few =
    let sum = length-append before last in
    let enough : usize_sub (length (before ++ last)) (length last) ≡ length before = omega arith in
    let wrapped : length (before ++ last) ≤ usize_sub (length (before ++ last)) n = omega arith in
    (
      rw enough (rw (drop-append before last) (take-all last)),
      rw (drop-all _ (before ++ last) wrapped) (take-nil n),
    )
