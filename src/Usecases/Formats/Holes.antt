-- ===== src/Usecases/Formats/Holes.antt =====
-- The placeholders of a format (src/kernel/src/services/use_cases/software_computing.rs).
use Prim.Native.String
use text.Mathlib.TextLemmas.{append_assoc}
use kuintessence.Prelude.{ℕ, String, true, Option, List, [], ◌∷◌, map, ◌≡◌, refl, sym, ap, ◌∙◌, All}
use kuintessence.Prelude.Text.{replace_first-hole, is_free, is_free-append}
use kuintessence.Workflow.Common.{HashMap}
use kuintessence.Package.Sorts.{sort_by_key}
use kuintessence.Usecases.Formats.{text_of, fill_all, fill_format}

-- A format that ends in pairs of a placeholder and a text, and the same with values in place of the
-- placeholders.
abbrev pub with_holes : String → List (Option String × String) → String
with_holes head [] = head
with_holes head ((value, text) ∷ rest) =
    String.◌++◌ head (String.◌++◌ "{{}}" (with_holes text rest))

abbrev pub with_values : String → List (Option String × String) → String
with_values head [] = head
with_values head ((value, text) ∷ rest) =
    String.◌++◌ head (String.◌++◌ (text_of value) (with_values text rest))

abbrev pub IsPlain : List (Option String × String) → Type 0
IsPlain xs = All (λ x. (is_free (text_of x.0) ≡ true) × (is_free x.1 ≡ true)) xs

with_holes-prefix :
    (a b : String) (xs : List (Option String × String))
    → with_holes (String.◌++◌ a b) xs ≡ String.◌++◌ a (with_holes b xs)
with_holes-prefix a b [] = refl
with_holes-prefix a b (x ∷ xs) = append_assoc a b (String.◌++◌ "{{}}" (with_holes x.1 xs))

with_values-prefix :
    (a b : String) (xs : List (Option String × String))
    → with_values (String.◌++◌ a b) xs ≡ String.◌++◌ a (with_values b xs)
with_values-prefix a b [] = refl
with_values-prefix a b (x ∷ xs) = append_assoc a b (String.◌++◌ (text_of x.0) (with_values x.1 xs))

-- One value for each placeholder, in order.
fill_all-holes :
    (head : String) (xs : List (Option String × String)) (m : HashMap ℕ (Option String))
    → is_free head ≡ true
    → IsPlain xs
    → map (λ e. e.1) m ≡ map (λ x. x.0) xs
    → fill_all (with_holes head xs) m ≡ with_values head xs
unfolding fill_all
fill_all-holes head [] [] free plain same = refl
fill_all-holes head [] (e ∷ m) free plain same = cc
fill_all-holes head (x ∷ xs) [] free plain same = cc
fill_all-holes head (x ∷ xs) (e ∷ m) free plain same =
    let start : String = String.◌++◌ (text_of x.0) x.1 in
    let value : e.1 ≡ x.0 = cc in
    let free' =
      is_free-append head start free (is_free-append (text_of x.0) x.1 plain.0.0 plain.0.1) in
    let values =
      with_values-prefix head start xs
      ∙ ap (String.◌++◌ head) (with_values-prefix (text_of x.0) x.1 xs) in
    rw (value, replace_first-hole (text_of x.0) head (with_holes x.1 xs) free)
      (rw (sym (with_holes-prefix (text_of x.0) x.1 xs), sym (with_holes-prefix head start xs))
        (fill_all-holes (String.◌++◌ head start) xs m free' plain.1 (cc) ∙ values))

-- Where the values of an argument are in the order of their placeholders' numbers, and neither they
-- nor the pieces of the format between the placeholders have an opening brace, each placeholder is
-- replaced with its value, an absent value with the empty text, in whatever order they were mounted.
pub fill_format-holes :
    (head : String) (xs : List (Option String × String)) (m : HashMap ℕ (Option String))
    → is_free head ≡ true
    → IsPlain xs
    → map (λ e. e.1) (sort_by_key m) ≡ map (λ x. x.0) xs
    → fill_format (record { format = with_holes head xs; placeholder_fill_map = m })
      ≡ with_values head xs
unfolding fill_format
fill_format-holes head xs m free plain same = fill_all-holes head xs (sort_by_key m) free plain same
