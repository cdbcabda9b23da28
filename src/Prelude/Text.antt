-- ===== src/Prelude/Text.antt =====
-- `str::replace`, and the texts of signed numbers.
use Prim.Native.Char.{Char, code}
use Prim.Native.Nat.{ℕ, zero, suc, ◌+◌, ◌-◌, ◌%◌, ◌^◌}
use Prim.Native.String
use Prim.Native.String.{String, count}
use mathlib.Core.Bool.{Bool, true, false, not, ◌&&◌}
use mathlib.Core.Path.{◌≡◌, refl, ap, ◌∙◌}
use text.Mathlib.TextLemmas.{nil-append, cons-append}
use mathlib.Core.Logic.{inl, inr}
use native.Mathlib.Omega.{arith}
use kuintessence.Prelude.Tests.{ltb, ◌==◌, if◌then◌else◌, Bool-cases}
use kuintessence.Prelude.Int.{ℤ, pos, negsuc}
use kuintessence.Prelude.Decimal.{to_string}

starts_with : String → String → Bool
starts_with String.[] text = true
starts_with (String.◌∷◌ p ps) String.[] = false
starts_with (String.◌∷◌ p ps) (String.◌∷◌ c cs) = code p == code c && starts_with ps cs

drop : ℕ → String → String
drop zero text = text
drop (suc n) String.[] = ""
drop (suc n) (String.◌∷◌ c cs) = drop n cs

-- `skip` characters of the text belong to the last match.
replace_from : String → String → ℕ → String → String
unfolding starts_with
replace_from from to skip String.[] = ""
replace_from from to (suc skip) (String.◌∷◌ c cs) = replace_from from to skip cs
replace_from from to zero (String.◌∷◌ c cs) = elim (starts_with from (String.◌∷◌ c cs)) [
  | true ↦ String.◌++◌ to (replace_from from to (count from - 1) cs)
  | false ↦ String.◌∷◌ c (replace_from from to zero cs)
]

-- The empty pattern matches before every character and at the end.
weave : String → String → String
weave to String.[] = to
weave to (String.◌∷◌ c cs) = String.◌++◌ to (String.◌∷◌ c (weave to cs))

-- `text.replace(from, to)`
unfoldable pub replace : String → String → String → String
unfolding replace_from weave
replace String.[] to text = weave to text
replace (String.◌∷◌ p ps) to text = replace_from (String.◌∷◌ p ps) to 0 text

-- `text.replacen(from, to, 1)`, for a pattern that is not empty.
unfoldable pub replace_first : String → String → String → String
unfolding starts_with drop
replace_first from to String.[] = ""
replace_first from to (String.◌∷◌ c cs) = elim (starts_with from (String.◌∷◌ c cs)) [
  | true ↦ String.◌++◌ to (drop (count from) (String.◌∷◌ c cs))
  | false ↦ String.◌∷◌ c (replace_first from to cs)
]

-- `i32::to_string`
unfoldable pub int_to_string : ℤ → String
unfolding to_string
int_to_string (pos n) = to_string n
int_to_string (negsuc n) = String.◌++◌ "-" (to_string (suc n))

-- The bit pattern of an `i32`, and back.
i32_bits : ℤ → ℕ
i32_bits (pos n) = n % 2 ^ 32
i32_bits (negsuc n) = 2 ^ 32 - 1 - n % 2 ^ 32

i32_of_bits : ℕ → ℤ
i32_of_bits b = if ltb b (2 ^ 31) then pos b else negsuc (2 ^ 32 - 1 - b)

-- `+` of two `i32`: it wraps.
unfoldable pub add_i32 : ℤ → ℤ → ℤ
unfolding i32_bits i32_of_bits
add_i32 a b = i32_of_bits ((i32_bits a + i32_bits b) % 2 ^ 32)

-- No character is an opening brace.
abbrev pub is_free : String → Bool
is_free String.[] = true
is_free (String.◌∷◌ c cs) = not (code c == 123) && is_free cs

starts_with-brace :
    (p : String) (c : Char) (cs : String)
    → (code c == 123) ≡ false
    → starts_with (String.◌∷◌ "{" p) (String.◌∷◌ c cs) ≡ false
unfolding starts_with
starts_with-brace p c cs other = ground arith

hole-append :
    (rest : String)
    → String.◌++◌ "{{}}" rest
      ≡ String.◌∷◌ "{" (String.◌∷◌ "{" (String.◌∷◌ "}" (String.◌∷◌ "}" rest)))
hole-append rest =
    cons-append "{" "{}}" rest
    ∙ ap (String.◌∷◌ "{") (
        cons-append "{" "}}" rest
        ∙ ap (String.◌∷◌ "{") (
            cons-append "}" "}" rest
            ∙ ap (String.◌∷◌ "}")
                (cons-append "}" "" rest ∙ ap (String.◌∷◌ "}") (nil-append rest))))

-- The first placeholder of a text whose start has no brace.
pub replace_first-hole :
    (value head rest : String)
    → is_free head ≡ true
    → replace_first "{{}}" value (String.◌++◌ head (String.◌++◌ "{{}}" rest))
      ≡ String.◌++◌ head (String.◌++◌ value rest)
unfolding replace_first starts_with drop
replace_first-hole value String.[] rest free =
    rw (nil-append (String.◌++◌ "{{}}" rest))
      (rw (nil-append (String.◌++◌ value rest)) (rw (hole-append rest) refl))
replace_first-hole value (String.◌∷◌ c cs) rest free =
    rw (cons-append c cs (String.◌++◌ "{{}}" rest)) (
      rw (cons-append c cs (String.◌++◌ value rest)) (elim (Bool-cases (code c == 123)) [
        | inl h ↦ ground arith
        | inr h ↦
            rw
              (
                replace_first,
                starts_with-brace "{}}" c (String.◌++◌ cs (String.◌++◌ "{{}}" rest)) h,
              )
              (ap (String.◌∷◌ c) (replace_first-hole value cs rest (ground arith)))
      ]))

pub is_free-append :
    (a b : String) → is_free a ≡ true → is_free b ≡ true → is_free (String.◌++◌ a b) ≡ true
is_free-append String.[] b free free' = rw (nil-append b) free'
is_free-append (String.◌∷◌ c cs) b free free' =
    rw (cons-append c cs b) (ground (arith, is_free-append cs b))
