-- ===== src/Usecases/Formats.antt =====
-- The formats of arguments and environment variables, and how their placeholders are filled
-- (src/kernel/src/services/use_cases/software_computing.rs).
pub mod Holes
use Prim.Native.Char.{Char}
use Prim.Native.String
use kuintessence.Prelude.{
  ℕ, String, Bool, true, false, Option, none, some, List, [], ◌∷◌, map, Result, ok, unwrap, ◌>>=◌,
  str_eq, find,
}
use kuintessence.Prelude.Text.{replace_first}
use kuintessence.Workflow.Common.{HashMap}
use kuintessence.Workflow.Instance.{Error}
use kuintessence.Package.Materials.{Argument, Environment}
use kuintessence.Package.Sorts.{sort_by_key}

pub record FormatFill : Type 0 where
  pub format : String
  pub placeholder_fill_map : HashMap ℕ (Option String)

-- `argument_format`
unfoldable pub argument_format : List Argument → String → Result Error FormatFill
argument_format argument_materials descriptor =
    unwrap (find (λ (el : Argument). str_eq el.descriptor descriptor) argument_materials) >>= λ el.
    ok (record { format = el.value_format; placeholder_fill_map = [] })

-- `environment_kv_format`
unfoldable pub environment_kv_format :
    List Environment → String → Result Error (String × FormatFill)
environment_kv_format environment_materials descriptor =
    unwrap (find (λ (el : Environment). str_eq el.descriptor descriptor) environment_materials)
    >>= λ el. ok (el.key, record { format = el.value_format; placeholder_fill_map = [] })

abbrev pub text_of : Option String → String
text_of none = ""
text_of (some x) = x

-- The loop over the placeholders in order.
unfoldable pub fill_all : String → HashMap ℕ (Option String) → String
unfolding replace_first
fill_all format [] = format
fill_all format (x ∷ xs) = fill_all (replace_first "{{}}" (text_of x.1) format) xs

unfoldable pub fill_format : FormatFill → String
unfolding fill_all sort_by_key
fill_format x = fill_all x.format (sort_by_key x.placeholder_fill_map)

-- `sort_by(|a, b| a.0.cmp(&b.0))`, and each format filled.
unfoldable pub fill_arguments : HashMap ℕ FormatFill → List String
unfolding fill_format sort_by_key
fill_arguments m = map (λ e. fill_format e.1) (sort_by_key m)

unfoldable pub fill_environments : HashMap String FormatFill → HashMap String String
unfolding fill_format
fill_environments m = map (λ e. (e.0, fill_format e.1)) m

-- `join(" ")`
unfoldable pub join : List String → String
join [] = ""
join (x ∷ []) = x
join (x ∷ y ∷ xs) = String.◌++◌ x (String.◌++◌ " " (join (y ∷ xs)))
