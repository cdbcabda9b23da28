-- ===== src/Usecases/Parse/Deploys.antt =====
-- When a task deploys its software (src/kernel/src/services/use_cases/software_computing.rs and
-- src/co/src/infrastructure/repositories/sea_orm_db_repository/installed_software.rs).
use kuintessence.Prelude.{
  String, Bool, true, false, ◌≡◌, refl, ap, ◌∙◌, none, some, List, [], ◌∷◌, Result, ok, keep, any,
  all, not, ◌&&◌, str_eq, is_some, Option-cases, &&-eq-true, arith, inl, inr, if◌then◌else◌,
}
use kuintessence.Workflow.Instance.{Error}
use kuintessence.Package.Materials.{SoftwareSpec}
use kuintessence.Usecases.Clusters.{
  InstalledSoftware, Grid, has_all, satisfied_from, is_software_satisfied,
  is_software_version_blocked,
}
use kuintessence.Usecases.Parse.{software_of, deploys}

-- The row's arguments are there and none of the required ones is missing.
abbrev satisfies : List String → InstalledSoftware → Bool
satisfies required x = elim x.install_argument [
  | none ↦ false
  | some arguments ↦ has_all required arguments
]

abbrev is_readable : InstalledSoftware → Bool
is_readable x = is_some x.install_argument

&&-assoc : (a b c : Bool) → ((a && b) && c) ≡ (a && (b && c))
&&-assoc a b c = ground arith

if-not :
    (b : Bool) (r : Result Error Bool) (v : Bool)
    → r ≡ ok v
    → (if b then ok false else r) ≡ ok (not b && v)
if-not true r v h = refl
if-not false r v h = h

satisfied_from-all :
    (required : List String) (r : Bool) (xs : List InstalledSoftware)
    → all is_readable xs ≡ true
    → satisfied_from required r xs ≡ ok (r && all (satisfies required) xs)
unfolding satisfied_from
satisfied_from-all required r [] readable = ground arith
satisfied_from-all required r (x ∷ xs) readable = elim (Option-cases x.install_argument) [
  | inl missing ↦ absurd (ground (arith, missing))
  | inr (arguments, there) ↦
      let rest =
        satisfied_from-all required (r && has_all required arguments) xs
          (&&-eq-true _ _ readable).1 in
      rw there (rest ∙ ap ok (&&-assoc r (has_all required arguments) _))
]

abbrev pub named : String → Grid → List InstalledSoftware
named name s = keep (λ x. str_eq x.software_name name) s.installed

abbrev pub is_blocked : String → String → Grid → Bool
is_blocked name version s = any (λ x. str_eq x.name name && str_eq x.version version) s.block_list

-- Where the arguments of all installations of the name are lists of texts: the software is deployed
-- exactly if its version is not blocked and every installation of that name has all the arguments
-- that are required; so it is if nothing of that name is installed.
pub deploys_iff :
    (name : String) (argument_list : List String) (s : Grid)
    → all is_readable (named name s) ≡ true
    → deploys (SoftwareSpec.spack name argument_list) s
      ≡ ok (
          not (is_blocked name (software_of (SoftwareSpec.spack name argument_list)).1.0 s)
          && all (satisfies argument_list) (named name s))
unfolding deploys is_software_version_blocked is_software_satisfied software_of
deploys_iff name argument_list s readable =
    if-not (is_blocked name (software_of (SoftwareSpec.spack name argument_list)).1.0 s)
      (satisfied_from argument_list true (named name s))
      (all (satisfies argument_list) (named name s))
      (satisfied_from-all argument_list true (named name s) readable)
