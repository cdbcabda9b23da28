-- ===== src/Usecases/Parse.antt =====
-- `parse_task` of src/kernel/src/services/use_cases/software_computing.rs, which only reads.
-- `getter` returns the use case of two packages, `render` is Handlebars, and `order` the order in
-- which a HashMap gives its entries.
pub mod Body
pub mod Deploys
use kuintessence.Prelude.{
  ℕ, String, Bool, true, false, Option, none, some, List, [], ◌∷◌, ◌++◌, Result, ok, err, ok_or,
  ◌>>=◌, find, if◌then◌else◌, ◌==◌, get_elem?,
}
use mathlib.Core.Option
use kuintessence.Prelude.Text.{replace}
use kuintessence.Workflow.Common.{Uuid, HashMap, Requirements, SoftwareUsecaseComputing, NodeKind}
use kuintessence.Workflow.Instance.{NodeSpec, Error, unreachable_node_kind, no_such_text}
use kuintessence.Workflow.Store.{World, TaskCommand}
use kuintessence.Package.Materials.{SoftwareSpec}
use kuintessence.Package.Usecase
use kuintessence.Package.Parts.{fold_m}
use kuintessence.Usecases.Task.{
  StdInKind, facility_from, Execution, TaskBody, Task, SoftwareComputingUsecase,
}
use kuintessence.Usecases.Formats.{fill_arguments, fill_environments}
use kuintessence.Usecases.Fill.{
  Templates, Parts, flag_argument, flag_environment, fill_slot, fill_template,
}
use kuintessence.Usecases.Outputs.{Outs, output_slot}
use kuintessence.Usecases.Clusters.{Grid, is_software_satisfied, is_software_version_blocked}

-- The services outside of the program.
pub record Services : Type 0 where
  pub getter : Uuid → Uuid → Result Error SoftwareComputingUsecase
  pub render : String → HashMap String (Option String) → Result Error String
  pub order : Templates → Templates
  pub random : ℕ → ℕ
  pub accepts : Task → Bool

-- `text_storage_repository.get_by_id`
unfoldable pub read_text : World → Uuid → Result Error String
read_text w key = ok_or (no_such_text key) (Option.map (λ e. e.1) (find (λ e. e.0 == key) w.texts))

abbrev pub no_parts : Parts
no_parts = record {
  argument_formats_sorts = [];
  environment_formats_map = [];
  files = [];
  std_in = StdInKind.nothing;
  templates_kv_json = [];
}

-- The JSON text of a package's requirements, read as those of the kernel: the fields agree.
abbrev pub convert : Usecase.Requirements → Requirements
convert x = record {
  cpu_cores = x.cpu_cores;
  node_count = x.node_count;
  max_wall_time = x.max_wall_time;
  max_cpu_time = x.max_cpu_time;
  stop_time = x.stop_time;
}

-- `override_requirements.or(…)`
abbrev pub requirements_of : Option Requirements → Option Usecase.Requirements → Option Requirements
requirements_of none x = Option.map convert x
requirements_of (some x) y = some x

abbrev pub head_or_empty : List String → String
head_or_empty [] = ""
head_or_empty (x ∷ xs) = x

-- `(software_name, version, require_install_arguments)`
unfoldable pub software_of : SoftwareSpec → String × (String × List String)
unfolding replace
software_of (SoftwareSpec.spack name argument_list) =
    (name, (replace "@" "" (head_or_empty argument_list), argument_list))
software_of (SoftwareSpec.singularity image tag) = ("", ("", []))

-- The condition for the deployment: the second call is made only if the first says no.
unfoldable pub deploys : SoftwareSpec → Grid → Result Error Bool
unfolding software_of is_software_version_blocked is_software_satisfied
deploys spec s =
    let (name, rest) = software_of spec in
    let (version, arguments) = rest in
    is_software_version_blocked name version s >>= λ blocked.
    if blocked then ok false else is_software_satisfied name arguments s

module _ (services : Services) (s : Grid) where
  -- The loops, in order.
  unfoldable pub fill_parts : SoftwareComputingUsecase → NodeSpec → Result Error Parts
  unfolding flag_argument flag_environment fill_slot fill_template read_text
  fill_parts u node_spec = fold_m (flag_argument u) u.usecase_spec.flag_arguments no_parts >>= λ p.
      fold_m (flag_environment u) u.usecase_spec.flag_environments p >>= λ p.
      fold_m (fill_slot u (read_text s.store) node_spec) u.usecase_spec.input_slots p >>= λ p.
      fold_m (fill_template u services.render) (services.order p.templates_kv_json) p

  abbrev pub execution : SoftwareComputingUsecase → NodeSpec → Parts → Outs → Execution
  execution u node_spec p outs = record {
    name = u.usecase_spec.command_file;
    facility_kind = facility_from u.software_spec;
    arguments = fill_arguments p.argument_formats_sorts;
    environments = fill_environments p.environment_formats_map;
    std_in = p.std_in;
    files = outs.1;
    requirements = requirements_of node_spec.requirements u.usecase_spec.requirements;
  }

  -- `parse_task` once the use case is there.
  unfoldable pub parse_usecase : SoftwareComputingUsecase → NodeSpec → Result Error Task
  unfolding fill_parts output_slot deploys fill_arguments fill_environments
  parse_usecase u node_spec = fill_parts u node_spec >>= λ p.
      fold_m (output_slot u (read_text s.store) node_spec) u.usecase_spec.output_slots ([], p.files)
      >>= λ outs. deploys u.software_spec s >>= λ deploy.
          let body = TaskBody.usecase_execution (execution u node_spec p outs) ∷ outs.0 in
          ok (record {
            id = node_spec.id;
            body =
                if deploy
                then TaskBody.software_deployment (facility_from u.software_spec) ∷ body
                else body;
            command = TaskCommand.start;
          })

  unfoldable pub parse_task : NodeSpec → Result Error Task
  unfolding parse_usecase
  parse_task node_spec = elim node_spec.kind [
    | NodeKind.software_usecase_computing data_ ↦
        services.getter data_.software_version_id data_.usecase_version_id >>= λ u.
        parse_usecase u node_spec
    | NodeKind.no_action ↦ err unreachable_node_kind
    | NodeKind.script script_info ↦ err unreachable_node_kind
    | NodeKind.milestone data_ ↦ err unreachable_node_kind
  ]
