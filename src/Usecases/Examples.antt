-- ===== src/Usecases/Examples.antt =====
-- Tests and witnesses for the parsing of use cases.
use kuintessence.Prelude.{
  ◌≡◌, refl, Bool, ◌&&◌, ◌==◌, ◌++◌, any, find, true, false, none, some, List, [], ◌∷◌, ok,
}
use kuintessence.Workflow.Common
use kuintessence.Workflow.Common.{
  Uuid, NodeInputSlotKind, TextInputSlotRule, NodeKind, SchedulingStrategy,
}
use kuintessence.Workflow.Instance.{
  NodeSpec, NodeSpecOutputSlotKind, NodeInstance, NodeInstanceKind, NodeInstanceStatus,
}
use kuintessence.Workflow.Store.{TaskCommand}
use kuintessence.Package.Materials.{SoftwareSpec, FileKind}
use kuintessence.Package.Usecase.{
  InputSlot, OutputSlot, TextRef, CollectFrom, CollectTo, CollectRule, FileOutOrigin, AppointedBy,
  ValidateData,
}
use kuintessence.Package.Preview
use kuintessence.Package.Preview.{InDescriptor, CommandPreview}
use kuintessence.Package.Parts.{fold_m}
use kuintessence.Package.Validate.{package_validate}
use kuintessence.Usecases.Packages.{SoftwareUsecaseComputingData, assembled, extract_packages}
use kuintessence.Usecases.Content.{get_content}
use kuintessence.Usecases.Fill.{Parts, fill_slot}
use kuintessence.Workflow.Slots
use kuintessence.Workflow.Slots.{all_tasks_text_outputs, all_tasks_file_outputs}
use kuintessence.Usecases.Outputs.{Outs, out_path_alter, output_slot}
use kuintessence.Usecases.Outputs.Validated.{output_slot-validated}
use kuintessence.Usecases.Fill.Validated.{fill_slot-validated}
use kuintessence.Package.Sorts.{sort_by_key}
use kuintessence.Usecases.Task as Bodies
use kuintessence.Usecases.Task.{
  Execution, FacilityKind, StdInKind, FileInfo, TaskBody, Task, SoftwareComputingUsecase,
}
use kuintessence.Usecases.Formats.{fill_format}
use kuintessence.Usecases.Formats.Holes.{fill_format-holes}
use kuintessence.Usecases.Clusters.{Cluster, Grid}
use kuintessence.Usecases.Parse.{read_text, no_parts, Services, parse_task, software_of, deploys}
use kuintessence.Usecases.Parse.Body.{IsBody, parse_task-body}
use kuintessence.Usecases.Parse.Deploys.{deploys_iff}
use kuintessence.Usecases.Service.{handle_usecase, operate_task}
use kuintessence.Usecases.Service.Sent.{sent_to, order_of, handle_usecase-sent}

-- One argument with two placeholders, which are mounted in the wrong order.
fill_format-holes_example :
    fill_format (record {
      format = "-i {{}} -n {{}} .";
      placeholder_fill_map = (1, none) ∷ (0, some "a.txt") ∷ [];
    })
    ≡ "-i a.txt -n  ."
unfolding sort_by_key
fill_format-holes_example =
    fill_format-holes "-i " ((some "a.txt", " -n ") ∷ (none, " .") ∷ [])
      ((1, none) ∷ (0, some "a.txt") ∷ []) refl ((refl, refl), ((refl, refl), tt)) refl

abbrev packages : ValidateData
packages = record {
  software_data = record {
    spec = SoftwareSpec.spack "s" ("@1" ∷ []);
    arguments = record { descriptor = "a"; value_format = "-n {{}}"; metadata = [] } ∷ [];
    environments = [];
    filesome_inputs = [];
    filesome_outputs =
        record {
          descriptor = "out";
          file_kind = FileKind.normal "o";
          metadata = [];
          optional = false;
        }
        ∷ [];
  };
  usecase_data = record {
    spec = record {
      command_file = "run";
      merge_stdout_and_stderr = false;
      input_slots = InputSlot.text "x" none (TextRef.arg_ref "a" 0 0 ∷ []) [] false ∷ [];
      template_files = [];
      output_slots =
          OutputSlot.text "e" "energy" [] true none
          ∷ OutputSlot.file "f"
              (FileOutOrigin.usecase_out
                (record { file_out_material_descriptor = "out"; kind = AppointedBy.material }))
              false [] none
          ∷ [];
      flag_arguments = [];
      flag_environments = [];
      std_out_validator = none;
      std_err_validator = none;
      requirements = none;
      metadata = [];
    };
    collected_outs =
        record {
          descriptor = "energy";
          from = CollectFrom.file_out "f";
          to = CollectTo.text;
          collecting = CollectRule.top_lines 1;
          validator = none;
          metadata = [];
        }
        ∷ [];
    template_file_infos = [];
  };
}

abbrev use_case : SoftwareComputingUsecase
use_case = assembled 1 2 packages

-- The software package may come first.
extracted :
    extract_packages
      (record {
        version_id = 2;
        content = SoftwareUsecaseComputingData.software packages.software_data;
      })
      (record {
        version_id = 1;
        content = SoftwareUsecaseComputingData.usecase packages.usecase_data;
      })
    ≡ ok use_case
unfolding extract_packages
extracted = refl

abbrev preview : CommandPreview
preview = record {
  software_facility = Preview.FacilityKind.spack "s" ("@1" ∷ []);
  command_name = "run";
  argument_formats_sorts =
      (
        0,
        record { format = "-n {{}}"; placeholder_fill_map = (0, InDescriptor.input_slot "x") ∷ [] },
      )
      ∷ [];
  environment_formats = [];
  templates_kv_map = [];
  std_in = InDescriptor.nothing;
  file_infos = Preview.FileInfoPreview.const_output "out" "o" ∷ [];
  collect_previews =
      record {
        from = Preview.PreviewCollectFrom.file_out "out";
        rule = Preview.PreviewCollectRule.top_lines 1;
        to = Preview.PreviewCollectTo.text;
        optional = true;
      }
      ∷ [];
}

accepted : package_validate (λ keys. keys) packages ≡ ok preview
unfolding package_validate
accepted = refl

abbrev node_spec : NodeSpec
node_spec = record {
  kind =
      NodeKind.software_usecase_computing
        (record { usecase_version_id = 1; software_version_id = 2 });
  id = 7;
  name = "";
  description = "";
  input_slots =
      record {
        kind = NodeInputSlotKind.text (some (4 ∷ 5 ∷ [])) TextInputSlotRule.any_string;
        optional = false;
        descriptor = "x";
        description = none;
      }
      ∷ [];
  output_slots =
      record {
        kind = NodeSpecOutputSlotKind.text (8 ∷ []);
        descriptor = "e";
        description = none;
        optional = true;
      }
      ∷ record {
        kind = NodeSpecOutputSlotKind.file Common.FileOutOrigin.usecase_out false (9 ∷ []);
        descriptor = "f";
        description = none;
        optional = false;
      }
      ∷ [];
  scheduling_strategy = SchedulingStrategy.auto;
  batch_strategies = [];
  requirements = none;
  additional_datas = none;
}

abbrev row : NodeInstance
row = record {
  kind = NodeInstanceKind.software_usecase_computing;
  id = 7;
  name = "";
  is_parent = false;
  batch_parent_id = none;
  flow_instance_id = 3;
  status = NodeInstanceStatus.pending;
  cluster_id = none;
  log = none;
  resource_meter = none;
}

-- The first cluster is off, the second and the third are on.
abbrev grid : Grid
grid = record {
  store = record {
    nodes = row ∷ [];
    flows = [];
    statements = [];
    can_drop = true;
    sent = [];
    texts = (4, "10") ∷ (5, "20") ∷ [];
    next = 0;
  };
  clusters =
      record { id = 20; topic_name = "a"; enabled = false }
      ∷ record { id = 21; topic_name = "b"; enabled = true }
      ∷ record { id = 22; topic_name = "c"; enabled = true }
      ∷ [];
  installed = record { software_name = "s"; install_argument = some ("@1" ∷ "x" ∷ []) } ∷ [];
  block_list = record { name = "s"; version = "2" } ∷ [];
  tasks = [];
}

abbrev services : Services
services = record {
  getter = λ software usecase. ok use_case;
  render = λ content kv. ok content;
  order = λ m. m;
  random = λ n. 3;
  accepts = λ task. true;
}

abbrev task : Task
task = record {
  id = 7;
  body =
      TaskBody.software_deployment (FacilityKind.spack "s" ("@1" ∷ []))
      ∷ TaskBody.usecase_execution (record {
        name = "run";
        facility_kind = FacilityKind.spack "s" ("@1" ∷ []);
        arguments = "-n 10 20" ∷ [];
        environments = [];
        std_in = StdInKind.nothing;
        files = FileInfo.output 9 "o" false false ∷ [];
        requirements = none;
      })
      ∷ TaskBody.collected_out (Bodies.CollectFrom.file_out "o") (Bodies.CollectRule.top_lines 1)
          (Bodies.CollectTo.text 8) true
      ∷ [];
  command = TaskCommand.start;
}

parsed : parse_task services grid node_spec ≡ ok task
unfolding parse_task
parsed = refl

parse_task-body_example :
    (task.id ≡ node_spec.id)
    × (task.command ≡ TaskCommand.start)
    × ((deploy : Bool) × (deploys use_case.software_spec grid ≡ ok deploy)
        × ((x : Execution) × (outs : List TaskBody) × IsBody use_case deploy x outs task.body))
parse_task-body_example =
    parse_task-body services grid node_spec
      (record { usecase_version_id = 1; software_version_id = 2 }) use_case task refl refl parsed

handle_usecase-sent_example :
    (id : Uuid) × (c : Cluster) × (any (λ x. x.enabled && x.id == id) grid.clusters ≡ true)
    × (find (λ x. x.id == id) grid.clusters ≡ some c)
    × (handle_usecase services node_spec grid ≡ (ok tt, sent_to c row id task grid))
    × (operate_task services task.id TaskCommand.pause (sent_to c row id task grid) ≡ (
      ok tt,
      record (sent_to c row id task grid) {
        tasks =
            (grid.tasks ++ (task, c.topic_name) ∷ [])
            ++ (order_of task TaskCommand.pause, c.topic_name) ∷ [];
      },
    ))
handle_usecase-sent_example =
    handle_usecase-sent services grid node_spec task
      (record { id = 21; topic_name = "b"; enabled = true })
      (record { id = 22; topic_name = "c"; enabled = true } ∷ []) row TaskCommand.pause parsed refl
      refl refl refl refl

-- The second of the two clusters is drawn.
drawn : (handle_usecase services node_spec grid).1.tasks ≡ (task, "c") ∷ []
unfolding handle_usecase
drawn = refl

deploys_iff_example : deploys use_case.software_spec grid ≡ ok true
unfolding software_of
deploys_iff_example = deploys_iff "s" ("@1" ∷ []) grid refl

fill_slot-validated_example :
    (q : Parts) × (fold_m
        (fill_slot use_case (read_text grid.store) node_spec)
        packages.usecase_data.spec.input_slots
        no_parts
      ≡ ok q)
    × (q.files ≡ [])
unfolding get_content read_text
fill_slot-validated_example =
    fill_slot-validated 2 1 packages (read_text grid.store) node_spec (λ keys. keys) preview
      (record { literal = "10 20"; infiles = [] } ∷ []) no_parts accepted refl

output_slot-validated_example :
    (last : Outs) × (fold_m
        (output_slot use_case (read_text grid.store) node_spec)
        packages.usecase_data.spec.output_slots
        ([], [])
      ≡ ok last)
unfolding Slots.output_slot all_tasks_text_outputs all_tasks_file_outputs out_path_alter
output_slot-validated_example =
    output_slot-validated 2 1 packages (read_text grid.store) node_spec (λ keys. keys) preview
      ([], []) accepted ((8, refl), (((9, refl), (none, refl)), tt))
