-- ===== src/Usecases/NoAction.antt =====
-- The use case service of nodes that do nothing: src/kernel/src/services/use_cases/no_action.rs. The
-- state is what was sent to the topic `node_status`, which the status receiver reads.
use kuintessence.Prelude.{Bool, none, List, [], ◌∷◌, ◌++◌, ok, err, if◌then◌else◌}
use kuintessence.Workflow.Common.{Uuid}
use kuintessence.Workflow.Instance.{NodeSpec, TaskResult, TaskResultStatus, Error, service_failed}
use kuintessence.Workflow.Exec.{Exec}
use kuintessence.Workflow.Store.{TaskCommand}

abbrev pub ReportAct : Type 0 → Type 0
ReportAct A = Exec Error (List TaskResult) A

unfoldable pub status_of : TaskCommand → TaskResultStatus
status_of TaskCommand.start = TaskResultStatus.success
status_of TaskCommand.pause = TaskResultStatus.paused
status_of TaskCommand.continue = TaskResultStatus.success
status_of TaskCommand.delete = TaskResultStatus.deleted

module _ (accepts : TaskResult → Bool) where
  -- `send_object` with an empty message and no resources.
  abbrev pub send_report : Uuid → TaskResultStatus → ReportAct (Unit {0})
  send_report id status sent =
      let task_result : TaskResult = record {
        id = id;
        status = status;
        message = "";
        used_resources = none;
      } in
      if accepts task_result then (ok tt, sent ++ task_result ∷ []) else (err service_failed, sent)

  -- The node is done at once.
  unfoldable pub handle_usecase : NodeSpec → ReportAct (Unit {0})
  handle_usecase node_spec = send_report node_spec.id TaskResultStatus.success

  unfoldable pub operate_task : Uuid → TaskCommand → ReportAct (Unit {0})
  unfolding status_of
  operate_task task_id command = send_report task_id (status_of command)
