-- ===== src/Agent/Examples.antt =====
-- Tests and witnesses for the agent.
mod Jobs
use kuintessence.Prelude.{◌≡◌, refl, none, some, Option, List, [], ◌∷◌, ok, find, ◌==◌, ◌&&◌}
use kuintessence.Workflow.Common.{Uuid}
use kuintessence.Workflow.Exec.{pure, ◌>>=◌}
use kuintessence.Agent.Types.{
  Task, SubTask, TaskStatus, TaskType, FacilityKind, TaskDisplayType, is_queuing,
}
use kuintessence.Agent.Repository.{Agent, get_task, insert_task}
use kuintessence.Agent.Repository.Stored.{insert_task-get_task}
use kuintessence.Agent.Scheduler.{
  SubTaskService, TaskReportService, schedule_next_task_by_id, enqueue_task,
  delete_all_completed_tasks,
}
use kuintessence.Agent.Scheduler.Full.{tasks_after, after_taking, schedule_next_task_by_id-full}
use kuintessence.Agent.Scheduler.Cleanup.{delete_all_completed_tasks-old}

abbrev report : TaskReportService
report = record {
  report_completed_task = λ id. pure tt;
  report_failed_task = λ id message. pure tt;
  report_paused_task = λ id. pure tt;
  report_resumed_task = λ id. pure tt;
  report_deleted_task = λ id. pure tt;
  report_started_task = λ id. pure tt;
}

abbrev idle_service : SubTaskService
idle_service = record {
  enqueue_sub_task = λ id. pure tt;
  continue_sub_task = λ id. pure tt;
  pause_sub_task = λ id. pure tt;
  delete_sub_task = λ id. pure tt;
}

abbrev services : TaskDisplayType → Option SubTaskService
services ty = some idle_service

abbrev sub_of : Uuid → Uuid → TaskStatus → SubTask
sub_of id parent_id status = record {
  id = id;
  parent_id = parent_id;
  status = status;
  facility_kind = FacilityKind.unknown;
  task_type = TaskType.unknown;
  job_id = "";
  failed_reason = "";
  resource_used = none;
  requirements = none;
}

abbrev task_of : Uuid → TaskStatus → List SubTask → Task
task_of id status body = record { id = id; status = status; body = body; update_time = 0 }

-- Task 1 runs its sub task 10, and task 2 waits with its sub task 20.
abbrev agent : Agent
agent = record {
  tasks = task_of 1 TaskStatus.running [] ∷ task_of 2 TaskStatus.queuing [] ∷ [];
  sub_tasks = sub_of 10 1 TaskStatus.running ∷ sub_of 20 2 TaskStatus.queuing ∷ [];
  task_files = [];
  saved_tasks = [];
  saved_sub_tasks = [];
  saved_task_files = [];
  tasks_count = 1;
  now = 9000;
}

abbrev new_task : Task
new_task =
    task_of 3 TaskStatus.queuing
      (sub_of 30 3 TaskStatus.queuing ∷ sub_of 31 3 TaskStatus.queuing ∷ [])

insert_task-get_task_example : ((insert_task new_task >>= λ _. get_task 3) agent).0 ≡ ok new_task
insert_task-get_task_example = insert_task-get_task new_task agent refl (refl, (refl, tt)) refl refl

schedule_next_task_by_id-full_example :
    (schedule_next_task_by_id services report 1 2 agent
      ≡ (ok tt, after_taking 2 (task_of 2 TaskStatus.queuing []) agent))
    × (find
          (λ x. x.id == 2 && is_queuing x.status)
          (tasks_after 2 (task_of 2 TaskStatus.queuing []) agent)
        ≡ none)
schedule_next_task_by_id-full_example =
    schedule_next_task_by_id-full services report 1 (task_of 2 TaskStatus.queuing [])
      (sub_of 20 2 TaskStatus.queuing) agent refl refl refl refl refl refl refl refl

-- Where there is room, an enqueued task runs and is counted.
enqueued : ((enqueue_task services report 2 new_task) agent).1.tasks_count ≡ 2
unfolding enqueue_task
enqueued = refl
