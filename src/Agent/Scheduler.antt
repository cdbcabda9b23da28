-- ===== src/Agent/Scheduler.antt =====
-- `TaskSchedulerServiceImpl` of src/agent/service/src/task_scheduler.rs. The services of sub tasks
-- and the service that reports to the cloud are interfaces: what they do to the agent is a
-- parameter.
pub mod Full
pub mod Cleanup
use kuintessence.Prelude.{
  ℕ, ◌+◌, ◌-◌, ◌%◌, ◌^◌, String, Bool, true, false, Option, none, some, List, [], ◌∷◌, map, ok,
  ok_or, ◌==◌, ◌&&◌, ◌||◌, not, find, any, all, ltb, if◌then◌else◌,
}
use kuintessence.Workflow.Common.{Uuid}
use kuintessence.Workflow.Exec.{pure, bail, lift, gets, for_each, ◌>>=◌, ◌>>◌}
use kuintessence.Agent.Types.{
  Task, SubTask, TaskStatus, TaskDisplayType, display_type, is_queuing, is_running, is_suspended,
  is_completing, is_completed, not_in_queue, no_queued_body, no_sub_task_service, unable_to_pause,
}
use kuintessence.Agent.Repository.{
  Agent, Act, get_task, get_all_tasks, get_sub_task, update_task, update_sub_task, insert_task,
  delete_task_by_id, get_next_queuing_id, save_changed,
}

-- `SubTaskService` of src/agent/domain/src/service/sub_task_service.rs, as far as it is called
-- here.
pub record SubTaskService : Type 0 where
  pub enqueue_sub_task : Uuid → Act (Unit {0})
  pub continue_sub_task : Uuid → Act (Unit {0})
  pub pause_sub_task : Uuid → Act (Unit {0})
  pub delete_sub_task : Uuid → Act (Unit {0})

-- `TaskReportService` of src/agent/domain/src/service/task_report_service.rs
pub record TaskReportService : Type 0 where
  pub report_completed_task : Uuid → Act (Unit {0})
  pub report_failed_task : Uuid → String → Act (Unit {0})
  pub report_paused_task : Uuid → Act (Unit {0})
  pub report_resumed_task : Uuid → Act (Unit {0})
  pub report_deleted_task : Uuid → Act (Unit {0})
  pub report_started_task : Uuid → Act (Unit {0})

-- The counter is a `u32`: it wraps both ways.
abbrev pub u32_mod : ℕ
u32_mod = 2 ^ 32

unfoldable pub count_up : Act (Unit {0})
count_up s = (ok tt, record s { tasks_count = (s.tasks_count + 1) % u32_mod })

unfoldable pub count_down : Act (Unit {0})
count_down s = (ok tt, record s { tasks_count = (s.tasks_count + (u32_mod - 1)) % u32_mod })

abbrev pub queued : Task → Task
queued task = record task {
  status = TaskStatus.queuing;
  body = map (λ (x : SubTask). record x { status = TaskStatus.queuing }) task.body;
}

abbrev pub is_busy : SubTask → Bool
is_busy x = is_running x.status || is_completing x.status

abbrev pub is_startable : SubTask → Bool
is_startable x = is_queuing x.status || is_suspended x.status

module _ (services : TaskDisplayType → Option SubTaskService) (report : TaskReportService)
    (max_tasks_count : ℕ) where
  -- The task is taken from the queue; one that runs already goes on.
  take_task : Task → Act (Unit {0})
  unfolding update_task save_changed
  take_task task =
      if is_queuing task.status
      then (update_task (record task { status = TaskStatus.running }) >>= λ _.
          save_changed >>= λ _. pure tt)
      else if not (is_running task.status)
      then bail (not_in_queue task.id)
      else pure tt

  start_body : SubTask → Act (Unit {0})
  start_body task_body =
      lift (
        ok_or (no_sub_task_service (display_type task_body.task_type))
          (services (display_type task_body.task_type)))
      >>= λ x.
          if is_queuing task_body.status
          then x.enqueue_sub_task task_body.id
          else x.continue_sub_task task_body.id

  -- Where the agent is full, nothing is started.
  start_if_room : SubTask → Act (Unit {0})
  unfolding count_up start_body
  start_if_room task_body = gets (λ s. s.tasks_count) >>= λ task_count.
      if not (max_tasks_count == 0) && task_count == max_tasks_count
      then pure tt
      else (count_up >> start_body task_body)

  unfoldable pub schedule_next_task_by_id : Uuid → Act (Unit {0})
  unfolding get_task take_task start_if_room
  schedule_next_task_by_id id = get_task id >>= λ task. take_task task >>= λ _.
      report.report_started_task id >>= λ _.
      if any is_busy task.body
      then pure tt
      else (lift (ok_or (no_queued_body task.id) (find is_startable task.body)) >>= start_if_room)

  unfoldable pub schedule_next_task : Act (Unit {0})
  unfolding get_next_queuing_id schedule_next_task_by_id
  schedule_next_task = get_next_queuing_id >>= λ next. elim next [
    | some id ↦ schedule_next_task_by_id id
    | none ↦ pure tt
  ]

  unfoldable pub enqueue_task : Task → Act (Unit {0})
  unfolding insert_task save_changed schedule_next_task_by_id
  enqueue_task task = do insert_task (queued task); save_changed; schedule_next_task_by_id task.id

  -- The call of a service that may be missing.
  with_service : (SubTaskService → Act (Unit {0})) → SubTask → Act (Unit {0})
  with_service call sub_task = elim (services (display_type sub_task.task_type)) [
    | some x ↦ call x
    | none ↦ pure tt
  ]

  pause_body : Task → Act (Unit {0})
  unfolding with_service
  pause_body task =
      for_each task.body λ sub_task. with_service (λ x. x.pause_sub_task sub_task.id) sub_task

  unfoldable pub pause_task : Uuid → Act (Unit {0})
  unfolding get_task pause_body update_task save_changed count_down schedule_next_task
  pause_task id = get_task id >>= λ task. elim task.status [
    | TaskStatus.queuing ↦ pause_body task >>= λ _.
        update_task (record task { status = TaskStatus.suspended }) >>= λ _.
        report.report_paused_task id >>= λ _. save_changed >>= λ _. pure tt
    | TaskStatus.running ↦ count_down >>= λ _. pause_body task >>= λ _.
        update_task (record task { status = TaskStatus.suspended }) >>= λ _.
        save_changed >>= λ _. report.report_paused_task id >>= λ _. schedule_next_task
    | _ ↦ bail (unable_to_pause id)
  ]

  -- A task that runs is paused before it is deleted.
  stop_running : Task → Act (Unit {0})
  unfolding pause_body update_task save_changed count_down schedule_next_task
  stop_running task =
      if is_running task.status
      then (count_down >>= λ _. pause_body task >>= λ _.
          update_task (record task { status = TaskStatus.suspended }) >>= λ _.
          save_changed >>= λ _. schedule_next_task)
      else pure tt

  unfoldable pub delete_task : Uuid → Bool → Act (Unit {0})
  unfolding get_task stop_running with_service delete_task_by_id save_changed
  delete_task id is_internal = do
    task ← get_task id
    stop_running task
    for_each task.body λ sub_task. with_service (λ x. x.delete_sub_task sub_task.id) sub_task
    delete_task_by_id id
    (if is_internal then pure tt else report.report_deleted_task id)
    save_changed
    pure tt

  unfoldable pub continue_task : Uuid → Act (Unit {0})
  unfolding get_task update_task save_changed schedule_next_task_by_id
  continue_task id = do
    task ← get_task id
    update_task (record task { status = TaskStatus.queuing })
    save_changed
    report.report_resumed_task id
    schedule_next_task_by_id task.id

  -- The end of `complete_sub_task`: the task is complete, or its next sub task is started.
  after_completion : Task → Uuid → Act (Unit {0})
  unfolding update_task save_changed schedule_next_task schedule_next_task_by_id
  after_completion task parent_id =
      if all (λ (x : SubTask). is_completed x.status) task.body
      then (update_task (record task { status = TaskStatus.completed }) >>= λ _.
          save_changed >>= λ _. report.report_completed_task parent_id >>= λ _. schedule_next_task)
      else schedule_next_task_by_id parent_id

  unfoldable pub complete_sub_task : Uuid → Act (Unit {0})
  unfolding get_sub_task update_sub_task save_changed count_down get_task after_completion
  complete_sub_task id = do
    sub_task ← get_sub_task id
    update_sub_task (record sub_task { status = TaskStatus.completed })
    save_changed
    count_down
    task ← get_task sub_task.parent_id
    after_completion task sub_task.parent_id

  unfoldable pub fail_sub_task : Uuid → Act (Unit {0})
  unfolding count_down get_sub_task get_task update_task save_changed schedule_next_task
  fail_sub_task id = do
    count_down
    sub_task ← get_sub_task id
    task ← get_task sub_task.parent_id
    update_task (record task { status = TaskStatus.failed })
    save_changed
    report.report_failed_task sub_task.parent_id sub_task.failed_reason
    schedule_next_task

  -- `update_time > now - 2h`: the tasks that completed within the last two hours.
  unfoldable pub delete_all_completed_tasks : Act (Unit {0})
  unfolding get_all_tasks delete_task
  delete_all_completed_tasks = get_all_tasks >>= λ tasks. for_each tasks λ (task : Task).
      gets (λ s. s.now) >>= λ now.
      if is_completed task.status && ltb now (task.update_time + 7200)
      then delete_task task.id true
      else pure tt
