-- ===== src/Agent/Collection.antt =====
-- `CollectionTaskServiceImpl` of src/agent/service/src/collection_task.rs: a text is collected from
-- a file of the task or from its output. `load_file` reads it, `matches` are the matches of a
-- regular expression, and `text_of` is the text of an error.
pub mod Lines
use Prim.Native.Char.{Char, code}
use Prim.Native.String
use kuintessence.Prelude.{
  ℕ, zero, suc, ◌+◌, ◌-◌, ◌%◌, ◌^◌, ◌==◌, ◌&&◌, String, Bool, true, false, List, [], ◌∷◌, length,
  Result, ok, err, panic, if◌then◌else◌,
}
use kuintessence.Workflow.Common.{Uuid}
use kuintessence.Workflow.Exec.{pure, bail, lift, ◌>>=◌, ◌>>◌}
use kuintessence.Agent.Types.{
  SubTask, TaskStatus, TaskType, CollectFrom, CollectRule, CollectTo, AgentError, unable_to_collect,
  mismatched_task_type,
}
use kuintessence.Agent.Repository.{Agent, get_sub_task, update_sub_task, save_changed}
use kuintessence.Agent.Site.{
  Call, Site, SiteAct, on_agent, call, save_file, report_completed_task, report_failed_task,
}

abbrev pub take {ℓ} : {A : Type ℓ} → ℕ → List A → List A
take zero xs = []
take (suc n) [] = []
take (suc n) (x ∷ xs) = x ∷ take n xs

-- `skip(n)`
abbrev pub drop {ℓ} : {A : Type ℓ} → ℕ → List A → List A
drop zero xs = xs
drop (suc n) [] = []
drop (suc n) (x ∷ xs) = drop n xs

-- `str::lines`: a line ends with a line feed, which may have a carriage return before it.
abbrev pub extend : Char → List String → List String
extend c [] = String.◌∷◌ c "" ∷ []
extend c (line ∷ lines) = String.◌∷◌ c line ∷ lines

abbrev pub is_at_feed : String → Bool
is_at_feed String.[] = false
is_at_feed (String.◌∷◌ c cs) = code c == 10

unfoldable pub lines_of : String → List String
lines_of String.[] = []
lines_of (String.◌∷◌ c cs) =
    let rest = lines_of cs in
    if code c == 10
    then "" ∷ rest
    else if code c == 13 && is_at_feed cs
    then rest
    else extend c rest

-- `join("\n")`
unfoldable pub join_lines : List String → String
join_lines [] = ""
join_lines (x ∷ []) = x
join_lines (x ∷ y ∷ xs) = String.◌++◌ x (String.◌++◌ "\n" (join_lines (y ∷ xs)))

unfoldable pub joined : Result AgentError (List String) → Result AgentError String
unfolding join_lines
joined panic = panic
joined (err e) = err e
joined (ok found) = ok (join_lines found)

-- `lines - n`: a `usize` wraps.
abbrev pub usize_sub : ℕ → ℕ → ℕ
usize_sub a b = (a + (2 ^ 64 - b)) % 2 ^ 64

-- The lines that a rule for lines keeps.
unfoldable pub bottom_lines : ℕ → List String → List String
bottom_lines n lines = take n (drop (usize_sub (length lines) n) lines)

unfoldable pub top_lines : ℕ → List String → List String
top_lines n lines = take n lines

module _ (takes : Call → Bool) (load_file : Uuid → CollectFrom → Result AgentError String)
    (matches : String → String → Result AgentError (List String))
    (text_of : AgentError → String) where
  unfoldable pub output_of : CollectRule → String → Result AgentError String
  unfolding lines_of bottom_lines top_lines joined join_lines
  output_of (CollectRule.regex exp) input = joined (matches exp input)
  output_of (CollectRule.bottom_lines n) input = ok (join_lines (bottom_lines n (lines_of input)))
  output_of (CollectRule.top_lines n) input = ok (join_lines (top_lines n (lines_of input)))

  unfoldable pub inner_run_sub_task : SubTask → SiteAct (Unit {0})
  unfolding output_of
  inner_run_sub_task sub_task = elim sub_task.task_type [
    | TaskType.collected_out from rule to optional ↦ elim (load_file sub_task.parent_id from) [
      | panic ↦ lift panic
      | err e ↦ if optional then pure tt else bail (unable_to_collect sub_task.id)
      | ok input ↦ lift (output_of rule input) >>= λ output.
          call takes (save_file sub_task.parent_id output to)
    ]
    | TaskType.software_deployment status ↦ bail (mismatched_task_type sub_task.id)
    | TaskType.usecase_execution name arguments environments std_in files ↦
        bail (mismatched_task_type sub_task.id)
    | TaskType.unknown ↦ bail (mismatched_task_type sub_task.id)
  ]

  set_sub_task : SubTask → SiteAct (Unit {0})
  unfolding update_sub_task save_changed
  set_sub_task sub_task =
      on_agent (update_sub_task sub_task) >>= λ _. on_agent save_changed >>= λ _. pure tt

  -- The two arms of the `match` on the result of the collection.
  unfoldable pub after : SubTask → Result AgentError (Unit {0}) → SiteAct (Unit {0})
  unfolding set_sub_task
  after sub_task panic = lift panic
  after sub_task (ok u) = set_sub_task (record sub_task { status = TaskStatus.completed }) >>= λ _.
      call takes (report_completed_task sub_task.id)
  after sub_task (err e) =
      set_sub_task (record sub_task {
        status = TaskStatus.failed;
        failed_reason = String.◌++◌ "Failed to collect value. Because of " (text_of e);
      })
      >>= λ _. call takes (report_failed_task sub_task.id) >>= λ _. bail e

  unfoldable pub enqueue_sub_task : Uuid → SiteAct (Unit {0})
  unfolding get_sub_task inner_run_sub_task after
  enqueue_sub_task id = on_agent (get_sub_task id) >>= λ sub_task.
      λ s. let (r, s') = inner_run_sub_task sub_task s in after sub_task r s'
