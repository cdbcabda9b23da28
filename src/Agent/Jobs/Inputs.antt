-- ===== src/Agent/Jobs/Inputs.antt =====
-- The inputs that a job waits for (src/agent/service/src/run_job.rs).
use kuintessence.Prelude.{
  String, Bool, true, false, ◌≡◌, refl, sym, subst, ap, ==_iff, find-test, ◌∙◌, Option, some, List,
  [], ◌∷◌, ◌++◌, Result, ok, not, ◌&&◌, ◌||◌, ◌==◌, find, keep, any, all, any-append, arith,
}
use kuintessence.Workflow.Common.{Uuid, HashMap}
use kuintessence.Agent.Types.{File, FileInfo, FileStatus, SubTask, TaskType, StdInKind, AgentError}
use kuintessence.Agent.Repository.{Agent, remove_first, save_changed, get_sub_task, update_sub_task}
use kuintessence.Agent.Repository.Files.{
  is_input, is_both, get_file, update_file, find_files_by_task, update_task_file_status,
}
use kuintessence.Agent.Site.{DeployerType, Job, ScriptInfo, Call, Site, Deployer, submit_job_script}
use kuintessence.Agent.Jobs.{save, software_of, submit, load_and_submit, internal_run_job, run_job}

any-found :
    (id : Uuid) (xs : List File) (f : File)
    → find (λ x. x.id == id) xs ≡ some f
    → any (λ x. x.id == id) xs ≡ true
any-found id [] f h = absurd (cc)
any-found id (x ∷ xs) f h = ground (arith, any-found id xs f)

any-weaken :
    (p q : File → Bool) (xs : List File) → any (λ x. p x && not (q x)) xs ≡ true → any p xs ≡ true
any-weaken p q [] h = ground arith
any-weaken p q (x ∷ xs) h = ground (arith, any-weaken p q xs)

-- What passes the second test is not removed by the first.
any-remove_first :
    (p q : File → Bool) (xs : List File)
    → any (λ x. p x && not (q x)) xs ≡ true
    → any p (remove_first q xs) ≡ true
any-remove_first p q [] h = ground arith
any-remove_first p q (x ∷ xs) h = ground (arith, any-remove_first p q xs, any-weaken p q xs)

-- An input of the sub task that has not arrived.
abbrev pub is_awaited : Uuid → File → Bool
is_awaited id x = (x.related_task_body == id && is_input x) && not (is_both x)

not-all-both :
    (id : Uuid) (xs : List File)
    → any (is_awaited id) xs ≡ true
    → all is_both (keep is_input (keep (λ x. x.related_task_body == id) xs)) ≡ false
not-all-both id [] h = ground arith
not-all-both id (x ∷ xs) h = ground (arith, not-all-both id xs)

abbrev marked : File → Agent → Agent
marked f a = record a {
  task_files =
      remove_first (λ x. x.id == f.id) a.task_files ++ record f { status = FileStatus.both } ∷ [];
}

-- The agent with the file at both ends, and saved.
abbrev pub arrived : File → Agent → Agent
arrived f a = record (marked f a) {
  saved_tasks = a.tasks;
  saved_sub_tasks = a.sub_tasks;
  saved_task_files = (marked f a).task_files;
}

update_task_file_status-marked :
    (f : File) (a : Agent)
    → find (λ x. x.id == f.id) a.task_files ≡ some f
    → update_task_file_status f.id FileStatus.both a ≡ (ok tt, marked f a)
unfolding update_task_file_status get_file update_file
update_task_file_status-marked f a there = rw there (rw (any-found f.id a.task_files f there) refl)

any-sub_task :
    (id : Uuid) (xs : List SubTask) (t : SubTask)
    → find (λ x. x.id == id) xs ≡ some t
    → any (λ x. x.id == id) xs ≡ true
any-sub_task id [] t h = absurd (cc)
any-sub_task id (x ∷ xs) t h = ground (arith, any-sub_task id xs t)

-- Everything in memory is on the disk.
abbrev pub saved : Site → Site
saved s = record s {
  agent = record s.agent {
    saved_tasks = s.agent.tasks;
    saved_sub_tasks = s.agent.sub_tasks;
    saved_task_files = s.agent.task_files;
  };
}

module _ (takes : Call → Bool) (job_id_of : ScriptInfo → String)
    (job_of : String → Result AgentError Job) (deployers : DeployerType → Option Deployer)
    (script_path : Uuid → String) where
  abbrev pub script_of :
      SubTask
      → String
      → Bool
      → String
      → List String
      → HashMap String String
      → StdInKind
      → ScriptInfo
  script_of task load mpi name arguments environments std_in = record {
    id = task.id;
    is_mpi_before_loader = mpi;
    parent_id = task.parent_id;
    name = name;
    load_software = load;
    path = script_path task.parent_id;
    arguments = arguments;
    environments = environments;
    std_in = std_in;
    requirements = task.requirements;
  }

  -- The script is with the scheduler, and the id of the job with the sub task.
  abbrev pub submitted : SubTask → ScriptInfo → Site → Site
  submitted task info s = record s {
    agent = record s.agent {
      sub_tasks =
          remove_first (λ x. x.id == task.id) s.agent.sub_tasks
          ++ record task { job_id = job_id_of info } ∷ [];
    };
    calls = s.calls ++ submit_job_script info ∷ [];
  }

  -- A file that has arrived is saved as such, and while another input of its sub task has not
  -- arrived, nothing else happens: no job is submitted and no other service is called.
  pub run_job-waits :
      (f : File) (s : Site)
      → find (λ x. x.id == f.id) s.agent.task_files ≡ some f
      → any (λ x. is_awaited f.related_task_body x && not (x.id == f.id)) s.agent.task_files ≡ true
      → run_job takes job_id_of job_of deployers script_path f.id s
        ≡ (ok tt, record s { agent = arrived f s.agent })
  unfolding run_job get_file save save_changed internal_run_job find_files_by_task
  run_job-waits f s there other =
      let after = remove_first (λ x. x.id == f.id) s.agent.task_files in
      let both = record f { status = FileStatus.both } in
      let waits : any (is_awaited f.related_task_body) (after ++ both ∷ []) ≡ true =
        any-append (is_awaited f.related_task_body) after (both ∷ [])
        ∙ ap (λ b. b || any (is_awaited f.related_task_body) (both ∷ []))
            (any-remove_first _ _ s.agent.task_files other) in
      rw there (
        rw (update_task_file_status-marked f s.agent there)
          (rw (not-all-both f.related_task_body (after ++ both ∷ []) waits) refl))

  submit-submitted :
      (task : SubTask) (load : String) (mpi : Bool) (s : Site) (name : String)
      (arguments : List String) (environments : HashMap String String) (std_in : StdInKind)
      (files : List FileInfo)
      → task.task_type ≡ TaskType.usecase_execution name arguments environments std_in files
      → find (λ x. x.id == task.id) s.agent.sub_tasks ≡ some task
      → takes (submit_job_script (script_of task load mpi name arguments environments std_in))
        ≡ true
      → submit takes job_id_of job_of deployers script_path task load mpi s
        ≡ (ok tt, submitted task (script_of task load mpi name arguments environments std_in) s)
  unfolding submit update_sub_task
  submit-submitted task load mpi s name arguments environments std_in files use_case there
        accepted =
      rw use_case (rw accepted (rw (any-sub_task task.id s.agent.sub_tasks task there) refl))

  load_and_submit-loaded :
      (task : SubTask) (software : DeployerType × (String × (List String × Bool))) (x : Deployer)
      (hash : String) (s s' : Site)
      → software_of task.facility_kind ≡ some software
      → deployers software.0 ≡ some x
      → x.find_installed_hash software.1.0 software.1.1.0 ≡ ok (some hash)
      → submit takes job_id_of job_of deployers script_path task
          (x.gen_load_script hash)
          software.1.1.1
          s
        ≡ (ok tt, s')
      → load_and_submit takes job_id_of job_of deployers script_path task s ≡ (ok tt, saved s')
  unfolding load_and_submit save save_changed
  load_and_submit-loaded task software x hash s s' facility deployer found sent =
      rw (load_and_submit, facility) (rw deployer (rw found (rw sent refl)))

  -- With the last input of a sub task that executes a use case the job is submitted, once and with
  -- the sub task's own command and the script that loads the software that was found; the id of the
  -- job is saved with the sub task.
  pub run_job-submits :
      (f : File) (s : Site) (task : SubTask)
      (software : DeployerType × (String × (List String × Bool))) (x : Deployer) (hash : String)
      (name : String) (arguments : List String) (environments : HashMap String String)
      (std_in : StdInKind) (files : List FileInfo)
      → find (λ x. x.id == f.id) s.agent.task_files ≡ some f
      → all is_both (
          keep is_input
            (keep (λ x. x.related_task_body == f.related_task_body) (marked f s.agent).task_files))
        ≡ true
      → find (λ x. x.id == f.related_task_body) s.agent.sub_tasks ≡ some task
      → software_of task.facility_kind ≡ some software
      → deployers software.0 ≡ some x
      → x.find_installed_hash software.1.0 software.1.1.0 ≡ ok (some hash)
      → task.task_type ≡ TaskType.usecase_execution name arguments environments std_in files
      → takes (
          submit_job_script (
            script_of task
              (x.gen_load_script hash)
              software.1.1.1
              name
              arguments
              environments
              std_in))
        ≡ true
      → run_job takes job_id_of job_of deployers script_path f.id s ≡ (
        ok tt,
        saved (
            submitted task
              (script_of task
                (x.gen_load_script hash)
                software.1.1.1
                name
                arguments
                environments
                std_in)
              (record s { agent = arrived f s.agent })),
      )
  unfolding run_job get_file save save_changed internal_run_job find_files_by_task get_sub_task
  run_job-submits f s task software x hash name arguments environments std_in files there all_here
        row facility deployer found use_case accepted =
      let same =
        (==_iff task.id f.related_task_body).0
          (find-test (λ y. y.id == f.related_task_body) s.agent.sub_tasks task row) in
      let arrived_there : find (λ x. x.id == task.id) s.agent.sub_tasks ≡ some task =
        subst (λ i. find (λ x. x.id == i) s.agent.sub_tasks ≡ some task) (sym same) row in
      let sent =
        submit-submitted task (x.gen_load_script hash) software.1.1.1
          (record s { agent = arrived f s.agent }) name arguments environments std_in files use_case
          arrived_there accepted in
      rw there (
        rw (update_task_file_status-marked f s.agent there) (
          rw all_here (
            rw row (
              load_and_submit-loaded task software x hash (record s { agent = arrived f s.agent }) _
                facility deployer found sent))))
