-- ===== src/Agent/Repository/Stored.antt =====
-- Inserting a task and reading it (src/agent/app/src/infrastructure/repository.rs).
use kuintessence.Prelude.{
  Bool, true, false, ◌≡◌, refl, sym, ap, ◌∙◌, some, List, [], ◌∷◌, ◌++◌, ok, ◌==◌, find, any, all,
  keep, arith, ==_refl, Bool-cases, inl, inr, &&-eq-true,
}
use mathlib.Core.List.{append-nil, append_assoc}
use kuintessence.Workflow.Common.{Uuid}
use kuintessence.Workflow.Exec.{for_each, ◌>>=◌}
use kuintessence.Agent.Types.{Task, SubTask, TaskType, File, FileInfo}
use kuintessence.Agent.Repository.{
  Agent, remove_first, get_task, insert_file, file_of, insert_files, insert_sub_task, insert_task,
}

-- No two sub tasks have one id.
abbrev pub AreDistinct : List SubTask → Type 0
AreDistinct [] = Unit {0}
AreDistinct (x ∷ xs) = (any (λ (y : SubTask). y.id == x.id) xs ≡ false) × AreDistinct xs

abbrev of_parent : Uuid → SubTask → Bool
of_parent p x = x.parent_id == p

-- The sub tasks after a list of inserts.
abbrev insert_all : List SubTask → List SubTask → List SubTask
insert_all [] ys = ys
insert_all (x ∷ xs) ys = insert_all xs (remove_first (λ y. y.id == x.id) ys ++ x ∷ [])

files_inserted :
    (id : Uuid) (files : List FileInfo) (s : Agent)
    → (fs : List File) × ((for_each files λ file. insert_file (file_of id file)) s
        ≡ (ok tt, record s { task_files = fs }))
unfolding insert_file
files_inserted id [] s = (s.task_files, refl)
files_inserted id (f ∷ files) s =
    let e = file_of id f in
    files_inserted id files
      (record s { task_files = remove_first (λ x. x.id == e.id) s.task_files ++ e ∷ [] })

-- The files of a sub task touch nothing else.
insert_files-task_files :
    (id : Uuid) (ty : TaskType) (s : Agent)
    → (fs : List File) × (insert_files id ty s ≡ (ok tt, record s { task_files = fs }))
unfolding insert_files
insert_files-task_files id (TaskType.usecase_execution name arguments environments std_in files) s =
    files_inserted id files s
insert_files-task_files id (TaskType.software_deployment status) s = (s.task_files, refl)
insert_files-task_files id (TaskType.collected_out from rule to optional) s = (s.task_files, refl)
insert_files-task_files id TaskType.unknown s = (s.task_files, refl)

body_inserted :
    (xs : List SubTask) (s : Agent)
    → (fs : List File) × (for_each xs insert_sub_task s
        ≡ (ok tt, record s { sub_tasks = insert_all xs s.sub_tasks; task_files = fs }))
unfolding insert_sub_task
body_inserted [] s = (s.task_files, refl)
body_inserted (x ∷ xs) s =
    let removed : Agent = record s { sub_tasks = remove_first (λ y. y.id == x.id) s.sub_tasks } in
    let (fs, e) = insert_files-task_files x.id x.task_type removed in
    let next : Agent = record s {
      sub_tasks = remove_first (λ y. y.id == x.id) s.sub_tasks ++ x ∷ [];
      task_files = fs;
    } in
    let (gs, f) = body_inserted xs next in (gs, rw e f)

keep-append :
    (p : SubTask → Bool) (xs ys : List SubTask) → keep p (xs ++ ys) ≡ keep p xs ++ keep p ys
keep-append p [] ys = refl
keep-append p (x ∷ xs) ys = elim (Bool-cases (p x)) [
  | inl e ↦ rw e (ap (◌∷◌ x) (keep-append p xs ys))
  | inr e ↦ rw e (keep-append p xs ys)
]

-- Removing a sub task that is kept from view changes nothing that is seen.
keep-remove_first :
    (p q : SubTask → Bool) (ys : List SubTask)
    → any q (keep p ys) ≡ false
    → keep p (remove_first q ys) ≡ keep p ys
keep-remove_first p q [] h = refl
keep-remove_first p q (y ∷ ys) h = elim (Bool-cases (q y)) [
  | inl e ↦ elim (Bool-cases (p y)) [ inl f ↦ ground arith | inr f ↦ rw (e, f) refl ]
  | inr e ↦ elim (Bool-cases (p y)) [
    | inl f ↦ rw (e, f) (ap (◌∷◌ y) (keep-remove_first p q ys (ground arith)))
    | inr f ↦ rw (e, f) (keep-remove_first p q ys (ground arith))
  ]
]

-- None of the sub tasks to insert has the id of one that is there.
abbrev AreNew : List SubTask → List SubTask → Type 0
AreNew [] ys = Unit {0}
AreNew (x ∷ xs) ys = (any (λ (y : SubTask). y.id == x.id) ys ≡ false) × AreNew xs ys

AreNew-append :
    (xs ys : List SubTask) (z : SubTask)
    → AreNew xs ys
    → any (λ (y : SubTask). y.id == z.id) xs ≡ false
    → AreNew xs (ys ++ z ∷ [])
AreNew-append [] ys z new other = tt
AreNew-append (x ∷ xs) ys z new other =
    (one x ys new.0 (ground arith), AreNew-append xs ys z new.1 (ground arith))
  where
    one :
        (x : SubTask) (ys : List SubTask)
        → any (λ (y : SubTask). y.id == x.id) ys ≡ false
        → (x.id == z.id) ≡ false
        → any (λ (y : SubTask). y.id == x.id) (ys ++ z ∷ []) ≡ false
    one x [] a b = ground arith
    one x (y ∷ ys) a b = ground (arith, one x ys)

AreNew-nothing : (xs : List SubTask) → AreNew xs []
AreNew-nothing [] = tt
AreNew-nothing (x ∷ xs) = (refl, AreNew-nothing xs)

keep-insert_all :
    (p : SubTask → Bool) (xs ys : List SubTask)
    → all p xs ≡ true
    → AreDistinct xs
    → AreNew xs (keep p ys)
    → keep p (insert_all xs ys) ≡ keep p ys ++ xs
keep-insert_all p [] ys h d new = sym (append-nil (keep p ys))
keep-insert_all p (x ∷ xs) ys h d new =
    let (here, rest) = &&-eq-true (p x) (all p xs) h in
    let q : SubTask → Bool = λ y. y.id == x.id in
    let seen : keep p (remove_first q ys ++ x ∷ []) ≡ keep p ys ++ x ∷ [] =
      keep-append p (remove_first q ys) (x ∷ []) ∙ rw (here, keep-remove_first p q ys new.0) refl in
    let new' : AreNew xs (keep p (remove_first q ys ++ x ∷ [])) =
      rw seen (AreNew-append xs (keep p ys) x new.1 d.0) in
    keep-insert_all p xs (remove_first q ys ++ x ∷ []) rest d.1 new'
    ∙ rw seen (append_assoc (keep p ys) (x ∷ []) xs)

find-last :
    (t : Task) (ts : List Task)
    → any (λ (x : Task). x.id == t.id) ts ≡ false
    → find (λ x. x.id == t.id) (ts ++ t ∷ []) ≡ some t
find-last t [] h = let same : (t.id == t.id) ≡ true = ==_refl t.id in rw same refl
find-last t (x ∷ xs) h = ground (arith, find-last t xs)

-- A task that is inserted is read back whole, its sub tasks in their order, where its sub tasks name
-- it as their parent and have ids of their own, no sub task of an earlier task with its id is left,
-- and at most one task had its id.
pub insert_task-get_task :
    (entity : Task) (s : Agent)
    → all (λ x. x.parent_id == entity.id) entity.body ≡ true
    → AreDistinct entity.body
    → keep (λ (x : SubTask). x.parent_id == entity.id) s.sub_tasks ≡ []
    → any (λ (x : Task). x.id == entity.id) (remove_first (λ x. x.id == entity.id) s.tasks) ≡ false
    → ((insert_task entity >>= λ _. get_task entity.id) s).0 ≡ ok entity
unfolding insert_task get_task
insert_task-get_task entity s parents distinct none_left once =
    let removed : Agent = record s { tasks = remove_first (λ x. x.id == entity.id) s.tasks } in
    let (fs, e) = body_inserted entity.body removed in
    let new : AreNew entity.body (keep (of_parent entity.id) s.sub_tasks) =
      rw none_left (AreNew-nothing entity.body) in
    let body : keep (of_parent entity.id) (insert_all entity.body s.sub_tasks) ≡ entity.body =
      keep-insert_all (of_parent entity.id) entity.body s.sub_tasks parents distinct new
      ∙ rw none_left refl in
    simp (e, find-last entity removed.tasks once, body) refl
