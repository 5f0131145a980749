-- ===== src/Lifecycle/Snapshots.antt =====
-- internal/evalevent/lifecycle.go: what the maps hold that `snapshotPlan` builds.
use skill_up.Base.{
  ℕ, suc, ◌+◌, ◌≤◌, ◌≡◌, refl, ◌∙◌, sym, ap, subst, inl, inr, false, none, some, List, [], ◌∷◌, Str,
  arith, length, count, All, ◌==◌, if◌then◌else◌, lookup, insert, Bool-cases, str_key, nat_key,
  lookup-insert_all, lookup-insert-some, length-insert_new, lookup-insert_self, is_empty,
  count-insert_new, All-insert, ok,
}
use skill_up.Base.Results.{>>=-eq-ok}
use skill_up.Event.{Field}
use skill_up.Event.Validate.{validate_positive_integer}
use skill_up.Lifecycle.State.{
  Task, Iteration, LifecycleTask, LifecycleIteration, validate_plan_task,
}
use skill_up.Lifecycle.Planning.{
  Snapshot, add_task, add_tasks, add_iteration, add_iterations, fresh_task, fresh_iteration,
  count_tasks,
}
use skill_up.Lifecycle.Invariant.{Tasks, Iterations, tally, is_in, IsPlanned}

abbrev pub IsFresh : Str × LifecycleTask → Type 0
IsFresh e = (e.1.started ≡ false) × (e.1.completed ≡ false)

abbrev pub IsScheduled : Iterations → Str × LifecycleTask → Type 0
IsScheduled its e = (it : LifecycleIteration) × (lookup e.1.task.iteration its ≡ some it)

-- An entry of the map of iterations is new, and announces its tasks, of which `pending` are still
-- to come where it is the iteration `current`.
pub record IsNew (tasks : Tasks) (current pending n : ℕ) (it : LifecycleIteration) : Type 0 where
  pub in_range : validate_positive_integer Field.iteration n ≡ none
  pub fresh : it ≡ fresh_iteration it.iteration
  pub size :
      length it.iteration.tasks ≡ tally (is_in n) tasks + (if n == current then pending else 0)

-- Between two tasks of the iteration `current`, `pending` of which are to come.
pub record IsBuilt (task_total current pending : ℕ) (s : Snapshot) : Type 0 where
  pub planned : All (IsPlanned task_total) s.tasks
  pub fresh : All IsFresh s.tasks
  pub scheduled : All (IsScheduled s.iterations) s.tasks
  pub sizes :
      (n : ℕ) (it : LifecycleIteration)
      → lookup n s.iterations ≡ some it
      → IsNew s.tasks current pending n it

abbrev added : Task → Snapshot → Snapshot
added task s = record s {
  indices = task.index ∷ s.indices;
  tasks = insert task.id (fresh_task task) s.tasks;
}

add_task-ok :
    (task_total number : ℕ) (task : Task) (s s' : Snapshot)
    → add_task task_total number task s ≡ ok s'
    → (validate_plan_task task number task_total ≡ none)
      × (lookup task.id s.tasks ≡ none)
      × (s' ≡ added task s)
unfolding add_task
add_task-ok task_total number task s s' done = ground arith

validate_plan_task-iteration :
    (task : Task) (n total : ℕ) → validate_plan_task task n total ≡ none → task.iteration ≡ n
unfolding validate_plan_task
validate_plan_task-iteration task n total h = ground arith

module _ (task_total number k : ℕ) (task : Task) (s : Snapshot) (home : LifecycleIteration)
    (valid : validate_plan_task task number task_total ≡ none)
    (absent : lookup task.id s.tasks ≡ none) (at : lookup number s.iterations ≡ some home)
    (b : IsBuilt task_total number (suc k) s) where
  same : task.iteration ≡ number
  same = validate_plan_task-iteration task number task_total valid

  new-IsPlanned : IsPlanned task_total (task.id, fresh_task task)
  new-IsPlanned = record {
    checked = subst (λ n. validate_plan_task task n task_total ≡ none) (sym same) valid;
    own_key = refl;
    in_range =
        subst (λ n. validate_positive_integer Field.iteration n ≡ none) (sym same)
          (b.sizes number home at).in_range;
  }

  IsNew-size :
      (n : ℕ) (it : LifecycleIteration)
      → IsNew s.tasks number (suc k) n it
      → IsNew (insert task.id (fresh_task task) s.tasks) number k n it
  unfolding tally
  IsNew-size n it w = record {
    in_range = w.in_range;
    fresh = w.fresh;
    size =
        ground (
          arith,
          w.size,
          same,
          count-insert_new (is_in n) task.id (fresh_task task) s.tasks absent,
        );
  }

  added-IsBuilt : IsBuilt task_total number k (added task s)
  added-IsBuilt = record {
    planned =
        All-insert (IsPlanned task_total) task.id (fresh_task task) s.tasks new-IsPlanned b.planned;
    fresh = All-insert IsFresh task.id (fresh_task task) s.tasks (refl, refl) b.fresh;
    scheduled =
        All-insert (IsScheduled s.iterations) task.id (fresh_task task) s.tasks
          (home, subst (λ n. lookup n s.iterations ≡ some home) (sym same) at) b.scheduled;
    sizes = λ n it e. IsNew-size n it (b.sizes n it e);
  }

-- The inner loop, from the entry of its iteration to the end of its tasks.
add_tasks-IsBuilt :
    (task_total number : ℕ) (tasks : List Task) (s s' : Snapshot) (home : LifecycleIteration)
    → add_tasks task_total number tasks s ≡ ok s'
    → lookup number s.iterations ≡ some home
    → IsBuilt task_total number (length tasks) s
    → IsBuilt task_total number 0 s'
      × (length s'.tasks ≡ length s.tasks + length tasks)
      × (s'.iterations ≡ s.iterations)
unfolding add_tasks
add_tasks-IsBuilt task_total number [] s s' home done at b =
    let e : s ≡ s' = cc in (subst (IsBuilt task_total number 0) e b, ground arith, ground arith)
add_tasks-IsBuilt task_total number (task ∷ rest) s s' home done at b =
    let (m, e, f) = >>=-eq-ok (add_task task_total number task s) _ done in
    let (valid, absent, eq) = add_task-ok task_total number task s m e in
    let next = added-IsBuilt task_total number (length rest) task s home valid absent at b in
    let (r, l, i) =
      add_tasks-IsBuilt task_total number rest (added task s) s' home
        (subst (λ x. add_tasks task_total number rest x ≡ ok s') eq f) at next in
    (r, omega (arith, l, length-insert_new task.id (fresh_task task) s.tasks absent), i)

IsBuilt-current :
    (task_total c d : ℕ) (s : Snapshot) → IsBuilt task_total c 0 s → IsBuilt task_total d 0 s
IsBuilt-current task_total c d s b = record {
  planned = b.planned;
  fresh = b.fresh;
  scheduled = b.scheduled;
  sizes = λ n it e.
      let w = b.sizes n it e in
      record { in_range = w.in_range; fresh = w.fresh; size = ground (arith, w.size) };
}

-- No task is scheduled in an iteration that is not in the map.
tally-absent :
    (n : ℕ) (its : Iterations) (tasks : Tasks)
    → lookup n its ≡ none
    → All (IsScheduled its) tasks
    → tally (is_in n) tasks ≡ 0
unfolding tally count
tally-absent n its [] h a = refl
tally-absent n its (e ∷ es) h ((it, at), a) = elim (Bool-cases (e.1.task.iteration == n)) [
  | inl y ↦
      let x : e.1.task.iteration ≡ n = ground arith in
      absurd (none≢some it (sym h ∙ subst (λ m. lookup m its ≡ some it) x at))
  | inr q ↦ ground (arith, tally-absent n its es h a)
]
  where
    none≢some : (it : LifecycleIteration) → ¬ (none ≡ some it)
    none≢some it p = cc

abbrev opened : Iteration → Snapshot → Snapshot
opened it s = record s { iterations = insert it.number (fresh_iteration it) s.iterations }

add_iteration-ok :
    (task_total : ℕ) (it : Iteration) (s s' : Snapshot)
    → add_iteration task_total it s ≡ ok s'
    → (validate_positive_integer Field.iteration it.number ≡ none)
      × (lookup it.number s.iterations ≡ none)
      × (is_empty it.tasks ≡ false)
      × (add_tasks task_total it.number it.tasks (opened it s) ≡ ok s')
unfolding add_iteration
add_iteration-ok task_total it s s' done = ground arith

opened-IsBuilt :
    (task_total c : ℕ) (it : Iteration) (s : Snapshot)
    → validate_positive_integer Field.iteration it.number ≡ none
    → lookup it.number s.iterations ≡ none
    → IsBuilt task_total c 0 s
    → IsBuilt task_total it.number (length it.tasks) (opened it s)
opened-IsBuilt task_total c it s valid absent b = record {
  planned = b.planned;
  fresh = b.fresh;
  scheduled = All-scheduled s.tasks b.scheduled;
  sizes =
      lookup-insert_all (IsNew s.tasks it.number (length it.tasks)) it.number (fresh_iteration it)
        s.iterations
        (record {
          in_range = valid;
          fresh = refl;
          size = ground (arith, tally-absent it.number s.iterations s.tasks absent b.scheduled);
        })
        old;
}
  where
    All-scheduled :
        (tasks : Tasks)
        → All (IsScheduled s.iterations) tasks
        → All (IsScheduled (opened it s).iterations) tasks
    All-scheduled [] h = tt
    All-scheduled (e ∷ es) ((home, at), h) = (
      lookup-insert-some it.number e.1.task.iteration (fresh_iteration it) home s.iterations at,
      All-scheduled es h,
    )

    old :
        (n : ℕ) (other : LifecycleIteration)
        → lookup n s.iterations ≡ some other
        → IsNew s.tasks it.number (length it.tasks) n other
    old n other e =
        let w = b.sizes n other e in
        record { in_range = w.in_range; fresh = w.fresh; size = ground (arith, w.size, absent, e) }

-- Both loops: the maps describe the whole plan, and have its sizes.
pub add_iterations-IsBuilt :
    (task_total c : ℕ) (its : List Iteration) (s s' : Snapshot)
    → add_iterations task_total its s ≡ ok s'
    → IsBuilt task_total c 0 s
    → IsBuilt task_total c 0 s'
      × (length s'.tasks ≡ length s.tasks + count_tasks its)
      × (length s'.iterations ≡ length s.iterations + length its)
      × (length its ≤ count_tasks its)
unfolding add_iterations count_tasks
add_iterations-IsBuilt task_total c [] s s' done b =
    let e : s ≡ s' = cc in
    (subst (IsBuilt task_total c 0) e b, ground arith, ground arith, omega arith)
add_iterations-IsBuilt task_total c (it ∷ rest) s s' done b =
    let (m, e, f) = >>=-eq-ok (add_iteration task_total it s) _ done in
    let (valid, absent, full, tasks) = add_iteration-ok task_total it s m e in
    let (built, grown, same) =
      add_tasks-IsBuilt task_total it.number it.tasks (opened it s) m (fresh_iteration it) tasks
        (lookup-insert_self it.number (fresh_iteration it) s.iterations)
        (opened-IsBuilt task_total c it s valid absent b) in
    let (r, l, i, o) =
      add_iterations-IsBuilt task_total c rest m s' f
        (IsBuilt-current task_total it.number c m built) in
    (
      r,
      omega (arith, l, grown),
      omega (
        arith,
        i,
        ap length same,
        length-insert_new it.number (fresh_iteration it) s.iterations absent,
      ),
      omega (arith, o, is_empty-length it.tasks full),
    )
  where
    is_empty-length : (tasks : List Task) → is_empty tasks ≡ false → 1 ≤ length tasks
    is_empty-length [] h = cc
    is_empty-length (t ∷ ts) h = omega arith
