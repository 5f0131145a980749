-- ===== src/Lifecycle/Begin.antt =====
-- internal/evalevent/lifecycle.go: a task that starts keeps the invariant, and so do the changes
-- that touch no task.
use skill_up.Base.{
  ℕ, ◌+◌, ◌≡◌, refl, ◌∙◌, sym, inl, inr, Bool, true, false, some, Str, arith, bit, All, lookup,
  insert, occurrences, add, Bool-cases, str_key, nat_key, lookup-insert, lookup-insert_all,
  length-insert, count-insert, All-insert, All-lookup, add-absent, str_eq→eq,
}
use skill_up.Lifecycle.State.{LifecycleTask, LifecycleIteration, Progress, begin_task}
use skill_up.Lifecycle.Invariant.{
  Tasks, Iterations, tally, is_running, is_completed, is_in, is_completed_in, runs, IsPlanned,
  IsTallied, Inv,
}

pub true≢false : ¬ (◌≡◌ {A = Bool} true false)
true≢false h = cc

-- A state of the task `t`.
abbrev pub moved : LifecycleTask → Bool → Bool → ℕ → LifecycleTask
moved t started completed at = record t {
  started = started;
  completed = completed;
  started_at = at;
}

module _ (id : Str) (t : LifecycleTask) (b c : Bool) (at : ℕ) (tasks : Tasks)
    (found : lookup id tasks ≡ some t) where
  pub tally-replace :
      (p : LifecycleTask → Bool)
      → tally p (insert id (moved t b c at) tasks) + bit (p t)
        ≡ tally p tasks + bit (p (moved t b c at))
  unfolding tally
  tally-replace p = count-insert p id t (moved t b c at) tasks found

  pub IsPlanned-replace :
      (n : ℕ) → All (IsPlanned n) tasks → All (IsPlanned n) (insert id (moved t b c at) tasks)
  IsPlanned-replace n h =
      let q = All-lookup (IsPlanned n) id t tasks h found in
      All-insert (IsPlanned n) id (moved t b c at) tasks
        (record { checked = q.checked; own_key = q.own_key; in_range = q.in_range }) h

  pub scheduled-replace :
      (iterations : Iterations)
      → ((j : Str) (u : LifecycleTask)
          → lookup j tasks ≡ some u
          → (it : LifecycleIteration) × (lookup u.task.iteration iterations ≡ some it))
      → (j : Str) (u : LifecycleTask) → lookup j (insert id (moved t b c at) tasks) ≡ some u
      → (it : LifecycleIteration) × (lookup u.task.iteration iterations ≡ some it)
  scheduled-replace iterations h =
      lookup-insert_all
        (λ j u. (it : LifecycleIteration) × (lookup u.task.iteration iterations ≡ some it)) id
        (moved t b c at) tasks (h id t found) h

-- The tallies that an iteration is compared with do not change if a task starts.
module _ (now : ℕ) (id : Str) (t : LifecycleTask) (s : Progress) (v : Inv s)
    (found : lookup id s.tasks ≡ some t) (new : t.started ≡ false) (live : s.finished ≡ false) where
  not_completed : t.completed ≡ false
  not_completed = elim (Bool-cases t.completed) [
    | inl y ↦ absurd (cc (v.started_first id t found y))
    | inr n ↦ n
  ]

  absent : occurrences id s.active_task_ids ≡ 0
  absent = ground (arith, v.active live id, found)

  -- The set of active tasks still holds exactly the running ones.
  active_after :
      (j : Str)
      → occurrences j (add id s.active_task_ids)
        ≡ bit (runs (lookup j (insert id (moved t true t.completed now) s.tasks)))
  unfolding occurrences
  active_after j =
      rw
        (
          add-absent id s.active_task_ids absent,
          lookup-insert id j (moved t true t.completed now) s.tasks,
        )
        (ground (arith, v.active live j, str_eq→eq id j, not_completed, absent))

  IsTallied-after :
      (n : ℕ) (it : LifecycleIteration)
      → IsTallied s.tasks n it
      → IsTallied (insert id (moved t true t.completed now) s.tasks) n it
  IsTallied-after n it w = record {
    in_range = w.in_range;
    completed_n = omega (
      arith,
      w.completed_n,
      tally-replace id t true t.completed now s.tasks found (is_completed_in n),
    );
    result = w.result;
    size = omega (arith, w.size, tally-replace id t true t.completed now s.tasks found (is_in n));
    all_completed = w.all_completed;
  }

  pub begin_task-Inv : Inv (begin_task now id t s)
  unfolding begin_task
  begin_task-Inv = record {
    total = length-insert id t _ s.tasks found ∙ v.total;
    positive = v.positive;
    bounded = v.bounded;
    planned = IsPlanned-replace id t true t.completed now s.tasks found s.task_total v.planned;
    scheduled = scheduled-replace id t true t.completed now s.tasks found s.iterations v.scheduled;
    started_first =
        lookup-insert_all (λ j u. u.completed ≡ true → u.started ≡ true) id _ s.tasks (λ h. refl)
          v.started_first;
    active = λ h. active_after;
    running = λ h. rw (add-absent id s.active_task_ids absent) (
        ground (
          arith,
          v.running live,
          not_completed,
          tally-replace id t true t.completed now s.tasks found is_running,
        ));
    idle = λ h. absurd (true≢false (sym h ∙ live));
    completed =
        omega
          (arith, v.completed, tally-replace id t true t.completed now s.tasks found is_completed);
    counted = v.counted;
    iterations = λ n it e. IsTallied-after n it (v.iterations n it e);
    iterations_total = v.iterations_total;
    iterations_bounded = v.iterations_bounded;
  }
