-- ===== src/Lifecycle/Complete.antt =====
-- internal/evalevent/lifecycle.go: a task that completes keeps the invariant.
use skill_up.Base.{
  ℕ, suc, ◌+◌, ◌≤◌, ◌≡◌, ◌∙◌, sym, inl, inr, Bool, true, false, some, Str, arith, length, bit, ◌==◌,
  lookup, insert, occurrences, remove, Bool-cases, str_key, nat_key, lookup-insert,
  lookup-insert_all, length-insert, lookup-insert-some, length-remove, occurrences-remove,
  str_eq→eq,
}
use skill_up.Event.{CaseStatus, add_u64, ResultCounts}
use skill_up.Event.Validate.{case_status_valid}
use skill_up.Lifecycle.State.{
  LifecycleTask, LifecycleIteration, Progress, complete_task, add_status,
}
use skill_up.Lifecycle.Invariant.{
  Tasks, tally, is_running, is_completed, is_in, is_completed_in, runs, sum_counts, IsTallied, Inv,
  tally-le-length, completed_in-le,
}
use skill_up.Lifecycle.Begin.{
  moved, true≢false, tally-replace, IsPlanned-replace, scheduled-replace,
}

-- A status that is one of the four adds one to their sum, which stays far from wrapping.
pub sum_counts-add_status :
    (c : ResultCounts) (status : CaseStatus) (n : ℕ)
    → case_status_valid status ≡ true
    → sum_counts c ≡ n
    → n ≤ 9007199254740991
    → sum_counts (add_status c status) ≡ suc n
unfolding case_status_valid add_status
sum_counts-add_status c status n h e k = ground arith

module _ (id : Str) (t : LifecycleTask) (it : LifecycleIteration) (status : CaseStatus)
    (s : Progress) (v : Inv s) (found : lookup id s.tasks ≡ some t) (begun : t.started ≡ true)
    (open' : t.completed ≡ false) (home : lookup t.task.iteration s.iterations ≡ some it)
    (ok_status : case_status_valid status ≡ true) (live : s.finished ≡ false) where
  abbrev after : Tasks
  after = insert id (moved t t.started true t.started_at) s.tasks

  replaced :
      (p : LifecycleTask → Bool)
      → tally p after + bit (p t) ≡ tally p s.tasks + bit (p (moved t t.started true t.started_at))
  replaced = tally-replace id t t.started true t.started_at s.tasks found

  present : occurrences id s.active_task_ids ≡ 1
  present = ground (arith, v.active live id, found)

  -- The set of active tasks holds exactly the tasks that still run.
  active_after :
      (j : Str) → occurrences j (remove id s.active_task_ids) ≡ bit (runs (lookup j after))
  active_after j = rw (lookup-insert id j (moved t t.started true t.started_at) s.tasks) (
      ground (
        arith,
        v.active live j,
        present,
        found,
        occurrences-remove id j s.active_task_ids,
        str_eq→eq id j,
      ))

  completed_after : add_u64 s.completed 1 ≡ tally is_completed after
  completed_after = ground (
    arith,
    v.completed,
    v.total,
    v.bounded,
    replaced is_completed,
    tally-le-length is_completed s.tasks,
  )

  -- The other iterations keep their tallies, and that of the task counts one more.
  IsTallied-other :
      (n : ℕ) (other : LifecycleIteration)
      → IsTallied s.tasks n other
      → (n == t.task.iteration) ≡ false
      → IsTallied after n other
  IsTallied-other n other w ne = record {
    in_range = w.in_range;
    completed_n = ground (arith, w.completed_n, replaced (is_completed_in n));
    result = w.result;
    size = ground (arith, w.size, replaced (is_in n));
    all_completed = w.all_completed;
  }

  abbrev counted_one_more : LifecycleIteration
  counted_one_more = record it {
    completed_n = add_u64 it.completed_n 1;
    result = add_status it.result status;
  }

  abbrev home_number : ℕ
  home_number = t.task.iteration

  one_more :
      IsTallied s.tasks home_number it
      → (tally (is_completed_in home_number) after ≡ suc it.completed_n)
        × (tally (is_in home_number) after ≡ length it.iteration.tasks)
        × (suc it.completed_n ≤ length it.iteration.tasks)
        × (length it.iteration.tasks ≤ 9007199254740991)
  one_more w = ground (
    arith,
    w.completed_n,
    w.size,
    v.total,
    v.bounded,
    replaced (is_completed_in home_number),
    replaced (is_in home_number),
    completed_in-le home_number after,
    tally-le-length (is_in home_number) s.tasks,
  )

  IsTallied-self : IsTallied s.tasks home_number it → IsTallied after home_number counted_one_more
  IsTallied-self w =
      let (c, i, le, b) = one_more w in
      record {
        in_range = w.in_range;
        completed_n = omega (arith, c, le, b);
        result =
            sum_counts-add_status it.result status it.completed_n ok_status w.result
              (omega (arith, le, b))
            ∙ omega (arith, le, b);
        size = sym i;
        all_completed = λ done. absurd (omega (arith, w.all_completed done, le));
      }

  IsTallied-after :
      (n : ℕ) (other : LifecycleIteration)
      → lookup n (insert home_number counted_one_more s.iterations) ≡ some other
      → IsTallied after n other
  IsTallied-after n other e = elim (Bool-cases (n == home_number)) [
    | inl y ↦
        let x : home_number ≡ n = ground arith in
        let o : counted_one_more ≡ other =
          ground (arith, e, lookup-insert home_number n counted_one_more s.iterations) in
        rw (← x, ← o) (IsTallied-self (v.iterations home_number it home))
    | inr ne ↦
        IsTallied-other n other
          (v.iterations n other
            (ground (arith, e, lookup-insert home_number n counted_one_more s.iterations)))
          ne
  ]

  bound : s.completed ≤ 9007199254740991
  bound = omega (arith, v.completed, v.total, v.bounded, tally-le-length is_completed s.tasks)

  pub complete_task-Inv : Inv (complete_task id t it status s)
  unfolding complete_task
  complete_task-Inv = record {
    total = length-insert id t _ s.tasks found ∙ v.total;
    positive = v.positive;
    bounded = v.bounded;
    planned =
        IsPlanned-replace id t t.started true t.started_at s.tasks found s.task_total v.planned;
    scheduled = scheduled-replace id t t.started true t.started_at s.tasks found _ λ j u e.
        let (o, q) = v.scheduled j u e in
        lookup-insert-some home_number u.task.iteration counted_one_more o s.iterations q;
    started_first =
        lookup-insert_all (λ j u. u.completed ≡ true → u.started ≡ true) id _ s.tasks (λ h. begun)
          v.started_first;
    active = λ h. active_after;
    running = λ h.
        ground
          (arith, v.running live, present, replaced is_running, length-remove id s.active_task_ids);
    idle = λ h. absurd (true≢false (sym h ∙ live));
    completed = completed_after;
    counted =
        sum_counts-add_status s.result_counts status s.completed ok_status v.counted bound
        ∙ omega (arith, bound);
    iterations = IsTallied-after;
    iterations_total = omega (
      arith,
      v.iterations_total,
      length-insert home_number it counted_one_more s.iterations home,
    );
    iterations_bounded = omega (
      arith,
      v.iterations_bounded,
      length-insert home_number it counted_one_more s.iterations home,
    );
  }
