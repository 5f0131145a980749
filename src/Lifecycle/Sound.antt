-- ===== src/Lifecycle/Sound.antt =====
-- internal/evalevent/lifecycle.go: the invariant holds from `NewLifecycle` on, after every call.
use skill_up.Base.{
  ℕ, ◌≤◌, ◌≡◌, refl, ◌∙◌, sym, ap, subst, Bool, true, false, Option, none, some, List, [], ◌∷◌, Str,
  arith, length, count, bit, All, lookup, str_key, nat_key, All-lookup, ok, occurrences, inl, inr,
  Option-cases,
}
use skill_up.Base.Int.{ℤ}
use skill_up.Base.Results.{>>=-eq-ok}
use skill_up.Event.{max_safe_integer, RunPhase}
use skill_up.Publisher.{Publisher, get_or}
use skill_up.Lifecycle.State.{
  Plan, zero_counts, LifecycleTask, LifecycleIteration, Progress, begin_run, begin_iteration,
  complete_iteration,
}
use skill_up.Lifecycle.Planning.{
  Snapshot, snapshot_plan, count_tasks, add_iterations, empty_snapshot,
}
use skill_up.Lifecycle.Invariant.{
  Tasks, tally, is_running, is_completed, is_completed_in, runs, sum_counts, IsTallied, Inv,
}
use skill_up.Lifecycle.Begin.{true≢false, begin_task-Inv}
use skill_up.Lifecycle.Complete.{complete_task-Inv}
use skill_up.Lifecycle.Rest.{phase-Inv, marked-Inv, finish_run-Inv}
use skill_up.Lifecycle.Calls.{Call, step, run}
use skill_up.Lifecycle.Keeps.{IsKept, step-keeps, run-keeps}
use skill_up.Lifecycle.Snapshots.{IsFresh, IsScheduled, IsNew, IsBuilt, add_iterations-IsBuilt}
use skill_up.Lifecycle.{
  Lifecycle, LifecycleOptions, new_lifecycle, fresh_lifecycle, require_publisher, resolve_interval,
}

-- Every change keeps the invariant under the guards of its method.
pub Inv-IsKept : IsKept Inv
unfolding begin_run begin_iteration complete_iteration
Inv-IsKept = record {
  runs = λ now s h v. phase-Inv true _ now s v;
  phases = λ phase s live h v. phase-Inv s.started phase s.run_started_at s v;
  begins_iteration = λ now n it s x e h v.
      marked-Inv n it true it.completed now s v e (v.iterations n it e).all_completed;
  begins_task = λ now id t it s x e home o h v. begin_task-Inv now id t s v e h x.live;
  completes_task = λ id t it status s x valid e h home v.
      complete_task-Inv id t it status s v e h.0 h.1 home valid x.live;
  completes_iteration =
      λ n it s x e h full v. marked-Inv n it it.started true it.started_at s v e (λ p. full);
  finishes_run = λ status s live h v. finish_run-Inv s v;
}

-- A map of new tasks has none that runs or is completed.
tally-fresh :
    (p : LifecycleTask → Bool) (tasks : Tasks)
    → ((t : LifecycleTask) → (t.started ≡ false) × (t.completed ≡ false) → p t ≡ false)
    → All IsFresh tasks
    → tally p tasks ≡ 0
unfolding tally count
tally-fresh p [] f h = refl
tally-fresh p (e ∷ es) f h = ground (arith, f e.1 h.0, tally-fresh p es f h.1)

empty-IsBuilt : (n : ℕ) → IsBuilt n 0 0 empty_snapshot
unfolding lookup
empty-IsBuilt n = record {
  planned = tt;
  fresh = tt;
  scheduled = tt;
  sizes = λ k it e. absurd (none≢some it e);
}
  where
    none≢some : (it : LifecycleIteration) → ¬ (none ≡ some it)
    none≢some it p = cc

runs-fresh : (id : Str) (tasks : Tasks) → All IsFresh tasks → 0 ≡ bit (runs (lookup id tasks))
runs-fresh id tasks h = elim (Option-cases (lookup id tasks)) [
  | inl e ↦ rw e refl
  | inr (t, e) ↦ rw e (ground (arith, All-lookup IsFresh id t tasks h e))
]

fresh-IsTallied :
    (tasks : Tasks) (n : ℕ) (it : LifecycleIteration)
    → All IsFresh tasks
    → IsNew tasks 0 0 n it
    → IsTallied tasks n it
fresh-IsTallied tasks n it h w = record {
  in_range = w.in_range;
  completed_n = omega (
    arith,
    ap (λ (i : LifecycleIteration). i.completed_n) w.fresh,
    tally-fresh (is_completed_in n) tasks (λ t f. ground arith) h,
  );
  result = omega (
    arith,
    ap (λ (i : LifecycleIteration). sum_counts i.result) w.fresh,
    ap (λ (i : LifecycleIteration). i.completed_n) w.fresh,
  );
  size = ground (arith, w.size);
  all_completed =
      λ c. absurd (true≢false (sym c ∙ ap (λ (i : LifecycleIteration). i.completed) w.fresh));
}

snapshot_plan-ok :
    (plan : Plan) (s : Snapshot) (n : ℕ)
    → snapshot_plan plan ≡ ok (s, n)
    → (add_iterations n plan.iterations empty_snapshot ≡ ok s)
      × (n ≡ count_tasks plan.iterations)
      × (1 ≤ n)
      × (n ≤ max_safe_integer)
      × (1 ≤ length plan.iterations)
unfolding snapshot_plan
snapshot_plan-ok plan s n h = ground arith

abbrev pub initial : Snapshot → ℕ → Progress
initial s n = record {
  tasks = s.tasks;
  iterations = s.iterations;
  task_total = n;
  started = false;
  finished = false;
  phase = RunPhase.other [];
  run_started_at = 0;
  completed = 0;
  result_counts = zero_counts;
  active_task_ids = [];
}

fresh-Inv :
    (plan : Plan) (s : Snapshot) (n : ℕ) → snapshot_plan plan ≡ ok (s, n) → Inv (initial s n)
unfolding occurrences
fresh-Inv plan s n h =
    let (done, size, pos, max, some_it) = snapshot_plan-ok plan s n h in
    let (b, tasks, its, le) =
      add_iterations-IsBuilt n 0 plan.iterations empty_snapshot s done (empty-IsBuilt n) in
    record {
      total = omega (arith, tasks, size);
      positive = pos;
      bounded = max;
      planned = b.planned;
      scheduled = λ id t e. All-lookup (IsScheduled s.iterations) id t s.tasks b.scheduled e;
      started_first =
          λ id t e c. absurd (true≢false (sym c ∙ (All-lookup IsFresh id t s.tasks b.fresh e).1));
      active = λ live id. runs-fresh id s.tasks b.fresh;
      running = λ live. sym (tally-fresh is_running s.tasks (λ t f. ground arith) b.fresh);
      idle = λ done'. absurd (true≢false (sym done'));
      completed = sym (tally-fresh is_completed s.tasks (λ t f. f.1) b.fresh);
      counted = refl;
      iterations = λ k it e. fresh-IsTallied s.tasks k it b.fresh (b.sizes k it e);
      iterations_total = omega (arith, its, some_it);
      iterations_bounded = omega (arith, its, le, size, max);
    }

-- What `NewLifecycle` has checked, and what it returns.
pub new_lifecycle-fresh :
    (system_clock : ℕ → ℕ) (publisher : Option Publisher) (plan : Plan) (opts : LifecycleOptions)
    (l : Lifecycle)
    → new_lifecycle system_clock publisher plan opts ≡ ok l
    → (p : Publisher) × (s : Snapshot) × (n : ℕ) × (interval : ℤ) × (publisher ≡ some p)
      × (snapshot_plan plan ≡ ok (s, n))
      × (l ≡ fresh_lifecycle p (get_or opts.clock system_clock) interval s n)
unfolding new_lifecycle require_publisher
new_lifecycle-fresh system_clock publisher plan opts l h =
    let (p, e, f) = >>=-eq-ok (require_publisher publisher) _ h in
    let (planned, e', f') = >>=-eq-ok (snapshot_plan plan) _ f in
    let (interval, e'', f'') = >>=-eq-ok (resolve_interval opts.heartbeat_interval) _ f' in
    (p, planned.0, planned.1, interval, ground arith, e', ground arith)

pub new_lifecycle-Inv :
    (system_clock : ℕ → ℕ) (publisher : Option Publisher) (plan : Plan) (opts : LifecycleOptions)
    (l : Lifecycle)
    → new_lifecycle system_clock publisher plan opts ≡ ok l
    → Inv l.progress
new_lifecycle-Inv system_clock publisher plan opts l h =
    let (p, s, n, i, q, e, made) = new_lifecycle-fresh system_clock publisher plan opts l h in
    subst (λ (k : Lifecycle). Inv k.progress) (sym made) (fresh-Inv plan s n e)

-- Every call, on each of its branches, keeps the invariant: the counts of completed and running
-- tasks, of outcomes, and of each iteration are those of the task table.
pub step-Inv : (c : Call) (l : Lifecycle) → Inv l.progress → Inv (step c l).0.progress
step-Inv = step-keeps Inv Inv-IsKept

-- From `NewLifecycle`, with any plan that it accepts, the invariant holds after any calls, in any
-- order and with any answers of the sink and the clock.
pub run-new_lifecycle-Inv :
    (system_clock : ℕ → ℕ) (publisher : Option Publisher) (plan : Plan) (opts : LifecycleOptions)
    (l : Lifecycle) (cs : List Call)
    → new_lifecycle system_clock publisher plan opts ≡ ok l
    → Inv (run cs l).progress
run-new_lifecycle-Inv system_clock publisher plan opts l cs h =
    run-keeps Inv Inv-IsKept cs l (new_lifecycle-Inv system_clock publisher plan opts l h)
