-- ===== src/Lifecycle/Order.antt =====
-- internal/evalevent/lifecycle.go: a run only moves forward.
use skill_up.Base.{ℕ, ◌≤◌, ◌≡◌, refl, ◌∙◌, sym, ap, true, false, Option, List, arith, ok}
use skill_up.Event.{RunPhase, add_u64}
use skill_up.Publisher.{Publisher}
use skill_up.Lifecycle.State.{
  Plan, Progress, phase_rank, begin_run, begin_iteration, begin_task, complete_task,
  complete_iteration, finish_run,
}
use skill_up.Lifecycle.Invariant.{Inv}
use skill_up.Lifecycle.Begin.{true≢false}
use skill_up.Lifecycle.Payloads.{completed-le}
use skill_up.Lifecycle.Calls.{Call, run}
use skill_up.Lifecycle.Keeps.{IsKept, run-keeps}
use skill_up.Lifecycle.Sound.{Inv-IsKept, new_lifecycle-fresh, new_lifecycle-Inv}
use skill_up.Lifecycle.{Lifecycle, LifecycleOptions, new_lifecycle}

-- `s` is reached from `s₀`: nothing that has been done is undone.
pub record IsLater (s₀ s : Progress) : Type 0 where
  pub same_total : s.task_total ≡ s₀.task_total
  pub phase : phase_rank s₀.phase ≤ phase_rank s.phase
  pub completed : s₀.completed ≤ s.completed
  pub started : s₀.started ≡ true → s.started ≡ true
  pub finished : s₀.finished ≡ true → s.finished ≡ true

-- A run that has not started has no phase.
abbrev IsBlank : Progress → Type 0
IsBlank s = s.started ≡ false → phase_rank s.phase ≡ 0

abbrev Follows : Progress → Progress → Type 0
Follows s₀ s = Inv s × IsBlank s × IsLater s₀ s

phase_rank-le : (phase : RunPhase) → phase_rank phase ≤ 3
unfolding phase_rank
phase_rank-le phase = ground arith

add_u64-ge : (n : ℕ) → n ≤ 9007199254740991 → n ≤ add_u64 n 1
add_u64-ge n h = omega arith

same_IsLater : (s : Progress) → IsLater s s
same_IsLater s = record {
  same_total = refl;
  phase = omega arith;
  completed = omega arith;
  started = λ h. h;
  finished = λ h. h;
}

Follows-IsKept : (s₀ : Progress) → IsKept (Follows s₀)
unfolding begin_run begin_iteration begin_task complete_task complete_iteration finish_run
    phase_rank
Follows-IsKept s₀ = record {
  runs = λ now s new (v, b, h). (
    Inv-IsKept.runs now s new v,
    (λ p. absurd (true≢false p)),
    record {
      same_total = h.same_total;
      phase = omega (arith, h.phase, b new);
      completed = h.completed;
      started = λ p. refl;
      finished = h.finished;
    },
  );
  phases = λ phase s live forward (v, b, h). (
    Inv-IsKept.phases phase s live forward v,
    (λ p. absurd (true≢false (sym live.started ∙ p))),
    record {
      same_total = h.same_total;
      phase = omega (arith, h.phase, forward);
      completed = h.completed;
      started = h.started;
      finished = h.finished;
    },
  );
  begins_iteration = λ now n it s x e new (v, b, h). (
    Inv-IsKept.begins_iteration now n it s x e new v,
    b,
    record {
      same_total = h.same_total;
      phase = h.phase;
      completed = h.completed;
      started = h.started;
      finished = h.finished;
    },
  );
  begins_task = λ now id t it s x e home o new (v, b, h). (
    Inv-IsKept.begins_task now id t it s x e home o new v,
    b,
    record {
      same_total = h.same_total;
      phase = h.phase;
      completed = h.completed;
      started = h.started;
      finished = h.finished;
    },
  );
  completes_task = λ id t it status s x valid e running home (v, b, h). (
    Inv-IsKept.completes_task id t it status s x valid e running home v,
    b,
    record {
      same_total = h.same_total;
      phase = h.phase;
      completed = omega (arith, h.completed, completed-le s v, v.bounded);
      started = h.started;
      finished = h.finished;
    },
  );
  completes_iteration = λ n it s x e running full (v, b, h). (
    Inv-IsKept.completes_iteration n it s x e running full v,
    b,
    record {
      same_total = h.same_total;
      phase = h.phase;
      completed = h.completed;
      started = h.started;
      finished = h.finished;
    },
  );
  finishes_run = λ status s live done (v, b, h). (
    Inv-IsKept.finishes_run status s live done v,
    (λ p. absurd (true≢false (sym live.started ∙ p))),
    record {
      same_total = h.same_total;
      phase = phase_rank-le s₀.phase;
      completed = h.completed;
      started = h.started;
      finished = λ p. refl;
    },
  );
}

new_lifecycle-Follows :
    (system_clock : ℕ → ℕ) (publisher : Option Publisher) (plan : Plan) (opts : LifecycleOptions)
    (l : Lifecycle)
    → new_lifecycle system_clock publisher plan opts ≡ ok l
    → Follows l.progress l.progress
unfolding phase_rank
new_lifecycle-Follows system_clock publisher plan opts l h =
    let (p, s, n, i, q, e, made) = new_lifecycle-fresh system_clock publisher plan opts l h in
    (
      new_lifecycle-Inv system_clock publisher plan opts l h,
      (λ p. ap (λ (k : Lifecycle). phase_rank k.phase) made),
      same_IsLater l.progress,
    )

-- From `NewLifecycle`, between any two moments of any sequence of calls: the phase does not go
-- back, the count of completed tasks does not fall, the number of tasks stays the same, and a run
-- that has started or finished stays so.
pub run-run-IsLater :
    (system_clock : ℕ → ℕ) (publisher : Option Publisher) (plan : Plan) (opts : LifecycleOptions)
    (l : Lifecycle) (cs ds : List Call)
    → new_lifecycle system_clock publisher plan opts ≡ ok l
    → IsLater (run cs l).progress (run ds (run cs l)).progress
run-run-IsLater system_clock publisher plan opts l cs ds h =
    let (v, b, later) =
      run-keeps (Follows l.progress) (Follows-IsKept l.progress) cs l
        (new_lifecycle-Follows system_clock publisher plan opts l h) in
    let s = (run cs l).progress in
    let (v', b', later') =
      run-keeps (Follows s) (Follows-IsKept s) ds (run cs l) (v, b, same_IsLater s) in
    later'
