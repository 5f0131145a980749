-- ===== src/Lifecycle/Rest.antt =====
-- internal/evalevent/lifecycle.go: the changes that touch no task keep the invariant.
use skill_up.Base.{
  ℕ, ◌≡◌, refl, Bool, true, some, arith, length, lookup, insert, nat_key, lookup-insert_all,
  lookup-insert-some, length-insert,
}
use skill_up.Event.{RunPhase}
use skill_up.Lifecycle.State.{LifecycleIteration, Progress, finish_run}
use skill_up.Lifecycle.Invariant.{IsTallied, Inv}
use skill_up.Lifecycle.Begin.{true≢false}

-- The invariant says nothing of the phase and of the start of the run.
pub phase-Inv :
    (a : Bool) (phase : RunPhase) (at : ℕ) (s : Progress)
    → Inv s
    → Inv (record s { started = a; phase = phase; run_started_at = at })
phase-Inv a phase at s v = record {
  total = v.total;
  positive = v.positive;
  bounded = v.bounded;
  planned = v.planned;
  scheduled = v.scheduled;
  started_first = v.started_first;
  active = v.active;
  running = v.running;
  idle = v.idle;
  completed = v.completed;
  counted = v.counted;
  iterations = v.iterations;
  iterations_total = v.iterations_total;
  iterations_bounded = v.iterations_bounded;
}

-- Nor of the start of an iteration; and an iteration may be marked completed with all its tasks.
module _ (number : ℕ) (it : LifecycleIteration) (a c : Bool) (at : ℕ) (s : Progress) (v : Inv s)
    (found : lookup number s.iterations ≡ some it)
    (full : c ≡ true → it.completed_n ≡ length it.iteration.tasks) where
  abbrev marked : LifecycleIteration
  marked = record it { started = a; completed = c; started_at = at }

  marked-IsTallied : IsTallied s.tasks number it → IsTallied s.tasks number marked
  marked-IsTallied w = record {
    in_range = w.in_range;
    completed_n = w.completed_n;
    result = w.result;
    size = w.size;
    all_completed = full;
  }

  pub marked-Inv : Inv (record s { iterations = insert number marked s.iterations })
  marked-Inv = record {
    total = v.total;
    positive = v.positive;
    bounded = v.bounded;
    planned = v.planned;
    scheduled = λ id t e.
        let (o, q) = v.scheduled id t e in
        lookup-insert-some number t.task.iteration marked o s.iterations q;
    started_first = v.started_first;
    active = v.active;
    running = v.running;
    idle = v.idle;
    completed = v.completed;
    counted = v.counted;
    iterations =
        lookup-insert_all (IsTallied s.tasks) number marked s.iterations
          (marked-IsTallied (v.iterations number it found)) v.iterations;
    iterations_total =
        omega (arith, v.iterations_total, length-insert number it marked s.iterations found);
    iterations_bounded =
        omega (arith, v.iterations_bounded, length-insert number it marked s.iterations found);
  }

pub finish_run-Inv : (s : Progress) → Inv s → Inv (finish_run s)
unfolding finish_run
finish_run-Inv s v = record {
  total = v.total;
  positive = v.positive;
  bounded = v.bounded;
  planned = v.planned;
  scheduled = v.scheduled;
  started_first = v.started_first;
  active = λ h. absurd (true≢false h);
  running = λ h. absurd (true≢false h);
  idle = λ h. refl;
  completed = v.completed;
  counted = v.counted;
  iterations = v.iterations;
  iterations_total = v.iterations_total;
  iterations_bounded = v.iterations_bounded;
}
