-- ===== src/Lifecycle/Calls.antt =====
-- internal/evalevent/lifecycle.go: sequences of calls, and how a property of the progress passes
-- through the steps of which every method is made.
use skill_up.Base.{
  ℕ, ◌≡◌, refl, Option, none, some, List, [], ◌∷◌, Str, lookup, str_key, nat_key, Option-cases, inl,
  inr,
}
use skill_up.Event.{CaseStatus, RunStatus, RunPhase, Float64, Payload, Err}
use skill_up.Publisher.{Ctx, Publisher}
use skill_up.Lifecycle.State.{LifecycleTask, LifecycleIteration, Progress}
use skill_up.Lifecycle.{
  Lifecycle, Outcome, guarded, ◌▸◌, record_publication, publish_locked, publish_last_locked,
  publish_progress_locked, with_iteration, with_task, with_iteration_of, start, set_phase,
  heartbeat, iteration_started, case_started, case_completed, iteration_completed, finish,
}

pub data Call : Type 0 where
  starts : Ctx → Str → Str → Call
  sets_phase : Ctx → RunPhase → Call
  heartbeats : Ctx → Call
  starts_iteration : Ctx → ℕ → Call
  starts_case : Ctx → Str → Call
  completes_case : Ctx → Str → CaseStatus → Option Float64 → Call
  completes_iteration : Ctx → ℕ → Call
  finishes : Ctx → RunStatus → Call

unfoldable pub step : Call → Lifecycle → Outcome
step (starts ctx engine skill_name) l = start ctx engine skill_name l
step (sets_phase ctx phase) l = set_phase ctx phase l
step (heartbeats ctx) l = heartbeat ctx l
step (starts_iteration ctx number) l = iteration_started ctx number l
step (starts_case ctx id) l = case_started ctx id l
step (completes_case ctx id status pass_rate) l = case_completed ctx id status pass_rate l
step (completes_iteration ctx number) l = iteration_completed ctx number l
step (finishes ctx status) l = finish ctx status l

-- The calls of all goroutines, in the order in which they take the mutex.
unfoldable pub run : List Call → Lifecycle → Lifecycle
run [] l = l
run (c ∷ cs) l = run cs (step c l).0

pub record_publication-progress :
    (l : Lifecycle) (r : Publisher × Option Err) → (record_publication l r).0.progress ≡ l.progress
unfolding record_publication
record_publication-progress l (p, none) = refl
record_publication-progress l (p, some e) = refl

module _ (P : Progress → Type 0) where
  pub publish_locked-keeps :
      (ctx : Ctx) (payload : Payload) (l : Lifecycle)
      → P l.progress
      → P (publish_locked ctx payload l).0.progress
  unfolding publish_locked
  publish_locked-keeps ctx payload l h = rw record_publication-progress h

  pub publish_last_locked-keeps :
      (ctx : Ctx) (payload : Payload) (l : Lifecycle)
      → P l.progress
      → P (publish_last_locked ctx payload l).0.progress
  unfolding publish_last_locked
  publish_last_locked-keeps ctx payload l h = rw record_publication-progress h

  pub publish_progress_locked-keeps :
      (ctx : Ctx) (l : Lifecycle) → P l.progress → P (publish_progress_locked ctx l).0.progress
  unfolding publish_progress_locked
  publish_progress_locked-keeps ctx l h = publish_locked-keeps ctx _ _ h

  pub ▸-keeps :
      (r : Outcome) (k : Lifecycle → Outcome)
      → P r.0.progress
      → ((l : Lifecycle) → P l.progress → P (k l).0.progress)
      → P (r ▸ k).0.progress
  ▸-keeps (l, none) k h f = f l h
  ▸-keeps (l, some e) k h f = h

  pub guarded-keeps :
      (c : Option Err) (l : Lifecycle) (r : Outcome)
      → P l.progress
      → (c ≡ none → P r.0.progress)
      → P (guarded c l r).0.progress
  guarded-keeps none l r h f = f refl
  guarded-keeps (some e) l r h f = h

  pub with_task-keeps :
      (id : Str) (l : Lifecycle) (k : LifecycleTask → Outcome)
      → P l.progress
      → ((t : LifecycleTask) → lookup id l.tasks ≡ some t → P (k t).0.progress)
      → P (with_task id l k).0.progress
  with_task-keeps id l k h f = elim (Option-cases (lookup id l.tasks)) [
    | inl e ↦ rw (e, with_task) h
    | inr (t, e) ↦ rw (e, with_task) (f t e)
  ]

  pub with_iteration-keeps :
      (n : ℕ) (l : Lifecycle) (k : LifecycleIteration → Outcome)
      → P l.progress
      → ((it : LifecycleIteration) → lookup n l.iterations ≡ some it → P (k it).0.progress)
      → P (with_iteration n l k).0.progress
  with_iteration-keeps n l k h f = elim (Option-cases (lookup n l.iterations)) [
    | inl e ↦ rw (e, with_iteration) h
    | inr (t, e) ↦ rw (e, with_iteration) (f t e)
  ]

  pub with_iteration_of-keeps :
      (t : LifecycleTask) (l : Lifecycle) (k : LifecycleIteration → Outcome)
      → P l.progress
      → ((it : LifecycleIteration)
          → lookup t.task.iteration l.iterations ≡ some it
          → P (k it).0.progress)
      → P (with_iteration_of t l k).0.progress
  with_iteration_of-keeps t l k h f = elim (Option-cases (lookup t.task.iteration l.iterations)) [
    | inl e ↦ rw (e, with_iteration_of) h
    | inr (it, e) ↦ rw (e, with_iteration_of) (f it e)
  ]
