-- ===== src/Lifecycle/Finality.antt =====
-- internal/evalevent/lifecycle.go: when a run may finish, and that it stays finished.
use skill_up.Base.{
  ℕ, ◌≡◌, refl, ◌↔◌, true, Option, none, some, [], ◌∷◌, Str, arith, length, count, All, Bool-cases,
  inl, inr,
}
use skill_up.Event.{
  CaseStatus, RunStatus, RunPhase, Float64, Err, already_started, already_finished,
}
use skill_up.Event.Validate.{run_status_valid}
use skill_up.Lifecycle.State.{LifecycleTask, LifecycleIteration, Progress}
use skill_up.Lifecycle.Invariant.{Tasks, Iterations, tally, is_completed, Inv, tally-le-length}
use skill_up.Lifecycle.Calls.{
  Call, starts, sets_phase, heartbeats, starts_iteration, starts_case, completes_case,
  completes_iteration, finishes, step,
}
use skill_up.Lifecycle.Keeps.{IsLive}
use skill_up.Lifecycle.{
  Lifecycle, guarded, ensure_active, ensure_executing, check_start, check_phase, check_result,
  check_finish, check_completed, unfinished_iteration, start, set_phase, heartbeat,
  iteration_started, case_started, case_completed, iteration_completed, finish, finish_locked,
  stop_heartbeat,
}

abbrev pub HasCompletedTask : Str × LifecycleTask → Type 0
HasCompletedTask e = e.1.completed ≡ true

abbrev pub HasCompletedIteration : ℕ × LifecycleIteration → Type 0
HasCompletedIteration e = e.1.completed ≡ true

All-of_tally :
    (tasks : Tasks) → tally is_completed tasks ≡ length tasks → All HasCompletedTask tasks
unfolding tally count
All-of_tally [] h = tt
All-of_tally (e ∷ es) h = elim (Bool-cases e.1.completed) [
  | inl y ↦ (y, All-of_tally es (ground (arith, y)))
  | inr n ↦ absurd (ground (arith, n, tally-le-length is_completed es))
]

tally-of_All :
    (tasks : Tasks) → All HasCompletedTask tasks → tally is_completed tasks ≡ length tasks
unfolding tally count
tally-of_All [] h = refl
tally-of_All (e ∷ es) h = ground (arith, h.0, tally-of_All es h.1)

unfinished_iteration-none_iff :
    (its : Iterations) → (unfinished_iteration its ≡ none) ↔ All HasCompletedIteration its
unfolding unfinished_iteration
unfinished_iteration-none_iff its = (λ h. to its h, λ h. from its h)
  where
    to : (its : Iterations) → unfinished_iteration its ≡ none → All HasCompletedIteration its
    to [] h = tt
    to ((n, it) ∷ its) h = ground (arith, to its)

    from : (its : Iterations) → All HasCompletedIteration its → unfinished_iteration its ≡ none
    from [] h = refl
    from ((n, it) ∷ its) h = ground (arith, h.0, from its h.1)

-- A run in a sound state may finish as completed exactly if it has started and not finished, and
-- every one of its tasks and iterations is completed.
pub check_finish-completed_iff :
    (s : Progress)
    → Inv s
    → (check_finish RunStatus.completed s ≡ none)
      ↔ (IsLive s × All HasCompletedTask s.tasks × All HasCompletedIteration s.iterations)
unfolding check_finish check_completed ensure_active run_status_valid
check_finish-completed_iff s v = (
  λ h.
      let total : s.completed ≡ s.task_total = ground (arith, h) in
      let its : unfinished_iteration s.iterations ≡ none = ground (arith, h) in
      let live : IsLive s = ground (arith, h) in
      (
        live,
        All-of_tally s.tasks (omega (arith, total, v.completed, v.total)),
        (unfinished_iteration-none_iff s.iterations).0 its,
      ),
  λ (live, tasks, its). ground (
    arith,
    live.started,
    live.live,
    tally-of_All s.tasks tasks,
    v.completed,
    v.total,
    (unfinished_iteration-none_iff s.iterations).1 its,
  ),
)

-- What a finished run answers: an error, and nothing has changed but the heartbeat's flags.
pub record IsRefused (l : Lifecycle) (r : Lifecycle × Option Err) : Type 0 where
  pub error : (e : Err) × (r.1 ≡ some e)
  pub progress : r.0.progress ≡ l.progress
  pub publisher : r.0.publisher ≡ l.publisher

guarded-IsRefused :
    (c : Option Err) (e : Err) (l k : Lifecycle) (r : Lifecycle × Option Err)
    → c ≡ some e
    → k.progress ≡ l.progress
    → k.publisher ≡ l.publisher
    → IsRefused l (guarded c k r)
guarded-IsRefused c e l k r h p q = rw h (record { error = (e, refl); progress = p; publisher = q })

module _ (s : Progress) (started : s.started ≡ true) (finished : s.finished ≡ true) where
  active : ensure_active s ≡ some already_finished
  unfolding ensure_active
  active = ground (arith, started, finished)

  not_new : (e n : Str) → check_start e n s ≡ some already_started
  unfolding check_start
  not_new e n = ground (arith, started)

  not_executing : ensure_executing s ≡ some already_finished
  unfolding ensure_executing
  not_executing = ground (arith, active)

  no_phase : (phase : RunPhase) → check_phase phase s ≡ some already_finished
  unfolding check_phase
  no_phase phase = ground (arith, active)

  no_result :
      (status : CaseStatus) (rate : Option Float64)
      → check_result status rate s ≡ some already_finished
  unfolding check_result
  no_result status rate = ground (arith, not_executing)

  no_finish : (status : RunStatus) → check_finish status s ≡ some already_finished
  unfolding check_finish
  no_finish status = ground (arith, active)

-- A run that has finished refuses every call with an error, and changes nothing but the flags of
-- the heartbeat.
pub step-IsRefused :
    (c : Call) (l : Lifecycle) → l.started ≡ true → l.finished ≡ true → IsRefused l (step c l)
unfolding step start set_phase heartbeat iteration_started case_started case_completed
    iteration_completed finish finish_locked stop_heartbeat
step-IsRefused (starts ctx engine name) l st fi =
    guarded-IsRefused _ _ l l _ (not_new l.progress st fi engine name) refl refl
step-IsRefused (sets_phase ctx phase) l st fi =
    guarded-IsRefused _ _ l l _ (no_phase l.progress st fi phase) refl refl
step-IsRefused (heartbeats ctx) l st fi =
    guarded-IsRefused _ _ l l _ (active l.progress st fi) refl refl
step-IsRefused (starts_iteration ctx n) l st fi =
    guarded-IsRefused _ _ l l _ (not_executing l.progress st fi) refl refl
step-IsRefused (starts_case ctx id) l st fi =
    guarded-IsRefused _ _ l l _ (not_executing l.progress st fi) refl refl
step-IsRefused (completes_case ctx id status rate) l st fi =
    guarded-IsRefused _ _ l l _ (no_result l.progress st fi status rate) refl refl
step-IsRefused (completes_iteration ctx n) l st fi =
    guarded-IsRefused _ _ l l _ (not_executing l.progress st fi) refl refl
step-IsRefused (finishes ctx status) l st fi =
    guarded-IsRefused _ _ l (stop_heartbeat l) _ (no_finish l.progress st fi status) refl refl
