-- ===== src/Lifecycle/Keeps.antt =====
-- internal/evalevent/lifecycle.go: a property of the progress that every change keeps, under the
-- guards of the method that makes the change, is kept by every sequence of calls.
use skill_up.Base.{
  ℕ, ◌<◌, ◌≡◌, true, false, Option, none, some, List, [], ◌∷◌, Str, arith, length, lookup, str_key,
  nat_key, Bool-cases, inl, inr,
}
use skill_up.Event.{CaseStatus, RunStatus, RunPhase, Float64}
use skill_up.Event.Validate.{case_status_valid}
use skill_up.Publisher.{Ctx}
use skill_up.Lifecycle.State.{
  LifecycleTask, LifecycleIteration, Progress, phase_rank, begin_run, begin_iteration, begin_task,
  complete_task, complete_iteration, finish_run,
}
use skill_up.Lifecycle.{
  Lifecycle, Outcome, ensure_active, ensure_executing, check_completed, publish_finished,
  publish_progress_locked, start_heartbeat, start, set_phase, heartbeat, iteration_started,
  case_started, case_completed, iteration_completed, finish_locked, finish, stop_heartbeat,
  is_positive, announce_run, with_progress, check_start, check_phase, check_new_iteration,
  check_new_task, check_result, check_running_task, check_full_iteration, check_finish,
}
use skill_up.Lifecycle.Calls.{
  Call, starts, sets_phase, heartbeats, starts_iteration, starts_case, completes_case,
  completes_iteration, finishes, step, run, publish_locked-keeps, publish_last_locked-keeps,
  publish_progress_locked-keeps, ▸-keeps, guarded-keeps, with_task-keeps, with_iteration-keeps,
  with_iteration_of-keeps,
}

-- The run has started and has not finished.
pub record IsLive (s : Progress) : Type 0 where
  pub started : s.started ≡ true
  pub live : s.finished ≡ false

pub record IsExecuting (s : Progress) : Type 0 where
  pub started : s.started ≡ true
  pub live : s.finished ≡ false
  pub phase : s.phase ≡ RunPhase.executing

-- A change is kept under what the method has checked.
pub record IsKept (P : Progress → Type 0) : Type 0 where
  pub runs : (now : ℕ) (s : Progress) → s.started ≡ false → P s → P (begin_run now s)
  pub phases :
      (phase : RunPhase) (s : Progress)
      → IsLive s
      → phase_rank s.phase < phase_rank phase
      → P s
      → P (record s { phase = phase })
  pub begins_iteration :
      (now n : ℕ) (it : LifecycleIteration) (s : Progress)
      → IsExecuting s
      → lookup n s.iterations ≡ some it
      → it.started ≡ false
      → P s
      → P (begin_iteration now n it s)
  pub begins_task :
      (now : ℕ) (id : Str) (t : LifecycleTask) (it : LifecycleIteration) (s : Progress)
      → IsExecuting s
      → lookup id s.tasks ≡ some t
      → lookup t.task.iteration s.iterations ≡ some it
      → (it.started ≡ true) × (it.completed ≡ false)
      → t.started ≡ false
      → P s
      → P (begin_task now id t s)
  pub completes_task :
      (id : Str) (t : LifecycleTask) (it : LifecycleIteration) (status : CaseStatus) (s : Progress)
      → IsExecuting s
      → case_status_valid status ≡ true
      → lookup id s.tasks ≡ some t
      → (t.started ≡ true) × (t.completed ≡ false)
      → lookup t.task.iteration s.iterations ≡ some it
      → P s
      → P (complete_task id t it status s)
  pub completes_iteration :
      (n : ℕ) (it : LifecycleIteration) (s : Progress)
      → IsExecuting s
      → lookup n s.iterations ≡ some it
      → (it.started ≡ true) × (it.completed ≡ false)
      → it.completed_n ≡ length it.iteration.tasks
      → P s
      → P (complete_iteration n it s)
  pub finishes_run :
      (status : RunStatus) (s : Progress)
      → IsLive s
      → check_completed status s ≡ none
      → P s
      → P (finish_run s)

pub ensure_executing-IsExecuting : (s : Progress) → ensure_executing s ≡ none → IsExecuting s
unfolding ensure_executing ensure_active
ensure_executing-IsExecuting s h = ground arith

pub ensure_active-started : (s : Progress) → ensure_active s ≡ none → s.started ≡ true
unfolding ensure_active
ensure_active-started s h = ground arith

pub check_start-new : (e n : Str) (s : Progress) → check_start e n s ≡ none → s.started ≡ false
unfolding check_start
check_start-new e n s h = ground arith

pub check_phase-forward :
    (phase : RunPhase) (s : Progress)
    → check_phase phase s ≡ none
    → IsLive s × (phase_rank s.phase < phase_rank phase)
unfolding check_phase ensure_active
check_phase-forward phase s h = ground arith

pub check_new_iteration-new :
    (n : ℕ) (it : LifecycleIteration) → check_new_iteration n it ≡ none → it.started ≡ false
unfolding check_new_iteration
check_new_iteration-new n it h = ground arith

pub check_new_task-new :
    (id : Str) (t : LifecycleTask) (it : LifecycleIteration)
    → check_new_task id t it ≡ none
    → ((it.started ≡ true) × (it.completed ≡ false)) × (t.started ≡ false)
unfolding check_new_task
check_new_task-new id t it h = ground arith

pub check_result-valid :
    (status : CaseStatus) (rate : Option Float64) (s : Progress)
    → check_result status rate s ≡ none
    → IsExecuting s × (case_status_valid status ≡ true)
unfolding check_result ensure_executing ensure_active
check_result-valid status rate s h = ground arith

pub check_running_task-running :
    (id : Str) (t : LifecycleTask)
    → check_running_task id t ≡ none
    → (t.started ≡ true) × (t.completed ≡ false)
unfolding check_running_task
check_running_task-running id t h = ground arith

pub check_full_iteration-full :
    (n : ℕ) (it : LifecycleIteration)
    → check_full_iteration n it ≡ none
    → ((it.started ≡ true) × (it.completed ≡ false)) × (it.completed_n ≡ length it.iteration.tasks)
unfolding check_full_iteration
check_full_iteration-full n it h = ground arith

pub check_finish-IsLive :
    (status : RunStatus) (s : Progress)
    → check_finish status s ≡ none
    → IsLive s × (check_completed status s ≡ none)
unfolding check_finish ensure_active
check_finish-IsLive status s h = ground arith

module _ (P : Progress → Type 0) (k : IsKept P) where
  start_heartbeat-keeps : (l : Lifecycle) → P l.progress → P (start_heartbeat l).progress
  unfolding start_heartbeat
  start_heartbeat-keeps l h = elim (Bool-cases (is_positive l.interval)) [
    | inl y ↦ rw y h
    | inr n ↦ rw n h
  ]

  announce_run-keeps :
      (ctx : Ctx) (e n : Str) (l : Lifecycle)
      → l.started ≡ false
      → P l.progress
      → P (announce_run ctx e n l).0.progress
  unfolding announce_run
  announce_run-keeps ctx e n l new h =
      ▸-keeps P _ (publish_progress_locked ctx)
        (publish_locked-keeps P ctx _ _ (k.runs _ l.progress new h))
        (publish_progress_locked-keeps P ctx)

  start-keeps :
      (ctx : Ctx) (e n : Str) (l : Lifecycle) → P l.progress → P (start ctx e n l).0.progress
  unfolding start
  start-keeps ctx e n l h = guarded-keeps P (check_start e n l.progress) l _ h λ c.
      ▸-keeps P (announce_run ctx e n l) (λ l'. (start_heartbeat l', none))
        (announce_run-keeps ctx e n l (check_start-new e n l.progress c) h) start_heartbeat-keeps

  set_phase-keeps :
      (ctx : Ctx) (phase : RunPhase) (l : Lifecycle)
      → P l.progress
      → P (set_phase ctx phase l).0.progress
  unfolding set_phase
  set_phase-keeps ctx phase l h = guarded-keeps P (check_phase phase l.progress) l _ h λ c.
      let (live, forward) = check_phase-forward phase l.progress c in
      publish_progress_locked-keeps P ctx _ (k.phases phase l.progress live forward h)

  heartbeat-keeps : (ctx : Ctx) (l : Lifecycle) → P l.progress → P (heartbeat ctx l).0.progress
  unfolding heartbeat
  heartbeat-keeps ctx l h =
      guarded-keeps P (ensure_active l.progress) l _ h λ c. publish_progress_locked-keeps P ctx l h

  iteration_started-keeps :
      (ctx : Ctx) (n : ℕ) (l : Lifecycle) → P l.progress → P (iteration_started ctx n l).0.progress
  unfolding iteration_started
  iteration_started-keeps ctx n l h = guarded-keeps P (ensure_executing l.progress) l _ h λ c.
      with_iteration-keeps P n l _ h λ it found.
        guarded-keeps P (check_new_iteration n it) l _ h λ d. publish_locked-keeps P ctx _ _ (
          k.begins_iteration _ n it l.progress (ensure_executing-IsExecuting l.progress c) found
            (check_new_iteration-new n it d) h)

  case_started-keeps :
      (ctx : Ctx) (id : Str) (l : Lifecycle) → P l.progress → P (case_started ctx id l).0.progress
  unfolding case_started
  case_started-keeps ctx id l h = guarded-keeps P (ensure_executing l.progress) l _ h λ c.
      with_task-keeps P id l _ h λ t found. with_iteration_of-keeps P t l _ h λ it home.
        guarded-keeps P (check_new_task id t it) l _ h λ d.
          let (home_open, new) = check_new_task-new id t it d in
          ▸-keeps P _ _
            (publish_locked-keeps P ctx _ _ (
              k.begins_task _ id t it l.progress (ensure_executing-IsExecuting l.progress c) found
                home home_open new h))
            (publish_progress_locked-keeps P ctx)

  case_completed-keeps :
      (ctx : Ctx) (id : Str) (status : CaseStatus) (rate : Option Float64) (l : Lifecycle)
      → P l.progress
      → P (case_completed ctx id status rate l).0.progress
  unfolding case_completed
  case_completed-keeps ctx id status rate l h =
      guarded-keeps P (check_result status rate l.progress) l _ h λ c.
        with_task-keeps P id l _ h λ t found. guarded-keeps P (check_running_task id t) l _ h λ d.
          let (executing, valid) = check_result-valid status rate l.progress c in
          with_iteration_of-keeps P t l _ h λ it home.
            ▸-keeps P _ _
              (publish_locked-keeps P ctx _ _ (
                k.completes_task id t it status l.progress executing valid found
                  (check_running_task-running id t d) home h))
              (publish_progress_locked-keeps P ctx)

  iteration_completed-keeps :
      (ctx : Ctx) (n : ℕ) (l : Lifecycle)
      → P l.progress
      → P (iteration_completed ctx n l).0.progress
  unfolding iteration_completed
  iteration_completed-keeps ctx n l h = guarded-keeps P (ensure_executing l.progress) l _ h λ c.
      with_iteration-keeps P n l _ h λ it found.
        guarded-keeps P (check_full_iteration n it) l _ h λ d.
          let (running, full) = check_full_iteration-full n it d in
          publish_locked-keeps P ctx _ _ (
            k.completes_iteration n it l.progress (ensure_executing-IsExecuting l.progress c) found
              running full h)

  publish_finished-keeps :
      (ctx : Ctx) (status : RunStatus) (r : Outcome)
      → P r.0.progress
      → P (publish_finished ctx status r).0.progress
  unfolding publish_finished
  publish_finished-keeps ctx status (l, e) h = publish_last_locked-keeps P ctx _ _ h

  pub finish_locked-keeps :
      (ctx : Ctx) (status : RunStatus) (l : Lifecycle)
      → P l.progress
      → P (finish_locked ctx status l).0.progress
  unfolding finish_locked
  finish_locked-keeps ctx status l h = guarded-keeps P (check_finish status l.progress) l _ h λ c.
      let (live, done) = check_finish-IsLive status l.progress c in
      publish_finished-keeps ctx status
        (publish_progress_locked ctx (with_progress l (finish_run l.progress)))
        (publish_progress_locked-keeps P ctx _ (k.finishes_run status l.progress live done h))

  finish-keeps :
      (ctx : Ctx) (status : RunStatus) (l : Lifecycle)
      → P l.progress
      → P (finish ctx status l).0.progress
  unfolding finish stop_heartbeat
  finish-keeps ctx status l h = finish_locked-keeps ctx status (stop_heartbeat l) h

  pub step-keeps : (c : Call) (l : Lifecycle) → P l.progress → P (step c l).0.progress
  unfolding step
  step-keeps (starts ctx engine name) l h = start-keeps ctx engine name l h
  step-keeps (sets_phase ctx phase) l h = set_phase-keeps ctx phase l h
  step-keeps (heartbeats ctx) l h = heartbeat-keeps ctx l h
  step-keeps (starts_iteration ctx n) l h = iteration_started-keeps ctx n l h
  step-keeps (starts_case ctx id) l h = case_started-keeps ctx id l h
  step-keeps (completes_case ctx id status rate) l h = case_completed-keeps ctx id status rate l h
  step-keeps (completes_iteration ctx n) l h = iteration_completed-keeps ctx n l h
  step-keeps (finishes ctx status) l h = finish-keeps ctx status l h

  pub run-keeps : (cs : List Call) (l : Lifecycle) → P l.progress → P (run cs l).progress
  unfolding run
  run-keeps [] l h = h
  run-keeps (c ∷ cs) l h = run-keeps cs (step c l).0 (step-keeps c l h)
