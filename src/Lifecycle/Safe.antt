-- ===== src/Lifecycle/Safe.antt =====
-- internal/evalevent/lifecycle.go: every method, on every branch, leaves a sound state and returns
-- no error that is a defect of the lifecycle.
use skill_up.Base.{ℕ, ◌≡◌, refl, true, none, Str, arith, str_key, nat_key, Bool-cases, inl, inr}
use skill_up.Event.{RunPhase, Field, Payload}
use skill_up.Event.Validate.{validate, validate_non_empty_string}
use skill_up.Publisher.{Ctx}
use skill_up.Lifecycle.State.{Progress, begin_run, begin_task}
use skill_up.Lifecycle.Invariant.{Inv}
use skill_up.Lifecycle.Payloads.{task_fields-valid, run_started-valid}
use skill_up.Lifecycle.Calls.{publish_locked-keeps}
use skill_up.Lifecycle.Keeps.{
  ensure_active-started, ensure_executing-IsExecuting, check_start-new, check_phase-forward,
  check_new_iteration-new, check_new_task-new,
}
use skill_up.Lifecycle.Sound.{Inv-IsKept}
use skill_up.Lifecycle.Errors
use skill_up.Lifecycle.Errors.{
  IsClean, HasPhase, HasPhase-IsKept, IsSound, IsFine, publish_locked-IsFine,
  publish_last_locked-IsFine, publish_progress_locked-IsFine, ▸-IsFine, guarded-IsFine,
  with_task-IsFine, with_iteration-IsFine, with_iteration_of-IsFine,
}
use skill_up.Lifecycle.{
  Lifecycle, now, after_now, with_progress, ◌▸◌, ensure_active, ensure_executing, publish_locked,
  publish_progress_locked, start_heartbeat, is_positive, announce_run, start, set_phase, heartbeat,
  iteration_started, case_started, check_start, check_phase, check_new_iteration, check_new_task,
}

pub changed :
    (l : Lifecycle) (s : Progress)
    → Inv s
    → HasPhase s
    → IsSound l
    → IsSound (after_now (with_progress l s))
changed l s v p h = record { inv = v; phase = p; error = h.error }

-- A publication that a progress snapshot follows.
pub publish_both :
    (ctx : Ctx) (payload : Payload) (l : Lifecycle)
    → validate payload ≡ none
    → l.started ≡ true
    → IsSound l
    → IsFine (publish_locked ctx payload l ▸ publish_progress_locked ctx)
publish_both ctx payload l valid st h =
    ▸-IsFine (publish_locked ctx payload l) (publish_progress_locked ctx)
      (publish_locked-IsFine ctx payload l valid h)
      λ h'.
        publish_progress_locked-IsFine ctx _
          (publish_locked-keeps (λ s. s.started ≡ true) ctx payload l st) h'

start_heartbeat-IsSound : (l : Lifecycle) → IsSound l → IsSound (start_heartbeat l)
unfolding start_heartbeat
start_heartbeat-IsSound l h = elim (Bool-cases (is_positive l.interval)) [
  | inl y ↦ rw y (record { inv = h.inv; phase = h.phase; error = h.error })
  | inr n ↦ rw n (record { inv = h.inv; phase = h.phase; error = h.error })
]

check_start-named :
    (e n : Str) (s : Progress)
    → check_start e n s ≡ none
    → (validate_non_empty_string Field.engine e ≡ none)
      × (validate_non_empty_string Field.skill_name n ≡ none)
unfolding check_start
check_start-named e n s h = ground arith

pub start-IsFine : (ctx : Ctx) (e n : Str) (l : Lifecycle) → IsSound l → IsFine (start ctx e n l)
unfolding start announce_run validate begin_run
start-IsFine ctx e n l h =
    guarded-IsFine (check_start e n l.progress) l _ h (Errors.check_start-IsClean e n l.progress)
      λ c.
        let (en, nn) = check_start-named e n l.progress c in
        let new = check_start-new e n l.progress c in
        let s = begin_run (now l) l.progress in
        let v : Inv s = Inv-IsKept.runs (now l) l.progress new h.inv in
        ▸-IsFine (announce_run ctx e n l) (λ l'. (start_heartbeat l', none))
          (publish_both ctx _ (after_now (with_progress l s)) (run_started-valid s v e n en nn) refl
            (changed l s v (HasPhase-IsKept.runs (now l) l.progress new h.phase) h))
          λ h'. (start_heartbeat-IsSound _ h', tt)

pub set_phase-IsFine :
    (ctx : Ctx) (phase : RunPhase) (l : Lifecycle) → IsSound l → IsFine (set_phase ctx phase l)
unfolding set_phase
set_phase-IsFine ctx phase l h =
    guarded-IsFine (check_phase phase l.progress) l _ h
      (Errors.check_phase-IsClean phase l.progress)
      λ c.
        let (live, forward) = check_phase-forward phase l.progress c in
        publish_progress_locked-IsFine ctx _ live.started (record {
          inv = Inv-IsKept.phases phase l.progress live forward h.inv;
          phase = HasPhase-IsKept.phases phase l.progress live forward h.phase;
          error = h.error;
        })

pub heartbeat-IsFine : (ctx : Ctx) (l : Lifecycle) → IsSound l → IsFine (heartbeat ctx l)
unfolding heartbeat
heartbeat-IsFine ctx l h =
    guarded-IsFine (ensure_active l.progress) l _ h (Errors.ensure_active-IsClean l.progress)
      λ c. publish_progress_locked-IsFine ctx l (ensure_active-started l.progress c) h

pub iteration_started-IsFine :
    (ctx : Ctx) (n : ℕ) (l : Lifecycle) → IsSound l → IsFine (iteration_started ctx n l)
unfolding iteration_started validate
iteration_started-IsFine ctx n l h =
    guarded-IsFine (ensure_executing l.progress) l _ h (Errors.ensure_executing-IsClean l.progress)
      λ c.
        let x = ensure_executing-IsExecuting l.progress c in
        with_iteration-IsFine n l _ h λ it e.
          guarded-IsFine (check_new_iteration n it) l _ h (Errors.check_new_iteration-IsClean n it)
            λ d.
              let new = check_new_iteration-new n it d in
              publish_locked-IsFine ctx _ _ (h.inv.iterations n it e).in_range (
                changed l _ (Inv-IsKept.begins_iteration (now l) n it l.progress x e new h.inv)
                  (HasPhase-IsKept.begins_iteration (now l) n it l.progress x e new h.phase) h)

pub case_started-IsFine :
    (ctx : Ctx) (id : Str) (l : Lifecycle) → IsSound l → IsFine (case_started ctx id l)
unfolding case_started validate begin_task
case_started-IsFine ctx id l h =
    guarded-IsFine (ensure_executing l.progress) l _ h (Errors.ensure_executing-IsClean l.progress)
      λ c.
        let x = ensure_executing-IsExecuting l.progress c in
        with_task-IsFine id l _ h λ t e. with_iteration_of-IsFine id t l _ h e λ it home.
          guarded-IsFine (check_new_task id t it) l _ h (Errors.check_new_task-IsClean id t it) λ d.
            let (o, new) = check_new_task-new id t it d in
            publish_both ctx _ (after_now (with_progress l (begin_task (now l) id t l.progress)))
              (task_fields-valid l.progress h.inv id t e) x.started
              (changed l _ (Inv-IsKept.begins_task (now l) id t it l.progress x e home o new h.inv)
                (HasPhase-IsKept.begins_task (now l) id t it l.progress x e home o new h.phase) h)
