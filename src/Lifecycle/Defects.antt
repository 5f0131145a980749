-- ===== src/Lifecycle/Defects.antt =====
-- internal/evalevent/lifecycle.go: no method returns a defect, whatever was called before.
use skill_up.Base.{
  ℕ, ◌≡◌, true, Option, none, some, List, [], ◌∷◌, Str, arith, str_key, nat_key, ok,
  lookup-insert_self, sym, ◌∙◌, ap, subst,
}
use skill_up.Event.{CaseStatus, RunStatus, Float64, Err}
use skill_up.Event.Validate.{validate, run_status_valid, validate_pass_rate}
use skill_up.Publisher.{Ctx, Publisher, PublisherConfig, Platform, new_publisher}
use skill_up.Lifecycle.State.{Plan, Progress, complete_task, finish_run}
use skill_up.Lifecycle.Begin.{true≢false}
use skill_up.Lifecycle.Payloads.{
  case_completed-valid, iteration_completed-valid, run_finished-valid,
}
use skill_up.Lifecycle.Calls.{
  Call, starts, sets_phase, heartbeats, starts_iteration, starts_case, completes_case,
  completes_iteration, finishes, step, run,
}
use skill_up.Lifecycle.Keeps.{
  ensure_executing-IsExecuting, check_result-valid, check_running_task-running,
  check_full_iteration-full, check_finish-IsLive,
}
use skill_up.Lifecycle.Sound.{Inv-IsKept, new_lifecycle-fresh, new_lifecycle-Inv}
use skill_up.Lifecycle.Errors
use skill_up.Lifecycle.Errors.{
  IsClean, HasPhase, HasPhase-IsKept, IsSound, IsFine, publish_locked-IsFine,
  publish_last_locked-IsFine, publish_progress_locked-IsFine, guarded-IsFine, with_task-IsFine,
  with_iteration-IsFine, with_iteration_of-IsFine,
}
use skill_up.Lifecycle.Safe.{
  changed, publish_both, start-IsFine, set_phase-IsFine, heartbeat-IsFine, iteration_started-IsFine,
  case_started-IsFine,
}
use skill_up.Lifecycle.{
  Lifecycle, LifecycleOptions, Outcome, new_lifecycle, now, after_now, with_progress,
  ensure_executing, publish_finished, first_error, stop_heartbeat, case_completed,
  iteration_completed, finish_locked, finish, check_result, check_running_task,
  check_full_iteration, check_finish,
}

check_result-rate :
    (status : CaseStatus) (rate : Option Float64) (s : Progress)
    → check_result status rate s ≡ none
    → validate_pass_rate rate ≡ none
unfolding check_result
check_result-rate status rate s h = ground arith

case_completed-IsFine :
    (ctx : Ctx) (id : Str) (status : CaseStatus) (rate : Option Float64) (l : Lifecycle)
    → IsSound l
    → IsFine (case_completed ctx id status rate l)
unfolding case_completed validate complete_task
case_completed-IsFine ctx id status rate l h =
    guarded-IsFine (check_result status rate l.progress) l _ h
      (Errors.check_result-IsClean status rate l.progress)
      λ c.
        let (x, valid) = check_result-valid status rate l.progress c in
        with_task-IsFine id l _ h λ t e.
          guarded-IsFine (check_running_task id t) l _ h (Errors.check_running_task-IsClean id t)
            λ d. with_iteration_of-IsFine id t l _ h e λ it home.
              let running = check_running_task-running id t d in
              let s = complete_task id t it status l.progress in
              let v =
                Inv-IsKept.completes_task id t it status l.progress x valid e running home h.inv in
              publish_both ctx _ (after_now (with_progress l s))
                (case_completed-valid s v id (record t { completed = true }) status rate (now l)
                  (lookup-insert_self id _ l.tasks) valid
                  (check_result-rate status rate l.progress c))
                x.started
                (changed l s v
                  (HasPhase-IsKept.completes_task id t it status l.progress x valid e running home
                    h.phase)
                  h)

iteration_completed-IsFine :
    (ctx : Ctx) (n : ℕ) (l : Lifecycle) → IsSound l → IsFine (iteration_completed ctx n l)
unfolding iteration_completed validate
iteration_completed-IsFine ctx n l h =
    guarded-IsFine (ensure_executing l.progress) l _ h (Errors.ensure_executing-IsClean l.progress)
      λ c.
        let x = ensure_executing-IsExecuting l.progress c in
        with_iteration-IsFine n l _ h λ it e.
          guarded-IsFine (check_full_iteration n it) l _ h
            (Errors.check_full_iteration-IsClean n it)
            λ d.
              let (running, full) = check_full_iteration-full n it d in
              publish_locked-IsFine ctx _ _
                (iteration_completed-valid l.progress h.inv n it (now l) e)
                (changed l _ (Inv-IsKept.completes_iteration n it l.progress x e running full h.inv)
                  (HasPhase-IsKept.completes_iteration n it l.progress x e running full h.phase) h)

first_error-IsClean : (a b : Option Err) → IsClean a → IsClean b → IsClean (first_error a b)
first_error-IsClean none b h k = k
first_error-IsClean (some e) b h k = h

publish_finished-IsFine :
    (ctx : Ctx) (status : RunStatus) (r : Outcome)
    → run_status_valid status ≡ true
    → IsFine r
    → IsFine (publish_finished ctx status r)
unfolding publish_finished validate
publish_finished-IsFine ctx status (l, e) valid h =
    let f =
      publish_last_locked-IsFine ctx _ (after_now l)
        (run_finished-valid l.progress h.0.inv status (now l) valid)
        (changed l l.progress h.0.inv h.0.phase h.0) in
    (f.0, first_error-IsClean e _ h.1 f.1)

check_finish-status :
    (status : RunStatus) (s : Progress)
    → check_finish status s ≡ none
    → run_status_valid status ≡ true
unfolding check_finish
check_finish-status status s h = ground arith

finish-IsFine :
    (ctx : Ctx) (status : RunStatus) (l : Lifecycle) → IsSound l → IsFine (finish ctx status l)
unfolding finish finish_locked stop_heartbeat finish_run
finish-IsFine ctx status l h =
    guarded-IsFine (check_finish status l.progress) (stop_heartbeat l) _
      (record { inv = h.inv; phase = h.phase; error = h.error })
      (Errors.check_finish-IsClean status l.progress)
      λ c.
        let (live, done) = check_finish-IsLive status l.progress c in
        publish_finished-IsFine ctx status _ (check_finish-status status l.progress c) (
          publish_progress_locked-IsFine ctx _ live.started (record {
            inv = Inv-IsKept.finishes_run status l.progress live done h.inv;
            phase = HasPhase-IsKept.finishes_run status l.progress live done h.phase;
            error = h.error;
          }))

pub step-IsFine : (c : Call) (l : Lifecycle) → IsSound l → IsFine (step c l)
unfolding step
step-IsFine (starts ctx engine name) l h = start-IsFine ctx engine name l h
step-IsFine (sets_phase ctx phase) l h = set_phase-IsFine ctx phase l h
step-IsFine (heartbeats ctx) l h = heartbeat-IsFine ctx l h
step-IsFine (starts_iteration ctx n) l h = iteration_started-IsFine ctx n l h
step-IsFine (starts_case ctx id) l h = case_started-IsFine ctx id l h
step-IsFine (completes_case ctx id status rate) l h = case_completed-IsFine ctx id status rate l h
step-IsFine (completes_iteration ctx n) l h = iteration_completed-IsFine ctx n l h
step-IsFine (finishes ctx status) l h = finish-IsFine ctx status l h

pub run-IsSound : (cs : List Call) (l : Lifecycle) → IsSound l → IsSound (run cs l)
unfolding run
run-IsSound [] l h = h
run-IsSound (c ∷ cs) l h = run-IsSound cs (step c l).0 (step-IsFine c l h).0

new_publisher-error :
    (os : Platform) (cfg : PublisherConfig) (p : Publisher)
    → new_publisher os cfg ≡ ok p
    → p.error ≡ none
unfolding new_publisher
new_publisher-error os cfg p h = ground arith

pub new_lifecycle-IsSound :
    (os : Platform) (cfg : PublisherConfig) (p : Publisher) (system_clock : ℕ → ℕ) (plan : Plan)
    (opts : LifecycleOptions) (l : Lifecycle)
    → new_publisher os cfg ≡ ok p
    → new_lifecycle system_clock (some p) plan opts ≡ ok l
    → IsSound l
new_lifecycle-IsSound os cfg p system_clock plan opts l h k =
    let (q, s, n, i, same, e, made) = new_lifecycle-fresh system_clock (some p) plan opts l k in
    record {
      inv = new_lifecycle-Inv system_clock (some p) plan opts l k;
      phase = λ started. absurd (true≢false (sym started ∙ ap (λ (k : Lifecycle). k.started) made));
      error =
          subst (λ (k : Lifecycle). IsClean k.publisher.error) (sym made)
            (subst IsClean (sym (same_error p q same (new_publisher-error os cfg p h))) tt);
    }
  where
    same_error : (p q : Publisher) → some p ≡ some q → p.error ≡ none → q.error ≡ none
    same_error p q h k = ground arith

-- With a new publisher and a new lifecycle for any plan that it accepts, after any calls in any
-- order and whatever the sink and the clock answer, the next call returns no defect of the
-- lifecycle: it builds no payload that validation refuses, and meets no missing iteration.
pub run-step-IsClean :
    (os : Platform) (cfg : PublisherConfig) (p : Publisher) (system_clock : ℕ → ℕ) (plan : Plan)
    (opts : LifecycleOptions) (l : Lifecycle) (cs : List Call) (c : Call)
    → new_publisher os cfg ≡ ok p
    → new_lifecycle system_clock (some p) plan opts ≡ ok l
    → IsClean (step c (run cs l)).1
run-step-IsClean os cfg p system_clock plan opts l cs c h k =
    (step-IsFine c (run cs l)
      (run-IsSound cs l (new_lifecycle-IsSound os cfg p system_clock plan opts l h k))).1
