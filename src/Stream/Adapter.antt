-- ===== src/Stream/Adapter.antt =====
-- internal/cli/run_events.go: `evaluationEventAdapter`, the observer of the evaluator. Its mutex
-- guards its first error alone; the lifecycle has its own.
pub mod Relays
use skill_up.Base.{ℕ, ◌≡◌, Option, none, some, List, [], ◌∷◌, Str, codes, Result, ok, err, arith}
use skill_up.Base.Int.{ℤ}
use skill_up.Event.{CaseStatus, RunPhase, Float64}
use skill_up.Publisher.{Ctx}
use skill_up.Lifecycle.{Lifecycle}
use skill_up.Lifecycle.Calls
use skill_up.Lifecycle.Calls.{step}
use skill_up.Judge.{Status}
use skill_up.Stream.{Err, event, in_task, unsupported_status, positive_safe_event_integer}

pub record Adapter : Type 0 where
  pub lifecycle : Lifecycle
  pub err : Option Err

-- `record`: the first error stays.
unfoldable pub record_err : Option Err → Adapter → Adapter
record_err none a = a
record_err (some e) a = elim a.err [ none ↦ record a { err = some e } | some f ↦ a ]

abbrev pub as_event : Option skill_up.Event.Err → Option Err
as_event none = none
as_event (some e) = some (event e)

-- `a.record(a.lifecycle.method(...))`.
unfoldable pub record_call : Calls.Call → Adapter → Adapter
record_call c a =
    let (l, e) = step c a.lifecycle in record_err (as_event e) (record a { lifecycle = l })

-- `context.WithoutCancel`: the context that it makes is never cancelled.
abbrev pub event_observer_context : Ctx → Ctx
event_observer_context ctx = none

unfoldable pub evaluation_event_case_status : Status → Result Err CaseStatus
evaluation_event_case_status Status.pass = ok CaseStatus.pass
evaluation_event_case_status Status.fail = ok CaseStatus.fail
evaluation_event_case_status Status.error = ok CaseStatus.error
evaluation_event_case_status Status.skip = ok CaseStatus.skip
evaluation_event_case_status (Status.other s) = err (unsupported_status s)

-- The callbacks. A result is given by its status and, if it was graded, its pass rate.
pub data Callback : Type 0 where
  sets_phase : Ctx → RunPhase → Callback
  on_iteration_start : Ctx → ℤ → Callback
  on_iteration_complete : Ctx → ℤ → Callback
  on_task_start : Ctx → Str → Callback
  on_task_complete : Ctx → Str → Status → Option Float64 → Callback

-- The call for a converted value; or the error of the conversion, if there is one.
abbrev converted : {A : Type 0} → Result Err A → (Err → Err) → (A → Calls.Call) → Adapter → Adapter
converted (ok x) wrapped k a = record_call (k x) a
converted (err e) wrapped k a = record_err (some (wrapped e)) a

abbrev with_number : ℤ → (ℕ → Calls.Call) → Adapter → Adapter
with_number number = converted (positive_safe_event_integer (codes "iteration") number) (λ e. e)

unfoldable pub notify : Callback → Adapter → Adapter
notify (sets_phase ctx phase) a =
    record_call (Calls.sets_phase (event_observer_context ctx) phase) a
notify (on_iteration_start ctx number) a =
    with_number number (Calls.starts_iteration (event_observer_context ctx)) a
notify (on_iteration_complete ctx number) a =
    with_number number (Calls.completes_iteration (event_observer_context ctx)) a
notify (on_task_start ctx id) a = record_call (Calls.starts_case (event_observer_context ctx) id) a
notify (on_task_complete ctx id status rate) a =
    converted (evaluation_event_case_status status) (in_task id)
      (λ s. Calls.completes_case (event_observer_context ctx) id s rate) a

unfoldable pub notify_all : List Callback → Adapter → Adapter
notify_all [] a = a
notify_all (c ∷ cs) a = notify_all cs (notify c a)
