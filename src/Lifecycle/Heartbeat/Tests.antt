-- ===== src/Lifecycle/Heartbeat/Tests.antt =====
-- internal/evalevent/lifecycle.go: a run whose heartbeat is started before it is finished.
use skill_up.Base.{◌≡◌, refl, Bool, true, false, none, some, codes, inl, ap}
use skill_up.Base.{valid_string}
use skill_up.Event.{RunStatus}
use skill_up.Event.Validate.{
  validate, snapshot, event_type, event_version, run_started_validate, run_progress_validate,
  counts_validate, counts_total, validate_safe_integer, validate_positive_integer,
  validate_non_empty_string, validate_string, phase_valid,
}
use skill_up.Publisher.{publish, publish_event, publish_refusal, event_of, settle}
use skill_up.Publisher.Tests.{test_publisher}
use skill_up.Lifecycle.State.{begin_run, elapsed_ms}
use skill_up.Lifecycle.{
  Lifecycle, start, check_start, announce_run, publish_locked, record_publication,
  publish_progress_locked, progress_payload, start_heartbeat,
}
use skill_up.Lifecycle.Calls.{starts, step}
use skill_up.Lifecycle.Tests.{
  two_tasks, clock, options, two_tasks_lifecycle, two_tasks_lifecycle-new,
}
use skill_up.Lifecycle.Heartbeat.{
  System, waiting, stopped, returned, exited, see_stop, wake, not_running, spawn, request_stop,
  after_request, close_done, Reach, here, later, call, read_started, request, begin,
}
use skill_up.Lifecycle.Heartbeat.Ends.{Own, Reach-waited, Reach-returns}

abbrev started : Lifecycle
started = (step (starts none (codes "engine") (codes "skill")) two_tasks_lifecycle).0

started_heartbeat : started.heartbeat_started ≡ true
unfolding step start check_start announce_run publish_locked record_publication publish
    publish_event publish_refusal event_of settle validate snapshot event_type event_version
    run_started_validate run_progress_validate counts_validate counts_total validate_safe_integer
    validate_positive_integer validate_non_empty_string validate_string valid_string phase_valid
    publish_progress_locked progress_payload begin_run elapsed_ms start_heartbeat
started_heartbeat = refl

-- `Finish` has read the flag and asked for the stop, behind a `Start`.
abbrev waiting_system : System
waiting_system = record {
  life = request_stop started;
  beat = spawn false started.heartbeat_started not_running;
  finisher = after_request started.heartbeat_started;
}

waiting_reached : Reach (begin two_tasks_lifecycle) waiting_system
waiting_reached =
    later
      (later (later here (call (starts none (codes "engine") (codes "skill")) tt))
        (read_started refl))
      (request refl)

is_waiting : waiting_system.finisher ≡ waiting
is_waiting = ap after_request started_heartbeat

Reach-returns_example : (t : System) × Own waiting_system t × (t.finisher ≡ returned true)
Reach-returns_example =
    Reach-returns clock (some test_publisher) two_tasks options two_tasks_lifecycle
      two_tasks_lifecycle-new waiting_system waiting_reached none RunStatus.error is_waiting

-- The goroutine has seen the request, and `Finish` has seen its end.
abbrev waited_system : System
waited_system = record {
  life = close_done (request_stop started);
  beat = exited;
  finisher = stopped true;
}

waited_reached : Reach (begin two_tasks_lifecycle) waited_system
waited_reached =
    later
      (later waiting_reached
        (see_stop (ap (λ (b : Bool). spawn false b not_running) started_heartbeat) refl))
      (wake is_waiting refl)

Reach-waited_example : (waited_system.beat ≡ exited) × (waited_system.life.heartbeat_done ≡ true)
Reach-waited_example =
    Reach-waited clock (some test_publisher) two_tasks options two_tasks_lifecycle
      two_tasks_lifecycle-new waited_system waited_reached (inl refl)
