-- ===== src/Stream/Tests.antt =====
-- internal/cli/run_events.go: flags, plans and callbacks at which the theorems are applied.
use skill_up.Base.{
  ◌↔◌, All, Bool, true, ◌*◌, ◌≡◌, refl, inl, inr, Option, none, some, List, [], ◌∷◌, Str, codes,
  length, ok, lookup, str_eq, valid_string, has_prefix, arith,
}
use skill_up.Base.Int.{pos}
use skill_up.Event.{RunStatus}
use skill_up.Publisher.Attributes.{
  validate_user_attributes, copy_and_validate_attributes, clone_attributes, validate_attribute,
  json_size,
}
use skill_up.Lifecycle.State
use skill_up.Lifecycle.Tests.{two_tasks_lifecycle, opening, two_tasks, clock}
use skill_up.Lifecycle.{start}
use skill_up.Lifecycle.Calls.{run}
use skill_up.Planner.{at_least_one, build_plan}
use skill_up.Planner.Tests.{one_case, both}
use skill_up.Judge.{Status}
use skill_up.Stream.{Err, out_of_range, task_count_of, evaluation_event_plan}
use skill_up.Stream.Accepts.{evaluation_event_plan-build_plan}
use skill_up.Stream.Adapter.{
  Adapter, Callback, on_iteration_start, on_task_start, on_task_complete, notify_all,
}
use skill_up.Stream.Adapter.Relays.{Trace, first, notify_all-Trace}
use skill_up.Stream.Opening.{
  join_distinct_errors, finish_stream, join_distinct_errors-empty_iff, finish_stream-closed,
  start_evaluation_event_stream,
}
use skill_up.Stream.Opening.Opened.{IsOpened, start_evaluation_event_stream-IsOpened}
use skill_up.Publisher.Tests.{test_platform, willing}
use skill_up.Base.{insert, member}
use skill_up.Event.Validate.{
  validate, validate_positive_integer, validate_non_empty_string, validate_string,
  validate_safe_integer, configuration_valid, run_started_validate, run_progress_validate,
  counts_validate, counts_total, phase_valid, snapshot,
}
use skill_up.Publisher.{new_publisher, publish, publish_event, publish_refusal, settle, event_of}
use skill_up.Lifecycle.State.{validate_plan_task, begin_run, elapsed_ms}
use skill_up.Lifecycle.Planning.{
  snapshot_plan, count_tasks, add_iterations, add_iteration, add_tasks, add_task, first_missing,
  validate_plan,
}
use skill_up.Lifecycle.{
  new_lifecycle, require_publisher, resolve_interval, check_start, announce_run, publish_locked,
  record_publication, publish_progress_locked, progress_payload, start_heartbeat,
}
use skill_up.Stream.Flags.{
  parse_evaluation_event_attributes, collect_attributes, cut, texts,
  parse_evaluation_event_attributes-texts,
}

evaluation_event_plan-build_plan_example :
    (plan : State.Plan) × (evaluation_event_plan (build_plan one_case (pos 0) (pos 2) both)
      ≡ ok plan)
    × (task_count_of plan.iterations ≡ at_least_one (pos 2) * (length one_case * length both))
unfolding at_least_one
evaluation_event_plan-build_plan_example =
    evaluation_event_plan-build_plan one_case (pos 0) (pos 2) both ((_, refl), tt)
      (inl refl, (inr refl, tt)) (omega arith) (omega arith)

abbrev callbacks : List Callback
callbacks =
    on_iteration_start none (pos 1)
    ∷ on_task_start none (codes "t1")
    ∷ on_task_complete none (codes "t1") (Status.other (codes "?")) none
    ∷ []

abbrev adapter : Option Err → Adapter
adapter e = record { lifecycle = run opening two_tasks_lifecycle; err = e }

notify_all-Trace_example :
    (e : Option Err) × Trace callbacks
      (adapter none).lifecycle
      (notify_all callbacks (adapter none)).lifecycle
      e
    × ((notify_all callbacks (adapter none)).err ≡ first none e)
notify_all-Trace_example = notify_all-Trace callbacks (adapter none)

abbrev attribute : Str × Str
attribute = (codes "acme.team", codes "a=b")

parsed : parse_evaluation_event_attributes (codes "acme.team=a=b" ∷ []) ≡ ok (attribute ∷ [])
unfolding parse_evaluation_event_attributes collect_attributes cut lookup insert str_eq
    validate_user_attributes copy_and_validate_attributes clone_attributes validate_attribute
    json_size valid_string has_prefix
parsed = refl

parse_evaluation_event_attributes-texts_example :
    (texts (attribute ∷ []) ≡ codes "acme.team=a=b" ∷ [])
    × (validate_user_attributes (attribute ∷ []) ≡ none)
parse_evaluation_event_attributes-texts_example =
    parse_evaluation_event_attributes-texts (codes "acme.team=a=b" ∷ []) (attribute ∷ []) parsed

abbrev same : Err → Err → Bool
same e f = true

join_distinct_errors-empty_iff_example :
    (join_distinct_errors same (none ∷ some (out_of_range []) ∷ []) ≡ [])
    ↔ All (λ (c : Option Err). c ≡ none) (none ∷ some (out_of_range []) ∷ [])
join_distinct_errors-empty_iff_example =
    join_distinct_errors-empty_iff same (none ∷ some (out_of_range []) ∷ [])

finish_stream-closed_example :
    (finish_stream same none RunStatus.cancelled (adapter none)).0.lifecycle.publisher.closed ≡ true
finish_stream-closed_example = finish_stream-closed same none RunStatus.cancelled (adapter none)

abbrev opened_stream : Adapter
opened_stream = record {
  lifecycle = (start none (codes "engine") (codes "skill") two_tasks_lifecycle).0;
  err = none;
}

stream_opened :
    start_evaluation_event_stream none test_platform clock
      (ok willing)
      []
      two_tasks
      (codes "engine")
      (codes "skill")
    ≡ ok opened_stream
unfolding start_evaluation_event_stream new_lifecycle snapshot_plan count_tasks add_iterations
    add_iteration add_tasks add_task first_missing validate_plan validate_plan_task
    validate_positive_integer validate_non_empty_string validate_string configuration_valid lookup
    insert member str_eq valid_string new_publisher copy_and_validate_attributes
    validate_user_attributes clone_attributes json_size require_publisher resolve_interval start
    check_start announce_run publish_locked record_publication publish publish_event publish_refusal
    snapshot settle event_of validate run_started_validate run_progress_validate
    publish_progress_locked progress_payload begin_run elapsed_ms counts_validate counts_total
    validate_safe_integer phase_valid start_heartbeat
stream_opened = refl

start_evaluation_event_stream-IsOpened_example : IsOpened two_tasks [] opened_stream
start_evaluation_event_stream-IsOpened_example =
    start_evaluation_event_stream-IsOpened none test_platform clock (ok willing) [] two_tasks
      (codes "engine") (codes "skill") opened_stream stream_opened
