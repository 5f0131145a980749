-- ===== src/Publisher/Tests.antt =====
-- internal/evalevent/publisher.go: a publisher with a sink that takes every event, at which the
-- theorems are applied.
use skill_up.Base.{◌≡◌, refl, ◌↔◌, inl, true, false, none, some, List, [], ◌∷◌, codes, ok}
use skill_up.Event.{Payload}
use skill_up.Event.Validate.{validate, snapshot, validate_positive_integer}
use skill_up.Publisher.{
  Sink, Publisher, PublisherConfig, Platform, new_publisher, event_of, publish_event,
  publish_refusal,
}
use skill_up.Publisher.Attributes.{copy_and_validate_attributes}
use skill_up.Publisher.Log.{
  IsOrdered, IsOpen, Call, publishes, publishes_last, run, step, run-new_publisher-IsOrdered,
}
use skill_up.Publisher.Stop.{
  Outcome, publish_event-ok_iff, publish_event-Outcome, run-delivered_of_IsStopped,
}

abbrev pub test_platform : Platform
test_platform = record { new_uuid = codes "id-1"; parse_uuid = λ s. ok s; system_now = λ n. n }

abbrev pub willing : Sink
willing = record { publish = λ n ctx e. none; close = λ n. none }

abbrev pub test_config : PublisherConfig
test_config = record { sink = some willing; attributes = []; invocation_id = []; now = none }

abbrev pub test_publisher : Publisher
test_publisher = record {
  sink = willing;
  sink_calls = 0;
  delivered = [];
  attributes = [];
  invocation_id = codes "id-1";
  now = λ n. n;
  now_reads = 0;
  next_sequence = 1;
  finalized = false;
  closed = false;
  error = none;
}

abbrev pub iteration_1 : Payload
iteration_1 = Payload.iteration_started 1

pub test_publisher-new : new_publisher test_platform test_config ≡ ok test_publisher
unfolding new_publisher copy_and_validate_attributes
test_publisher-new = refl

abbrev two_calls : List Call
two_calls = publishes none (some iteration_1) ∷ publishes_last none (some iteration_1) ∷ []

run-new_publisher-IsOrdered_example : IsOrdered (run test_publisher two_calls)
run-new_publisher-IsOrdered_example =
    run-new_publisher-IsOrdered test_platform test_config test_publisher two_calls
      test_publisher-new

publish_event-ok_iff_example :
    ((publish_event test_publisher none (some iteration_1) true).1 ≡ none) ↔ (
      IsOpen test_publisher iteration_1
      × (test_publisher.sink.publish test_publisher.sink_calls none
            (event_of test_publisher iteration_1 true)
          ≡ none))
publish_event-ok_iff_example = publish_event-ok_iff test_publisher none iteration_1 true

publish_event-Outcome_example :
    let (q, r) = publish_event test_publisher none (some iteration_1) true in
    Outcome test_publisher none iteration_1 true q r
publish_event-Outcome_example = publish_event-Outcome test_publisher none iteration_1 true

abbrev closed_publisher : Publisher
closed_publisher = record test_publisher { closed = true }

run-delivered_of_IsStopped_example : (run closed_publisher two_calls).delivered ≡ []
run-delivered_of_IsStopped_example =
    run-delivered_of_IsStopped closed_publisher two_calls (inl refl)

-- Two events go out, with the numbers 1 and 2.
two_calls-sequence : (run test_publisher two_calls).next_sequence ≡ 3
unfolding run step snapshot publish_event publish_refusal validate validate_positive_integer
two_calls-sequence = refl
