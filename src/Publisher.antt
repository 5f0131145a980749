-- ===== src/Publisher.antt =====
-- internal/evalevent/publisher.go: the publisher of one invocation. It numbers the events, stamps
-- them, and keeps the first transport error. Its mutex makes each method one step, so a method is
-- a function from the old state to the new one and the error that it returns.
pub mod Attributes
pub mod Log
pub mod Stop
pub mod Tests
use skill_up.Base.{
  ℕ, suc, ◌+◌, Bool, true, false, Option, none, some, List, [], ◌∷◌, ◌++◌, Str, is_empty, ltb,
  if◌then◌else◌, Result, ok, err,
}
use skill_up.Base.Results.{◌>>=◌}
use skill_up.Event.{
  add_u64, protocol_version_current, max_safe_integer, Payload, Event, Err, join, nil_sink,
  invalid_invocation_id, publisher_closed, already_finalized, nil_payload, sequence_exceeds,
  invalid_payload, publish_failed, close_failed,
}
use skill_up.Event.Validate.{validate, event_type, event_version, snapshot}
use skill_up.Publisher.Attributes.{copy_and_validate_attributes}

-- What a `context.Context` answers to `Err()` while a call runs.
abbrev pub Ctx : Type 0
Ctx = Option Err

-- The interface `EventSink`. What it does is not determined by the event alone, so the number of
-- calls before is an argument: every history of answers is that of some `Sink`.
pub record Sink : Type 0 where
  pub publish : ℕ → Ctx → Event → Option Err
  pub close : ℕ → Option Err

-- `delivered` holds what the sink took, in order. `now` gives the clock's successive answers, in
-- nanoseconds from a common origin.
pub record Publisher : Type 0 where
  pub sink : Sink
  pub sink_calls : ℕ
  pub delivered : List Event
  pub attributes : List (Str × Str)
  pub invocation_id : Str
  pub now : ℕ → ℕ
  pub now_reads : ℕ
  pub next_sequence : ℕ
  pub finalized : Bool
  pub closed : Bool
  pub error : Option Err

pub record PublisherConfig : Type 0 where
  pub sink : Option Sink
  pub attributes : List (Str × Str)
  pub invocation_id : Str
  pub now : Option (ℕ → ℕ)

-- `uuid.NewString`, `uuid.Parse` followed by `String`, and `time.Now`, from outside the package.
pub record Platform : Type 0 where
  pub new_uuid : Str
  pub parse_uuid : Str → Result Err Str
  pub system_now : ℕ → ℕ

abbrev pub get_or {ℓ} : {A : Type ℓ} → Option A → A → A
get_or none d = d
get_or (some a) d = a

resolve_invocation_id : Platform → Str → Result Err Str
resolve_invocation_id os id =
    if is_empty id
    then ok os.new_uuid
    else elim (os.parse_uuid id) [ ok parsed ↦ ok parsed | err e ↦ err (invalid_invocation_id e) ]

require_sink : Option Sink → Result Err Sink
require_sink none = err nil_sink
require_sink (some sink) = ok sink

unfoldable pub new_publisher : Platform → PublisherConfig → Result Err Publisher
unfolding require_sink resolve_invocation_id
new_publisher os cfg = do
  sink ← require_sink cfg.sink
  attributes ← copy_and_validate_attributes cfg.attributes false
  invocation_id ← resolve_invocation_id os cfg.invocation_id
  ok (record {
    sink = sink;
    sink_calls = 0;
    delivered = [];
    attributes = attributes;
    invocation_id = invocation_id;
    now = get_or cfg.now os.system_now;
    now_reads = 0;
    next_sequence = 1;
    finalized = false;
    closed = false;
    error = none;
  })

-- The envelope of a payload.
unfoldable pub event_of : Publisher → Payload → Bool → Event
event_of p payload last = record {
  protocol_version = protocol_version_current;
  event_version = event_version payload;
  sequence_number = p.next_sequence;
  invocation_id = p.invocation_id;
  time = p.now p.now_reads;
  type = event_type payload;
  last_event = last;
  attributes = p.attributes;
  payload = payload;
}

-- The tests that precede the construction of the event: the error to return, if any.
unfoldable pub publish_refusal : Publisher → Payload → Option Err
publish_refusal p payload =
    if p.closed
    then some publisher_closed
    else if p.finalized
    then some already_finalized
    else elim p.error [
      | some e ↦ some e
      | none ↦ elim (validate payload) [
        | some e ↦ some (invalid_payload (event_type payload) e)
        | none ↦ if ltb max_safe_integer p.next_sequence then some sequence_exceeds else none
      ]
    ]

-- The sink's answer to the event.
unfoldable pub settle : Publisher → Event → Bool → Option Err → Publisher × Option Err
settle p event last (some e) =
    let failure = publish_failed event.type e in
    (
      record p { sink_calls = suc p.sink_calls; now_reads = suc p.now_reads; error = some failure },
      some failure,
    )
settle p event last none = (
  record p {
    sink_calls = suc p.sink_calls;
    now_reads = suc p.now_reads;
    delivered = p.delivered ++ event ∷ [];
    next_sequence = add_u64 p.next_sequence 1;
    finalized = if last then true else p.finalized;
  },
  none,
)

deliver : Publisher → Ctx → Event → Bool → Publisher × Option Err
unfolding settle
deliver p ctx event last = settle p event last (p.sink.publish p.sink_calls ctx event)

publish_payload : Publisher → Ctx → Payload → Bool → Publisher × Option Err
publish_payload p ctx payload last = elim (publish_refusal p payload) [
  | some e ↦ (p, some e)
  | none ↦ deliver p ctx (event_of p payload last) last
]

-- The refusal of a `nil` payload, behind those of a closed, finalized or failed publisher.
nil_refusal : Publisher → Err
nil_refusal p =
    if p.closed
    then publisher_closed
    else if p.finalized
    then already_finalized
    else get_or p.error nil_payload

unfoldable pub publish_event : Publisher → Ctx → Option Payload → Bool → Publisher × Option Err
unfolding publish_payload deliver nil_refusal
publish_event p ctx none last = (p, some (nil_refusal p))
publish_event p ctx (some payload) last = publish_payload p ctx (snapshot payload) last

unfoldable pub publish : Publisher → Ctx → Option Payload → Publisher × Option Err
publish p ctx payload = publish_event p ctx payload false

unfoldable pub publish_last : Publisher → Ctx → Option Payload → Publisher × Option Err
publish_last p ctx payload = publish_event p ctx payload true

-- `errors.Join` of the sticky error, which may be nil, and another.
join_error : Option Err → Err → Err
join_error none e = e
join_error (some sticky) e = join sticky e

unfoldable pub close : Publisher → Publisher × Option Err
unfolding join_error
close p = if p.closed then (p, p.error) else elim (p.sink.close p.sink_calls) [
  | none ↦ (record p { closed = true }, p.error)
  | some e ↦
      let joined = join_error p.error (close_failed e) in
      (record p { closed = true; error = some joined }, some joined)
]
