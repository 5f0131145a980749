-- ===== src/Stream/Opening/Opened.antt =====
-- internal/cli/run_events.go: what an event stream that opens has behind it.
use skill_up.Base.{
  ℕ, ◌≡◌, refl, sym, ◌∙◌, ap, subst, true, Option, none, some, List, [], ◌∷◌, ◌++◌, Str, Result, ok,
  err, arith, suc,
}
use skill_up.Base.Results.{>>=-eq-ok}
use skill_up.Event
use skill_up.Event.{Event, Payload, RunPhase, EventType}
use skill_up.Publisher.{Ctx, Sink, Publisher, PublisherConfig, Platform, new_publisher, close}
use skill_up.Publisher.Attributes.{validate_user_attributes}
use skill_up.Lifecycle.{Lifecycle, new_lifecycle, start}
use skill_up.Lifecycle.Started.{Starts, start-Starts}
use skill_up.Lifecycle.State
use skill_up.Lifecycle.State.{begin_run}
use skill_up.Lifecycle.Planning.{validate_plan}
use skill_up.Lifecycle.Calls.{starts, step}
use skill_up.Lifecycle.Errors.{IsSound}
use skill_up.Lifecycle.Sound.{new_lifecycle-fresh}
use skill_up.Lifecycle.Defects.{step-IsFine, new_lifecycle-IsSound}
use skill_up.Stream.Adapter.{Adapter}
use skill_up.Stream.Opening.{
  StartErr, invalid_event_plan, invalid_event_attributes, no_sink, joined, reported, refusal,
  stream_options, stream_config, stream_of, start_evaluation_event_stream,
}

reported-ok :
    {A : Type 0} (f : Event.Err → StartErr) (r : Result Event.Err A) (a : A)
    → reported f r ≡ ok a
    → r ≡ ok a
reported-ok {A = A} f (ok b) a h = ap (λ (r : Result StartErr A). back r) h
  where
    back : Result StartErr A → Result Event.Err A
    back (ok x) = ok x
    back (err e) = ok b
reported-ok {A = A} f (err e) a h = absurd (err≢ok h)
  where
    err≢ok : ¬ (◌≡◌ {A = Result StartErr A} (err (f e)) (ok a))
    err≢ok p = cc

stream_of-ok :
    (r : Lifecycle × Option Event.Err) (a : Adapter)
    → stream_of r ≡ ok a
    → (r.0 ≡ a.lifecycle) × (r.1 ≡ none) × (a.err ≡ none)
stream_of-ok (l, none) a h = (ground (arith, h), refl, ground (arith, h))
stream_of-ok (l, some e) a h = absurd (err≢ok h)
  where
    err≢ok : ¬ (
        ◌≡◌ {A = Result StartErr Adapter}
          (err (joined ((close l.publisher).1 ∷ some e ∷ [])))
          (ok a))
    err≢ok p = cc

refusal-ok :
    (f : Event.Err → StartErr) (r : Option Event.Err) (u : Unit {0}) → refusal f r ≡ ok u → r ≡ none
refusal-ok f none u h = refl
refusal-ok f (some e) u h = absurd (err≢ok h)
  where
    err≢ok : ¬ (◌≡◌ {A = Result StartErr (Unit {0})} (err (f e)) (ok u))
    err≢ok p = cc

new_publisher-empty :
    (os : Platform) (cfg : PublisherConfig) (p : Publisher)
    → new_publisher os cfg ≡ ok p
    → (p.delivered ≡ []) × (p.next_sequence ≡ 1)
unfolding new_publisher
new_publisher-empty os cfg p h = ground (arith, h)

-- The events of a stream that has just opened.
pub record AreOpening (events : List Event) : Type 0 where
  pub started : Event
  pub progressed : Event
  pub both : events ≡ started ∷ progressed ∷ []
  pub started_type : started.type ≡ EventType.run_started
  pub started_number : started.sequence_number ≡ 1
  pub progressed_type : progressed.type ≡ EventType.run_progress
  pub progressed_number : progressed.sequence_number ≡ 2

-- What stands behind a stream that has opened.
pub record IsOpened (plan : State.Plan) (attributes : List (Str × Str)) (a : Adapter) : Type 0 where
  pub plan_valid : validate_plan plan ≡ none
  pub attributes_valid : validate_user_attributes attributes ≡ none
  pub sound : IsSound a.lifecycle
  pub started : a.lifecycle.started ≡ true
  pub preparing : a.lifecycle.phase ≡ RunPhase.preparing
  pub events : AreOpening a.lifecycle.publisher.delivered
  pub no_error : a.err ≡ none

Starts-AreOpening :
    (l m : Lifecycle)
    → l.publisher.delivered ≡ []
    → l.publisher.next_sequence ≡ 1
    → Starts l m
    → AreOpening m.publisher.delivered
Starts-AreOpening l m empty one
      (q, (e, e_in, e_type, e_number, e_next), (f, f_in, f_type, f_number, f_next), kept) =
    record {
      started = e;
      progressed = f;
      both =
          f_in
          ∙ ap (λ (es : List Event). es ++ f ∷ [])
              (e_in ∙ ap (λ (es : List Event). es ++ e ∷ []) empty);
      started_type = e_type;
      started_number = e_number ∙ one;
      progressed_type = f_type;
      progressed_number = f_number ∙ e_next ∙ ap suc one;
    }

-- The publisher of a new lifecycle.
new_lifecycle-publisher :
    (system_clock : ℕ → ℕ) (p : Publisher) (plan : State.Plan) (l : Lifecycle)
    → new_lifecycle system_clock (some p) plan stream_options ≡ ok l
    → l.publisher ≡ p
new_lifecycle-publisher system_clock p plan l h =
    let (q, s, n, i, same, e, made) =
      new_lifecycle-fresh system_clock (some p) plan stream_options l h in
    ap (λ (k : Lifecycle). k.publisher) made ∙ sym (same_publisher same)
  where
    same_publisher : {a b : Publisher} → some a ≡ some b → a ≡ b
    same_publisher h = cc

-- Of a stream that opens, the plan and the attributes are valid; its lifecycle is sound, started and preparing; the sink has taken the start of the run and its first
-- progress, under the numbers 1 and 2, and nothing else; and no error of a callback is recorded.
pub start_evaluation_event_stream-IsOpened :
    (ctx : Ctx) (os : Platform) (clock : ℕ → ℕ) (opened : Result Event.Err Sink)
    (attributes : List (Str × Str)) (plan : State.Plan) (engine skill_name : Str) (a : Adapter)
    → start_evaluation_event_stream ctx os clock opened attributes plan engine skill_name ≡ ok a
    → IsOpened plan attributes a
unfolding start_evaluation_event_stream step begin_run
start_evaluation_event_stream-IsOpened ctx os clock opened attributes plan engine skill_name a h =
    let (u, e1, h1) = >>=-eq-ok (refusal invalid_event_plan (validate_plan plan)) _ h in
    let (v, e2, h2) =
      >>=-eq-ok (refusal invalid_event_attributes (validate_user_attributes attributes)) _ h1 in
    let (sink, e3, h3) = >>=-eq-ok (reported no_sink opened) _ h2 in
    let (p, e4, h4) =
      >>=-eq-ok
        (reported (λ e. joined (some e ∷ sink.close 0 ∷ []))
          (new_publisher os (stream_config sink attributes)))
        _ h3 in
    let (l, e5, h5) =
      >>=-eq-ok
        (reported (λ e. joined (some e ∷ (close p).1 ∷ []))
          (new_lifecycle clock (some p) plan stream_options))
        _ h4 in
    let made = reported-ok _ _ p e4 in
    let planned = reported-ok _ _ l e5 in
    let (same, good, no_error) = stream_of-ok (start ctx engine skill_name l) a h5 in
    let fine = step-IsFine (starts ctx engine skill_name) l (
      new_lifecycle-IsSound os (stream_config sink attributes) p clock plan stream_options l made
        planned) in
    let starts = subst (Starts l) same (start-Starts ctx engine skill_name l good) in
    let (empty, one) = new_publisher-empty os (stream_config sink attributes) p made in
    let its = new_lifecycle-publisher clock p plan l planned in
    let (q, e, f, kept) = starts in
    record {
      plan_valid = refusal-ok _ _ u e1;
      attributes_valid = refusal-ok _ _ v e2;
      sound = subst IsSound same fine.0;
      started = ap (λ (s : State.Progress). s.started) kept;
      preparing = ap (λ (s : State.Progress). s.phase) kept;
      events =
          Starts-AreOpening l a.lifecycle (ap (λ (x : Publisher). x.delivered) its ∙ empty)
            (ap (λ (x : Publisher). x.next_sequence) its ∙ one) starts;
      no_error = no_error;
    }
