-- ===== src/Stream/Opening.antt =====
-- internal/cli/run_events.go: the opening and the closing of the event stream.
pub mod Opened
use skill_up.Base.{
  ℕ, ◌≡◌, refl, ◌↔◌, ap, subst, Bool, true, false, ◌||◌, Option, none, some, List, [], ◌∷◌, ◌++◌,
  Str, Result, ok, err, All, arith, Bool-cases, inl, inr, if◌then◌else◌,
}
use skill_up.Base.Int.{pos}
use skill_up.Base.Results.{◌>>=◌, ◌>>◌, >>=-eq-ok}
use skill_up.Event
use skill_up.Event.{RunStatus}
use skill_up.Publisher.{Ctx, Sink, Publisher, PublisherConfig, Platform, new_publisher, close}
use skill_up.Publisher.Attributes.{validate_user_attributes}
use skill_up.Publisher.Stop.{close-closed}
use skill_up.Lifecycle.{Lifecycle, LifecycleOptions, new_lifecycle, start, finish}
use skill_up.Lifecycle.State
use skill_up.Lifecycle.Planning.{validate_plan}
use skill_up.Lifecycle.Calls.{starts, step}
use skill_up.Lifecycle.Errors.{IsSound}
use skill_up.Lifecycle.Defects.{step-IsFine, new_lifecycle-IsSound}
use skill_up.Stream.{Err}
use skill_up.Stream.Adapter.{Adapter, as_event}

-- `is` stands for `errors.Is`, which compares error values by their identity.
module _ (is : Err → Err → Bool) where
  abbrev is_known : Err → List Err → Bool
  is_known c [] = false
  is_known c (e ∷ es) = (is e c || is c e) || is_known c es

  unfoldable pub collect_distinct : List Err → List (Option Err) → List Err
  collect_distinct unique [] = unique
  collect_distinct unique (none ∷ cs) = collect_distinct unique cs
  collect_distinct unique (some c ∷ cs) =
      let same = collect_distinct unique cs in
      let more = collect_distinct (unique ++ c ∷ []) cs in if is_known c unique then same else more

  -- `joinDistinctErrors`: the errors that are joined, of which there are none for a nil error.
  unfoldable pub join_distinct_errors : List (Option Err) → List Err
  join_distinct_errors = collect_distinct []

  -- `finish` of the stream, whose publisher is the one of its lifecycle.
  unfoldable pub finish_stream : Ctx → RunStatus → Adapter → Adapter × List Err
  unfolding join_distinct_errors
  finish_stream ctx status a =
      let (l, finish_err) = finish ctx status a.lifecycle in
      let (p, close_err) = close l.publisher in
      (
        record a { lifecycle = record l { publisher = p } },
        join_distinct_errors (as_event close_err ∷ as_event finish_err ∷ a.err ∷ []),
      )

  collect_distinct-some :
      (e : Err) (es : List Err) (cs : List (Option Err)) → ¬ (collect_distinct (e ∷ es) cs ≡ [])
  unfolding collect_distinct
  collect_distinct-some e es [] h = cc
  collect_distinct-some e es (none ∷ cs) h = collect_distinct-some e es cs h
  collect_distinct-some e es (some c ∷ cs) h = elim (Bool-cases (is_known c (e ∷ es))) [
    | inl y ↦ collect_distinct-some e es cs (rw y at h)
    | inr n ↦ collect_distinct-some e (es ++ c ∷ []) cs (rw n at h)
  ]

  -- No error is reported exactly if there was none: dropping repeated errors loses no failure.
  pub join_distinct_errors-empty_iff :
      (cs : List (Option Err))
      → (join_distinct_errors cs ≡ []) ↔ All (λ (c : Option Err). c ≡ none) cs
  unfolding join_distinct_errors collect_distinct
  join_distinct_errors-empty_iff cs = ((λ h. to cs h), λ h. from cs h)
    where
      some≢none : (c : Err) → ¬ (some c ≡ none)
      some≢none c h = cc

      to :
          (cs : List (Option Err))
          → collect_distinct [] cs ≡ []
          → All (λ (c : Option Err). c ≡ none) cs
      to [] h = tt
      to (none ∷ cs) h = (refl, to cs h)
      to (some c ∷ cs) h = absurd (collect_distinct-some c [] cs h)

      from :
          (cs : List (Option Err))
          → All (λ (c : Option Err). c ≡ none) cs
          → collect_distinct [] cs ≡ []
      from [] h = refl
      from (none ∷ cs) h = from cs h.1
      from (some c ∷ cs) h = absurd (some≢none c h.0)

  -- Whatever the end of a run returns, the publisher is closed after it.
  pub finish_stream-closed :
      (ctx : Ctx) (status : RunStatus) (a : Adapter)
      → (finish_stream ctx status a).0.lifecycle.publisher.closed ≡ true
  unfolding finish_stream
  finish_stream-closed ctx status a = (close-closed (finish ctx status a.lifecycle).0.publisher).0

pub data StartErr : Type 0 where
  invalid_event_plan invalid_event_attributes no_sink : Event.Err → StartErr
  joined : List (Option Event.Err) → StartErr

-- The errors of a step, as the start of the stream reports them.
abbrev pub reported : {A : Type 0} → (Event.Err → StartErr) → Result Event.Err A → Result StartErr A
reported f (ok a) = ok a
reported f (err e) = err (f e)

abbrev pub refusal : (Event.Err → StartErr) → Option Event.Err → Result StartErr (Unit {0})
refusal f none = ok tt
refusal f (some e) = err (f e)

abbrev pub stream_options : LifecycleOptions
stream_options = record { clock = none; heartbeat_interval = pos 0 }

abbrev pub stream_config : Sink → List (Str × Str) → PublisherConfig
stream_config sink attributes = record {
  sink = some sink;
  attributes = attributes;
  invocation_id = [];
  now = none;
}

-- The stream of a lifecycle that was started, or the error of the start behind that of the close.
abbrev pub stream_of : Lifecycle × Option Event.Err → Result StartErr Adapter
stream_of (l, none) = ok (record { lifecycle = l; err = none })
stream_of (l, some e) = err (joined ((close l.publisher).1 ∷ some e ∷ []))

-- `opened` is what opening the log's file gives: a sink, or an error. Of errors that are joined,
-- the list gives each, in order, repeated ones too.
unfoldable pub start_evaluation_event_stream :
    Ctx
    → Platform
    → (ℕ → ℕ)
    → Result Event.Err Sink
    → List (Str × Str)
    → State.Plan
    → Str
    → Str
    → Result StartErr Adapter
start_evaluation_event_stream ctx os clock opened attributes plan engine skill_name = do
  refusal invalid_event_plan (validate_plan plan)
  refusal invalid_event_attributes (validate_user_attributes attributes)
  sink ← reported no_sink opened
  p ←
      reported (λ e. joined (some e ∷ sink.close 0 ∷ []))
        (new_publisher os (stream_config sink attributes))
  l ←
      reported (λ e. joined (some e ∷ (close p).1 ∷ []))
        (new_lifecycle clock (some p) plan stream_options)
  stream_of (start ctx engine skill_name l)
