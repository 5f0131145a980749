-- ===== src/Publisher/Log.antt =====
-- internal/evalevent/publisher.go: what the log of delivered events looks like, whatever is called.
use skill_up.Base.{
  ℕ, suc, ◌+◌, ◌≤◌, ◌≡◌, refl, inl, inr, Bool, true, false, Option, none, some, List, [], ◌∷◌, ◌++◌,
  subst, arith, length, length-append, All, All-append, ok, Option-cases,
}
use skill_up.Event.{max_safe_integer, Payload, Event, Err}
use skill_up.Event.Validate.{validate, snapshot}
use skill_up.Publisher.{
  Ctx, Publisher, PublisherConfig, Platform, event_of, publish_refusal, settle, publish_payload,
  publish_event, publish, publish_last, close, new_publisher,
}

-- The sequence numbers are `n`, `n + 1`, and so on.
abbrev pub Numbered : ℕ → List Event → Type 0
Numbered n [] = Unit {0}
Numbered n (e ∷ es) = (e.sequence_number ≡ n) × Numbered (suc n) es

-- Only the final event may carry `last_event`, and it does so exactly if `last` holds.
abbrev pub Ends : Bool → List Event → Type 0
Ends last [] = last ≡ false
Ends last (e ∷ []) = e.last_event ≡ last
Ends last (e ∷ f ∷ es) = (e.last_event ≡ false) × Ends last (f ∷ es)

abbrev pub HasValidPayload : Event → Type 0
HasValidPayload e = validate e.payload ≡ none

pub record IsOrdered (p : Publisher) : Type 0 where
  pub numbered : Numbered 1 p.delivered
  pub next : p.next_sequence ≡ suc (length p.delivered)
  pub bounded : length p.delivered ≤ max_safe_integer
  pub ends : Ends p.finalized p.delivered
  pub valid : All HasValidPayload p.delivered

Numbered-snoc :
    (n m : ℕ) (es : List Event) (e : Event)
    → m ≡ n + length es
    → e.sequence_number ≡ m
    → Numbered n es
    → Numbered n (es ++ e ∷ [])
Numbered-snoc n m [] e h q k = (omega arith, tt)
Numbered-snoc n m (x ∷ es) e h q k = (k.0, Numbered-snoc (suc n) m es e (omega arith) q k.1)

Ends-snoc :
    (last : Bool) (es : List Event) (e : Event)
    → e.last_event ≡ last
    → Ends false es
    → Ends last (es ++ e ∷ [])
Ends-snoc last [] e q k = q
Ends-snoc last (x ∷ []) e q k = (k, q)
Ends-snoc last (x ∷ y ∷ es) e q k = (k.0, Ends-snoc last (y ∷ es) e q k.1)

-- The state in which an event is handed to the sink.
pub record IsOpen (p : Publisher) (payload : Payload) : Type 0 where
  pub not_closed : p.closed ≡ false
  pub not_finalized : p.finalized ≡ false
  pub no_error : p.error ≡ none
  pub valid : validate payload ≡ none
  pub in_range : p.next_sequence ≤ max_safe_integer

pub publish_refusal-IsOpen :
    (p : Publisher) (payload : Payload) → publish_refusal p payload ≡ none → IsOpen p payload
unfolding publish_refusal
publish_refusal-IsOpen p payload h = ground arith

pub IsOpen-publish_refusal :
    (p : Publisher) (payload : Payload) → IsOpen p payload → publish_refusal p payload ≡ none
unfolding publish_refusal
IsOpen-publish_refusal p payload h = ground arith

settle-IsOrdered :
    (p : Publisher) (payload : Payload) (last : Bool) (answer : Option Err)
    → IsOpen p payload
    → IsOrdered p
    → IsOrdered (settle p (event_of p payload last) last answer).0
unfolding settle event_of
settle-IsOrdered p payload last (some e) h o = record {
  numbered = o.numbered;
  next = o.next;
  bounded = o.bounded;
  ends = o.ends;
  valid = o.valid;
}
settle-IsOrdered p payload last none h o = record {
  numbered = Numbered-snoc 1 p.next_sequence p.delivered _ (omega arith) refl o.numbered;
  next = omega (arith, length-append p.delivered (event_of p payload last ∷ []));
  bounded = omega (arith, length-append p.delivered (event_of p payload last ∷ []));
  ends =
      Ends-snoc _ p.delivered _ (ground arith)
        (subst (λ b. Ends b p.delivered) h.not_finalized o.ends);
  valid = All-append HasValidPayload p.delivered _ o.valid (h.valid, tt);
}

-- Publication keeps the log in order, on every branch.
pub publish_event-IsOrdered :
    (p : Publisher) (ctx : Ctx) (payload : Option Payload) (last : Bool)
    → IsOrdered p
    → IsOrdered (publish_event p ctx payload last).0
unfolding publish_event snapshot
publish_event-IsOrdered p ctx none last o = o
publish_event-IsOrdered p ctx (some payload) last o =
    elim (Option-cases (publish_refusal p payload)) [
      | inl e ↦
          rw (e, publish_payload)
            (settle-IsOrdered p payload last _ (publish_refusal-IsOpen p payload e) o)
      | inr (x, e) ↦ rw (e, publish_payload) o
    ]

close-IsOrdered : (p : Publisher) → IsOrdered p → IsOrdered (close p).0
unfolding close
close-IsOrdered p o = ground arith

pub data Call : Type 0 where
  publishes : Ctx → Option Payload → Call
  publishes_last : Ctx → Option Payload → Call
  closes : Call

unfoldable pub step : Publisher → Call → Publisher
unfolding publish publish_last
step p (publishes ctx payload) = (publish p ctx payload).0
step p (publishes_last ctx payload) = (publish_last p ctx payload).0
step p closes = (close p).0

-- Any sequence of calls, in the order in which they take the mutex.
unfoldable pub run : Publisher → List Call → Publisher
run p [] = p
run p (c ∷ cs) = run (step p c) cs

step-IsOrdered : (p : Publisher) (c : Call) → IsOrdered p → IsOrdered (step p c)
unfolding step
step-IsOrdered p (publishes ctx payload) o = publish_event-IsOrdered p ctx payload false o
step-IsOrdered p (publishes_last ctx payload) o = publish_event-IsOrdered p ctx payload true o
step-IsOrdered p closes o = close-IsOrdered p o

run-IsOrdered : (p : Publisher) (cs : List Call) → IsOrdered p → IsOrdered (run p cs)
unfolding run
run-IsOrdered p [] o = o
run-IsOrdered p (c ∷ cs) o = run-IsOrdered (step p c) cs (step-IsOrdered p c o)

new_publisher-IsOrdered :
    (os : Platform) (cfg : PublisherConfig) (p : Publisher)
    → new_publisher os cfg ≡ ok p
    → IsOrdered p
unfolding new_publisher
new_publisher-IsOrdered os cfg p h = ground arith

-- From a new publisher, whatever is called and whatever the sink answers: the events that the sink
-- took are numbered 1, 2, 3, and so on; their payloads are valid; and `last_event` is carried by
-- the final one exactly if the publisher is finalized, and by no other.
pub run-new_publisher-IsOrdered :
    (os : Platform) (cfg : PublisherConfig) (p : Publisher) (cs : List Call)
    → new_publisher os cfg ≡ ok p
    → IsOrdered (run p cs)
run-new_publisher-IsOrdered os cfg p cs h = run-IsOrdered p cs (new_publisher-IsOrdered os cfg p h)
