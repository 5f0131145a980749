-- ===== src/Publisher/Stop.antt =====
-- internal/evalevent/publisher.go: when an event is delivered, and when publication has stopped.
use skill_up.Base.{
  suc, ◌≡◌, refl, ◌∙◌, ◌⊎◌, ◌↔◌, inl, inr, Bool, true, false, Option, none, some, List, [], ◌∷◌,
  ◌++◌, arith, Option-cases,
}
use skill_up.Event.{Payload, Err, publish_failed}
use skill_up.Event.Validate.{snapshot, event_type}
use skill_up.Publisher.{
  Ctx, Publisher, event_of, publish_refusal, settle, publish_payload, publish_event, close,
}
use skill_up.Publisher.Log.{
  IsOpen, publish_refusal-IsOpen, IsOpen-publish_refusal, Call, publishes, publishes_last, closes,
  step, run,
}

-- A payload is published without error exactly if the publisher is open, the payload is valid, the
-- sequence number is in range and the sink takes the event.
pub publish_event-ok_iff :
    (p : Publisher) (ctx : Ctx) (payload : Payload) (last : Bool)
    → ((publish_event p ctx (some payload) last).1 ≡ none)
      ↔ (IsOpen p payload × (p.sink.publish p.sink_calls ctx (event_of p payload last) ≡ none))
unfolding publish_event snapshot settle
publish_event-ok_iff p ctx payload last = (
  λ h. ground (arith, publish_refusal-IsOpen p payload),
  λ h. ground (arith, IsOpen-publish_refusal p payload h.0),
)

-- Every outcome of a publication. An open publisher hands the event to the sink: if the sink takes
-- it, the event is appended and the next number is one more; if the sink refuses it, the refusal is
-- the sticky error. Any other publisher stays as it is.
pub data Outcome (p : Publisher) (ctx : Ctx) (payload : Payload) (last : Bool) (q : Publisher)
    (r : Option Err) : Type 0 where
  delivered :
      IsOpen p payload
      → p.sink.publish p.sink_calls ctx (event_of p payload last) ≡ none
      → r ≡ none
      → q.delivered ≡ p.delivered ++ event_of p payload last ∷ []
      → q.next_sequence ≡ suc p.next_sequence
      → q.error ≡ p.error
      → Outcome p ctx payload last q r
  failed :
      (e : Err)
      → IsOpen p payload
      → p.sink.publish p.sink_calls ctx (event_of p payload last) ≡ some e
      → r ≡ some (publish_failed (event_type payload) e)
      → q.error ≡ r
      → q.delivered ≡ p.delivered
      → q.next_sequence ≡ p.next_sequence
      → Outcome p ctx payload last q r
  refused : (e : Err) → (¬ IsOpen p payload) → r ≡ some e → q ≡ p → Outcome p ctx payload last q r

-- Publication has stopped: the publisher is closed, has published its last event, or has met a
-- transport error.
abbrev pub IsStopped : Publisher → Type 0
IsStopped p = (p.closed ≡ true) ⊎ ((p.finalized ≡ true) ⊎ ((e : Err) × (p.error ≡ some e)))

publish_event-stopped :
    (p : Publisher) (ctx : Ctx) (payload : Option Payload) (last : Bool)
    → IsStopped p
    → (publish_event p ctx payload last).0 ≡ p
unfolding publish_event publish_refusal
publish_event-stopped p ctx none last h = refl
publish_event-stopped p ctx (some payload) last h = ground arith

pub close-closed :
    (p : Publisher) → ((close p).0.closed ≡ true) × ((close p).0.delivered ≡ p.delivered)
unfolding close
close-closed p = ground arith

step-IsStopped :
    (p : Publisher) (c : Call)
    → IsStopped p
    → IsStopped (step p c) × ((step p c).delivered ≡ p.delivered)
unfolding step
step-IsStopped p (publishes ctx payload) h =
    rw (publish_event-stopped p ctx payload false h) (h, refl)
step-IsStopped p (publishes_last ctx payload) h =
    rw (publish_event-stopped p ctx payload true h) (h, refl)
step-IsStopped p closes h = (inl (close-closed p).0, (close-closed p).1)

-- Once publication has stopped, no later call delivers anything.
pub run-delivered_of_IsStopped :
    (p : Publisher) (cs : List Call) → IsStopped p → (run p cs).delivered ≡ p.delivered
unfolding run
run-delivered_of_IsStopped p [] h = refl
run-delivered_of_IsStopped p (c ∷ cs) h =
    let (s, e) = step-IsStopped p c h in run-delivered_of_IsStopped (step p c) cs s ∙ e

-- Every publication has the outcome that the state and the sink call for: an open publisher delivers
-- the event, under the next number, if the sink takes it, and else keeps the sink's error; a
-- publisher that is not open for the payload returns an error and stays as it is.
pub publish_event-Outcome :
    (p : Publisher) (ctx : Ctx) (payload : Payload) (last : Bool)
    → let (q, r) = publish_event p ctx (some payload) last in Outcome p ctx payload last q r
unfolding publish_event snapshot settle event_type event_of
publish_event-Outcome p ctx payload last = elim (Option-cases (publish_refusal p payload)) [
  | inr (e, q) ↦
      rw (q, publish_payload)
        (refused e (λ o. absurd (cc (q, IsOpen-publish_refusal p payload o))) refl refl)
  | inl q ↦ elim (Option-cases (p.sink.publish p.sink_calls ctx (event_of p payload last))) [
    | inl s ↦
        let o = publish_refusal-IsOpen p payload q in
        rw (q, publish_payload, s) (delivered o s refl refl (omega (arith, o.in_range)) refl)
    | inr (e, s) ↦
        rw (q, publish_payload, s)
          (failed e (publish_refusal-IsOpen p payload q) s refl refl refl refl)
  ]
]
