-- ===== src/Lifecycle/Started.antt =====
-- internal/evalevent/lifecycle.go: what `Start` has published and changed if it succeeds.
use skill_up.Base.{
  length, Bool-cases, inl, inr, ◌≡◌, refl, ◌∙◌, false, Bool, Option, none, some, [], ◌∷◌, ◌++◌, Str,
  suc,
}
use skill_up.Event
use skill_up.Event.{Event, Payload, RunPhase, EventType}
use skill_up.Event.Validate.{event_type}
use skill_up.Publisher.{Ctx, Publisher, publish, publish_event, event_of}
use skill_up.Publisher.Stop.{delivered, failed, refused, publish_event-Outcome}
use skill_up.Lifecycle.{
  is_positive, now, after_now, with_progress, Lifecycle, start, guarded, ◌▸◌, record_publication,
  publish_locked, publish_progress_locked, announce_run, start_heartbeat, check_start,
}
use skill_up.Lifecycle.State.{begin_run}

-- One more event, of a type and under the publisher's next number.
abbrev pub Delivers : Publisher → EventType → Publisher → Type 0
Delivers p type q =
    (e : Event) × (q.delivered ≡ p.delivered ++ e ∷ [])
    × (e.type ≡ type)
    × (e.sequence_number ≡ p.next_sequence)
    × (q.next_sequence ≡ suc p.next_sequence)

publish_event-Delivers :
    (p : Publisher) (ctx : Ctx) (payload : Payload) (last : Bool)
    → (publish_event p ctx (some payload) last).1 ≡ none
    → Delivers p (event_type payload) (publish_event p ctx (some payload) last).0
unfolding event_of
publish_event-Delivers p ctx payload last h = elim (publish_event-Outcome p ctx payload last) [
  | delivered ready took done longer number same ↦
      (event_of p payload last, longer, refl, refl, number)
  | failed e ready refuses answer sticky same number ↦ absurd (cc (h, answer))
  | refused e shut answer same ↦ absurd (cc (h, answer))
]

record_publication-ok :
    (l : Lifecycle) (r : Publisher × Option Event.Err)
    → (record_publication l r).1 ≡ none
    → (r.1 ≡ none) × (record_publication l r ≡ (record l { publisher = r.0 }, none))
unfolding record_publication
record_publication-ok l (p, none) h = (refl, refl)
record_publication-ok l (p, some e) h = cc

-- What a publication of the lifecycle that succeeds has done.
abbrev Publishes : Lifecycle → EventType → Lifecycle → Type 0
Publishes l type m = Delivers l.publisher type m.publisher × (m.progress ≡ l.progress)

publish_locked-Publishes :
    (ctx : Ctx) (payload : Payload) (l : Lifecycle)
    → (publish_locked ctx payload l).1 ≡ none
    → Publishes l (event_type payload) (publish_locked ctx payload l).0
unfolding publish_locked publish
publish_locked-Publishes ctx payload l h =
    let (good, same) =
      record_publication-ok l (publish_event l.publisher ctx (some payload) false) h in
    rw same (publish_event-Delivers l.publisher ctx payload false good, refl)

▸-ok :
    (r : Lifecycle × Option Event.Err) (k : Lifecycle → Lifecycle × Option Event.Err)
    → (r ▸ k).1 ≡ none
    → (r.1 ≡ none) × ((r ▸ k) ≡ k r.0)
▸-ok (l, none) k h = (refl, refl)
▸-ok (l, some e) k h = cc

guarded-ok :
    (c : Option Event.Err) (l : Lifecycle) (r : Lifecycle × Option Event.Err)
    → (guarded c l r).1 ≡ none
    → guarded c l r ≡ r
guarded-ok none l r h = refl
guarded-ok (some e) l r h = cc

-- What `Start` has done if it succeeds.
abbrev pub Starts : Lifecycle → Lifecycle → Type 0
Starts l m =
    (q : Publisher) × Delivers l.publisher EventType.run_started q
    × Delivers q EventType.run_progress m.publisher
    × (m.progress ≡ begin_run (now l) l.progress)

Starts-start_heartbeat : (l m : Lifecycle) → Starts l m → Starts l (start_heartbeat m)
unfolding start_heartbeat
Starts-start_heartbeat l m s = elim (Bool-cases (is_positive m.interval)) [
  | inl y ↦ rw y s
  | inr n ↦ rw n s
]

announce_run-Starts :
    (ctx : Ctx) (engine skill_name : Str) (l : Lifecycle)
    → (announce_run ctx engine skill_name l).1 ≡ none
    → Starts l (announce_run ctx engine skill_name l).0
unfolding announce_run publish_progress_locked event_type
announce_run-Starts ctx engine skill_name l h =
    let payload : Payload = Payload.run_started (record {
      engine = engine;
      skill_name = skill_name;
      task_total = l.task_total;
      iterations_total = length l.iterations;
    }) in
    let r =
      publish_locked ctx payload (after_now (with_progress l (begin_run (now l) l.progress))) in
    let (first, then) = ▸-ok r (publish_progress_locked ctx) h in
    let (started, kept) = publish_locked-Publishes ctx _ _ first in
    let (progressed, kept') = publish_locked-Publishes ctx _ _ (rw then at h) in
    rw then (r.0.publisher, started, progressed, kept' ∙ kept)

pub start-Starts :
    (ctx : Ctx) (engine skill_name : Str) (l : Lifecycle)
    → (start ctx engine skill_name l).1 ≡ none
    → Starts l (start ctx engine skill_name l).0
unfolding start
start-Starts ctx engine skill_name l h =
    let whole = guarded-ok (check_start engine skill_name l.progress) l _ h in
    let (both, beats) = ▸-ok (announce_run ctx engine skill_name l) _ (rw whole at h) in
    rw (whole, beats)
      (Starts-start_heartbeat l (announce_run ctx engine skill_name l).0
        (announce_run-Starts ctx engine skill_name l both))
