-- ===== src/Lifecycle/Heartbeat/Waits.antt =====
-- internal/evalevent/lifecycle.go: `Finish` waits for the heartbeat, and the wait ends.
use skill_up.Base.{
  ◌≡◌, ◌≢◌, refl, sym, subst, if◌then◌else◌, ◌∙◌, ap, inl, inr, Bool, true, false, Bool-cases,
}
use skill_up.Publisher.{Ctx}
use skill_up.Lifecycle.{Lifecycle, heartbeat, finish_locked, start_heartbeat, is_positive}
use skill_up.Lifecycle.Calls.{Call, step}
use skill_up.Lifecycle.Keeps.{step-keeps, finish_locked-keeps}
use skill_up.Lifecycle.Heartbeat.{
  Goroutine, not_running, selecting, ticking, exited, Finisher, idle, has_read, waiting, stopped,
  returned, System, IsOther, spawn, close_done, request_stop, after_request, Step, call, tick,
  beat_ok, beat_err, see_stop, read_started, request, wake, finish, Reach, here, later,
}
use skill_up.Lifecycle.Heartbeat.Flags.{
  SameFlags, Begins, heartbeat-SameFlags, finish_locked-SameFlags, step_flags, Started-IsKept,
}
use skill_up.Lifecycle.Heartbeat.Invariant.{Inv, Knows, same-Inv, spawn_same}

-- The knowledge of a `Finish` that has not seen a heartbeat, once one is running.
Knows-selecting :
    (f : Finisher) (l l' : Lifecycle) (g : Goroutine)
    → Knows f l g
    → l.heartbeat_started ≡ false
    → g ≡ not_running
    → l'.heartbeat_started ≡ true
    → Knows f l' selecting
Knows-selecting idle l l' g h off gone on = tt
Knows-selecting (has_read b) l l' g h off gone on = λ e. on
Knows-selecting waiting l l' g h off gone on = absurd (cc (h.0, off))
Knows-selecting (stopped b) l l' g h off gone on = λ e. absurd (cc (h e, gone))
Knows-selecting (returned b) l l' g h off gone on = λ e. absurd (cc (h e, gone))

start_heartbeat-positive :
    (l : Lifecycle)
    → is_positive l.interval ≡ true
    → start_heartbeat l ≡ record l { heartbeat_started = true }
unfolding start_heartbeat
start_heartbeat-positive l h =
    ap
      (λ (b : Bool).
        if b then record l { heartbeat_started = true } else record l { heartbeat_done = true })
      h

-- `Start` spawns the goroutine.
begun-Inv :
    (s : System) (l' : Lifecycle)
    → Begins s.life l'
    → Inv s
    → Inv
        (record s { life = l'; beat = spawn s.life.heartbeat_started l'.heartbeat_started s.beat })
begun-Inv s l' b h =
    subst
      (λ (x : Lifecycle).
        Inv
          (record s { life = x; beat = spawn s.life.heartbeat_started x.heartbeat_started s.beat }))
      (sym (b.begun ∙ start_heartbeat-positive m positive))
      (subst
        (λ (a : Bool).
          Inv
            (record s { life = record m { heartbeat_started = true }; beat = spawn a true s.beat }))
        (sym off)
        (record {
          positive = positive;
          begun = λ e. b.running;
          off = λ e. absurd (cc e);
          on = λ e q. absurd (cc q);
          done = λ e. absurd (cc e);
          over = λ e. absurd (cc (e, b.same.done, (h.off off).1));
          knows =
              Knows-selecting s.finisher s.life (record m { heartbeat_started = true }) s.beat
                h.knows off (h.off off).0 refl;
        }))
  where
    m : Lifecycle
    m = b.middle

    positive : is_positive b.middle.interval ≡ true
    positive = ap is_positive b.same.interval ∙ h.positive

    off : s.life.heartbeat_started ≡ false
    off = elim (Bool-cases s.life.heartbeat_started) [
      | inl y ↦ absurd (cc (h.begun y, b.fresh))
      | inr n ↦ n
    ]

call-Inv :
    (s : System) (c : Call)
    → IsOther c
    → Inv s
    → Inv (record s {
      life = (step c s.life).0;
      beat = spawn s.life.heartbeat_started (step c s.life).0.heartbeat_started s.beat;
    })
call-Inv s c other h = elim (step_flags c s.life other) [
  | inr b ↦ begun-Inv s (step c s.life).0 b h
  | inl v ↦
      subst (λ (g : Goroutine). Inv (record s { life = (step c s.life).0; beat = g }))
        (sym (
          ap (λ (a : Bool). spawn s.life.heartbeat_started a s.beat) v.started
          ∙ spawn_same s.life.heartbeat_started s.beat))
        (same-Inv s (step c s.life).0 v (step-keeps (λ p. p.started ≡ true) Started-IsKept c s.life)
          h)
]

-- A goroutine that runs has been started, and is not over.
live_on : (s : System) → Inv s → s.beat ≢ not_running → s.life.heartbeat_started ≡ true
live_on s h live = elim (Bool-cases s.life.heartbeat_started) [
  | inl y ↦ y
  | inr n ↦ absurd (live (h.off n).0)
]

-- The goroutine goes from one place in its loop to another.
Knows-moves :
    (f : Finisher) (l : Lifecycle) (g g' : Goroutine) → g ≢ exited → Knows f l g → Knows f l g'
Knows-moves idle l g g' n h = tt
Knows-moves (has_read b) l g g' n h = h
Knows-moves waiting l g g' n h = h
Knows-moves (stopped b) l g g' n h = λ e. absurd (n (h e))
Knows-moves (returned b) l g g' n h = λ e. absurd (n (h e))

move-Inv :
    (s : System) (g : Goroutine)
    → s.beat ≢ exited
    → s.beat ≢ not_running
    → g ≢ exited
    → g ≢ not_running
    → Inv s
    → Inv (record s { beat = g })
move-Inv s g live run live' run' h = record {
  positive = h.positive;
  begun = h.begun;
  off = λ e. absurd (run (h.off e).0);
  on = λ e. run';
  done = λ e. absurd (live' e);
  over = λ e. absurd (live (h.over e));
  knows = Knows-moves s.finisher s.life s.beat g live h.knows;
}

Knows-exits :
    (f : Finisher) (l : Lifecycle) (g : Goroutine) → Knows f l g → Knows f (close_done l) exited
Knows-exits idle l g h = tt
Knows-exits (has_read b) l g h = h
Knows-exits waiting l g h = h
Knows-exits (stopped b) l g h = λ e. refl
Knows-exits (returned b) l g h = λ e. refl

exit-Inv :
    (s : System)
    → s.beat ≢ not_running
    → Inv s
    → Inv (record s { life = close_done s.life; beat = exited })
exit-Inv s run h = record {
  positive = h.positive;
  begun = h.begun;
  off = λ e. absurd (cc (live_on s h run, e));
  on = λ e q. absurd (cc q);
  done = λ e. refl;
  over = λ e. refl;
  knows = Knows-exits s.finisher s.life s.beat h.knows;
}

beat_keeps : (s : System) (ctx : Ctx) → Inv s → Inv (record s { life = (heartbeat ctx s.life).0 })
beat_keeps s ctx h =
    same-Inv s (heartbeat ctx s.life).0 (heartbeat-SameFlags ctx s.life)
      (λ e. heartbeat_started ctx s.life e) h
  where
    heartbeat_started :
        (c : Ctx) (l : Lifecycle)
        → l.progress.started ≡ true
        → (heartbeat c l).0.progress.started ≡ true
    heartbeat_started c l =
        unfold step in step-keeps (λ p. p.started ≡ true) Started-IsKept (Call.heartbeats c) l

finisher-Inv :
    (s : System) (f : Finisher) → Knows f s.life s.beat → Inv s → Inv (record s { finisher = f })
finisher-Inv s f k h = record {
  positive = h.positive;
  begun = h.begun;
  off = h.off;
  on = h.on;
  done = h.done;
  over = h.over;
  knows = k;
}

requested-SameFlags : (l : Lifecycle) → SameFlags l (request_stop l)
requested-SameFlags l = record { started = refl; done = refl; interval = refl; stop = λ h. refl }

Knows-request :
    (b : Bool) (l : Lifecycle) (g : Goroutine)
    → Knows (has_read b) l g
    → Knows (after_request b) (request_stop l) g
Knows-request true l g h = (h refl, refl)
Knows-request false l g h = λ e. absurd (cc e)

pub finisher-Knows : {f : Finisher} (s : System) → s.finisher ≡ f → Inv s → Knows f s.life s.beat
finisher-Knows s at h = subst (λ f. Knows f s.life s.beat) at h.knows

pub Step-Inv : {s t : System} → Step s t → Inv s → Inv t
Step-Inv {s} (call c other) h = call-Inv s c other h
Step-Inv {s} (tick at) h = move-Inv s ticking (λ e. cc) (λ e. cc) (λ e. cc) (λ e. cc) h
Step-Inv {s} (beat_ok ctx at good) h =
    move-Inv (record s { life = (heartbeat ctx s.life).0 }) selecting (λ e. cc) (λ e. cc) (λ e. cc)
      (λ e. cc) (beat_keeps s ctx h)
Step-Inv {s} (beat_err ctx at bad) h =
    exit-Inv (record s { life = (heartbeat ctx s.life).0 }) (λ e. cc) (beat_keeps s ctx h)
Step-Inv {s} (see_stop at asked) h = exit-Inv s (λ e. cc) h
Step-Inv {s} (read_started at) h = finisher-Inv s _ (λ e. e) h
Step-Inv {s} (request {b} at) h =
    finisher-Inv (record s { life = request_stop s.life }) (after_request b)
      (Knows-request b s.life s.beat (finisher-Knows s at h))
      (same-Inv s (request_stop s.life) (requested-SameFlags s.life) (λ e. e) h)
Step-Inv {s} (wake at over) h = finisher-Inv s (stopped true) (λ e. h.over over) h
Step-Inv {s} (finish ctx status {b} at) h =
    finisher-Inv (record s { life = (finish_locked ctx status s.life).0 }) (returned b)
      (finisher-Knows s at h)
      (same-Inv s (finish_locked ctx status s.life).0 (finish_locked-SameFlags ctx status s.life)
        (finish_locked-keeps (λ p. p.started ≡ true) Started-IsKept ctx status s.life) h)

pub Reach-Inv : {s t : System} → Inv s → Reach s t → Inv t
Reach-Inv h here = h
Reach-Inv h (later r st) = Step-Inv st (Reach-Inv h r)
