-- ===== src/Lifecycle/Heartbeat.antt =====
-- internal/evalevent/lifecycle.go: the goroutine of the heartbeat, the calls of other goroutines,
-- and a `Finish` that waits, one critical section at a time.
pub mod Flags
pub mod Invariant
pub mod Waits
pub mod Ends
pub mod Tests
use skill_up.Base.{ℕ, ◌≡◌, Bool, true, false, none, some, if◌then◌else◌}
use skill_up.Event.{RunStatus, Err}
use skill_up.Publisher.{Ctx}
use skill_up.Lifecycle.{Lifecycle, heartbeat, finish_locked}
use skill_up.Lifecycle.Calls.{Call, step}

-- Where `runHeartbeat` stands: not started, at its `select`, behind a tick, or returned.
pub data Goroutine : Type 0 where
  not_running selecting ticking exited : Goroutine

-- Where `Finish` stands: before `stopHeartbeat`, behind its reading of `heartbeatStarted`, at its
-- wait for `heartbeatDone`, behind `stopHeartbeat`, and at its end. What it has read is kept.
pub data Finisher : Type 0 where
  idle : Finisher
  has_read : Bool → Finisher
  waiting : Finisher
  stopped returned : Bool → Finisher

pub record System : Type 0 where
  pub life : Lifecycle
  pub beat : Goroutine
  pub finisher : Finisher

-- The calls of other goroutines; the one `Finish` is the finisher.
abbrev pub IsOther : Call → Type 0
IsOther (Call.finishes ctx status) = ⊥
IsOther _ = Unit {0}

-- `go l.runHeartbeat(…)`, which happens where `heartbeatStarted` is set.
abbrev pub spawn : Bool → Bool → Goroutine → Goroutine
spawn false true g = selecting
spawn _ _ g = g

-- `close(l.heartbeatDone)`.
abbrev pub close_done : Lifecycle → Lifecycle
close_done l = record l { heartbeat_done = true }

abbrev pub request_stop : Lifecycle → Lifecycle
request_stop l = record l { heartbeat_stop = true }

abbrev pub after_request : Bool → Finisher
after_request true = waiting
after_request false = stopped false

-- One step of any of them. The `select` may take a tick although a stop is requested.
pub data Step (s : System) : System → Type 0 where
  call :
      (c : Call)
      → IsOther c
      → Step s (record {
        life = (step c s.life).0;
        beat = spawn s.life.heartbeat_started (step c s.life).0.heartbeat_started s.beat;
        finisher = s.finisher;
      })
  tick : s.beat ≡ selecting → Step s (record s { beat = ticking })
  beat_ok :
      (ctx : Ctx)
      → s.beat ≡ ticking
      → (heartbeat ctx s.life).1 ≡ none
      → Step s (record s { life = (heartbeat ctx s.life).0; beat = selecting })
  beat_err :
      (ctx : Ctx) {e : Err}
      → s.beat ≡ ticking
      → (heartbeat ctx s.life).1 ≡ some e
      → Step s (record s { life = close_done (heartbeat ctx s.life).0; beat = exited })
  see_stop :
      s.beat ≡ selecting
      → s.life.heartbeat_stop ≡ true
      → Step s (record s { life = close_done s.life; beat = exited })
  read_started :
      s.finisher ≡ idle → Step s (record s { finisher = has_read s.life.heartbeat_started })
  request :
      {b : Bool}
      → s.finisher ≡ has_read b
      → Step s (record s { life = request_stop s.life; finisher = after_request b })
  wake :
      s.finisher ≡ waiting
      → s.life.heartbeat_done ≡ true
      → Step s (record s { finisher = stopped true })
  finish :
      (ctx : Ctx) (status : RunStatus) {b : Bool}
      → s.finisher ≡ stopped b
      → Step s (record s { life = (finish_locked ctx status s.life).0; finisher = returned b })

pub data Reach (start : System) : System → Type 0 where
  here : Reach start start
  later : {s t : System} → Reach start s → Step s t → Reach start t

abbrev pub begin : Lifecycle → System
begin l = record { life = l; beat = not_running; finisher = idle }
