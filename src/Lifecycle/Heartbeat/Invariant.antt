-- ===== src/Lifecycle/Heartbeat/Invariant.antt =====
-- internal/evalevent/lifecycle.go: the flags of the heartbeat against its goroutine.
use skill_up.Base.{◌≡◌, ◌≢◌, refl, sym, ◌∙◌, ap, Bool, true, false}
use skill_up.Lifecycle.{Lifecycle, is_positive}
use skill_up.Lifecycle.Heartbeat.{
  Goroutine, not_running, exited, Finisher, idle, has_read, waiting, stopped, returned, System,
  spawn,
}
use skill_up.Lifecycle.Heartbeat.Flags.{SameFlags}

-- What `Finish` knows: the heartbeat was started if it has read so, it is asked to stop where
-- `Finish` waits, and it is over where `Finish` has waited.
abbrev pub Knows : Finisher → Lifecycle → Goroutine → Type 0
Knows idle l g = Unit {0}
Knows (has_read b) l g = b ≡ true → l.heartbeat_started ≡ true
Knows waiting l g = (l.heartbeat_started ≡ true) × (l.heartbeat_stop ≡ true)
Knows (stopped b) l g = b ≡ true → g ≡ exited
Knows (returned b) l g = b ≡ true → g ≡ exited

-- The flags against the goroutine, for a positive interval.
pub record Inv (s : System) : Type 0 where
  pub positive : is_positive s.life.interval ≡ true
  pub begun : s.life.heartbeat_started ≡ true → s.life.progress.started ≡ true
  pub off :
      s.life.heartbeat_started ≡ false → (s.beat ≡ not_running) × (s.life.heartbeat_done ≡ false)
  pub on : s.life.heartbeat_started ≡ true → s.beat ≢ not_running
  pub done : s.beat ≡ exited → s.life.heartbeat_done ≡ true
  pub over : s.life.heartbeat_done ≡ true → s.beat ≡ exited
  pub knows : Knows s.finisher s.life s.beat

-- A step that keeps the flags and the goroutine keeps what `Finish` knows.
Knows-SameFlags :
    (f : Finisher) (l l' : Lifecycle) (g : Goroutine) → SameFlags l l' → Knows f l g → Knows f l' g
Knows-SameFlags idle l l' g v h = tt
Knows-SameFlags (has_read b) l l' g v h = λ e. v.started ∙ h e
Knows-SameFlags waiting l l' g v h = (v.started ∙ h.0, v.stop h.1)
Knows-SameFlags (stopped b) l l' g v h = h
Knows-SameFlags (returned b) l l' g v h = h

pub spawn_same : (b : Bool) (g : Goroutine) → spawn b b g ≡ g
spawn_same true g = refl
spawn_same false g = refl

pub same-Inv :
    (s : System) (l' : Lifecycle)
    → SameFlags s.life l'
    → (s.life.progress.started ≡ true → l'.progress.started ≡ true)
    → Inv s
    → Inv (record s { life = l' })
same-Inv s l' v keep h = record {
  positive = ap is_positive v.interval ∙ h.positive;
  begun = λ e. keep (h.begun (sym v.started ∙ e));
  off = λ e. let (a, b) = h.off (sym v.started ∙ e) in (a, v.done ∙ b);
  on = λ e. h.on (sym v.started ∙ e);
  done = λ e. v.done ∙ h.done e;
  over = λ e. h.over (sym v.done ∙ e);
  knows = Knows-SameFlags s.finisher s.life l' s.beat v h.knows;
}
