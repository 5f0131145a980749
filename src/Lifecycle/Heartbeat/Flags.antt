-- ===== src/Lifecycle/Heartbeat/Flags.antt =====
-- internal/evalevent/lifecycle.go: what the calls do to the channels and the flag of the heartbeat.
use skill_up.Base.{
  ℕ, ◌≡◌, refl, ◌∙◌, ◌⊎◌, true, false, Option, none, some, Str, lookup, str_key, nat_key, inl, inr,
}
use skill_up.Event.{CaseStatus, RunStatus, RunPhase, Float64, Payload, Err}
use skill_up.Publisher.{Ctx, Publisher}
use skill_up.Lifecycle.State.{
  Progress, begin_run, begin_iteration, begin_task, complete_task, complete_iteration, finish_run,
}
use skill_up.Lifecycle.{
  Lifecycle, Outcome, guarded, ◌▸◌, record_publication, publish_locked, publish_last_locked,
  publish_progress_locked, start, set_phase, heartbeat, iteration_started, case_started,
  case_completed, iteration_completed, finish_locked, start_heartbeat, announce_run, check_start,
}
use skill_up.Lifecycle.Keeps.{IsKept, check_start-new}
use skill_up.Lifecycle.Calls.{
  Call, step, ▸-keeps, publish_locked-keeps, publish_progress_locked-keeps,
}
use skill_up.Lifecycle.Heartbeat.{IsOther}

-- A call leaves the flag, the end of the goroutine and the interval alone, and takes back no
-- request to stop.
pub record SameFlags (a b : Lifecycle) : Type 0 where
  pub started : b.heartbeat_started ≡ a.heartbeat_started
  pub done : b.heartbeat_done ≡ a.heartbeat_done
  pub interval : b.interval ≡ a.interval
  pub stop : a.heartbeat_stop ≡ true → b.heartbeat_stop ≡ true

SameFlags-refl : (l : Lifecycle) → SameFlags l l
SameFlags-refl l = record { started = refl; done = refl; interval = refl; stop = λ h. h }

SameFlags-trans : {a b c : Lifecycle} → SameFlags a b → SameFlags b c → SameFlags a c
SameFlags-trans v w = record {
  started = w.started ∙ v.started;
  done = w.done ∙ v.done;
  interval = w.interval ∙ v.interval;
  stop = λ h. w.stop (v.stop h);
}

record_publication-SameFlags :
    (l : Lifecycle) (r : Publisher × Option Err) → SameFlags l (record_publication l r).0
unfolding record_publication
record_publication-SameFlags l (p, none) = record {
  started = refl;
  done = refl;
  interval = refl;
  stop = λ h. h;
}
record_publication-SameFlags l (p, some e) = record {
  started = refl;
  done = refl;
  interval = refl;
  stop = λ h. refl;
}

publish_locked-SameFlags :
    (ctx : Ctx) (payload : Payload) (l : Lifecycle) → SameFlags l (publish_locked ctx payload l).0
unfolding publish_locked
publish_locked-SameFlags ctx payload l = record_publication-SameFlags l _

publish_last_locked-SameFlags :
    (ctx : Ctx) (payload : Payload) (l : Lifecycle)
    → SameFlags l (publish_last_locked ctx payload l).0
unfolding publish_last_locked
publish_last_locked-SameFlags ctx payload l = record_publication-SameFlags l _

-- A state with the same flags as another one by definition has them after the same call.
from_same :
    {a b c : Lifecycle}
    → b.heartbeat_started ≡ a.heartbeat_started
    → b.heartbeat_done ≡ a.heartbeat_done
    → b.interval ≡ a.interval
    → b.heartbeat_stop ≡ a.heartbeat_stop
    → SameFlags b c
    → SameFlags a c
from_same p q r s v = record {
  started = v.started ∙ p;
  done = v.done ∙ q;
  interval = v.interval ∙ r;
  stop = λ h. v.stop (s ∙ h);
}

publish_progress_locked-SameFlags :
    (ctx : Ctx) (l : Lifecycle) → SameFlags l (publish_progress_locked ctx l).0
unfolding publish_progress_locked
publish_progress_locked-SameFlags ctx l =
    from_same refl refl refl refl (publish_locked-SameFlags ctx _ _)

guarded-SameFlags :
    (c : Option Err) (l : Lifecycle) (r : Outcome) → SameFlags l r.0 → SameFlags l (guarded c l r).0
guarded-SameFlags none l r h = h
guarded-SameFlags (some e) l r h = SameFlags-refl l

▸-SameFlags :
    (l : Lifecycle) (r : Outcome) (k : Lifecycle → Outcome)
    → SameFlags l r.0
    → ((l' : Lifecycle) → SameFlags l' (k l').0)
    → SameFlags l (r ▸ k).0
▸-SameFlags l (l', none) k h g = SameFlags-trans h (g l')
▸-SameFlags l (l', some e) k h g = h

-- A publication of a changed state, and of the progress after it.
both-SameFlags :
    (ctx : Ctx) (payload : Payload) (l l' : Lifecycle)
    → l'.heartbeat_started ≡ l.heartbeat_started
    → l'.heartbeat_done ≡ l.heartbeat_done
    → l'.interval ≡ l.interval
    → l'.heartbeat_stop ≡ l.heartbeat_stop
    → SameFlags l (publish_locked ctx payload l' ▸ publish_progress_locked ctx).0
both-SameFlags ctx payload l l' p q r s =
    ▸-SameFlags l (publish_locked ctx payload l') (publish_progress_locked ctx)
      (from_same p q r s (publish_locked-SameFlags ctx payload l'))
      (publish_progress_locked-SameFlags ctx)

-- A lookup that fails changes nothing.
found-SameFlags :
    {A : Type 0} (l : Lifecycle) (o : Option A) (e : Err) (k : A → Outcome)
    → ((a : A) → SameFlags l (k a).0)
    → SameFlags l (elim o as (λ _. Outcome) [ none ↦ (l, some e) | some a ↦ k a ]).0
found-SameFlags l none e k h = SameFlags-refl l
found-SameFlags l (some a) e k h = h a

pub heartbeat-SameFlags : (ctx : Ctx) (l : Lifecycle) → SameFlags l (heartbeat ctx l).0
unfolding heartbeat
heartbeat-SameFlags ctx l = guarded-SameFlags _ l _ (publish_progress_locked-SameFlags ctx l)

pub finish_locked-SameFlags :
    (ctx : Ctx) (status : RunStatus) (l : Lifecycle) → SameFlags l (finish_locked ctx status l).0
unfolding finish_locked
finish_locked-SameFlags ctx status l = guarded-SameFlags _ l _ (
    SameFlags-trans (from_same refl refl refl refl (publish_progress_locked-SameFlags ctx _))
      (from_same refl refl refl refl (publish_last_locked-SameFlags ctx _ _)))

set_phase-SameFlags :
    (ctx : Ctx) (phase : RunPhase) (l : Lifecycle) → SameFlags l (set_phase ctx phase l).0
unfolding set_phase
set_phase-SameFlags ctx phase l =
    guarded-SameFlags _ l _
      (from_same refl refl refl refl (publish_progress_locked-SameFlags ctx _))

iteration_started-SameFlags :
    (ctx : Ctx) (n : ℕ) (l : Lifecycle) → SameFlags l (iteration_started ctx n l).0
unfolding iteration_started
iteration_started-SameFlags ctx n l = guarded-SameFlags _ l _ (
    found-SameFlags l (lookup n l.iterations) _ _ (λ it.
      guarded-SameFlags _ l _ (from_same refl refl refl refl (publish_locked-SameFlags ctx _ _))))

case_started-SameFlags :
    (ctx : Ctx) (id : Str) (l : Lifecycle) → SameFlags l (case_started ctx id l).0
unfolding case_started
case_started-SameFlags ctx id l = guarded-SameFlags _ l _ (
    found-SameFlags l (lookup id l.tasks) _ _ (λ t.
      found-SameFlags l (lookup t.task.iteration l.iterations) _ _
        (λ it. guarded-SameFlags _ l _ (both-SameFlags ctx _ l _ refl refl refl refl))))

case_completed-SameFlags :
    (ctx : Ctx) (id : Str) (status : CaseStatus) (rate : Option Float64) (l : Lifecycle)
    → SameFlags l (case_completed ctx id status rate l).0
unfolding case_completed
case_completed-SameFlags ctx id status rate l = guarded-SameFlags _ l _ (
    found-SameFlags l (lookup id l.tasks) _ _ (λ t. guarded-SameFlags _ l _ (
      found-SameFlags l (lookup t.task.iteration l.iterations) _ _
        (λ it. both-SameFlags ctx _ l _ refl refl refl refl))))

iteration_completed-SameFlags :
    (ctx : Ctx) (n : ℕ) (l : Lifecycle) → SameFlags l (iteration_completed ctx n l).0
unfolding iteration_completed
iteration_completed-SameFlags ctx n l = guarded-SameFlags _ l _ (
    found-SameFlags l (lookup n l.iterations) _ _ (λ it.
      guarded-SameFlags _ l _ (from_same refl refl refl refl (publish_locked-SameFlags ctx _ _))))

-- `Start` went through: the state in which it starts the heartbeat.
pub record Begins (l l' : Lifecycle) : Type 0 where
  pub fresh : l.progress.started ≡ false
  pub middle : Lifecycle
  pub same : SameFlags l middle
  pub running : middle.progress.started ≡ true
  pub begun : l' ≡ start_heartbeat middle

begin_heartbeat :
    (l : Lifecycle) (r : Outcome)
    → l.progress.started ≡ false
    → r.0.progress.started ≡ true
    → SameFlags l r.0
    → let x = (r ▸ λ l'. (start_heartbeat l', none)) in SameFlags l x.0 ⊎ Begins l x.0
begin_heartbeat l (l', none) new on h =
    inr (record { fresh = new; middle = l'; same = h; running = on; begun = refl })
begin_heartbeat l (l', some e) new on h = inl h

announce_run-SameFlags :
    (ctx : Ctx) (engine name : Str) (l : Lifecycle) → SameFlags l (announce_run ctx engine name l).0
unfolding announce_run
announce_run-SameFlags ctx engine name l = both-SameFlags ctx _ l _ refl refl refl refl

announce_run-started :
    (ctx : Ctx) (engine name : Str) (l : Lifecycle)
    → (announce_run ctx engine name l).0.progress.started ≡ true
unfolding announce_run begin_run
announce_run-started ctx engine name l =
    ▸-keeps (λ (s : Progress). s.started ≡ true) _ (publish_progress_locked ctx)
      (publish_locked-keeps (λ (s : Progress). s.started ≡ true) ctx _ _ refl)
      (publish_progress_locked-keeps (λ (s : Progress). s.started ≡ true) ctx)

-- A run that has started stays started.
pub Started-IsKept : IsKept (λ (s : Progress). s.started ≡ true)
unfolding begin_run begin_iteration begin_task complete_task complete_iteration finish_run
Started-IsKept = record {
  runs = λ now s new h. refl;
  phases = λ phase s live forward h. h;
  begins_iteration = λ now n it s running found new h. h;
  begins_task = λ now id t it s running found at active new h. h;
  completes_task = λ id t it status s running valid found active at h. h;
  completes_iteration = λ n it s running found active full h. h;
  finishes_run = λ status s live done h. h;
}

guarded_start :
    (c : Option Err) (l : Lifecycle) (r : Outcome)
    → (c ≡ none → SameFlags l r.0 ⊎ Begins l r.0)
    → SameFlags l (guarded c l r).0 ⊎ Begins l (guarded c l r).0
guarded_start none l r h = h refl
guarded_start (some e) l r h = inl (SameFlags-refl l)

start_flags :
    (ctx : Ctx) (engine name : Str) (l : Lifecycle)
    → SameFlags l (start ctx engine name l).0 ⊎ Begins l (start ctx engine name l).0
unfolding start
start_flags ctx engine name l = guarded_start (check_start engine name l.progress) l _ (λ h.
    begin_heartbeat l (announce_run ctx engine name l) (check_start-new engine name l.progress h)
      (announce_run-started ctx engine name l) (announce_run-SameFlags ctx engine name l))

-- Every call but `Finish` keeps the flags, or is a `Start` that starts the heartbeat.
pub step_flags :
    (c : Call) (l : Lifecycle) → IsOther c → SameFlags l (step c l).0 ⊎ Begins l (step c l).0
unfolding step
step_flags (Call.starts ctx engine name) l h = start_flags ctx engine name l
step_flags (Call.sets_phase ctx phase) l h = inl (set_phase-SameFlags ctx phase l)
step_flags (Call.heartbeats ctx) l h = inl (heartbeat-SameFlags ctx l)
step_flags (Call.starts_iteration ctx n) l h = inl (iteration_started-SameFlags ctx n l)
step_flags (Call.starts_case ctx id) l h = inl (case_started-SameFlags ctx id l)
step_flags (Call.completes_case ctx id status rate) l h =
    inl (case_completed-SameFlags ctx id status rate l)
step_flags (Call.completes_iteration ctx n) l h = inl (iteration_completed-SameFlags ctx n l)
step_flags (Call.finishes ctx status) l h = absurd h
