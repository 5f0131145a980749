-- ===== src/Lifecycle/Errors.antt =====
-- internal/evalevent/lifecycle.go: which errors a method can return. None is a defect of the
-- lifecycle itself: no payload is refused as invalid, and no missing iteration is dereferenced.
use skill_up.Base.{
  ℕ, ◌<◌, ◌≡◌, refl, Bool, true, false, Option, none, some, List, [], ◌∷◌, Str, arith, lookup,
  str_key, nat_key, Option-cases, inl, inr,
}
use skill_up.Event.{
  CaseStatus, RunStatus, RunPhase, Float64, Payload, Err, invalid_payload, nil_dereference,
  nil_payload,
}
use skill_up.Event.Validate.{
  validate, snapshot, phase_valid, validate_pass_rate, validate_non_empty_string,
}
use skill_up.Publisher.{
  Ctx, Publisher, publish, publish_last, publish_event, publish_refusal, settle,
}
use skill_up.Lifecycle.State.{
  LifecycleTask, LifecycleIteration, Progress, phase_rank, begin_run, begin_iteration, begin_task,
  complete_task, complete_iteration, finish_run,
}
use skill_up.Lifecycle.Invariant.{Inv}
use skill_up.Lifecycle.Payloads.{progress_payload-valid}
use skill_up.Lifecycle.Keeps.{IsKept}
use skill_up.Lifecycle.{
  Lifecycle, Outcome, guarded, ◌▸◌, record_publication, publish_locked, publish_last_locked,
  publish_progress_locked, with_iteration, with_task, with_iteration_of, ensure_active,
  ensure_executing, check_start, check_phase, check_new_iteration, check_new_task, check_result,
  check_running_task, check_full_iteration, check_completed, unfinished_iteration, check_finish,
}

-- The errors that would be defects of the lifecycle.
unfoldable pub is_defect : Err → Bool
is_defect (invalid_payload type e) = true
is_defect nil_dereference = true
is_defect nil_payload = true
is_defect _ = false

abbrev pub IsClean : Option Err → Type 0
IsClean none = Unit {0}
IsClean (some e) = is_defect e ≡ false

-- The phase of a run that has started is one of the three.
abbrev pub HasPhase : Progress → Type 0
HasPhase s = s.started ≡ true → phase_valid s.phase ≡ true

phase_rank-valid : (a b : RunPhase) → phase_rank a < phase_rank b → phase_valid b ≡ true
unfolding phase_rank phase_valid
phase_rank-valid a b h = ground arith

pub HasPhase-IsKept : IsKept HasPhase
unfolding begin_run begin_iteration begin_task complete_task complete_iteration finish_run
    phase_valid
HasPhase-IsKept = record {
  runs = λ now s h v p. refl;
  phases = λ phase s live h v p. phase_rank-valid s.phase phase h;
  begins_iteration = λ now n it s x e h v. v;
  begins_task = λ now id t it s x e home o h v. v;
  completes_task = λ id t it status s x valid e h home v. v;
  completes_iteration = λ n it s x e h full v. v;
  finishes_run = λ status s live h v p. refl;
}

publish_event-IsClean :
    (p : Publisher) (ctx : Ctx) (payload : Payload) (last : Bool)
    → validate payload ≡ none
    → IsClean p.error
    → IsClean (publish_event p ctx (some payload) last).1
      × IsClean (publish_event p ctx (some payload) last).0.error
unfolding publish_event publish_refusal snapshot settle is_defect
publish_event-IsClean p ctx payload last h c = ground arith

-- What every method finds and leaves: the invariant, a phase, and a sticky error of the transport.
pub record IsSound (l : Lifecycle) : Type 0 where
  pub inv : Inv l.progress
  pub phase : HasPhase l.progress
  pub error : IsClean l.publisher.error

abbrev pub IsFine : Outcome → Type 0
IsFine r = IsSound r.0 × IsClean r.1

record_publication-IsFine :
    (l : Lifecycle) (r : Publisher × Option Err)
    → IsSound l
    → IsClean r.1 × IsClean r.0.error
    → IsFine (record_publication l r)
unfolding record_publication
record_publication-IsFine l (p, none) h c =
    (record { inv = h.inv; phase = h.phase; error = c.1 }, tt)
record_publication-IsFine l (p, some e) h c =
    (record { inv = h.inv; phase = h.phase; error = c.1 }, c.0)

pub publish_locked-IsFine :
    (ctx : Ctx) (payload : Payload) (l : Lifecycle)
    → validate payload ≡ none
    → IsSound l
    → IsFine (publish_locked ctx payload l)
unfolding publish_locked publish
publish_locked-IsFine ctx payload l v h =
    record_publication-IsFine l _ h (publish_event-IsClean l.publisher ctx payload false v h.error)

pub publish_last_locked-IsFine :
    (ctx : Ctx) (payload : Payload) (l : Lifecycle)
    → validate payload ≡ none
    → IsSound l
    → IsFine (publish_last_locked ctx payload l)
unfolding publish_last_locked publish_last
publish_last_locked-IsFine ctx payload l v h =
    record_publication-IsFine l _ h (publish_event-IsClean l.publisher ctx payload true v h.error)

pub publish_progress_locked-IsFine :
    (ctx : Ctx) (l : Lifecycle)
    → l.started ≡ true
    → IsSound l
    → IsFine (publish_progress_locked ctx l)
unfolding publish_progress_locked validate
publish_progress_locked-IsFine ctx l st h =
    publish_locked-IsFine ctx _ _ (progress_payload-valid l.progress h.inv _ (h.phase st))
      (record { inv = h.inv; phase = h.phase; error = h.error })

pub ▸-IsFine :
    (r : Outcome) (k : Lifecycle → Outcome)
    → IsFine r
    → (IsSound r.0 → IsFine (k r.0))
    → IsFine (r ▸ k)
▸-IsFine (l, none) k h f = f h.0
▸-IsFine (l, some e) k h f = h

pub guarded-IsFine :
    (c : Option Err) (l : Lifecycle) (r : Outcome)
    → IsSound l
    → IsClean c
    → (c ≡ none → IsFine r)
    → IsFine (guarded c l r)
guarded-IsFine none l r h k f = f refl
guarded-IsFine (some e) l r h k f = (h, k)

pub with_task-IsFine :
    (id : Str) (l : Lifecycle) (k : LifecycleTask → Outcome)
    → IsSound l
    → ((t : LifecycleTask) → lookup id l.tasks ≡ some t → IsFine (k t))
    → IsFine (with_task id l k)
unfolding is_defect
with_task-IsFine id l k h f = elim (Option-cases (lookup id l.tasks)) [
  | inl e ↦ rw (e, with_task) (h, refl)
  | inr (t, e) ↦ rw (e, with_task) (f t e)
]

pub with_iteration-IsFine :
    (n : ℕ) (l : Lifecycle) (k : LifecycleIteration → Outcome)
    → IsSound l
    → ((it : LifecycleIteration) → lookup n l.iterations ≡ some it → IsFine (k it))
    → IsFine (with_iteration n l k)
unfolding is_defect
with_iteration-IsFine n l k h f = elim (Option-cases (lookup n l.iterations)) [
  | inl e ↦ rw (e, with_iteration) (h, refl)
  | inr (it, e) ↦ rw (e, with_iteration) (f it e)
]

-- The iteration of a task in the table is in the map: `nil` is never dereferenced.
pub with_iteration_of-IsFine :
    (id : Str) (t : LifecycleTask) (l : Lifecycle) (k : LifecycleIteration → Outcome)
    → IsSound l
    → lookup id l.tasks ≡ some t
    → ((it : LifecycleIteration) → lookup t.task.iteration l.iterations ≡ some it → IsFine (k it))
    → IsFine (with_iteration_of t l k)
with_iteration_of-IsFine id t l k h e f =
    let (it, home) = h.inv.scheduled id t e in rw (home, with_iteration_of) (f it home)

-- The checks return no defect.
pub check_start-IsClean : (e n : Str) (s : Progress) → IsClean (check_start e n s)
unfolding check_start is_defect validate_non_empty_string
check_start-IsClean e n s = ground arith

pub ensure_active-IsClean : (s : Progress) → IsClean (ensure_active s)
unfolding ensure_active is_defect
ensure_active-IsClean s = ground arith

pub ensure_executing-IsClean : (s : Progress) → IsClean (ensure_executing s)
unfolding ensure_executing ensure_active is_defect
ensure_executing-IsClean s = ground arith

pub check_phase-IsClean : (phase : RunPhase) (s : Progress) → IsClean (check_phase phase s)
unfolding check_phase ensure_active is_defect
check_phase-IsClean phase s = ground arith

pub check_new_iteration-IsClean :
    (n : ℕ) (it : LifecycleIteration) → IsClean (check_new_iteration n it)
unfolding check_new_iteration is_defect
check_new_iteration-IsClean n it = ground arith

pub check_new_task-IsClean :
    (id : Str) (t : LifecycleTask) (it : LifecycleIteration) → IsClean (check_new_task id t it)
unfolding check_new_task is_defect
check_new_task-IsClean id t it = ground arith

pub check_result-IsClean :
    (status : CaseStatus) (rate : Option Float64) (s : Progress)
    → IsClean (check_result status rate s)
unfolding check_result ensure_executing ensure_active validate_pass_rate is_defect
check_result-IsClean status rate s = ground arith

pub check_running_task-IsClean : (id : Str) (t : LifecycleTask) → IsClean (check_running_task id t)
unfolding check_running_task is_defect
check_running_task-IsClean id t = ground arith

pub check_full_iteration-IsClean :
    (n : ℕ) (it : LifecycleIteration) → IsClean (check_full_iteration n it)
unfolding check_full_iteration is_defect
check_full_iteration-IsClean n it = ground arith

unfinished_iteration-IsClean :
    (its : List (ℕ × LifecycleIteration)) → IsClean (unfinished_iteration its)
unfolding unfinished_iteration is_defect
unfinished_iteration-IsClean [] = tt
unfinished_iteration-IsClean ((n, it) ∷ its) = ground (arith, unfinished_iteration-IsClean its)

pub check_finish-IsClean : (status : RunStatus) (s : Progress) → IsClean (check_finish status s)
unfolding check_finish ensure_active check_completed is_defect
check_finish-IsClean status s = ground (arith, unfinished_iteration-IsClean s.iterations)
