-- ===== src/Stream/Adapter/Relays.antt =====
-- internal/cli/run_events.go: which call of the lifecycle a callback of the evaluator means, and
-- which errors the observer keeps.
use skill_up.Base.{
  ℕ, ◌≡◌, ◌≤◌, ◌<◌, ◌⊎◌, inl, inr, refl, sym, ◌∙◌, ap, true, false, ◌||◌, ltb, Option, none, some,
  List, [], ◌∷◌, Str, codes, arith, Bool-cases, Option-cases,
}
use skill_up.Base.Int.{ℤ, pos, negsuc}
use skill_up.Event
use skill_up.Event.{CaseStatus, RunPhase, Float64, max_safe_integer}
use skill_up.Publisher.{Ctx}
use skill_up.Lifecycle.{Lifecycle}
use skill_up.Lifecycle.Calls
use skill_up.Lifecycle.Calls.{Call, step}
use skill_up.Judge.{Status}
use skill_up.Stream.{
  Err, event, out_of_range, in_task, unsupported_status, positive_safe_event_integer,
}
use skill_up.Stream.Adapter.{
  Adapter, Callback, sets_phase, on_iteration_start, on_iteration_complete, on_task_start,
  on_task_complete, record_err, record_call, as_event, evaluation_event_case_status, notify,
  notify_all,
}

-- The status of an event that a status of the evaluator means.
pub data Says : Status → CaseStatus → Type 0 where
  says_pass : Says Status.pass CaseStatus.pass
  says_fail : Says Status.fail CaseStatus.fail
  says_error : Says Status.error CaseStatus.error
  says_skip : Says Status.skip CaseStatus.skip

-- The call that a callback means. It is made with a context that is never cancelled.
pub data Relays : Callback → Call → Type 0 where
  phase : (ctx : Ctx) (p : RunPhase) → Relays (sets_phase ctx p) (Calls.sets_phase none p)
  iteration_start :
      (ctx : Ctx) (n : ℕ)
      → 1 ≤ n
      → n ≤ max_safe_integer
      → Relays (on_iteration_start ctx (pos n)) (Calls.starts_iteration none n)
  iteration_complete :
      (ctx : Ctx) (n : ℕ)
      → 1 ≤ n
      → n ≤ max_safe_integer
      → Relays (on_iteration_complete ctx (pos n)) (Calls.completes_iteration none n)
  task_start : (ctx : Ctx) (id : Str) → Relays (on_task_start ctx id) (Calls.starts_case none id)
  task_complete :
      (ctx : Ctx) (id : Str) (status : Status) (rate : Option Float64) (said : CaseStatus)
      → Says status said
      → Relays (on_task_complete ctx id status rate) (Calls.completes_case none id said rate)

-- A number that is no positive safe integer.
abbrev IsUnsafe : ℤ → Type 0
IsUnsafe (pos n) = (n ≡ 0) ⊎ (max_safe_integer < n)
IsUnsafe (negsuc n) = Unit {0}

-- A callback that means no call, and its error.
pub data Fails : Callback → Err → Type 0 where
  bad_start :
      (ctx : Ctx) (i : ℤ)
      → IsUnsafe i
      → Fails (on_iteration_start ctx i) (out_of_range (codes "iteration"))
  bad_complete :
      (ctx : Ctx) (i : ℤ)
      → IsUnsafe i
      → Fails (on_iteration_complete ctx i) (out_of_range (codes "iteration"))
  bad_status :
      (ctx : Ctx) (id s : Str) (rate : Option Float64)
      → Fails (on_task_complete ctx id (Status.other s) rate) (in_task id (unsupported_status s))

-- What a callback does with the lifecycle, and its error.
pub data Does (c : Callback) (l l' : Lifecycle) : Option Err → Type 0 where
  accepted : (call : Call) → Relays c call → step call l ≡ (l', none) → Does c l l' none
  refused :
      (call : Call) (e : Event.Err)
      → Relays c call
      → step call l ≡ (l', some e)
      → Does c l l' (some (event e))
  dropped : (e : Err) → Fails c e → l' ≡ l → Does c l l' (some e)

-- The first of two errors.
abbrev pub first : Option Err → Option Err → Option Err
first (some e) later = some e
first none later = later

-- What callbacks do, in their order, and the first of their errors.
pub data Trace : List Callback → Lifecycle → Lifecycle → Option Err → Type 0 where
  finished : (l : Lifecycle) → Trace [] l l none
  next :
      (c : Callback) (cs : List Callback) (l l' l'' : Lifecycle) (e later : Option Err)
      → Does c l l' e
      → Trace cs l' l'' later
      → Trace (c ∷ cs) l l'' (first e later)

-- A callback's effect on an adapter.
abbrev IsDone : Callback → Adapter → Adapter → Type 0
IsDone c a b = (e : Option Err) × Does c a.lifecycle b.lifecycle e × (b.err ≡ first a.err e)

record_err-first :
    (e : Option Err) (a : Adapter)
    → ((record_err e a).lifecycle ≡ a.lifecycle) × ((record_err e a).err ≡ first a.err e)
unfolding record_err
record_err-first e a = ground arith

record_call-first :
    (call : Call) (a : Adapter)
    → ((record_call call a).lifecycle ≡ (step call a.lifecycle).0)
      × ((record_call call a).err ≡ first a.err (as_event (step call a.lifecycle).1))
unfolding record_call
record_call-first call a = record_err-first _ _

answered :
    (call : Call) (a : Adapter) (answer : Option Event.Err)
    → (step call a.lifecycle).1 ≡ answer
    → step call a.lifecycle ≡ ((record_call call a).lifecycle, answer)
answered call a answer q =
    ap (λ (e : Option Event.Err). ((step call a.lifecycle).0, e)) q
    ∙ ap (λ (l : Lifecycle). (l, answer)) (sym (record_call-first call a).0)

record_call-IsDone :
    (c : Callback) (call : Call) (a : Adapter) → Relays c call → IsDone c a (record_call call a)
record_call-IsDone c call a r = elim (Option-cases (step call a.lifecycle).1) [
  | inl q ↦ (
    none,
    accepted call r (answered call a none q),
    (record_call-first call a).1 ∙ ap (λ (e : Option Event.Err). first a.err (as_event e)) q,
  )
  | inr (e, q) ↦ (
    some (event e),
    refused call e r (answered call a (some e) q),
    (record_call-first call a).1 ∙ ap (λ (e : Option Event.Err). first a.err (as_event e)) q,
  )
]

record_err-IsDone :
    (c : Callback) (e : Err) (a : Adapter) → Fails c e → IsDone c a (record_err (some e) a)
record_err-IsDone c e a f =
    let (same, kept) = record_err-first (some e) a in (some e, dropped e f same, kept)

safe-cases :
    (n : ℕ)
    → ((ltb n 1 || ltb max_safe_integer n) ≡ false → (1 ≤ n) × (n ≤ max_safe_integer))
      × ((ltb n 1 || ltb max_safe_integer n) ≡ true → IsUnsafe (pos n))
safe-cases n = ((λ h. ground (arith, h)), λ h. ground (arith, h))

notify-IsDone : (c : Callback) (a : Adapter) → IsDone c a (notify c a)
unfolding notify positive_safe_event_integer evaluation_event_case_status
notify-IsDone (sets_phase ctx p) a = record_call-IsDone _ _ a (phase ctx p)
notify-IsDone (on_iteration_start ctx (negsuc n)) a =
    record_err-IsDone _ _ a (bad_start ctx (negsuc n) tt)
notify-IsDone (on_iteration_start ctx (pos n)) a =
    elim (Bool-cases (ltb n 1 || ltb max_safe_integer n)) [
      | inl y ↦ rw y (record_err-IsDone _ _ a (bad_start ctx (pos n) ((safe-cases n).1 y)))
      | inr x ↦
          let (least, most) = (safe-cases n).0 x in
          rw x (record_call-IsDone _ _ a (iteration_start ctx n least most))
    ]
notify-IsDone (on_iteration_complete ctx (negsuc n)) a =
    record_err-IsDone _ _ a (bad_complete ctx (negsuc n) tt)
notify-IsDone (on_iteration_complete ctx (pos n)) a =
    elim (Bool-cases (ltb n 1 || ltb max_safe_integer n)) [
      | inl y ↦ rw y (record_err-IsDone _ _ a (bad_complete ctx (pos n) ((safe-cases n).1 y)))
      | inr x ↦
          let (least, most) = (safe-cases n).0 x in
          rw x (record_call-IsDone _ _ a (iteration_complete ctx n least most))
    ]
notify-IsDone (on_task_start ctx id) a = record_call-IsDone _ _ a (task_start ctx id)
notify-IsDone (on_task_complete ctx id Status.pass rate) a =
    record_call-IsDone _ _ a (task_complete ctx id Status.pass rate CaseStatus.pass says_pass)
notify-IsDone (on_task_complete ctx id Status.fail rate) a =
    record_call-IsDone _ _ a (task_complete ctx id Status.fail rate CaseStatus.fail says_fail)
notify-IsDone (on_task_complete ctx id Status.error rate) a =
    record_call-IsDone _ _ a (task_complete ctx id Status.error rate CaseStatus.error says_error)
notify-IsDone (on_task_complete ctx id Status.skip rate) a =
    record_call-IsDone _ _ a (task_complete ctx id Status.skip rate CaseStatus.skip says_skip)
notify-IsDone (on_task_complete ctx id (Status.other s) rate) a =
    record_err-IsDone _ _ a (bad_status ctx id s rate)

first-none : (e : Option Err) → e ≡ first e none
first-none none = refl
first-none (some e) = refl

first_assoc : (e f g : Option Err) → first (first e f) g ≡ first e (first f g)
first_assoc none f g = refl
first_assoc (some e) f g = refl

-- The observer refines the callbacks' meaning: in their order, each one makes the call that it means,
-- or, if its number is no positive safe integer or its status is unknown, none; and the error that is
-- kept is the first one, of those before the callbacks, of the calls and of the conversions.
pub notify_all-Trace :
    (cs : List Callback) (a : Adapter)
    → (e : Option Err) × Trace cs a.lifecycle (notify_all cs a).lifecycle e
      × ((notify_all cs a).err ≡ first a.err e)
unfolding notify_all
notify_all-Trace [] a = (none, finished a.lifecycle, first-none a.err)
notify_all-Trace (c ∷ cs) a =
    let (e, does, kept) = notify-IsDone c a in
    let (later, rest, last) = notify_all-Trace cs (notify c a) in
    (
      first e later,
      next c cs a.lifecycle (notify c a).lifecycle _ e later does rest,
      last ∙ ap (λ (f : Option Err). first f later) kept ∙ first_assoc a.err e later,
    )
