-- ===== src/Lifecycle/Heartbeat/Ends.antt =====
-- internal/evalevent/lifecycle.go: what holds where `Finish` has waited, and that its wait ends.
use skill_up.Base.{
  ℕ, zero, suc, ◌≡◌, refl, ◌∙◌, ap, ◌⊎◌, inl, inr, true, Option, arith, Option-cases, ok,
}
use skill_up.Base.Int.{ℤ, pos, negsuc}
use skill_up.Event.{RunStatus}
use skill_up.Publisher.{Ctx, Publisher}
use skill_up.Lifecycle.State.{Plan}
use skill_up.Lifecycle.{
  Lifecycle, LifecycleOptions, heartbeat, is_positive, resolve_interval, new_lifecycle,
}
use skill_up.Lifecycle.Sound.{new_lifecycle-fresh}
use skill_up.Lifecycle.Planning.{snapshot_plan}
use skill_up.Lifecycle.{require_publisher}
use skill_up.Base.Results.{>>=-eq-ok}
use skill_up.Lifecycle.Heartbeat.Waits.{Reach-Inv, finisher-Knows}
use skill_up.Lifecycle.Heartbeat.Invariant.{Inv}
use skill_up.Lifecycle.Heartbeat.{
  Goroutine, not_running, selecting, ticking, exited, waiting, stopped, returned, System, Step,
  call, beat_ok, beat_err, see_stop, wake, finish, Reach, begin,
}
use skill_up.Lifecycle.Heartbeat.Flags.{heartbeat-SameFlags}

resolve_interval-positive : (i j : ℤ) → resolve_interval i ≡ ok j → is_positive j ≡ true
unfolding resolve_interval
resolve_interval-positive (pos zero) j h = ground (arith, h)
resolve_interval-positive (pos (suc n)) j h = ground (arith, h)
resolve_interval-positive (negsuc n) j h = cc

new_lifecycle-positive :
    (system_clock : ℕ → ℕ) (publisher : Option Publisher) (plan : Plan) (opts : LifecycleOptions)
    (l : Lifecycle)
    → new_lifecycle system_clock publisher plan opts ≡ ok l
    → is_positive l.interval ≡ true
unfolding new_lifecycle require_publisher
new_lifecycle-positive system_clock publisher plan opts l h =
    let (p, e, f) = >>=-eq-ok (require_publisher publisher) _ h in
    let (planned, e', f') = >>=-eq-ok (snapshot_plan plan) _ f in
    let (interval, e'', f'') = >>=-eq-ok (resolve_interval opts.heartbeat_interval) _ f' in
    let good = resolve_interval-positive opts.heartbeat_interval interval e'' in
    ground (arith, f'', good)

begin-Inv :
    (system_clock : ℕ → ℕ) (publisher : Option Publisher) (plan : Plan) (opts : LifecycleOptions)
    (l : Lifecycle)
    → new_lifecycle system_clock publisher plan opts ≡ ok l
    → Inv (begin l)
begin-Inv system_clock publisher plan opts l h =
    let (p, s, n, i, q, e, made) = new_lifecycle-fresh system_clock publisher plan opts l h in
    record {
      positive = new_lifecycle-positive system_clock publisher plan opts l h;
      begun = λ e. absurd (cc (e, ap (λ (k : Lifecycle). k.heartbeat_started) made));
      off = λ e. (refl, ap (λ (k : Lifecycle). k.heartbeat_done) made);
      on = λ e. absurd (cc (e, ap (λ (k : Lifecycle). k.heartbeat_started) made));
      done = λ e. absurd (cc e);
      over = λ e. absurd (cc (e, ap (λ (k : Lifecycle). k.heartbeat_done) made));
      knows = tt;
    }

-- A step of the goroutine of the heartbeat or of `Finish`.
abbrev pub IsOwn : {s t : System} → Step s t → Type 0
IsOwn (call c other) = ⊥
IsOwn _ = Unit {0}

-- What follows by such steps alone.
pub data Own (s : System) : System → Type 0 where
  none_yet : Own s s
  and_then : {t u : System} → Own s t → (st : Step t u) → IsOwn st → Own s u

-- From its `select` the goroutine sees the request; behind a tick it publishes one more progress
-- first, or ends at the error of that.
exits_from :
    (ctx : Ctx) (s : System)
    → s.life.heartbeat_stop ≡ true
    → (s.beat ≡ selecting) ⊎ (s.beat ≡ ticking)
    → (t : System) × Own s t × (t.life.heartbeat_done ≡ true) × (t.finisher ≡ s.finisher)
exits_from ctx s asked (inl at) = (_, and_then none_yet (see_stop at asked) tt, refl, refl)
exits_from ctx s asked (inr at) = elim (Option-cases (heartbeat ctx s.life).1) [
  | inr (e, bad) ↦ (_, and_then none_yet (beat_err ctx at bad) tt, refl, refl)
  | inl good ↦ (
    _,
    and_then (and_then none_yet (beat_ok ctx at good) tt)
        (see_stop refl ((heartbeat-SameFlags ctx s.life).stop asked)) tt,
    refl,
    refl,
  )
]

Goroutine-cases :
    (g : Goroutine) → ((g ≡ selecting) ⊎ (g ≡ ticking)) ⊎ ((g ≡ exited) ⊎ (g ≡ not_running))
Goroutine-cases selecting = inl (inl refl)
Goroutine-cases ticking = inl (inr refl)
Goroutine-cases exited = inr (inl refl)
Goroutine-cases not_running = inr (inr refl)

wakes_and_returns :
    (ctx : Ctx) (status : RunStatus) (s t : System)
    → Own s t
    → t.finisher ≡ waiting
    → t.life.heartbeat_done ≡ true
    → (u : System) × Own s u × (u.finisher ≡ returned true)
wakes_and_returns ctx status s t r at over =
    (_, and_then (and_then r (wake at over) tt) (finish ctx status refl) tt, refl)

module _ (system_clock : ℕ → ℕ) (publisher : Option Publisher) (plan : Plan)
    (opts : LifecycleOptions) (l : Lifecycle)
    (made : new_lifecycle system_clock publisher plan opts ≡ ok l) (s : System)
    (reached : Reach (begin l) s) where
  -- From a new lifecycle, in any interleaving of calls, ticks and one `Finish`: a `Finish` that has
  -- seen that the heartbeat was started goes on behind its wait only when the goroutine has
  -- returned and has said so.
  pub Reach-waited :
      (s.finisher ≡ stopped true) ⊎ (s.finisher ≡ returned true)
      → (s.beat ≡ exited) × (s.life.heartbeat_done ≡ true)
  Reach-waited at =
      let h = Reach-Inv (begin-Inv system_clock publisher plan opts l made) reached in
      let gone : s.beat ≡ exited = elim at [
        | inl e ↦ finisher-Knows s e h refl
        | inr e ↦ finisher-Knows s e h refl
      ] in
      (gone, h.done gone)

  -- No deadlock: wherever the interleaving has left a `Finish` that waits for the heartbeat, the
  -- steps of the heartbeat's goroutine and of `Finish` alone bring it to its end.
  pub Reach-returns :
      (ctx : Ctx) (status : RunStatus)
      → s.finisher ≡ waiting
      → (t : System) × Own s t × (t.finisher ≡ returned true)
  Reach-returns ctx status at =
      let h = Reach-Inv (begin-Inv system_clock publisher plan opts l made) reached in
      let (on, asked) = finisher-Knows s at h in
      elim (Goroutine-cases s.beat) [
        | inl running ↦
            let (t, r, over, same) = exits_from ctx s asked running in
            wakes_and_returns ctx status s t r (same ∙ at) over
        | inr (inl gone) ↦ wakes_and_returns ctx status s s none_yet at (h.done gone)
        | inr (inr off) ↦ absurd (h.on on off)
      ]
