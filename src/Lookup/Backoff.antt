-- ===== src/Lookup/Backoff.antt =====
-- The back-off of src/lookup/index.js: how it grows, and that it is waited out.
use native.Mathlib.Nat.{pow-suc}
use Prim.Native.Nat.{min, ◌^◌}
use mathlib.Core.Path.{subst}
use contestscore.Lookup.Reach.{
  Step, enqueued, backed_off, spaced, succeeded, broke, cleared, paused, resumed, start_run-cases,
  enqueue_base-cases, enqueue-cases,
}
use contestscore.Lookup.Service.{
  in_flight, Service, shift_call, loop_head, push, enqueue_base, enqueue, next_round, failed,
  settle_error, next_backoff, backoff_max_ms, backoff_start_ms, clear_run, persist, pause, resume,
}
use contestscore.Prelude.Text.{Text}
use contestscore.Prelude.{
  ℕ, zero, suc, ◌+◌, ◌*◌, ◌<◌, ◌≤◌, ◌≡◌, ◌≢◌, ◌∙◌, refl, sym, inl, inr, Bool, Option, some, arith,
}

-- the back-off after a number of failures in a row
unfoldable pub backoff_after : ℕ → ℕ
backoff_after zero = 0
backoff_after (suc n) = next_backoff (backoff_after n)

pow_pos : (n : ℕ) → 0 < 2 ^ n
pow_pos zero = omega arith
pow_pos (suc n) = rw pow-suc (omega (arith, pow_pos n))

-- It doubles from `backoff_start_ms` and is capped: after n + 1 failures in a row it is
-- min(5000 · 2ⁿ, 300000).
pub backoff_after-suc :
    (n : ℕ) → backoff_after (suc n) ≡ min (backoff_start_ms * 2 ^ n) backoff_max_ms
unfolding backoff_after next_backoff
backoff_after-suc zero = refl
backoff_after-suc (suc n) = ground (arith, backoff_after-suc n, pow_pos n, pow-suc 2 n)

until-loop_head : (now : ℕ) (s : Service) → (loop_head now s).backoff_until ≡ s.backoff_until
unfolding loop_head shift_call
until-loop_head now s = ground arith

until-next_round :
    (between_ms now : ℕ) (s : Service)
    → (next_round between_ms now s).backoff_until ≡ s.backoff_until
unfolding next_round
until-next_round between_ms now s = ground (arith, until-loop_head now s)

loop_head_starts :
    (now : ℕ) (next : Option Text) (s : Service)
    → (loop_head now s).phase ≡ in_flight next
    → s.backoff_until ≤ now
unfolding loop_head
loop_head_starts now next s h = ground arith

next_round_starts :
    (between_ms now : ℕ) (next : Option Text) (s : Service)
    → (next_round between_ms now s).phase ≡ in_flight next
    → s.backoff_until ≤ now
unfolding next_round
next_round_starts between_ms now next s h = ground (arith, loop_head_starts now next s)

-- No request is out.
abbrev pub IsAtRest : Service → Type 0
IsAtRest s = (call : Option Text) → s.phase ≢ in_flight call

-- From one state to another the end of the back-off stays, and a request that goes out does so at a
-- time that is not before it.
record Keeps (now : ℕ) (s t : Service) : Type 0 where
  until : t.backoff_until ≡ s.backoff_until
  in_time : (next : Option Text) → t.phase ≡ in_flight next → s.backoff_until ≤ now

unmoved :
    (now : ℕ) (s t : Service)
    → IsAtRest s
    → t.backoff_until ≡ s.backoff_until
    → t.phase ≡ s.phase
    → Keeps now s t
unmoved now s t rest e p = record { until = e; in_time = λ next h. absurd (rest next (sym p ∙ h)) }

loop_head-Keeps : (now : ℕ) (s : Service) → Keeps now s (loop_head now s)
loop_head-Keeps now s = record {
  until = until-loop_head now s;
  in_time = λ next h. loop_head_starts now next s h;
}

enqueue_base-Keeps :
    (cached : Text → Bool) (now : ℕ) (call : Text) (s : Service)
    → IsAtRest s
    → Keeps now s (enqueue_base cached now call s)
unfolding push
enqueue_base-Keeps cached now call s rest = elim (enqueue_base-cases cached now call s) [
  | inl e ↦ rw e (unmoved now s s rest refl refl)
  | inr (new, e) ↦ elim (start_run-cases now (push call s)) [
    | inl (idle_phase, f) ↦
        let k = loop_head-Keeps now (push call s) in
        rw (e, f) (record { until = k.until; in_time = k.in_time })
    | inr f ↦ rw (e, f) (unmoved now s (push call s) rest refl refl)
  ]
]

enqueue-Keeps :
    (enabled : Bool) (cached : Text → Bool) (now : ℕ) (raw_call : Text) (s s' : Service)
    → IsAtRest s
    → enqueue enabled cached now raw_call s ≡ some s'
    → Keeps now s s'
enqueue-Keeps enabled cached now raw_call s s' rest e =
    elim (enqueue-cases enabled cached now raw_call s s' e) [
      | inl same ↦ rw same (unmoved now s s rest refl refl)
      | inr (call, same) ↦ rw same (enqueue_base-Keeps cached now call s rest)
    ]

next_backoff_pos : (n : ℕ) → 0 < next_backoff n
unfolding next_backoff
next_backoff_pos n = ground arith

settle_error-until :
    (between_ms now : ℕ) (upstream_stopped : Bool) (call : Option Text) (s : Service)
    → (settle_error between_ms now upstream_stopped call s).backoff_until
      ≡ now + next_backoff s.backoff_ms
unfolding settle_error failed
settle_error-until between_ms now upstream_stopped call s =
    until-next_round between_ms now (failed now upstream_stopped call s)

settle_error-IsAtRest :
    (between_ms now : ℕ) (upstream_stopped : Bool) (call : Option Text) (s : Service)
    → IsAtRest (settle_error between_ms now upstream_stopped call s)
unfolding settle_error failed
settle_error-IsAtRest between_ms now upstream_stopped call s next h = absurd (
    omega (
      arith,
      next_round_starts between_ms now next (failed now upstream_stopped call s) h,
      next_backoff_pos s.backoff_ms,
    ))

module _ {provider : Text} {enabled : Bool} {between_ms : ℕ} where
  -- The event may send a request out, at a time that is not before `until`.
  abbrev pub IsNotBefore : {s t : Service} → ℕ → Step provider enabled between_ms s t → Type 0
  IsNotBefore until (enqueued cached now raw_call s s' e) = until ≤ now
  IsNotBefore until (backed_off now s e l) = until ≤ now
  IsNotBefore until (spaced now s e) = until ≤ now
  IsNotBefore until (succeeded now call rec s e) = until ≤ now
  IsNotBefore until (broke now upstream_stopped call s e) = until ≤ now
  IsNotBefore until _ = ⊥

  Step-until :
      {s t : Service} (event : Step provider enabled between_ms s t)
      → IsAtRest s
      → t.backoff_until ≡ s.backoff_until
  unfolding shift_call clear_run pause resume persist
  Step-until (enqueued cached now raw_call s s' e) rest =
      (enqueue-Keeps enabled cached now raw_call s s' rest e).until
  Step-until (backed_off now s e l) rest = ground arith
  Step-until (spaced now s e) rest = until-loop_head now s
  Step-until (succeeded now call rec s e) rest = absurd (rest call e)
  Step-until (broke now upstream_stopped call s e) rest = absurd (rest call e)
  Step-until (cleared s e) rest = refl
  Step-until (paused saved s) rest = refl
  Step-until (resumed saved s) rest = refl

  Step-IsNotBefore :
      {s t : Service} (event : Step provider enabled between_ms s t)
      → IsAtRest s
      → (next : Option Text) → t.phase ≡ in_flight next
      → IsNotBefore s.backoff_until event
  unfolding clear_run pause resume persist
  Step-IsNotBefore (enqueued cached now raw_call s s' e) rest next h =
      (enqueue-Keeps enabled cached now raw_call s s' rest e).in_time next h
  Step-IsNotBefore (backed_off now s e l) rest next h = l
  Step-IsNotBefore (spaced now s e) rest next h = loop_head_starts now next s h
  Step-IsNotBefore (succeeded now call rec s e) rest next h = absurd (rest call e)
  Step-IsNotBefore (broke now upstream_stopped call s e) rest next h = absurd (rest call e)
  Step-IsNotBefore (cleared s e) rest next h = cc
  Step-IsNotBefore (paused saved s) rest next h = rest next h
  Step-IsNotBefore (resumed saved s) rest next h = rest next h

-- The states that follow one for as long as no request is out.
pub data Waits (provider : Text) (enabled : Bool) (between_ms : ℕ) (s : Service)
    : Service → Type 0 where
  at_once : Waits provider enabled between_ms s s
  after :
      {t u : Service}
      → Waits provider enabled between_ms s t
      → Step provider enabled between_ms t u
      → IsAtRest u
      → Waits provider enabled between_ms s u

module _ {provider : Text} {enabled : Bool} {between_ms : ℕ} where
  Waits-IsAtRest : {s t : Service} → IsAtRest s → Waits provider enabled between_ms s t → IsAtRest t
  Waits-IsAtRest rest at_once = rest
  Waits-IsAtRest rest (after w event quiet) = quiet

  Waits-until :
      {s t : Service}
      → IsAtRest s
      → Waits provider enabled between_ms s t
      → t.backoff_until ≡ s.backoff_until
  Waits-until rest at_once = refl
  Waits-until rest (after w event quiet) =
      Step-until event (Waits-IsAtRest rest w) ∙ Waits-until rest w

  -- After a failure at `now` no request goes out at once, and whatever happens then, calls being
  -- enqueued, sleeps ending, pauses and resumes, the event that sends the next one out comes no
  -- earlier than when the new back-off has passed.
  pub request-after_backoff :
      (now : ℕ) (upstream_stopped : Bool) (call next : Option Text) (s : Service) {t u : Service}
      → Waits provider enabled between_ms (settle_error between_ms now upstream_stopped call s) t
      → (event : Step provider enabled between_ms t u) → u.phase ≡ in_flight next
      → ((settle_error between_ms now upstream_stopped call s).phase ≢ in_flight next)
        × IsNotBefore (now + next_backoff s.backoff_ms) event
  request-after_backoff now upstream_stopped call next s w event h =
      let rest = settle_error-IsAtRest between_ms now upstream_stopped call s in
      let same = Waits-until rest w ∙ settle_error-until between_ms now upstream_stopped call s in
      (
        rest next,
        subst (λ (until : ℕ). IsNotBefore until event) same
            (Step-IsNotBefore event (Waits-IsAtRest rest w) next h),
      )
