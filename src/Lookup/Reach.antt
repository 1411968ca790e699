-- ===== src/Lookup/Reach.antt =====
-- enqueue, pause and the steps of the lookup queue of src/lookup/index.js keep its invariant.
use contestscore.Lookup.Service.{
  Phase, idle, backing_off, spacing, finished, in_flight, Service, shift_call, loop_head, start_run,
  enqueue_base, enqueue, settle_ok, settle_error, push, has, clear_run, pause, resume, init,
  LookupRecord,
}
use contestscore.Prelude.{
  ap, not, ◌||◌, Option-cases, ℕ, ◌≤◌, ◌≡◌, Bool, false, List, [], ◌∷◌, ◌++◌, Option, some, arith,
  In, Distinct, ◌⊎◌, inl, inr, Bool-cases, In-append, In-append_left, In-append_right,
  Distinct-append_one,
}
use contestscore.Prelude.Text.{Text}
use mathlib.Core.List.{append_assoc}
use contestscore.Lookup.Suffix.{strip_suffix}
use contestscore.Lookup.Pending.{In-add, In-delete_all, not-In_of_has}
use contestscore.Lookup.Consistent.{
  requested, busy, IsConsistent, loop_head-IsConsistent, shift_call-IsConsistent, resting,
  settle_ok-IsConsistent, settle_error-IsConsistent,
}

-- A call that is not pending joins the end of what is busy.
push-IsConsistent :
    (call : Text) (s : Service) → ¬ In call s.pending → IsConsistent s → IsConsistent (push call s)
unfolding push
push-IsConsistent call s new h = record {
  distinct =
      rw (← append_assoc (requested s.phase) s.queue (call ∷ []))
        (Distinct-append_one (busy s) call h.distinct (λ m. new ((h.pending_iff call).1 m)));
  pending_iff = λ c. (
    λ m.
        rw (← append_assoc (requested s.phase) s.queue (call ∷ []))
          (elim ((In-add c call s.pending).0 m) [
            | inl e ↦ In-append_right c (busy s) (call ∷ []) (inl e)
            | inr k ↦ In-append_left c (busy s) (call ∷ []) ((h.pending_iff c).0 k)
          ]),
    λ m.
        (In-add c call s.pending).1
          (elim (In-append c (busy s) (call ∷ [])
            (rw (← append_assoc (requested s.phase) s.queue (call ∷ [])) at m)) [
              | inl k ↦ inr ((h.pending_iff c).1 k)
              | inr (inl e) ↦ inl e
              | inr (inr k) ↦ absurd k
            ]),
  );
  capped = h.capped;
}

pub start_run-cases :
    (now : ℕ) (s : Service)
    → ((s.phase ≡ idle) × (start_run now s ≡ loop_head now s)) ⊎ (start_run now s ≡ s)
unfolding start_run
start_run-cases now s = grind arith

start_run-IsConsistent : (now : ℕ) (s : Service) → IsConsistent s → IsConsistent (start_run now s)
start_run-IsConsistent now s h = elim (start_run-cases now s) [
  | inl (e, p) ↦ rw p (loop_head-IsConsistent now s (resting s (ap requested e) h))
  | inr p ↦ rw p h
]

pub enqueue_base-cases :
    (cached : Text → Bool) (now : ℕ) (call : Text) (s : Service)
    → (enqueue_base cached now call s ≡ s)
      ⊎ ((has call s.pending ≡ false)
          × (enqueue_base cached now call s ≡ start_run now (push call s)))
unfolding enqueue_base
enqueue_base-cases cached now call s = grind arith

enqueue_base-IsConsistent :
    (cached : Text → Bool) (now : ℕ) (call : Text) (s : Service)
    → IsConsistent s
    → IsConsistent (enqueue_base cached now call s)
enqueue_base-IsConsistent cached now call s h = elim (enqueue_base-cases cached now call s) [
  | inl e ↦ rw e h
  | inr (new, e) ↦ rw e (
      start_run-IsConsistent now (push call s)
        (push-IsConsistent call s (not-In_of_has call s.pending new) h))
]

pub enqueue-cases :
    (enabled : Bool) (cached : Text → Bool) (now : ℕ) (raw_call : Text) (s s' : Service)
    → enqueue enabled cached now raw_call s ≡ some s'
    → (s' ≡ s) ⊎ ((call : Text) × (s' ≡ enqueue_base cached now call s))
unfolding enqueue
enqueue-cases enabled cached now raw_call s s' h = elim (Bool-cases (not enabled || s.paused)) [
  | inl e ↦ inl (ground arith)
  | inr e ↦ elim (Option-cases (strip_suffix raw_call)) [
    | inl n ↦ absurd (ground arith)
    | inr (call, n) ↦ inr (call, ground arith)
  ]
]

pub enqueue-IsConsistent :
    (enabled : Bool) (cached : Text → Bool) (now : ℕ) (raw_call : Text) (s s' : Service)
    → enqueue enabled cached now raw_call s ≡ some s'
    → IsConsistent s
    → IsConsistent s'
enqueue-IsConsistent enabled cached now raw_call s s' e h =
    elim (enqueue-cases enabled cached now raw_call s s' e) [
      | inl p ↦ rw p h
      | inr (call, p) ↦ rw p (enqueue_base-IsConsistent cached now call s h)
    ]

In-requested-queue :
    (c : Text) (p : Phase) (q : List Text)
    → Distinct (requested p ++ q)
    → In c (requested p ++ [])
    → ¬ In c q
In-requested-queue c (in_flight (some b)) q d (inl e) m = d.0 (rw e at m)
In-requested-queue c (in_flight (some b)) q d (inr m) k = absurd m
In-requested-queue c p q d m k = absurd m

Distinct-requested : (p : Phase) → Distinct (requested p ++ [])
Distinct-requested (in_flight (some b)) = (λ h. h, tt)
Distinct-requested _ = tt

pause-IsConsistent : (saved : Bool) (s : Service) → IsConsistent s → IsConsistent (pause saved s)
unfolding pause
pause-IsConsistent saved s h = record {
  distinct = Distinct-requested s.phase;
  pending_iff = λ c. (
    λ m.
        let r = (In-delete_all c s.queue s.pending).0 m in
        elim (In-append c (requested s.phase) s.queue ((h.pending_iff c).0 r.1)) [
          | inl k ↦ In-append_left c (requested s.phase) [] k
          | inr k ↦ absurd (r.0 k)
        ],
    λ m. (In-delete_all c s.queue s.pending).1 (
      In-requested-queue c s.phase s.queue h.distinct m,
      (h.pending_iff c).1 (elim (In-append c (requested s.phase) [] m) [
        | inl k ↦ In-append_left c (requested s.phase) s.queue k
        | inr k ↦ absurd k
      ]),
    ),
  );
  capped = h.capped;
}

-- The events that move the service, in any order: calls of its methods, and the resumption of
-- `run` where it is suspended. A timer never fires early.
pub data Step (provider : Text) (enabled : Bool) (between_ms : ℕ) : Service → Service → Type 0 where
  enqueued :
      (cached : Text → Bool) (now : ℕ) (raw_call : Text) (s s' : Service)
      → enqueue enabled cached now raw_call s ≡ some s'
      → Step provider enabled between_ms s s'
  backed_off :
      (now : ℕ) (s : Service)
      → s.phase ≡ backing_off
      → s.backoff_until ≤ now
      → Step provider enabled between_ms s (shift_call s)
  spaced :
      (now : ℕ) (s : Service)
      → s.phase ≡ spacing
      → Step provider enabled between_ms s (loop_head now s)
  succeeded :
      (now : ℕ) (call : Option Text) (rec : LookupRecord) (s : Service)
      → s.phase ≡ in_flight call
      → Step provider enabled between_ms s (settle_ok provider between_ms now call rec s).1
  broke :
      (now : ℕ) (upstream_stopped : Bool) (call : Option Text) (s : Service)
      → s.phase ≡ in_flight call
      → Step provider enabled between_ms s (settle_error between_ms now upstream_stopped call s)
  cleared : (s : Service) → s.phase ≡ finished → Step provider enabled between_ms s (clear_run s)
  paused : (saved : Bool) (s : Service) → Step provider enabled between_ms s (pause saved s)
  resumed : (saved : Bool) (s : Service) → Step provider enabled between_ms s (resume saved s)

pub data Reach (provider : Text) (enabled : Bool) (between_ms : ℕ) (s : Service)
    : Service → Type 0 where
  here : Reach provider enabled between_ms s s
  next :
      {t u : Service}
      → Reach provider enabled between_ms s t
      → Step provider enabled between_ms t u
      → Reach provider enabled between_ms s u

clear_run-IsConsistent :
    (s : Service) → s.phase ≡ finished → IsConsistent s → IsConsistent (clear_run s)
unfolding clear_run
clear_run-IsConsistent s e h =
    let r = resting s (ap requested e) h in
    record { distinct = r.distinct; pending_iff = r.pending_iff; capped = r.capped }

resume-IsConsistent : (saved : Bool) (s : Service) → IsConsistent s → IsConsistent (resume saved s)
unfolding resume
resume-IsConsistent saved s h = record {
  distinct = h.distinct;
  pending_iff = h.pending_iff;
  capped = h.capped;
}

module _ {provider : Text} {enabled : Bool} {between_ms : ℕ} where
  -- Every event keeps the invariant.
  Step-IsConsistent :
      {s t : Service} → Step provider enabled between_ms s t → IsConsistent s → IsConsistent t
  Step-IsConsistent (enqueued cached now raw_call s s' e) h =
      enqueue-IsConsistent enabled cached now raw_call s s' e h
  Step-IsConsistent (backed_off now s e l) h =
      shift_call-IsConsistent s (resting s (ap requested e) h)
  Step-IsConsistent (spaced now s e) h = loop_head-IsConsistent now s (resting s (ap requested e) h)
  Step-IsConsistent (succeeded now call rec s e) h =
      settle_ok-IsConsistent between_ms now call s e provider rec h
  Step-IsConsistent (broke now upstream_stopped call s e) h =
      settle_error-IsConsistent between_ms now call s e upstream_stopped h
  Step-IsConsistent (cleared s e) h = clear_run-IsConsistent s e h
  Step-IsConsistent (paused saved s) h = pause-IsConsistent saved s h
  Step-IsConsistent (resumed saved s) h = resume-IsConsistent saved s h

  -- In every state that the service can reach from its start, no call is queued or in flight twice,
  -- `pending` holds exactly the calls that are queued or in flight, and the back-off is at most
  -- `backoff_max_ms`.
  pub Reach-IsConsistent :
      (stored : Bool) {t : Service}
      → Reach provider enabled between_ms (init stored) t
      → IsConsistent t
  unfolding init
  Reach-IsConsistent stored here = record {
    distinct = tt;
    pending_iff = λ c. (λ h. h, λ h. h);
    capped = omega arith;
  }
  Reach-IsConsistent stored (next r st) = Step-IsConsistent st (Reach-IsConsistent stored r)
