-- ===== src/Lookup/Consistent.antt =====
-- The invariant of the lookup queue of src/lookup/index.js, and its steps.
use contestscore.Lookup.Service.{
  Phase, idle, backing_off, spacing, finished, in_flight, Service, shift_call, loop_head,
  next_round, release, answered, failed, settle_ok, settle_error, LookupRecord, backoff_max_ms,
}
use contestscore.Prelude.{
  ℕ, ◌≤◌, ◌≡◌, ◌↔◌, Bool, List, [], ◌∷◌, ◌++◌, Option, none, some, arith, In, Distinct, ◌⊎◌, inl,
  inr, ◌∙◌,
}
use contestscore.Prelude.Text.{Text}
use contestscore.Lookup.Pending.{In-delete}

abbrev pub requested : Phase → List Text
requested idle = []
requested backing_off = []
requested spacing = []
requested finished = []
requested (in_flight none) = []
requested (in_flight (some c)) = c ∷ []

-- what is being looked up or will be
abbrev pub busy : Service → List Text
busy s = requested s.phase ++ s.queue

busy-shift_call : (s : Service) → busy (shift_call s) ≡ s.queue
unfolding shift_call
busy-shift_call s = ground arith

pub busy-loop_head : (now : ℕ) (s : Service) → busy (loop_head now s) ≡ s.queue
unfolding loop_head
busy-loop_head now s = ground arith

-- No call is queued or in flight twice, `pending` holds exactly those, and the back-off is capped.
pub record IsConsistent (s : Service) : Type 0 where
  pub distinct : Distinct (busy s)
  pub pending_iff : (c : Text) → In c s.pending ↔ In c (busy s)
  pub capped : s.backoff_ms ≤ backoff_max_ms

-- A service whose loop holds no call, at the head of its `while`.
pub record IsResting (s : Service) : Type 0 where
  pub distinct : Distinct s.queue
  pub pending_iff : (c : Text) → In c s.pending ↔ In c s.queue
  pub capped : s.backoff_ms ≤ backoff_max_ms

fields-loop_head :
    (now : ℕ) (s : Service)
    → ((loop_head now s).pending ≡ s.pending) × ((loop_head now s).backoff_ms ≡ s.backoff_ms)
unfolding loop_head shift_call
fields-loop_head now s = ground arith

fields-shift_call :
    (s : Service)
    → ((shift_call s).pending ≡ s.pending) × ((shift_call s).backoff_ms ≡ s.backoff_ms)
unfolding shift_call
fields-shift_call s = ground arith

pub loop_head-IsConsistent : (now : ℕ) (s : Service) → IsResting s → IsConsistent (loop_head now s)
loop_head-IsConsistent now s h =
    let (p, b) = fields-loop_head now s in
    record {
      distinct = rw busy-loop_head h.distinct;
      pending_iff = λ c. rw (p, busy-loop_head) (h.pending_iff c);
      capped = rw b h.capped;
    }

pub shift_call-IsConsistent : (s : Service) → IsResting s → IsConsistent (shift_call s)
shift_call-IsConsistent s h =
    let (p, b) = fields-shift_call s in
    record {
      distinct = rw busy-shift_call h.distinct;
      pending_iff = λ c. rw (p, busy-shift_call) (h.pending_iff c);
      capped = rw b h.capped;
    }

pub resting : (s : Service) → requested s.phase ≡ [] → IsConsistent s → IsResting s
resting s e h = record {
  distinct = rw e at h.distinct;
  pending_iff = λ c. rw e at (h.pending_iff c);
  capped = h.capped;
}

next_round-cases :
    (between_ms now : ℕ) (s : Service)
    → (next_round between_ms now s ≡ loop_head now s)
      ⊎ (next_round between_ms now s ≡ record s { phase = spacing })
unfolding next_round
next_round-cases between_ms now s = grind arith

spacing-IsConsistent : (s : Service) → IsResting s → IsConsistent (record s { phase = spacing })
spacing-IsConsistent s h = record {
  distinct = h.distinct;
  pending_iff = h.pending_iff;
  capped = h.capped;
}

next_round-IsConsistent :
    (between_ms now : ℕ) (s : Service) → IsResting s → IsConsistent (next_round between_ms now s)
next_round-IsConsistent between_ms now s h = elim (next_round-cases between_ms now s) [
  | inl e ↦ rw e (loop_head-IsConsistent now s h)
  | inr e ↦ rw e (spacing-IsConsistent s h)
]

-- Once the call in flight is released, what is pending is what is queued.
release-queue :
    (p : Phase) (call : Option Text) (pending queue : List Text)
    → p ≡ in_flight call
    → Distinct (requested p ++ queue)
    → ((c : Text) → In c pending ↔ In c (requested p ++ queue))
    → Distinct queue × ((c : Text) → In c (release call pending) ↔ In c queue)
unfolding release
release-queue (in_flight none) none pending queue e d h = (d, h)
release-queue (in_flight (some b)) (some c) pending queue e d h =
    let same : b ≡ c = ground arith in
    (
      d.1,
      λ x. (
        λ m.
            let k = (In-delete x c pending).0 m in
            elim ((h x).0 k.1) [ inl p ↦ absurd (k.0 (p ∙ same)) | inr q ↦ q ],
        λ q. (In-delete x c pending).1 (λ p. d.0 (rw (same, ← p) q), (h x).1 (inr q)),
      ),
    )
release-queue _ _ pending queue e d h = cc

module _ (between_ms now : ℕ) (call : Option Text) (s : Service)
    (running : s.phase ≡ in_flight call) where
  answered-IsResting : IsConsistent s → IsResting (answered call s)
  unfolding answered
  answered-IsResting h =
      let (d, p) = release-queue s.phase call s.pending s.queue running h.distinct h.pending_iff in
      record { distinct = d; pending_iff = p; capped = omega arith }

  failed-IsResting :
      (upstream_stopped : Bool) → IsConsistent s → IsResting (failed now upstream_stopped call s)
  unfolding failed
  failed-IsResting upstream_stopped h =
      let (d, p) = release-queue s.phase call s.pending s.queue running h.distinct h.pending_iff in
      record { distinct = d; pending_iff = p; capped = ground arith }

  pub settle_ok-IsConsistent :
      (provider : Text) (rec : LookupRecord)
      → IsConsistent s
      → IsConsistent (settle_ok provider between_ms now call rec s).1
  unfolding settle_ok
  settle_ok-IsConsistent provider rec h =
      next_round-IsConsistent between_ms now (answered call s) (answered-IsResting h)

  pub settle_error-IsConsistent :
      (upstream_stopped : Bool)
      → IsConsistent s
      → IsConsistent (settle_error between_ms now upstream_stopped call s)
  unfolding settle_error
  settle_error-IsConsistent upstream_stopped h =
      next_round-IsConsistent between_ms now (failed now upstream_stopped call s)
        (failed-IsResting upstream_stopped h)
