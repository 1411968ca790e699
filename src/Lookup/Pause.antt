-- ===== src/Lookup/Pause.antt =====
-- The kill switch of src/lookup/index.js: what pause() stops, and the request that it lets through.
use contestscore.Lookup.Service.{
  backing_off, finished, in_flight, Service, shift_call, loop_head, enqueue, next_round, answered,
  failed, settle_ok, settle_error, next_backoff, clear_run, pause, resume,
}
use contestscore.Lookup.Reach.{
  Step, enqueued, backed_off, spaced, succeeded, broke, cleared, paused, resumed,
}
use contestscore.Prelude.{
  ℕ, ◌≤◌, ◌≡◌, ◌⊎◌, refl, inl, inr, Bool, true, false, [], none, some, arith,
}
use contestscore.Prelude.Text.{Text}

-- Stopped by `pause`: nothing is queued and nothing can be.
pub record IsStopped (s : Service) : Type 0 where
  pub paused : s.paused ≡ true
  pub emptied : s.queue ≡ []

pub pause-IsStopped : (saved : Bool) (s : Service) → IsStopped (pause saved s)
unfolding pause
pause-IsStopped saved s = record { paused = refl; emptied = refl }

-- the state stays stopped, and a call that is in flight in `t` was already in flight in `s`
pub record Quiet (s t : Service) : Type 0 where
  pub stopped : IsStopped t
  pub no_request : (call : Text) → t.phase ≡ in_flight (some call) → s.phase ≡ in_flight (some call)

shift_call-Quiet : (s : Service) → IsStopped s → Quiet s (shift_call s)
unfolding shift_call
shift_call-Quiet s h = record {
  stopped = record { paused = ground (arith, h.paused); emptied = ground (arith, h.emptied) };
  no_request = λ call e. ground (arith, h.emptied);
}

loop_head-finished :
    (now : ℕ) (s : Service) → s.queue ≡ [] → loop_head now s ≡ record s { phase = finished }
unfolding loop_head
loop_head-finished now s e = ground arith

next_round-finished :
    (between_ms now : ℕ) (s : Service)
    → s.queue ≡ []
    → next_round between_ms now s ≡ record s { phase = finished }
unfolding next_round
next_round-finished between_ms now s e = ground (arith, loop_head-finished now s e)

finished-Quiet : (s t : Service) → IsStopped t → Quiet s (record t { phase = finished })
finished-Quiet s t h = record {
  stopped = record { paused = h.paused; emptied = h.emptied };
  no_request = λ call e. cc;
}

enqueue-stopped :
    (enabled : Bool) (cached : Text → Bool) (now : ℕ) (raw_call : Text) (s s' : Service)
    → IsStopped s
    → enqueue enabled cached now raw_call s ≡ some s'
    → s' ≡ s
unfolding enqueue
enqueue-stopped true cached now raw_call s s' h e = ground (arith, h.paused)
enqueue-stopped false cached now raw_call s s' h e = ground arith

module _ {provider : Text} {enabled : Bool} {between_ms : ℕ} where
  -- While the service is stopped, every event but `resume` leaves it stopped and starts no request
  -- for a call.
  pub Step-Quiet :
      {s t : Service}
      → Step provider enabled between_ms s t
      → IsStopped s
      → ((saved : Bool) × (t ≡ resume saved s)) ⊎ Quiet s t
  unfolding enqueue settle_ok settle_error answered failed clear_run pause
  Step-Quiet (enqueued cached now raw_call s s' e) h = inr (
      rw (enqueue-stopped enabled cached now raw_call s s' h e)
        (record { stopped = h; no_request = λ call p. p }))
  Step-Quiet (backed_off now s e l) h = inr (shift_call-Quiet s h)
  Step-Quiet (spaced now s e) h =
      inr (rw (loop_head-finished now s h.emptied) (finished-Quiet s s h))
  Step-Quiet (succeeded now call rec s e) h = inr (
      rw (next_round-finished between_ms now (answered call s) h.emptied)
        (finished-Quiet s (answered call s) (record { paused = h.paused; emptied = h.emptied })))
  Step-Quiet (broke now upstream_stopped call s e) h = inr (
      rw (next_round-finished between_ms now (failed now upstream_stopped call s) h.emptied) (
        finished-Quiet s (failed now upstream_stopped call s)
          (record { paused = h.paused; emptied = h.emptied })))
  Step-Quiet (cleared s e) h = inr (record {
    stopped = record { paused = h.paused; emptied = h.emptied };
    no_request = λ call p. cc;
  })
  Step-Quiet (paused saved s) h =
      inr (record { stopped = record { paused = refl; emptied = refl }; no_request = λ call p. p })
  Step-Quiet (resumed saved s) h = inl (saved, refl)

-- A pause while `run` sleeps out a back-off does not stop the round: once the sleep is over `run`
-- goes on, requests `undefined`, and the failure of that request raises the back-off.
pub pause-requests-undefined :
    (provider : Text) (enabled saved upstream_stopped : Bool) (between_ms now : ℕ) (s : Service)
    → s.phase ≡ backing_off
    → s.backoff_until ≤ now
    → let woken = shift_call (pause saved s) in
      Step provider enabled between_ms (pause saved s) woken
      × (woken.phase ≡ in_flight none)
      × ((settle_error between_ms now upstream_stopped none woken).backoff_ms
          ≡ next_backoff s.backoff_ms)
unfolding shift_call pause settle_error failed loop_head
pause-requests-undefined provider enabled saved upstream_stopped between_ms now s e l =
    (backed_off now (pause saved s) e l, refl, refl)
