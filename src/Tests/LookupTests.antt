-- ===== src/Tests/LookupTests.antt =====
-- Runs of src/lookup/index.js.
use contestscore.Lookup.Suffix.{
  extend, split_at, segments, is_plain_tail, drop_tail, pick_part, base_part, strip_suffix,
}
use contestscore.Lookup.Service.{
  backing_off, finished, in_flight, Service, has, add, shift_call, loop_head, start_run, push,
  enqueue_base, enqueue, prime_loop, prime, init, pause, resume, next_backoff, settle_error,
  clear_run, delete, next_round, failed, release,
}
use contestscore.Lookup.Consistent.{IsConsistent, busy}
use contestscore.Lookup.Reach.{
  Step, enqueued, spaced, backed_off, paused, cleared, here, next, Reach-IsConsistent,
}
use contestscore.Lookup.Pause.{
  IsStopped, Quiet, pause-IsStopped, Step-Quiet, pause-requests-undefined,
}
use contestscore.Lookup.Backoff.{at_once, after, request-after_backoff}
use contestscore.Lookup.Base.{canonical, strip_suffix-throws_iff}
use contestscore.Lookup.Prime.{prime-oldest_first}
use contestscore.Prelude.{
  ◌+◌, ◌≤◌, ◌≡◌, ◌≢◌, ◌↔◌, ◌⊎◌, refl, Bool, true, false, List, [], ◌∷◌, ◌++◌, none, some, arith,
  ◌==◌,
}
use contestscore.Prelude.Text.{
  Text, codes, text_eq, is_digit, is_lower, is_space, upper_code, to_upper_case, trim_start, trim,
  includes, every, all_digits,
}

abbrev uncached : Text → Bool
uncached call = false

-- one call in flight
abbrev looking_up : Service
looking_up = record (init false) {
  pending = codes "W1AW" ∷ [];
  phase = in_flight (some (codes "W1AW"));
}

-- asleep after a failure, with one call queued
abbrev asleep : Service
asleep = record (init false) {
  queue = codes "W1AW" ∷ [];
  pending = codes "W1AW" ∷ [];
  phase = backing_off;
  backoff_ms = 5000;
  backoff_until = 6000;
}

abbrev done : Service
done = record (init true) { phase = finished }

portable : strip_suffix (codes " w1aw/4") ≡ some (codes "W1AW")
unfolding strip_suffix segments split_at extend is_plain_tail drop_tail base_part pick_part
    to_upper_case upper_code is_lower trim trim_start is_space includes every all_digits is_digit
    text_eq
portable = refl

plain : strip_suffix (codes "K1ABC") ≡ some (codes "K1ABC")
unfolding strip_suffix to_upper_case upper_code is_lower trim trim_start is_space includes
plain = refl

started : enqueue true uncached 0 (codes " w1aw/4") (init false) ≡ some looking_up
unfolding enqueue enqueue_base has push add start_run loop_head shift_call init
started = rw portable refl

Reach-IsConsistent_example : IsConsistent (pause true looking_up)
Reach-IsConsistent_example =
    Reach-IsConsistent {provider = codes "hamqth"} {enabled = true} {between_ms = 250} false (
      next (next here (enqueued uncached 0 (codes " w1aw/4") (init false) looking_up started))
        (paused true looking_up))

pause-IsStopped_example : IsStopped (pause true asleep)
pause-IsStopped_example = pause-IsStopped true asleep

Step-Quiet_example :
    ((saved : Bool) × (clear_run done ≡ resume saved done)) ⊎ Quiet done (clear_run done)
unfolding init
Step-Quiet_example =
    Step-Quiet {provider = codes "hamqth"} {enabled = true} {between_ms = 250} (cleared done refl)
      (record { paused = refl; emptied = refl })

pause-requests-undefined_example :
    let woken = shift_call (pause true asleep) in
    Step (codes "hamqth") true 250 (pause true asleep) woken
    × (woken.phase ≡ in_flight none)
    × ((settle_error 250 7000 false none woken).backoff_ms ≡ 10000)
unfolding next_backoff
pause-requests-undefined_example =
    pause-requests-undefined (codes "hamqth") true true false 250 7000 asleep refl (omega arith)

-- a request failed at 1000 with one call queued; after the gap `run` sleeps until 6000
abbrev after_failure : Service
after_failure =
    settle_error 250 1000 false (some (codes "W1AW"))
      (record looking_up { queue = codes "K1ABC" ∷ [] })

abbrev sleeping : Service
sleeping = loop_head 1250 after_failure

request-after_backoff_example :
    (after_failure.phase ≢ in_flight (some (codes "K1ABC"))) × (1000 + next_backoff 0 ≤ 7000)
unfolding settle_error failed next_round loop_head shift_call next_backoff release delete init
    text_eq
request-after_backoff_example =
    request-after_backoff {provider = codes "hamqth"} {enabled = true} {between_ms = 250} 1000 false
      (some (codes "W1AW")) (some (codes "K1ABC"))
      (record looking_up { queue = codes "K1ABC" ∷ [] })
      (after at_once (spaced 1250 after_failure refl) (λ call h. cc))
      (backed_off 7000 sleeping refl (omega arith)) refl

strip_suffix-throws_iff_example :
    (strip_suffix (codes "//") ≡ none)
    ↔ ((canonical (codes "//") ≢ []) × (every (λ d. d == b'/') (canonical (codes "//")) ≡ true))
strip_suffix-throws_iff_example = strip_suffix-throws_iff (codes "//")

primed :
    prime true uncached 0 1 (codes "K1ABC" ∷ codes " w1aw/4" ∷ []) (init false) ≡ some looking_up
unfolding prime prime_loop has add text_eq init all_digits
primed = rw (portable, started) refl

prime-oldest_first_example :
    (rest : List Text) × (busy looking_up ≡ busy (init false) ++ codes "W1AW" ∷ rest)
unfolding has init
prime-oldest_first_example =
    prime-oldest_first uncached 0 0 (codes "K1ABC" ∷ []) (codes " w1aw/4") (codes "W1AW")
      (init false) looking_up refl portable refl primed
