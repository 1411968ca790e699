-- ===== src/Lookup/Service.antt =====
-- createLookupService of src/lookup/index.js. `run` is an asynchronous loop, so its program counter
-- is part of the state: `phase` says where it is suspended, and each resumption is one function.
-- Milliseconds are natural numbers.
use contestscore.Lookup.Suffix.{strip_suffix}
use contestscore.Prelude.{
  ℕ, ◌+◌, ◌*◌, Bool, true, false, not, ◌&&◌, ◌||◌, List, [], ◌∷◌, ◌++◌, Option, none, some, ltb,
  ◌==◌, length, keep, if◌then◌else◌,
}
use contestscore.Prelude.Text.{Text, text_eq, is_empty, or_else}
use Prim.Native.Nat.{min}
use mathlib.Core.List.{reverse}

abbrev pub backoff_start_ms : ℕ
backoff_start_ms = 5000

abbrev pub backoff_max_ms : ℕ
backoff_max_ms = 5 * 60 * 1000

abbrev pub prime_cap : ℕ
prime_cap = 300

-- Where `run` is suspended. Listeners of `lookup:result` do not throw. `backing_off` is the sleep before `queue.shift()`, `in_flight` the
-- request for what was shifted (`none` is `undefined`), `spacing` the gap after a request;
-- `finished` has left the loop, but its `finally` has not cleared `runPromise` yet.
pub data Phase : Type 0 where
  idle backing_off spacing finished : Phase
  in_flight : Option Text → Phase

pub record Service : Type 0 where
  pub queue : List Text
  pub pending : List Text
  pub phase : Phase
  pub backoff_ms : ℕ
  pub backoff_until : ℕ
  pub said_upstream_paused : Bool
  pub paused : Bool
  pub stored_paused : Bool

-- What the provider's client returns, and what is emitted for it.
pub record LookupRecord : Type 0 where
  pub fields : List (Text × Text)
  pub source : Text
  pub found : Bool

pub record LookupResult : Type 0 where
  pub fields : List (Text × Text)
  pub call : Option Text
  pub source : Text
  pub found : Bool

-- `pending` is a Set
unfoldable pub has : Text → List Text → Bool
has c [] = false
has c (d ∷ s) = text_eq d c || has c s

unfoldable pub add : Text → List Text → List Text
unfolding has
add c s = if has c s then s else s ++ c ∷ []

unfoldable pub delete : Text → List Text → List Text
delete c s = keep (λ d. not (text_eq d c)) s

unfoldable pub delete_all : List Text → List Text → List Text
unfolding delete
delete_all [] s = s
delete_all (c ∷ cs) s = delete_all cs (delete c s)

-- queue.shift() and the request for it
unfoldable pub shift_call : Service → Service
shift_call s = elim s.queue [
  | [] ↦ record s { phase = in_flight none }
  | c ∷ rest ↦ record s { queue = rest; phase = in_flight (some c) }
]

-- the head of the `while` loop, up to its first suspension
unfoldable pub loop_head : ℕ → Service → Service
unfolding shift_call
loop_head now s = elim s.queue [
  | [] ↦ record s { phase = finished }
  | c ∷ rest ↦ if ltb now s.backoff_until then record s { phase = backing_off } else shift_call s
]

-- `if (!runPromise) runPromise = run()`
unfoldable pub start_run : ℕ → Service → Service
unfolding loop_head
start_run now s = elim s.phase [ idle ↦ loop_head now s | _ ↦ s ]

-- `pending.add(call); queue.push(call)`
unfoldable pub push : Text → Service → Service
unfolding add
push call s = record s { pending = add call s.pending; queue = s.queue ++ call ∷ [] }

-- enqueue behind stripSuffix; `cached` is isCached at this moment
unfoldable pub enqueue_base : (Text → Bool) → ℕ → Text → Service → Service
unfolding has push start_run
enqueue_base cached now call s =
    if ltb (length call) 3 || has call s.pending || cached call
    then s
    else start_run now (push call s)

module _ (enabled : Bool) where
  -- `none` is the TypeError of stripSuffix, thrown before anything is changed
  unfoldable pub enqueue : (Text → Bool) → ℕ → Text → Service → Option Service
  unfolding enqueue_base strip_suffix
  enqueue cached now raw_call s =
      if not enabled || s.paused then some s else elim (strip_suffix raw_call) [
        | none ↦ none
        | some call ↦ some (enqueue_base cached now call s)
      ]

  -- the loop of prime, over the rows from the last to the first
  unfoldable pub prime_loop :
      (Text → Bool) → ℕ → ℕ → List Text → List Text → Service → Option Service
  unfolding enqueue has add
  prime_loop cached now most seen [] s = some s
  prime_loop cached now most seen (call ∷ calls) s = elim (ltb (length seen) most) [
    | false ↦ some s
    | true ↦ elim (strip_suffix call) [
      | none ↦ none
      | some c ↦
          if not (is_empty c) && not (has c seen)
          then elim (enqueue cached now call s) [
            | none ↦ none
            | some s' ↦ prime_loop cached now most (add c seen) calls s'
          ]
          else prime_loop cached now most seen calls s
    ]
  ]

  -- rows are newest first, as getQsos returns them; the loop runs from the last to the first
  unfoldable pub prime : (Text → Bool) → ℕ → ℕ → List Text → Service → Option Service
  unfolding prime_loop
  prime cached now most calls s =
      if not enabled then some s else prime_loop cached now most [] (reverse calls) s

-- the `finally` of a request: `pending.delete(call)`, which does nothing for `undefined`
unfoldable pub release : Option Text → List Text → List Text
unfolding delete
release none pending = pending
release (some call) pending = delete call pending

-- the end of the loop's body: sleep `betweenMs` if more is queued, else back to the head
unfoldable pub next_round : ℕ → ℕ → Service → Service
unfolding loop_head
next_round between_ms now s = elim s.queue [
  | [] ↦ loop_head now s
  | c ∷ rest ↦ if ltb 0 between_ms then record s { phase = spacing } else loop_head now s
]

-- the state after the `try` and its `finally`, the request for `call` being answered
unfoldable pub answered : Option Text → Service → Service
unfolding release
answered call s = record s {
  pending = release call s.pending;
  backoff_ms = 0;
  backoff_until = 0;
  said_upstream_paused = false;
}

-- the result that is emitted, and the rest of the round
unfoldable pub settle_ok :
    Text → ℕ → ℕ → Option Text → LookupRecord → Service → LookupResult × Service
unfolding next_round answered
settle_ok provider between_ms now call rec s = (
  record {
    fields = rec.fields;
    call = call;
    source = or_else rec.source provider;
    found = rec.found;
  },
  next_round between_ms now (answered call s),
)

unfoldable pub next_backoff : ℕ → ℕ
next_backoff backoff_ms =
    if backoff_ms == 0 then backoff_start_ms else min (backoff_ms * 2) backoff_max_ms

-- the state after the `catch` and the `finally`; `upstream_stopped` if the request failed with
-- HAMDATA_PAUSED or HAMDATA_DISABLED
unfoldable pub failed : ℕ → Bool → Option Text → Service → Service
unfolding release next_backoff
failed now upstream_stopped call s =
    let backoff_ms = next_backoff s.backoff_ms in
    record s {
      pending = release call s.pending;
      backoff_ms = backoff_ms;
      backoff_until = now + backoff_ms;
      said_upstream_paused = upstream_stopped || s.said_upstream_paused;
    }

unfoldable pub settle_error : ℕ → ℕ → Bool → Option Text → Service → Service
unfolding next_round failed
settle_error between_ms now upstream_stopped call s =
    next_round between_ms now (failed now upstream_stopped call s)

-- `.finally(() => { runPromise = null; })`
unfoldable pub clear_run : Service → Service
clear_run s = record s { phase = idle }

-- `writeSetting` throws (and is caught) if `saved` is false
unfoldable pub persist : Bool → Bool → Service → Service
persist saved value s = record s { stored_paused = if saved then value else s.stored_paused }

unfoldable pub pause : Bool → Service → Service
unfolding delete_all persist
pause saved s =
    let s' = persist saved true (record s { paused = true }) in
    record s' { pending = delete_all s'.queue s'.pending; queue = [] }

unfoldable pub resume : Bool → Service → Service
unfolding persist
resume saved s = persist saved false (record s { paused = false })

-- the service as createLookupService makes it from the stored setting
unfoldable pub init : Bool → Service
init stored_paused = record {
  queue = [];
  pending = [];
  phase = idle;
  backoff_ms = 0;
  backoff_until = 0;
  said_upstream_paused = false;
  paused = stored_paused;
  stored_paused = stored_paused;
}
