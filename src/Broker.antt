-- ===== src/Broker.antt =====
-- createLookupBroker of hamdata/broker.js with src/lookup/ttl.js. `chain` lists the requests to the
-- upstream service that are waiting or running, the first of them running if `active`; their
-- promises are the entries of `in_flight`. Times are milliseconds.
pub mod Flight
pub mod Drain
use contestscore.JsMap.{JsMap, get, put}
use contestscore.Lookup.Service.{has, delete}
use contestscore.Prelude.{
  ℕ, ◌+◌, ◌-◌, ◌*◌, Bool, true, false, not, ◌&&◌, ◌||◌, List, [], ◌∷◌, ◌++◌, Option, none, some,
  ltb, if◌then◌else◌,
}
use contestscore.Prelude.Text.{Text, codes, text_eq, text_key}

abbrev pub day_ms : ℕ
day_ms = 24 * 3600 * 1000

abbrev pub found_ttl_ms : ℕ
found_ttl_ms = 182 * day_ms

abbrev pub not_found_ttl_ms : ℕ
not_found_ttl_ms = day_ms

-- the JSON of a cache row; `found` is `none` if the record has no such field
pub record CallRecord : Type 0 where
  pub fields : List (Text × Text)
  pub found : Option Bool

-- `cached_at` is `none` for what is no date, `stored` for what is no JSON
pub record CacheRow : Type 0 where
  pub stored : Option CallRecord
  pub source : Text
  pub cached_at : Option ℕ

-- `data.found === false`
unfoldable pub ttl_of : Option Bool → ℕ
ttl_of (some false) = not_found_ttl_ms
ttl_of _ = found_ttl_ms

unfoldable pub is_young : ℕ → Option ℕ → ℕ → Bool
is_young now none ttl = false
is_young now (some cached_at) ttl = ltb (now - cached_at) ttl

-- isFresh of ttl.js, with the record that parseData returns
unfoldable pub fresh_record : ℕ → CacheRow → Option CallRecord
unfolding ttl_of is_young
fresh_record now row = elim row.stored [
  | none ↦ none
  | some rec ↦ if is_young now row.cached_at (ttl_of rec.found) then some rec else none
]

pub record Broker : Type 0 where
  pub cache : JsMap Text CacheRow
  pub in_flight : List Text
  pub chain : List Text
  pub active : Bool
  pub last_upstream_at : ℕ
  pub paused : Bool
  pub hits : ℕ
  pub upstream : ℕ
  pub errors : ℕ

unfoldable pub fresh_row : ℕ → Option CacheRow → Option CallRecord
unfolding fresh_record text_eq
fresh_row now none = none
fresh_row now (some row) =
    if text_eq row.source (codes "hamqth") then fresh_record now row else none

-- `fresh` of the broker
unfoldable pub cached_record : ℕ → Text → Broker → Option CallRecord
unfolding fresh_row get
cached_record now call s = fresh_row now (get call s.cache)

-- What `get` answers at once, or that it waits for the promise of its call.
pub data Reply : Type 0 where
  answer : CallRecord → Reply
  disabled stopped waiting : Reply

-- upstream(call) and inFlight.set(call, p)
unfoldable pub launch : Text → Broker → Broker
launch call s = record s { in_flight = s.in_flight ++ call ∷ []; chain = s.chain ++ call ∷ [] }

-- get(call), up to where it waits; `has_client` says whether there is an account
unfoldable pub get_call : Bool → ℕ → Text → Broker → Reply × Broker
unfolding cached_record has launch
get_call has_client now call s = elim (cached_record now call s) [
  | some rec ↦ (answer rec, record s { hits = s.hits + 1 })
  | none ↦
      if not has_client
      then (disabled, s)
      else if s.paused
      then (stopped, s)
      else if has call s.in_flight
      then (waiting, s)
      else (waiting, launch call s)
]

-- the first request of the chain has waited for its gap and goes out
unfoldable pub start_request : Broker → Broker
start_request s = record s { active = true }

-- `lastUpstreamAt = now()` and `inFlight.delete(call)`
unfoldable pub finish : ℕ → Text → List Text → Broker → Broker
unfolding delete
finish now call rest s = record s {
  chain = rest;
  active = false;
  last_upstream_at = now;
  in_flight = delete call s.in_flight;
}

-- Boolean(rec.found)
unfoldable pub as_found : CallRecord → CallRecord
as_found rec = record rec { found = elim rec.found [ none ↦ some false | some b ↦ some b ] }

-- A record came. It is cached with the source hamqth and the database's time `stamp`, unless that
-- write fails (`saved`).
unfoldable pub settle_record : Bool → ℕ → ℕ → Text → List Text → CallRecord → Broker → Broker
unfolding finish put as_found
settle_record saved now stamp call rest rec s =
    let row : CacheRow = record {
      stored = some (as_found rec);
      source = codes "hamqth";
      cached_at = some stamp;
    } in
    let s' = finish now call rest s in
    record s' {
      cache = if saved then put call row s'.cache else s'.cache;
      upstream = s'.upstream + 1;
    }

unfoldable pub settle_failure : ℕ → Text → List Text → Broker → Broker
unfolding finish
settle_failure now call rest s =
    let s' = finish now call rest s in record s' { errors = s'.errors + 1 }

unfoldable pub set_paused : Bool → Broker → Broker
set_paused value s = record s { paused = value }

unfoldable pub new_broker : JsMap Text CacheRow → Bool → Broker
new_broker cache stored_paused = record {
  cache = cache;
  in_flight = [];
  chain = [];
  active = false;
  last_upstream_at = 0;
  paused = stored_paused;
  hits = 0;
  upstream = 0;
  errors = 0;
}
