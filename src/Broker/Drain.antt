-- ===== src/Broker/Drain.antt =====
-- What becomes of the requests that hamdata/broker.js has taken on, and of their answers.
use contestscore.Broker.{
  Broker, CacheRow, CallRecord, answer, is_young, ttl_of, fresh_record, fresh_row, cached_record,
  get_call, launch, start_request, set_paused, finish, as_found, settle_record, settle_failure,
}
use contestscore.Broker.Flight.{Step, asked, started, fetched, broke, switched, get_call-cases}
use contestscore.JsMap.{get, get-put_self, get-put_ne}
use contestscore.Prelude.{
  ℕ, ◌+◌, ◌-◌, ◌<◌, ◌≡◌, ◌≢◌, ◌∙◌, refl, ap, inl, inr, Bool, true, false, List, [], ◌∷◌, Option,
  none, some, arith, ltb, Bool-cases,
}
use contestscore.Prelude.Text.{Text, codes, text_eq, text_eq_iff, text_eq_refl, text_key}

-- How requests end: with a record or a failure, when, and whether the record can be saved.
pub record Upstream : Type 0 where
  pub outcome : Text → Option CallRecord
  pub ends : Text → ℕ
  pub saved : Text → Bool

-- How many of these requests end with a record, and how many with a failure.
abbrev pub records : Upstream → List Text → ℕ
records up [] = 0
records up (call ∷ calls) = (elim (up.outcome call) [ none ↦ 0 | some rec ↦ 1 ]) + records up calls

abbrev pub failures : Upstream → List Text → ℕ
failures up [] = 0
failures up (call ∷ calls) =
    (elim (up.outcome call) [ none ↦ 1 | some rec ↦ 0 ]) + failures up calls

settle : Upstream → Text → List Text → Broker → Broker
settle up call rest s = elim (up.outcome call) [
  | some rec ↦ settle_record (up.saved call) (up.ends call) (up.ends call) call rest rec s
  | none ↦ settle_failure (up.ends call) call rest s
]

-- The first request of the chain is over, the way `up` says.
record IsSettled (up : Upstream) (call : Text) (rest : List Text) (s t : Broker) : Type 0 where
  chain : t.chain ≡ rest
  idle : t.active ≡ false
  got : t.upstream ≡ s.upstream + records up (call ∷ [])
  lost : t.errors ≡ s.errors + failures up (call ∷ [])

fresh_lem :
    (stamp now : ℕ) (rec : CallRecord)
    → now - stamp < ttl_of rec.found
    → fresh_record now
        (record { stored = some rec; source = codes "hamqth"; cached_at = some stamp })
      ≡ some rec
unfolding fresh_record is_young
fresh_lem stamp now rec young =
    let test : ltb (now - stamp) (ttl_of rec.found) ≡ true = ground arith in rw test refl

cached_record-found :
    (now : ℕ) (call : Text) (s : Broker) (row : CacheRow) (rec : CallRecord)
    → get call s.cache ≡ some row
    → text_eq row.source (codes "hamqth") ≡ true
    → fresh_record now row ≡ some rec
    → cached_record now call s ≡ some rec
unfolding cached_record fresh_row
cached_record-found now call s row rec e source fresh = rw e (rw source fresh)

get_call-cached :
    (has_client : Bool) (now : ℕ) (call : Text) (s : Broker) (rec : CallRecord)
    → cached_record now call s ≡ some rec
    → get_call has_client now call s ≡ (answer rec, record s { hits = s.hits + 1 })
unfolding get_call
get_call-cached has_client now call s rec e = rw (e, get_call) refl

-- An event brings no other record for a call.
abbrev pub Spares :
    {has_client : Bool} {between_ms : ℕ} {s t : Broker}
    → Text
    → Step has_client between_ms s t
    → Type 0
Spares call (fetched saved now stamp c rest rec s e a) = c ≢ call
Spares call _ = Unit

-- The states that follow one, as long as no other record for a call comes.
pub data Later (has_client : Bool) (between_ms : ℕ) (call : Text) (s : Broker)
    : Broker → Type 0 where
  at_once : Later has_client between_ms call s s
  after :
      {t u : Broker}
      → Later has_client between_ms call s t
      → (event : Step has_client between_ms t u) → Spares call event
      → Later has_client between_ms call s u

get_call-cache :
    (has_client : Bool) (now : ℕ) (call : Text) (s : Broker)
    → (get_call has_client now call s).1.cache ≡ s.cache
unfolding launch
get_call-cache has_client now call s = elim (get_call-cases has_client now call s) [
  | inl e ↦ rw e refl
  | inr (inl e) ↦ rw e refl
  | inr (inr (a, b, e)) ↦ rw e refl
]

module _ {has_client : Bool} {between_ms : ℕ} where
  Step-cache :
      {s t : Broker} (call : Text) (event : Step has_client between_ms s t)
      → Spares call event
      → get call t.cache ≡ get call s.cache
  unfolding start_request settle_record settle_failure finish set_paused
  Step-cache call (asked now c s) h = ap (get call) (get_call-cache has_client now c s)
  Step-cache call (started now c rest s e a l) h = refl
  Step-cache call (fetched true now stamp c rest rec s e a) h =
      get-put_ne c call _ s.cache (not_same c call h)
    where
      not_same : (c' call' : Text) → c' ≢ call' → text_eq c' call' ≡ false
      not_same c' call' n = elim (Bool-cases (text_eq c' call')) [
        | inl same ↦ absurd (n ((text_eq_iff c' call').0 same))
        | inr other ↦ other
      ]
  Step-cache call (fetched false now stamp c rest rec s e a) h = refl
  Step-cache call (broke now c rest s e a) h = refl
  Step-cache call (switched value s) h = refl

  Later-cache :
      {s : Broker} (call : Text) {t : Broker}
      → Later has_client between_ms call s t
      → get call t.cache ≡ get call s.cache
  Later-cache call at_once = refl
  Later-cache call (after l event h) = Step-cache call event h ∙ Later-cache call l

-- A record that came and was saved answers every request for its call that follows within the time
-- that such a record is good for, whatever else the broker is asked and answered in between, account
-- or not and paused or not, with no upstream request; only the count of hits changes. It does so
-- until another record for the call comes.
pub get_call-after_settle :
    {has_client : Bool} {between_ms : ℕ} (fetched_at stamp now : ℕ) (call : Text) (rest : List Text)
    (rec : CallRecord) (s t : Broker)
    → Later has_client between_ms call (settle_record true fetched_at stamp call rest rec s) t
    → now - stamp < ttl_of (as_found rec).found
    → get_call has_client now call t ≡ (answer (as_found rec), record t { hits = t.hits + 1 })
unfolding settle_record finish
get_call-after_settle {has_client} fetched_at stamp now call rest rec s t later young =
    let row : CacheRow = record {
      stored = some (as_found rec);
      source = codes "hamqth";
      cached_at = some stamp;
    } in
    get_call-cached has_client now call t (as_found rec) (
      cached_record-found now call t row (as_found rec)
        (Later-cache call later ∙ get-put_self call row s.cache) (text_eq_refl (codes "hamqth"))
        (fresh_lem stamp now (as_found rec) young))
