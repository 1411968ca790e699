-- ===== src/Hamqth.antt =====
-- src/lookup/hamqth.js: the client of HamQTH's XML service with its session. The service is a
-- parameter: `reply n q` is what the fetch of request `q` gives when `n` requests went out before,
-- and `clock n` is now() at that moment.
pub mod Retry
use contestscore.Packets.Dispatch.{LookupInfo}
use contestscore.Packets.Fields.{Fields, or_blank}
use contestscore.Prelude.{
  ℕ, ◌+◌, ◌-◌, ◌*◌, Bool, true, false, not, ◌&&◌, ◌||◌, List, [], ◌∷◌, ◌++◌, Option, none, some,
  ltb, length, if◌then◌else◌,
}
use contestscore.Prelude.Text.{
  Text, codes, is_empty, or_else, to_upper_case, to_lower_case, trim, contains,
}

-- SESSION_TTL_MS
abbrev pub session_ttl_ms : ℕ
session_ttl_ms = 55 * 60 * 1000

-- The HamQTH element of a response, `none` for a child that is not there.
pub record Root : Type 0 where
  pub session : Option Fields
  pub search : Option Fields

pub data Request : Type 0 where
  auth : Request
  query : Text → Text → Request

-- A fetch that fails, an HTTP status that is not ok, or a page; `none` for one without a HamQTH
-- element, on which parseHamqthXml throws.
pub data Response : Type 0 where
  unreachable bad_status : Response
  page : Option Root → Response

-- The errors that lookup throws; `session_died` is the one with the code HAMQTH_SESSION.
pub data Failure : Type 0 where
  empty_call fetch_failed http_failed unrecognised auth_failed session_died search_failed : Failure

pub data Result {ℓ} (A : Type ℓ) : Type ℓ where
  ok : A → Result A
  err : Failure → Result A

pub record Answer : Type 0 where
  pub info : LookupInfo
  pub found : Bool

-- `sent` is the log of the requests, for the statements.
pub record Client : Type 0 where
  pub session_id : Option Text
  pub session_at : ℕ
  pub sent : List Request

abbrev pub new_client : Client
new_client = record { session_id = none; session_at = 0; sent = [] }

unfoldable pub child_text : Option Fields → Text → Text
unfolding or_blank
child_text none name = []
child_text (some c) name = or_blank (c name)

unfoldable pub read_session : Root → Result Text
unfolding child_text
read_session root =
    let id = child_text root.session (codes "session_id") in
    if is_empty id then err auth_failed else ok id

unfoldable pub normalise_search : Fields → LookupInfo
unfolding or_blank to_upper_case
normalise_search s = record {
  call = to_upper_case (or_blank (s (codes "callsign")));
  name = or_else (or_blank (s (codes "nick"))) (or_blank (s (codes "adr_name")));
  country = or_blank (s (codes "country"));
  grid = or_blank (s (codes "grid"));
  state = or_blank (s (codes "us_state"));
  county = or_blank (s (codes "us_county"));
  cqzone = or_blank (s (codes "cq"));
  ituzone = or_blank (s (codes "itu"));
  dxcc = or_blank (s (codes "adif"));
  continent = or_blank (s (codes "continent"));
}

-- { call, found: false }
unfoldable pub not_found : Text → Answer
not_found call = record {
  info = record {
    call = call;
    name = [];
    country = [];
    grid = [];
    state = [];
    county = [];
    cqzone = [];
    ituzone = [];
    dxcc = [];
    continent = [];
  };
  found = false;
}

unfoldable pub read_error : Text → Text → Result Answer
unfolding contains to_lower_case not_found
read_error message call =
    let m = to_lower_case message in
    if contains (codes "not found") m
    then ok (not_found call)
    else if contains (codes "session") m
    then err session_died
    else err search_failed

unfoldable pub read_search : Root → Text → Result Answer
unfolding normalise_search read_error child_text
read_search root call = elim root.search [
  | some s ↦ ok (record { info = normalise_search s; found = true })
  | none ↦ read_error (child_text root.session (codes "error")) call
]

-- fetch, the status and parseHamqthXml
unfoldable pub root_of : Response → Result Root
root_of unreachable = err fetch_failed
root_of bad_status = err http_failed
root_of (page none) = err unrecognised
root_of (page (some root)) = ok root

module _ (reply : ℕ → Request → Response) (clock : ℕ → ℕ) where
  -- one request: what comes back, and the client that has sent it
  unfoldable pub send : Request → Client → Result Root × Client
  unfolding root_of
  send q c = (root_of (reply (length c.sent) q), record c { sent = c.sent ++ q ∷ [] })

  unfoldable pub now_of : Client → ℕ
  now_of c = clock (length c.sent)

  -- the id that came, and the client that keeps it
  unfoldable pub accept : Result Text → Client → Result Text × Client
  unfolding now_of
  accept (err e) c = (err e, c)
  accept (ok id) c = (ok id, record c { session_id = some id; session_at = now_of c })

  unfoldable pub session_of : Result Root → Result Text
  unfolding read_session
  session_of (err e) = err e
  session_of (ok root) = read_session root

  unfoldable pub authenticate : Client → Result Text × Client
  unfolding send session_of accept
  authenticate c = let (root, c') = send auth c in accept (session_of root) c'

  unfoldable pub is_current : Client → Bool
  unfolding now_of
  is_current c = ltb (now_of c - c.session_at) session_ttl_ms

  unfoldable pub ensure_session : Client → Result Text × Client
  unfolding is_current authenticate
  ensure_session c = elim c.session_id [
    | none ↦ authenticate c
    | some id ↦ if is_current c then (ok id, c) else authenticate c
  ]

  unfoldable pub answer_of : Text → Result Root → Result Answer
  unfolding read_search
  answer_of cs (err e) = err e
  answer_of cs (ok root) = read_search root cs

  unfoldable pub query_once : Text → Text → Client → Result Answer × Client
  unfolding send answer_of
  query_once id cs c = let (root, c') = send (query id cs) c in (answer_of cs root, c')

  -- behind a call of authenticate: the query with the id that it gave, or its error
  unfoldable pub query_with : Text → Result Text × Client → Result Answer × Client
  unfolding query_once
  query_with cs (err e, c) = (err e, c)
  query_with cs (ok id, c) = query_once id cs c

  -- the catch: one retry with a new session
  unfoldable pub retry : Text → Result Answer × Client → Result Answer × Client
  unfolding authenticate query_with
  retry cs (err session_died, c) = query_with cs (authenticate c)
  retry cs r = r

  -- the query with the session that is at hand; an error of ensureSession is not caught
  unfoldable pub query_ensured : Text → Result Text × Client → Result Answer × Client
  unfolding query_once retry
  query_ensured cs (err e, c) = (err e, c)
  query_ensured cs (ok id, c) = retry cs (query_once id cs c)

  unfoldable pub lookup : Text → Client → Result Answer × Client
  unfolding ensure_session query_ensured to_upper_case trim
  lookup call c =
      let cs = to_upper_case (trim call) in
      if is_empty cs then (err empty_call, c) else query_ensured cs (ensure_session c)
