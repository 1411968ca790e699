-- ===== src/Solar/Readings.antt =====
-- The statements of src/db/queries.js on solar_snapshots: the table is the list of its rows in the
-- order of their ids.
use contestscore.Prelude.{
  ℕ, ◌+◌, ◌*◌, Bool, true, ◌&&◌, List, [], ◌∷◌, ◌++◌, Option, none, some, ltb, leb, take, keep,
  if◌then◌else◌,
}
use contestscore.Prelude.Text.{Text}

pub record Reading : Type 0 where
  pub sfi : Option ℕ
  pub a_index : Option ℕ
  pub k_index : Option ℕ
  pub sunspots : Option ℕ
  pub xray : Option Text
  pub geomag : Option Text
  pub source_updated : Option Text
  pub fetched_at : ℕ

-- insertSolarSnapshot; the time is COALESCE(@fetched_at, datetime('now'))
unfoldable pub insert_solar_snapshot : Reading → List Reading → List Reading
insert_solar_snapshot r table = table ++ r ∷ []

-- ORDER BY id DESC LIMIT 1
unfoldable pub get_latest_solar : List Reading → Option Reading
get_latest_solar [] = none
get_latest_solar (r ∷ rs) = elim (get_latest_solar rs) [ none ↦ some r | some last ↦ some last ]

unfoldable pub place : Reading → List Reading → List Reading
place r [] = r ∷ []
place r (x ∷ xs) = if leb r.fetched_at x.fetched_at then r ∷ x ∷ xs else x ∷ place r xs

-- ORDER BY fetched_at, id
unfoldable pub by_time : List Reading → List Reading
unfolding place
by_time [] = []
by_time (r ∷ rs) = place r (by_time rs)

-- fetched_at > @after, where the empty text stands before every time
unfoldable pub is_after : Option ℕ → Reading → Bool
is_after none r = true
is_after (some t) r = ltb t r.fetched_at

-- getSolarSince
unfoldable pub get_solar_since : Option ℕ → ℕ → List Reading → List Reading
unfolding by_time is_after
get_solar_since after limit table = take limit (by_time (keep (is_after after) table))

unfoldable pub is_between : ℕ → ℕ → Reading → Bool
is_between start stop r = leb start r.fetched_at && leb r.fetched_at stop

-- getSolarInRange
unfoldable pub get_solar_in_range : ℕ → ℕ → List Reading → List Reading
unfolding by_time is_between
get_solar_in_range start stop table = by_time (keep (is_between start stop) table)

-- SOLAR_LEAD_IN_HOURS
abbrev pub solar_lead_in : ℕ
solar_lead_in = 6 * 3600

-- fetched_at < @from AND fetched_at >= datetime(@from, @maxAge)
unfoldable pub is_lead_in : ℕ → Reading → Bool
is_lead_in start r = ltb r.fetched_at start && leb start (r.fetched_at + solar_lead_in)

-- ORDER BY fetched_at DESC LIMIT 1; of readings at one time this takes the last
unfoldable pub get_solar_before : ℕ → List Reading → Option Reading
unfolding by_time is_lead_in get_latest_solar
get_solar_before start table = get_latest_solar (by_time (keep (is_lead_in start) table))

-- getSolarForSession
unfoldable pub get_solar_for_session : ℕ → ℕ → List Reading → List Reading
unfolding get_solar_before get_solar_in_range
get_solar_for_session start stop table = elim (get_solar_before start table) [
  | none ↦ get_solar_in_range start stop table
  | some before ↦ before ∷ get_solar_in_range start stop table
]
