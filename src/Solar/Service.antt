-- ===== src/Solar/Service.antt =====
-- src/solar/index.js: the reading of hamqsl's answer, the configuration and createSolarService.
use contestscore.Lookup.Config.{Config, resolve_hamdata_url}
use contestscore.Packets.Fields.{Fields, or_nullish}
use contestscore.Prelude.{
  ℕ, zero, suc, ◌+◌, ◌*◌, Bool, true, false, not, ◌&&◌, ◌||◌, List, [], ◌∷◌, ◌++◌, Option, none,
  some, ltb, ◌==◌, length, if◌then◌else◌,
}
use contestscore.Prelude.Text.{Text, codes, text_eq, is_empty, trim}
use contestscore.Solar.Readings.{Reading, insert_solar_snapshot, get_latest_solar}

-- HAMDATA_POLL_MS
abbrev pub hamdata_poll_ms : ℕ
hamdata_poll_ms = 10 * 60000

-- (typeof v === 'string' ? v.trim() : '') || null
unfoldable pub text_or_null : Option Text → Option Text
unfolding trim
text_or_null none = none
text_or_null (some s) = let t = trim s in if is_empty t then none else some t

-- intOrNull; `parse_int` is parseInt(s, 10), with `none` for NaN
unfoldable pub int_or_null : (Text → Option ℕ) → Option Text → Option ℕ
unfolding trim
int_or_null parse_int none = parse_int []
int_or_null parse_int (some s) = parse_int (trim s)

-- parseSolarXml behind xml2js, on the children of <solardata>
unfoldable pub parse_solar_xml : (Text → Option ℕ) → ℕ → Fields → Reading
unfolding text_or_null int_or_null
parse_solar_xml parse_int now d = record {
  sfi = int_or_null parse_int (d (codes "solarflux"));
  a_index = int_or_null parse_int (d (codes "aindex"));
  k_index = int_or_null parse_int (d (codes "kindex"));
  sunspots = int_or_null parse_int (d (codes "sunspots"));
  xray = text_or_null (d (codes "xray"));
  geomag = text_or_null (d (codes "geomagfield"));
  source_updated = text_or_null (d (codes "updated"));
  fetched_at = now;
}

-- What GET /api/solar and the sockets show of a reading; `none` is { updated: null }.
pub record PublicReading : Type 0 where
  pub sfi : Option ℕ
  pub a : Option ℕ
  pub k : Option ℕ
  pub sunspots : Option ℕ
  pub xray : Option Text
  pub geomag : Option Text
  pub updated : ℕ

unfoldable pub public_view : Option Reading → Option PublicReading
public_view none = none
public_view (some r) = some (record {
  sfi = r.sfi;
  a = r.a_index;
  k = r.k_index;
  sunspots = r.sunspots;
  xray = r.xray;
  geomag = r.geomag;
  updated = r.fetched_at;
})

-- The solar part of config/default.json.
pub record SolarDefaults : Type 0 where
  pub enabled : Option Text
  pub refresh_minutes : ℕ

pub record SolarConfig : Type 0 where
  pub enabled : Bool
  pub refresh_ms : ℕ
  pub hamdata_url : Text

-- a || b on numbers
unfoldable pub or_number : ℕ → ℕ → ℕ
or_number a b = if a == 0 then b else a

-- `enabled` and `minutes` are SOLAR_ENABLED and Number(SOLAR_REFRESH_MINUTES), 0 for NaN.
unfoldable pub resolve_solar_config :
    Option Text → ℕ → SolarDefaults → (Text → Text) → Config → SolarConfig
unfolding text_eq or_nullish or_number resolve_hamdata_url
resolve_solar_config enabled minutes cfg env root = record {
  enabled =
      not (elim (or_nullish enabled cfg.enabled) [
        | none ↦ false
        | some s ↦ text_eq s (codes "false")
      ]);
  refresh_ms = or_number minutes (or_number cfg.refresh_minutes 120) * 60000;
  hamdata_url = resolve_hamdata_url env root;
}

-- the interval of the timer
unfoldable pub poll_ms : SolarConfig → ℕ
poll_ms cfg = if is_empty cfg.hamdata_url then cfg.refresh_ms else hamdata_poll_ms

-- The table, the service's copy of its newest row, what was emitted, and whether the timer runs.
pub record Solar : Type 0 where
  pub table : List Reading
  pub current : Option Reading
  pub emitted : List (Option PublicReading)
  pub timer : Bool

unfoldable pub new_solar : List Reading → Solar
unfolding get_latest_solar
new_solar table = record {
  table = table;
  current = get_latest_solar table;
  emitted = [];
  timer = false;
}

-- current = latest(); io.emit('solar:update', publicView(current))
unfoldable pub announce : Solar → Solar
unfolding get_latest_solar public_view
announce s =
    let now_current = get_latest_solar s.table in
    record s { current = now_current; emitted = s.emitted ++ public_view now_current ∷ [] }

unfoldable pub is_missing : Option ℕ → Bool
is_missing none = true
is_missing (some n) = false

-- A poll of hamqsl; `none` is a fetch, a status or a page that fails.
unfoldable pub refresh_from_hamqsl : Option Reading → Solar → Solar
unfolding is_missing insert_solar_snapshot announce
refresh_from_hamqsl none s = s
refresh_from_hamqsl (some r) s =
    if is_missing r.sfi && is_missing r.a_index && is_missing r.k_index
    then s
    else announce (record s { table = insert_solar_snapshot r s.table })

unfoldable pub time_of : Option Reading → Option ℕ
time_of none = none
time_of (some r) = some r.fetched_at

-- for (const r of rows) insert(...)
unfoldable pub insert_all : List Reading → List Reading → List Reading
unfolding insert_solar_snapshot
insert_all [] table = table
insert_all (r ∷ rs) table = insert_all rs (insert_solar_snapshot r table)

pub data Outcome : Type 0 where
  request_failed : Outcome
  added : ℕ → Outcome

-- The loop over the pages; `reply n after` is what the n-th request gives, `none` an error, and
-- `page_size` is 1000 in the source. `none` means that the fuel ran out.
unfoldable pub copy_pages :
    (ℕ → Option ℕ → Option (List Reading))
    → ℕ
    → ℕ
    → ℕ
    → ℕ
    → List Reading
    → Option (List Reading × Outcome)
unfolding get_latest_solar time_of insert_all
copy_pages reply page_size zero n total table = none
copy_pages reply page_size (suc fuel) n total table =
    elim (reply n (time_of (get_latest_solar table))) [
      | none ↦ some (table, request_failed)
      | some [] ↦ some (table, added total)
      | some (r ∷ rs) ↦
          let table' = insert_all (r ∷ rs) table in
          let total' = total + length (r ∷ rs) in
          let rest = copy_pages reply page_size fuel (n + 1) total' table' in
          if ltb (length (r ∷ rs)) page_size then some (table', added total') else rest
    ]

-- what refreshFromHamdata does behind the loop; an error keeps the rows that came before it
unfoldable pub finish_copy : Option (List Reading × Outcome) → Solar → Solar
unfolding announce
finish_copy none s = s
finish_copy (some (table, request_failed)) s = record s { table = table }
finish_copy (some (table, added total)) s =
    if total == 0 then record s { table = table } else announce (record s { table = table })

unfoldable pub refresh_from_hamdata : (ℕ → Option ℕ → Option (List Reading)) → ℕ → ℕ → Solar → Solar
unfolding copy_pages finish_copy
refresh_from_hamdata reply page_size fuel s =
    finish_copy (copy_pages reply page_size fuel 0 0 s.table) s

-- whether `start` begins a refresh and the timer
unfoldable pub start : Bool → Solar → Solar × Bool
start enabled s = if not enabled || s.timer then (s, false) else (record s { timer = true }, true)

unfoldable pub stop : Solar → Solar
stop s = record s { timer = false }

-- what a refresh starts from: the service's configuration, and the answers that come
unfoldable pub refresh :
    SolarConfig → (ℕ → Option ℕ → Option (List Reading)) → ℕ → ℕ → Option Reading → Solar → Solar
unfolding refresh_from_hamdata refresh_from_hamqsl
refresh cfg reply page_size fuel reading s =
    if not cfg.enabled
    then s
    else if is_empty cfg.hamdata_url
    then refresh_from_hamqsl reading s
    else refresh_from_hamdata reply page_size fuel s
