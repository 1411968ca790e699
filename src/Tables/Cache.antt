-- ===== src/Tables/Cache.antt =====
-- callsign_cache and settings in src/db/queries.js, and what the contest reset leaves. The JSON text of
-- a row is the record that it holds, `none` if it cannot be parsed.
use contestscore.Broker.{CallRecord, CacheRow}
use contestscore.JsMap.{JsMap, get, put}
use contestscore.Prelude.{
  ℕ, ◌+◌, ◌-◌, Bool, true, false, List, [], ◌∷◌, Option, none, some, length, if◌then◌else◌,
}
use contestscore.Prelude.Text.{Text, codes, text_eq, text_key}
use contestscore.Solar.Readings.{Reading}
use contestscore.Store.Qsos.{Table, clear_qsos}
use contestscore.Tables.Archive.{AnalyzedLog}
use contestscore.Tables.Radios.{RadioRow}
use contestscore.Tables.Scores.{Snapshot}

abbrev pub Cache : Type 0
Cache = JsMap Text CacheRow

-- cacheCallsign
unfoldable pub cache_callsign : ℕ → Text → CallRecord → Text → Cache → Cache
unfolding put
cache_callsign now call rec source cache =
    put call (record { stored = some rec; source = source; cached_at = some now }) cache

-- The record of a row with the row's own source.
pub record Location : Type 0 where
  pub rec : CallRecord
  pub source : Text

unfoldable pub location_of : Option CacheRow → Option Location
location_of none = none
location_of (some row) = elim row.stored [
  | none ↦ none
  | some rec ↦ some (record { rec = rec; source = row.source })
]

-- getCachedLocation
unfoldable pub get_cached_location : Text → Cache → Option Location
unfolding get location_of
get_cached_location call cache = location_of (get call cache)

-- json_extract(data, '$.found') = 0, for a text that parses
unfoldable pub is_not_found : Option CallRecord → Bool
is_not_found none = false
is_not_found (some rec) = elim rec.found [ some false ↦ true | _ ↦ false ]

unfoldable pub count_not_found : Cache → ℕ
unfolding is_not_found
count_not_found [] = 0
count_not_found ((call, row) ∷ cache) =
    (if is_not_found row.stored then 1 else 0) + count_not_found cache

pub record CacheCount : Type 0 where
  pub total : ℕ
  pub found : ℕ
  pub not_found : ℕ

-- countCallsignCache
unfoldable pub count_callsign_cache : Cache → CacheCount
unfolding count_not_found
count_callsign_cache cache =
    let missed = count_not_found cache in
    record { total = length cache; found = length cache - missed; not_found = missed }

-- getNotFoundCalls; `none` where json_extract throws on a text that does not parse
unfoldable pub get_not_found_calls : Cache → Option (List Text)
unfolding is_not_found text_eq
get_not_found_calls [] = some []
get_not_found_calls ((call, row) ∷ cache) = elim (get_not_found_calls cache) [
  | none ↦ none
  | some calls ↦
      if text_eq row.source (codes "hamqth")
      then elim row.stored [
        | none ↦ none
        | some rec ↦ some (if is_not_found (some rec) then call ∷ calls else calls)
      ]
      else some calls
]

abbrev pub Settings : Type 0
Settings = JsMap Text Text

-- setSetting, getSetting
unfoldable pub set_setting : Text → Text → Settings → Settings
unfolding put
set_setting key value settings = put key value settings

unfoldable pub get_setting : Text → Settings → Option Text
unfolding get
get_setting key settings = get key settings

pub record Database : Type 0 where
  pub qsos : Table
  pub scores : List Snapshot
  pub radios : List RadioRow
  pub cache : Cache
  pub solar : List Reading
  pub settings : Settings
  pub logs : List AnalyzedLog

-- clearAll: the contest's tables
unfoldable pub clear_all : Database → Database
unfolding clear_qsos
clear_all db = record db { qsos = clear_qsos db.qsos; scores = []; radios = [] }

-- clearCallsignCache, with the number of the rows that went
unfoldable pub clear_callsign_cache : Database → Database × ℕ
clear_callsign_cache db = (record db { cache = [] }, length db.cache)
