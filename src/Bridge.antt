-- ===== src/Bridge.antt =====
-- src/state/bridgeStatus.js: liveness of the ContestPulse bridges. `stations` is the module's map;
-- times are milliseconds. A clock that runs backwards gives age 0 here and a negative age in the
-- source, which are both within the first threshold.
pub mod Sweep
use contestscore.JsMap.{JsMap, get, put}
use contestscore.Prelude.{ℕ, ◌-◌, Bool, true, false, not, List, [], ◌∷◌, map, leb, if◌then◌else◌}
use contestscore.Prelude.Text.{Text, text_key}

pub data Status : Type 0 where
  realtime stale offline : Status

-- a === b on statuses
unfoldable pub same_status : Status → Status → Bool
same_status realtime realtime = true
same_status stale stale = true
same_status offline offline = true
same_status _ _ = false

pub record Station : Type 0 where
  pub last_seen_at : ℕ
  pub last_status : Status

pub record Report : Type 0 where
  pub station_id : Text
  pub last_seen_at : Text
  pub status : Status

abbrev pub Stations : Type 0
Stations = JsMap Text Station

-- `iso_string` is `new Date(ms).toISOString()`; the thresholds come from the environment.
module _ (iso_string : ℕ → Text) (stale_after_ms offline_after_ms : ℕ) where
  unfoldable pub status_for_age : ℕ → Status
  status_for_age age_ms =
      if leb age_ms stale_after_ms
      then realtime
      else if leb age_ms offline_after_ms
      then stale
      else offline

  unfoldable pub to_report : Text → Station → Report
  to_report station_id s = record {
    station_id = station_id;
    last_seen_at = iso_string s.last_seen_at;
    status = s.last_status;
  }

  unfoldable pub record_heartbeat : ℕ → Text → Stations → Report × Stations
  unfolding to_report
  record_heartbeat now station_id stations =
      let s : Station = record { last_seen_at = now; last_status = realtime } in
      (to_report station_id s, put station_id s stations)

  -- the entry's status as of `now`
  unfoldable pub fresh : ℕ → Station → Status
  unfolding status_for_age
  fresh now s = status_for_age (now - s.last_seen_at)

  unfoldable pub get_statuses : ℕ → Stations → List Report
  unfolding to_report fresh
  get_statuses now = map (λ e. to_report e.0 (record e.1 { last_status = fresh now e.1 }))

  -- the loop of checkForChanges: the reports that it collects, and the map that it leaves
  unfoldable pub check_for_changes : ℕ → Stations → List Report × Stations
  unfolding to_report fresh same_status
  check_for_changes now [] = ([], [])
  check_for_changes now ((station_id, s) ∷ rest) =
      let status = fresh now s in
      let (changed, rest') = check_for_changes now rest in
      let s' : Station = record s { last_status = status } in
      if not (same_status status s.last_status)
      then (to_report station_id s' ∷ changed, (station_id, s') ∷ rest')
      else (changed, (station_id, s) ∷ rest')
