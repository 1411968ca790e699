-- ===== src/Tests/BridgeTests.antt =====
-- Runs of src/state/bridgeStatus.js.
use contestscore.Bridge.{
  Station, Stations, realtime, offline, same_status, status_for_age, fresh, check_for_changes,
}
use contestscore.Bridge.Sweep.{check_for_changes_lem}
use contestscore.Prelude.{ℕ, ◌≡◌, [], ◌∷◌}
use contestscore.Prelude.Text.{Text, codes, text_key}

abbrev iso : ℕ → Text
iso ms = ms ∷ []

abbrev live_at : ℕ → Station
live_at t = record { last_seen_at = t; last_status = realtime }

abbrev two_stations : Stations
two_stations = (codes "RUN", live_at 1000) ∷ (codes "MULT", live_at 30000) ∷ []

abbrev run_offline : Station
run_offline = record { last_seen_at = 1000; last_status = offline }

-- MULT is still realtime and is not reported
check_for_changes_lem_example : check_for_changes iso 15000 30000 40000 two_stations ≡ (
  record { station_id = codes "RUN"; last_seen_at = 1000 ∷ []; status = offline } ∷ [],
  (codes "RUN", run_offline) ∷ (codes "MULT", live_at 30000) ∷ [],
)
unfolding fresh status_for_age same_status
check_for_changes_lem_example = check_for_changes_lem iso 15000 30000 40000 two_stations
