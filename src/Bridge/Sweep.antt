-- ===== src/Bridge/Sweep.antt =====
-- What the periodic sweep of src/state/bridgeStatus.js guarantees.
use contestscore.Bridge.{
  Status, realtime, stale, offline, same_status, Station, Report, Stations, record_heartbeat, fresh,
  check_for_changes,
}
use contestscore.JsMap.{get, get-put}
use contestscore.Prelude.{
  ℕ, ◌+◌, ◌≤◌, ◌≡◌, refl, true, not, List, [], ◌∷◌, some, arith, if◌then◌else◌,
}
use contestscore.Prelude.Text.{Text, text_eq, text_key}

pub same_status-eq : (a b : Status) → same_status a b ≡ true → a ≡ b
unfolding same_status
same_status-eq realtime realtime h = refl
same_status-eq stale stale h = refl
same_status-eq offline offline h = refl
same_status-eq a b h = cc

same_status_refl : (a : Status) → same_status a a ≡ true
unfolding same_status
same_status_refl realtime = refl
same_status_refl stale = refl
same_status_refl offline = refl

-- how far from live: a heartbeat sets it to 0
abbrev pub rank : Status → ℕ
rank realtime = 0
rank stale = 1
rank offline = 2

module _ (iso_string : ℕ → Text) (stale_after_ms offline_after_ms : ℕ) where
  -- With no heartbeat in between, a station's status only ever gets worse as time passes.
  pub rank-fresh_mono :
      (s : Station) (now later : ℕ)
      → now ≤ later
      → rank (fresh iso_string stale_after_ms offline_after_ms now s)
        ≤ rank (fresh iso_string stale_after_ms offline_after_ms later s)
  unfolding fresh
  rank-fresh_mono s now later h = ground arith

  -- the map after the sweep: every cached status is the fresh one, and nothing else has changed
  abbrev refreshed : ℕ → Stations → Stations
  refreshed now [] = []
  refreshed now ((k, s) ∷ rest) =
      (k, record s { last_status = fresh iso_string stale_after_ms offline_after_ms now s })
      ∷ refreshed now rest

  -- what the sweep should report: the stations whose cached status is out of date, as they are now
  abbrev outdated : ℕ → Stations → List Report
  outdated now [] = []
  outdated now ((k, s) ∷ rest) =
      let status = fresh iso_string stale_after_ms offline_after_ms now s in
      if not (same_status status s.last_status)
      then record { station_id = k; last_seen_at = iso_string s.last_seen_at; status = status }
        ∷ outdated now rest
      else outdated now rest

  same_keeps :
      (now : ℕ) (s : Station)
      → same_status (fresh iso_string stale_after_ms offline_after_ms now s) s.last_status ≡ true
      → ◌≡◌ {A = Station}
          (record s { last_status = fresh iso_string stale_after_ms offline_after_ms now s })
          s
  same_keeps now s h =
      ground (
        arith,
        same_status-eq (fresh iso_string stale_after_ms offline_after_ms now s) s.last_status,
      )

  -- The sweep reports exactly the stations whose cached status is out of date, in the map's order
  -- and with the new status, and leaves every cached status as of `now` and nothing else changed.
  pub check_for_changes_lem :
      (now : ℕ) (stations : Stations)
      → check_for_changes iso_string stale_after_ms offline_after_ms now stations
        ≡ (outdated now stations, refreshed now stations)
  unfolding check_for_changes
  check_for_changes_lem now [] = refl
  check_for_changes_lem now ((k, s) ∷ rest) =
      ground (arith, check_for_changes_lem now rest, same_keeps now s)

  outdated-refreshed : (now : ℕ) (stations : Stations) → outdated now (refreshed now stations) ≡ []
  unfolding fresh
  outdated-refreshed now [] = refl
  outdated-refreshed now ((k, s) ∷ rest) =
      rw (same_status_refl (fresh iso_string stale_after_ms offline_after_ms now s))
        (outdated-refreshed now rest)

  refreshed_idem :
      (now : ℕ) (stations : Stations)
      → refreshed now (refreshed now stations) ≡ refreshed now stations
  unfolding fresh
  refreshed_idem now [] = refl
  refreshed_idem now ((k, s) ∷ rest) = rw (refreshed_idem now rest)

  -- A second sweep at the same moment reports nothing and changes nothing.
  pub check_for_changes-settles :
      (now : ℕ) (stations : Stations)
      → let after = (check_for_changes iso_string stale_after_ms offline_after_ms now stations).1 in
        check_for_changes iso_string stale_after_ms offline_after_ms now after ≡ ([], after)
  check_for_changes-settles now stations =
      simp (check_for_changes_lem, outdated-refreshed, refreshed_idem)

  -- A heartbeat is reported as realtime, and from then on until the first threshold has passed the
  -- station is live, while the entries of all other stations stay as they are.
  pub record_heartbeat_live :
      (t now : ℕ) (k j : Text) (stations : Stations)
      → now ≤ t + stale_after_ms
      → let (report, after) =
          record_heartbeat iso_string stale_after_ms offline_after_ms t k stations in
        (report.status ≡ realtime)
        × (get j after ≡ (
            if text_eq k j
            then some (record { last_seen_at = t; last_status = realtime })
            else get j stations))
        × (fresh iso_string stale_after_ms offline_after_ms now
              (record { last_seen_at = t; last_status = realtime })
            ≡ realtime)
  unfolding record_heartbeat fresh
  record_heartbeat_live t now k j stations h = (refl, get-put k j _ stations, ground arith)
