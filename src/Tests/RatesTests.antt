-- ===== src/Tests/RatesTests.antt =====
-- Runs of the rate and dupe rules of public/js/stats.js and tui/index.js and of the charts of
-- public/js/charts.js.
use contestscore.Charts.{
  logged_times, span_of, bucket_ms, build_cumulative, time_axis, zero_grid, used_keys,
  build_stacked_by_key,
}
use contestscore.Charts.Stacked.{rows_of, build_stacked_by_key-rows_of}
use contestscore.Charts.Totals.{last_or, timed_total, build_cumulative-last}
use contestscore.Charts.Bars.{build_operator_contribution}
use contestscore.Charts.Bars.Ranking.{Descends, total, sum_of, build_operator_contribution-ranks}
use contestscore.Rates.Window.{best_window, best_window_count}
use contestscore.Rates.Sweep.{best_window-most}
use contestscore.Rates.Dedupe.{LoggedQso, Best, dedupe_for_rate}
use contestscore.Rates.DedupeLaws.{Sound, passes, dedupe_for_rate-keeps_earliest}
use contestscore.Prelude.{ℕ, ◌*◌, ◌≡◌, refl, List, [], ◌∷◌, ◌++◌, Option, some, map, keep, arith}
use contestscore.Prelude.Text.{Text, codes}

abbrev four_times : List ℕ
four_times = 0 ∷ 50 ∷ 60 ∷ 100 ∷ []

best_window-most_example :
    ((best_window four_times 60).count ≡ 3) × (best_window_count four_times 60 ≡ 3)
best_window-most_example = best_window-most four_times 60 (
  (omega arith, (omega arith, (omega arith, tt))),
  ((omega arith, (omega arith, tt)), ((omega arith, tt), (tt, tt))),
)

abbrev worked : ℕ → Text → Text → LoggedQso
worked id mode exchange1 = record {
  id = id;
  call = codes "K1ABC";
  band = codes "14";
  mode = mode;
  exchange1 = exchange1;
  n1mm_timestamp = [];
  logged_at = [];
}

-- LSB and USB are one group, and a QTC passes
abbrev four_logged : List LoggedQso
four_logged =
    worked 90 (codes "USB") []
    ∷ worked 95 (codes "USB") (codes "SQTC")
    ∷ worked 80 (codes "LSB") []
    ∷ worked 85 (codes "CW") []
    ∷ []

abbrev by_id : LoggedQso → Option ℕ
by_id q = some q.id

dedupe_for_rate-keeps_earliest_example :
    (best : Best) × (dedupe_for_rate by_id four_logged
      ≡ keep (passes by_id) four_logged ++ map (λ e. e.1.0) best)
    × Sound by_id four_logged best
dedupe_for_rate-keeps_earliest_example = dedupe_for_rate-keeps_earliest by_id four_logged

-- minutes as times, with a bucket of one minute
abbrev by_minute : LoggedQso → Option ℕ
by_minute q = some (q.id * 60000)

build_cumulative-last_example :
    last_or 0 (build_cumulative by_minute 1 (λ q. 1) four_logged)
    ≡ timed_total by_minute (λ q. 1) four_logged
unfolding logged_times span_of bucket_ms
build_cumulative-last_example =
    build_cumulative-last by_minute 1 (λ q. 1) four_logged 5400000
      (5700000 ∷ 4800000 ∷ 5100000 ∷ []) refl (omega arith)

abbrev mode_of : LoggedQso → Text
mode_of q = q.mode

build_stacked_by_key-rows_of_example :
    build_stacked_by_key by_minute 5 mode_of
      (codes "CW" ∷ codes "USB" ∷ codes "CW" ∷ [])
      four_logged
    ≡ rows_of by_minute (bucket_ms 5) mode_of four_logged (
        zero_grid
          (time_axis by_minute (bucket_ms 5) four_logged)
          (used_keys mode_of four_logged [] (codes "CW" ∷ codes "USB" ∷ codes "CW" ∷ [])))
build_stacked_by_key-rows_of_example =
    build_stacked_by_key-rows_of by_minute 5 mode_of (codes "CW" ∷ codes "USB" ∷ codes "CW" ∷ [])
      four_logged

build_operator_contribution-ranks_example :
    Descends (build_operator_contribution mode_of (λ q. 3) four_logged)
    × (total (build_operator_contribution mode_of (λ q. 3) four_logged)
        ≡ sum_of (λ q. 3) four_logged)
build_operator_contribution-ranks_example =
    build_operator_contribution-ranks mode_of (λ q. 3) four_logged
