-- ===== src/Charts/Bars.antt =====
-- The charts of public/js/charts.js that count QSOs by key, by hour, by length of the call and by rate.
-- `key_of` and `operator_of` take the key of a QSO from its columns, '—' where it has none, and `value` is
-- its points or its multipliers.
pub mod Ranking
use contestscore.Charts.{
  logged_times, span_of, bucket_of, bucket_list, bucket_ms, time_axis, Counts, zeros, Grid,
  zero_grid, fill_grid,
}
use contestscore.JsMap.{JsMap, get, put, keys}
use contestscore.Prelude.{
  ℕ, zero, suc, ◌+◌, ◌-◌, ◌*◌, ◌/◌, ◌%◌, Bool, true, false, List, [], ◌∷◌, Option, none, some, ltb,
  ◌==◌, length, if◌then◌else◌,
}
use contestscore.Prelude.Text.{Text, text_eq, text_key, is_empty}
use contestscore.Rates.Dedupe.{LoggedQso, one_of}

abbrev pub Totals : Type 0
Totals = JsMap Text ℕ

unfoldable pub or_nothing : Option ℕ → ℕ
or_nothing none = 0
or_nothing (some n) = n

-- totals.set(k, (totals.get(k) || 0) + value(q))
unfoldable pub add_total : Text → ℕ → Totals → Totals
unfolding get put or_nothing
add_total k v m = put k (or_nothing (get k m) + v) m

unfoldable pub totals_of : (LoggedQso → Text) → (LoggedQso → ℕ) → List LoggedQso → Totals → Totals
unfolding add_total
totals_of key_of value [] m = m
totals_of key_of value (q ∷ qs) m = totals_of key_of value qs (add_total (key_of q) (value q) m)

-- .sort((a, b) => b[1] - a[1]), which is stable
unfoldable pub place_biggest : Text × ℕ → Totals → Totals
place_biggest x [] = x ∷ []
place_biggest x (y ∷ ys) =
    let rest = place_biggest x ys in if ltb x.1 y.1 then y ∷ rest else x ∷ y ∷ ys

unfoldable pub biggest_first : Totals → Totals
unfolding place_biggest
biggest_first [] = []
biggest_first (x ∷ xs) = place_biggest x (biggest_first xs)

-- the keys of operatorColorMap, the busiest operator first
unfoldable pub operator_order : (LoggedQso → Text) → List LoggedQso → List Text
unfolding totals_of biggest_first
operator_order operator_of qs = keys (biggest_first (totals_of operator_of (λ q. 1) qs []))

unfoldable pub build_operator_rate_by_hour :
    (LoggedQso → Option ℕ) → (LoggedQso → Text) → List LoggedQso → Grid
unfolding bucket_ms time_axis zero_grid fill_grid operator_order
build_operator_rate_by_hour time_of operator_of qs =
    fill_grid time_of (bucket_ms 60) operator_of qs
      (zero_grid (time_axis time_of (bucket_ms 60) qs) (operator_order operator_of qs))

-- the bars of buildOperatorContribution
unfoldable pub build_operator_contribution :
    (LoggedQso → Text) → (LoggedQso → ℕ) → List LoggedQso → Totals
unfolding totals_of biggest_first
build_operator_contribution operator_of value qs = biggest_first (totals_of operator_of value qs [])

-- orderedKeys.filter((k) => counts.has(k)), each with its count
unfoldable pub chosen : Totals → List Text → Totals
unfolding get
chosen m [] = []
chosen m (k ∷ ks) = elim (get k m) [ none ↦ chosen m ks | some n ↦ (k, n) ∷ chosen m ks ]

-- the bars of buildTotalsBar and the sectors of buildDoughnut; `none` where orderedKeys is null
unfoldable pub build_totals_bar : (LoggedQso → Text) → Option (List Text) → List LoggedQso → Totals
unfolding totals_of biggest_first chosen
build_totals_bar key_of none qs = biggest_first (totals_of key_of (λ q. 1) qs [])
build_totals_bar key_of (some ordered) qs = chosen (totals_of key_of (λ q. 1) qs []) ordered

-- bandSortKey: parseFloat, `none` being Infinity
unfoldable pub sorts_before : Option ℕ → Option ℕ → Bool
sorts_before none b = false
sorts_before (some x) none = true
sorts_before (some x) (some y) = ltb x y

unfoldable pub place_band : (Text → Option ℕ) → Text → List Text → List Text
unfolding sorts_before
place_band band_number b [] = b ∷ []
place_band band_number b (c ∷ cs) =
    let rest = place_band band_number b cs in
    if sorts_before (band_number c) (band_number b) then c ∷ rest else b ∷ c ∷ cs

-- the bands of the QSOs that are not among `seen`, each once
unfoldable pub distinct_bands : List Text → List LoggedQso → List Text
unfolding one_of
distinct_bands seen [] = []
distinct_bands seen (q ∷ qs) =
    let others = distinct_bands seen qs in
    let rest = distinct_bands (q.band ∷ seen) qs in
    if is_empty q.band then others else if one_of q.band seen then others else q.band ∷ rest

unfoldable pub sort_bands : (Text → Option ℕ) → List Text → List Text
unfolding place_band
sort_bands band_number [] = []
sort_bands band_number (b ∷ bs) = place_band band_number b (sort_bands band_number bs)

unfoldable pub sorted_bands : (Text → Option ℕ) → List LoggedQso → List Text
unfolding distinct_bands sort_bands
sorted_bands band_number qs = sort_bands band_number (distinct_bands [] qs)

-- if (by.has(q.band)) by.set(q.band, by.get(q.band) + multCount(q))
unfoldable pub add_mult_count : Text → ℕ → Totals → Totals
unfolding text_eq
add_mult_count b v [] = []
add_mult_count b v ((c, n) ∷ m) =
    if text_eq c b then (c, n + v) ∷ m else (c, n) ∷ add_mult_count b v m

unfoldable pub mults_loop : (LoggedQso → ℕ) → List LoggedQso → Totals → Totals
unfolding add_mult_count
mults_loop mult_count [] m = m
mults_loop mult_count (q ∷ qs) m = mults_loop mult_count qs (add_mult_count q.band (mult_count q) m)

unfoldable pub no_mults : List Text → Totals
no_mults [] = []
no_mults (b ∷ bs) = (b, 0) ∷ no_mults bs

unfoldable pub build_mults_by_band : (Text → Option ℕ) → (LoggedQso → ℕ) → List LoggedQso → Totals
unfolding sorted_bands mults_loop no_mults
build_mults_by_band band_number mult_count qs =
    mults_loop mult_count qs (no_mults (sorted_bands band_number qs))

-- by[i] += 1
unfoldable pub bump : ℕ → List ℕ → List ℕ
bump i [] = []
bump zero (n ∷ ns) = (n + 1) ∷ ns
bump (suc i) (n ∷ ns) = n ∷ bump i ns

unfoldable pub hour_loop : List ℕ → List ℕ → List ℕ
unfolding bump
hour_loop [] by = by
hour_loop (t ∷ ts) by = hour_loop ts (bump (t / 3600000 % 24) by)

-- new Array(n).fill(0)
unfoldable pub blanks : ℕ → List ℕ
blanks zero = []
blanks (suc n) = 0 ∷ blanks n

-- the 24 bars of buildHourOfDay, `none` where it returns null
unfoldable pub build_hour_of_day : (LoggedQso → Option ℕ) → List LoggedQso → Option (List ℕ)
unfolding logged_times hour_loop blanks
build_hour_of_day time_of qs = elim (logged_times time_of qs) [
  | [] ↦ none
  | ◌∷◌ t (ts → hts) ↦ some (hour_loop (t ∷ ts) (blanks 24))
]

-- how many calls have the length, where 10 stands for '10+'
unfoldable pub with_length : ℕ → List LoggedQso → ℕ
with_length n [] = 0
with_length n (q ∷ qs) =
    (if (if ltb (length q.call) 10 then length q.call else 10) == n then 1 else 0)
    + with_length n qs

unfoldable pub lengths_found : List LoggedQso → List ℕ → Counts
unfolding with_length
lengths_found qs [] = []
lengths_found qs (n ∷ ns) =
    let rest = lengths_found qs ns in
    if with_length n qs == 0 then rest else (n, with_length n qs) ∷ rest

unfoldable pub build_call_len_dist : List LoggedQso → Counts
unfolding lengths_found
build_call_len_dist qs = lengths_found qs (3 ∷ 4 ∷ 5 ∷ 6 ∷ 7 ∷ 8 ∷ 9 ∷ 10 ∷ [])

-- counts.set(b, (counts.get(b) || 0) + 1)
unfoldable pub count_at : ℕ → Counts → Counts
count_at b [] = (b, 1) ∷ []
count_at b ((k, n) ∷ m) = if k == b then (k, n + 1) ∷ m else (k, n) ∷ count_at b m

unfoldable pub count_times : ℕ → List ℕ → Counts → Counts
unfolding count_at bucket_of
count_times ms [] m = m
count_times ms (t ∷ ts) m = count_times ms ts (count_at (bucket_of ms t) m)

-- the bin of r an hour
unfoldable pub rate_bin : ℕ → ℕ
rate_bin r =
    if ltb r 25
    then 0
    else if ltb r 50
    then 1
    else if ltb r 75
    then 2
    else if ltb r 100
    then 3
    else if ltb r 150
    then 4
    else 5

unfoldable pub bin_counts : Counts → List ℕ → List ℕ
unfolding bump rate_bin
bin_counts [] bins = bins
bin_counts ((b, c) ∷ m) bins = bin_counts m (bump (rate_bin (c * 6)) bins)

-- Math.floor(t / bucketMs) of ten minutes; the loop over the windows has a round for each of them
unfoldable pub rate_windows : ℕ → ℕ → List ℕ
unfolding bucket_list bucket_of
rate_windows lo hi =
    bucket_list (hi / 600000 - lo / 600000 + 1) (bucket_of 600000 lo) (bucket_of 600000 hi) 600000

unfoldable pub rate_bins : List ℕ → Option (List ℕ)
unfolding span_of rate_windows count_times bin_counts zeros blanks
rate_bins [] = none
rate_bins (t ∷ []) = none
rate_bins (t ∷ u ∷ ts) =
    let (lo, hi) = span_of (t ∷ u ∷ ts) t t in
    some (bin_counts (count_times 600000 (t ∷ u ∷ ts) (zeros (rate_windows lo hi))) (blanks 6))

-- the six bars of buildRateHistogram, `none` where it returns null
unfoldable pub build_rate_histogram : (LoggedQso → Option ℕ) → List LoggedQso → Option (List ℕ)
unfolding logged_times rate_bins
build_rate_histogram time_of qs = rate_bins (logged_times time_of qs)
