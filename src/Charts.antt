-- ===== src/Charts.antt =====
-- The data of the charts of public/js/charts.js: timeAxis with autoBucketMinutes, buildCumulative,
-- buildStackedByKey and the rate over time. Times are milliseconds since the epoch; `time_of` is qLoggedTime, `none`
-- for NaN. A Map whose keys are the buckets is the list of its entries.
pub mod Axis
pub mod Totals
pub mod Bars
pub mod Stacked
use contestscore.Prelude.{
  ℕ, zero, suc, ◌+◌, ◌-◌, ◌*◌, ◌/◌, Bool, false, ◌||◌, List, [], ◌∷◌, Option, none, some, ltb, leb,
  ◌==◌, if◌then◌else◌,
}
use contestscore.Prelude.Text.{Text, text_eq}
use contestscore.Rates.Dedupe.{LoggedQso, one_of}

-- the times that are none of NaN
unfoldable pub logged_times : (LoggedQso → Option ℕ) → List LoggedQso → List ℕ
logged_times time_of [] = []
logged_times time_of (q ∷ qs) = elim (time_of q) [
  | none ↦ logged_times time_of qs
  | some t ↦ t ∷ logged_times time_of qs
]

-- the loop for min and max
unfoldable pub span_of : List ℕ → ℕ → ℕ → ℕ × ℕ
span_of [] lo hi = (lo, hi)
span_of (t ∷ ts) lo hi = span_of ts (if ltb t lo then t else lo) (if ltb hi t then t else hi)

-- Math.floor(t / bucketMs) * bucketMs
unfoldable pub bucket_of : ℕ → ℕ → ℕ
bucket_of ms t = t / ms * ms

-- the loop over the buckets, of which `room` may still come
unfoldable pub bucket_list : ℕ → ℕ → ℕ → ℕ → List ℕ
bucket_list zero b stop ms = []
bucket_list (suc room) b stop ms =
    let rest = bucket_list room (b + ms) stop ms in if leb b stop then b ∷ rest else []

-- Math.max(1, bucketMin) * 60000
unfoldable pub bucket_ms : ℕ → ℕ
bucket_ms minutes = (if ltb minutes 1 then 1 else minutes) * 60000

-- the cap of the loop
abbrev pub most_buckets : ℕ
most_buckets = 2000

unfoldable pub axis_of : ℕ → List ℕ → List ℕ
unfolding span_of bucket_of bucket_list
axis_of ms [] = []
axis_of ms (t ∷ ts) =
    let (lo, hi) = span_of (t ∷ ts) t t in
    bucket_list most_buckets (bucket_of ms lo) (bucket_of ms hi) ms

-- timeAxis, its buckets
unfoldable pub time_axis : (LoggedQso → Option ℕ) → ℕ → List LoggedQso → List ℕ
unfolding logged_times axis_of
time_axis time_of ms qs = axis_of ms (logged_times time_of qs)

abbrev pub Counts : Type 0
Counts = List (ℕ × ℕ)

-- new Map(buckets.map((b) => [b, 0]))
unfoldable pub zeros : List ℕ → Counts
zeros [] = []
zeros (b ∷ bs) = (b, 0) ∷ zeros bs

-- if (m.has(b)) m.set(b, m.get(b) + v)
unfoldable pub add_at : ℕ → ℕ → Counts → Counts
add_at b v [] = []
add_at b v ((k, w) ∷ m) = if k == b then (k, w + v) ∷ m else (k, w) ∷ add_at b v m

unfoldable pub fill :
    (LoggedQso → Option ℕ) → ℕ → (LoggedQso → ℕ) → List LoggedQso → Counts → Counts
unfolding add_at bucket_of
fill time_of ms value [] m = m
fill time_of ms value (q ∷ qs) m =
    fill time_of ms value qs
      (elim (time_of q) [ none ↦ m | some t ↦ add_at (bucket_of ms t) (value q) m ])

-- buckets.map((b) => (run += perBucket.get(b)))
unfoldable pub running : ℕ → Counts → List ℕ
running run [] = []
running run ((b, v) ∷ m) = (run + v) ∷ running (run + v) m

-- buildCumulative, its data; the empty list where it returns null
unfoldable pub build_cumulative :
    (LoggedQso → Option ℕ) → ℕ → (LoggedQso → ℕ) → List LoggedQso → List ℕ
unfolding bucket_ms time_axis fill zeros running
build_cumulative time_of minutes value qs =
    let ms = bucket_ms minutes in
    running 0 (fill time_of ms value qs (zeros (time_axis time_of ms qs)))

-- sizes.find((m) => spanMinutes / m <= 60) || 120
unfoldable pub find_size : List ℕ → ℕ → ℕ
find_size [] span = 120
find_size (m ∷ ms) span =
    let rest = find_size ms span in if leb span (60 * m * 60000) then m else rest

-- autoBucketMinutes, on the times that are not NaN
unfoldable pub auto_bucket_minutes : List ℕ → ℕ
unfolding span_of find_size
auto_bucket_minutes [] = 15
auto_bucket_minutes (t ∷ []) = 15
auto_bucket_minutes (t ∷ u ∷ ts) =
    let (lo, hi) = span_of (t ∷ u ∷ ts) t t in
    find_size (5 ∷ 10 ∷ 15 ∷ 30 ∷ 60 ∷ 120 ∷ []) (hi - lo)

unfoldable pub has_key : (LoggedQso → Text) → Text → List LoggedQso → Bool
unfolding text_eq
has_key key_of k [] = false
has_key key_of k (q ∷ qs) = text_eq (key_of q) k || has_key key_of k qs

-- the keys in their order, each once, that a QSO has
unfoldable pub used_keys : (LoggedQso → Text) → List LoggedQso → List Text → List Text → List Text
unfolding has_key one_of
used_keys key_of qs seen [] = []
used_keys key_of qs seen (k ∷ ks) =
    let rest = used_keys key_of qs (k ∷ seen) ks in
    if one_of k seen then rest else if has_key key_of k qs then k ∷ rest else rest

abbrev pub Grid : Type 0
Grid = List (Text × Counts)

unfoldable pub zero_grid : List ℕ → List Text → Grid
unfolding zeros
zero_grid axis [] = []
zero_grid axis (k ∷ ks) = (k, zeros axis) ∷ zero_grid axis ks

-- const row = grid.get(k); if (row && row.has(b)) row.set(b, row.get(b) + 1)
unfoldable pub add_in_row : Text → ℕ → Grid → Grid
unfolding text_eq add_at
add_in_row k b [] = []
add_in_row k b ((j, m) ∷ g) =
    if text_eq k j then (j, add_at b 1 m) ∷ g else (j, m) ∷ add_in_row k b g

unfoldable pub fill_grid :
    (LoggedQso → Option ℕ) → ℕ → (LoggedQso → Text) → List LoggedQso → Grid → Grid
unfolding add_in_row bucket_of
fill_grid time_of ms key_of [] g = g
fill_grid time_of ms key_of (q ∷ qs) g =
    fill_grid time_of ms key_of qs
      (elim (time_of q) [ none ↦ g | some t ↦ add_in_row (key_of q) (bucket_of ms t) g ])

-- buildStackedByKey, its rows: each key with its counts by bucket
unfoldable pub build_stacked_by_key :
    (LoggedQso → Option ℕ) → ℕ → (LoggedQso → Text) → List Text → List LoggedQso → Grid
unfolding bucket_ms time_axis used_keys zero_grid fill_grid
build_stacked_by_key time_of minutes key_of ordered_keys qs =
    let ms = bucket_ms minutes in
    fill_grid time_of ms key_of qs
      (zero_grid (time_axis time_of ms qs) (used_keys key_of qs [] ordered_keys))
