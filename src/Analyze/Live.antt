-- ===== src/Analyze/Live.antt =====
-- analyzeLiveQsos, topValue and isClaimedQso of src/analyze/index.js, on the rows of the qsos table.
-- `number` is Number() on a text, with `none` for NaN.
pub mod TopValue
use contestscore.Analyze.Adif.Records.{Flags, add_operator, joined}
use contestscore.Analyze.Analysis.{no_override, Excluded, key_of}
use contestscore.Analyze.Contests.{spec_for_contest}
use contestscore.Country.Fill.{enrich_geo}
use contestscore.Country.Resolver.{Country}
use contestscore.JsMap.{JsMap, get, put}
use contestscore.Store.Columns.{Column, Value, null, text, num, truthy, Qso}
use contestscore.Store.Qsos.{Row, field}
use contestscore.Prelude.{
  ℕ, ◌+◌, Bool, true, false, not, ◌||◌, List, [], ◌∷◌, ◌++◌, Option, none, some, map, ltb, ◌==◌,
  length, keep, if◌then◌else◌,
}
use contestscore.Prelude.Text.{Text, codes, is_empty, text_key}

unfoldable pub count_of : Text → JsMap Text ℕ → ℕ
unfolding get
count_of v m = elim (get v m) [ none ↦ 0 | some n ↦ n ]

-- counts.set(v, (counts.get(v) || 0) + 1) for each value that is not blank
unfoldable pub tally : List Text → JsMap Text ℕ → JsMap Text ℕ
unfolding put count_of
tally [] m = m
tally (v ∷ vs) m = tally vs (if is_empty v then m else put v (count_of v m + 1) m)

-- the loop over the counts
unfoldable pub best_count : JsMap Text ℕ → Text → ℕ → Text × ℕ
best_count [] best n = (best, n)
best_count ((v, c) ∷ m) best n =
    best_count m (if ltb n c then v else best) (if ltb n c then c else n)

unfoldable pub top_value : List Text → Text
unfolding tally best_count
top_value values = (best_count (tally values []) [] 0).0

-- r.x || '' as text; a column of texts holds no number
unfoldable pub text_of : Value → Text
text_of (text s) = s
text_of _ = []

unfoldable pub bit_of : Value → ℕ
unfolding truthy
bit_of v = if truthy v then 1 else 0

-- n1mm_timestamp || logged_at
unfoldable pub timestamp_of : Row → Text
unfolding text_of
timestamp_of r =
    let t = text_of (r.cols Column.n1mm_timestamp) in if is_empty t then r.logged_at else t

unfoldable pub has_operator_text : Qso → Bool
unfolding field truthy
has_operator_text q = truthy (field q Column.operator)

unfoldable pub has_any : (Qso → Bool) → List Qso → Bool
has_any p [] = false
has_any p (q ∷ qs) = p q || has_any p qs

unfoldable pub column_is_set : Column → Qso → Bool
unfolding field truthy
column_is_set c q = truthy (field q c)

unfoldable pub any_mult : Qso → Bool
unfolding column_is_set
any_mult q =
    column_is_set Column.is_mult1 q
    || column_is_set Column.is_mult2 q
    || column_is_set Column.is_mult3 q

-- [...new Set(values.filter(Boolean))]
unfoldable pub distinct_texts : List Text → List Text → List Text
unfolding add_operator
distinct_texts [] seen = seen
distinct_texts (v ∷ vs) seen = distinct_texts vs (if is_empty v then seen else add_operator v seen)

pub record LiveAnalysis : Type 0 where
  pub filename : Text
  pub contest : Text
  pub contest_key : Option Text
  pub exchange_parsed : Bool
  pub station_call : Text
  pub operators : Text
  pub claimed_score : Option ℕ
  pub qso_count : ℕ
  pub excluded_count : ℕ
  pub flags : Flags
  pub qsos : List Qso
  pub excluded : List Excluded

module _ (number : Text → Option ℕ) where
  -- r.is_claimed_qso == null || Number(r.is_claimed_qso) !== 0
  unfoldable pub is_claimed : Value → Bool
  is_claimed null = true
  is_claimed (num n) = not (n == 0)
  is_claimed (text s) = elim (number s) [ none ↦ true | some n ↦ not (n == 0) ]

  unfoldable pub is_claimed_qso : Row → Bool
  unfolding is_claimed
  is_claimed_qso r = is_claimed (r.cols Column.is_claimed_qso)

  -- Number(v) || 0
  unfoldable pub points_of : Value → ℕ
  points_of null = 0
  points_of (num n) = n
  points_of (text s) = elim (number s) [ none ↦ 0 | some n ↦ n ]

  -- the field remap
  unfoldable pub live_column : Row → Column → Option Value
  unfolding bit_of points_of timestamp_of text_of
  live_column r Column.is_mult1 = some (num (bit_of (r.cols Column.is_mult1)))
  live_column r Column.is_mult2 = some (num (bit_of (r.cols Column.is_mult2)))
  live_column r Column.is_mult3 = some (num (bit_of (r.cols Column.is_mult3)))
  live_column r Column.points = some (num (points_of (r.cols Column.points)))
  live_column r Column.is_run_qso = some (num (bit_of (r.cols Column.is_run_qso)))
  live_column r Column.n1mm_timestamp = some (text (timestamp_of r))
  live_column r Column.ext_id = none
  live_column r Column.contestname = none
  live_column r Column.contestnr = none
  live_column r Column.rx_freq = none
  live_column r Column.tx_freq = none
  live_column r Column.stationprefix = none
  live_column r Column.snt = none
  live_column r Column.rcv = none
  live_column r Column.comment = none
  live_column r Column.misctext = none
  live_column r Column.radio_nr = none
  live_column r Column.rover_loc = none
  live_column r Column.radio_interfaced = none
  live_column r Column.comp_nr = none
  live_column r Column.is_original = none
  live_column r Column.netbios_name = none
  live_column r Column.station_name = none
  live_column r Column.is_claimed_qso = none
  live_column r Column.sent_exchange = none
  live_column r c = some (text (text_of (r.cols c)))

module _ (number : Text → Option ℕ) (resolver : Text → Option Country) where
  unfoldable pub live_qso : Row → Qso
  unfolding live_column enrich_geo
  live_qso r =
      enrich_geo resolver no_override
        (record { fields = live_column number r; logged_at = some r.logged_at })

  unfoldable pub analyze_live_qsos : List Row → Option ℕ → LiveAnalysis
  unfolding is_claimed_qso live_qso top_value spec_for_contest key_of joined distinct_texts has_any
      column_is_set any_mult has_operator_text text_of timestamp_of
  analyze_live_qsos rows claimed_score =
      let counted = keep (is_claimed_qso number) rows in
      let xqsos = keep (λ r. not (is_claimed_qso number r)) rows in
      let qsos = map live_qso counted in
      let contest = top_value (map (λ (r : Row). text_of (r.cols Column.contestname)) counted) in
      record {
        filename = codes "live: " ++ (if is_empty contest then codes "contest" else contest);
        contest = contest;
        contest_key = key_of (spec_for_contest contest);
        exchange_parsed = true;
        station_call = top_value (map (λ (q : Qso). text_of (field q Column.mycall)) qsos);
        operators =
            joined (distinct_texts (map (λ (q : Qso). text_of (field q Column.operator)) qsos) []);
        claimed_score = claimed_score;
        qso_count = length qsos;
        excluded_count = length xqsos;
        flags = record {
          has_points = has_any (column_is_set Column.points) qsos;
          has_mults = has_any any_mult qsos;
          has_operator = has_any has_operator_text qsos;
          has_run_flag = has_any (column_is_set Column.is_run_qso) qsos;
        };
        qsos = qsos;
        excluded =
            map
              (λ (r : Row). record {
                call = text_of (r.cols Column.call);
                band = text_of (r.cols Column.band);
                mode = text_of (r.cols Column.mode);
                n1mm_timestamp = timestamp_of r;
              })
              xqsos;
      }
