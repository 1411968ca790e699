-- ===== src/Packets/Broadcast.antt =====
-- What startListeners of src/udp/index.js sends to the browsers for a radio, a score and a lookup, with
-- freqToBand of src/parsers/util.js, and what it stores.
use contestscore.Broker.{CallRecord}
use contestscore.Country.Grid.{Point, grid_to_lat_lon}
use contestscore.Lookup.Suffix.{strip_suffix}
use contestscore.Packets.Dispatch.{RadioState}
use contestscore.Packets.Score.{Score, BreakdownRow}
use contestscore.Prelude.{
  ℕ, ◌*◌, ◌≡◌, refl, Bool, true, false, ◌&&◌, List, [], ◌∷◌, Option, none, some, leb, ◌==◌,
  if◌then◌else◌,
}
use contestscore.Prelude.Text.{Text, codes, is_empty, or_else}
use contestscore.Store.Columns.{Value}
use contestscore.Tables.Cache.{Cache, cache_callsign}
use contestscore.Tables.Radios.{RadioRow, upsert_radio}
use contestscore.Tables.Scores.{Snapshot, insert_score_breakdown}

-- An edge of BAND_EDGES, in Hz.
pub record Edge : Type 0 where
  pub lo : ℕ
  pub hi : ℕ
  pub name : Text

abbrev edge : ℕ → ℕ → Text → Edge
edge lo hi name = record { lo = lo * 1000; hi = hi * 1000; name = name }

-- BAND_EDGES
abbrev pub band_edges : List Edge
band_edges =
    edge 1800 2000 (codes "160m")
    ∷ edge 3500 4000 (codes "80m")
    ∷ edge 5300 5400 (codes "60m")
    ∷ edge 7000 7300 (codes "40m")
    ∷ edge 10100 10150 (codes "30m")
    ∷ edge 14000 14350 (codes "20m")
    ∷ edge 18068 18168 (codes "17m")
    ∷ edge 21000 21450 (codes "15m")
    ∷ edge 24890 24990 (codes "12m")
    ∷ edge 28000 29700 (codes "10m")
    ∷ edge 50000 54000 (codes "6m")
    ∷ edge 144000 148000 (codes "2m")
    ∷ edge 222000 225000 (codes "1.25m")
    ∷ edge 420000 450000 (codes "70cm")
    ∷ []

unfoldable pub find_edge : List Edge → ℕ → Option Text
find_edge [] hz = none
find_edge (e ∷ es) hz =
    let rest = find_edge es hz in if leb e.lo hz && leb hz e.hi then some e.name else rest

-- A radio as the browsers see it: all but freq and tx_freq, and the band.
pub record RadioView : Type 0 where
  pub radio_nr : ℕ
  pub station_name : Text
  pub mode : Text
  pub op_call : Text
  pub is_running : ℕ
  pub is_transmitting : ℕ
  pub focus_entry : Value
  pub antenna : Text
  pub rotator : Text
  pub focus_radio : Value
  pub active_radio : Value
  pub function_key_caption : Text
  pub band : Option Text

-- The payload of score:update.
pub record ScoreView : Type 0 where
  pub contest : Text
  pub call : Text
  pub qsos : Option ℕ
  pub points : Option ℕ
  pub mults : Option ℕ
  pub total : ℕ
  pub grid6 : Text
  pub soft : Text
  pub breakdown : List BreakdownRow

unfoldable pub find_total : List BreakdownRow → Option BreakdownRow
find_total [] = none
find_total (b ∷ bs) = let rest = find_total bs in if b.is_total then some b else rest

unfoldable pub qsos_of : Option BreakdownRow → Option ℕ
qsos_of none = none
qsos_of (some b) = some b.row.qsos

unfoldable pub points_in : Option BreakdownRow → Option ℕ
points_in none = none
points_in (some b) = some b.row.points

unfoldable pub mults_of : Option BreakdownRow → Option ℕ
mults_of none = none
mults_of (some b) = b.row.mults

unfoldable pub score_view : Score → ScoreView
unfolding find_total qsos_of points_in mults_of
score_view score =
    let total = find_total score.breakdown in
    record {
      contest = score.contest;
      call = score.call;
      qsos = qsos_of total;
      points = points_in total;
      mults = mults_of total;
      total = score.score_total;
      grid6 = score.grid6;
      soft = score.soft;
      breakdown = score.breakdown;
    }

unfoldable pub on_score_update : ℕ → Score → List Snapshot → List Snapshot × ScoreView
unfolding insert_score_breakdown score_view
on_score_update now score table = (insert_score_breakdown now score table, score_view score)

-- The data of lookup:result: the record, and what the handler reads of it.
pub record LookupData : Type 0 where
  pub rec : CallRecord
  pub call : Text
  pub grid : Text
  pub source : Text

-- What is added to the data that is sent on.
pub record Placed : Type 0 where
  pub base : Text
  pub point : Point
  pub loc_source : Text

pub data Sent : Type 0 where
  plain : Sent
  placed : Placed → Sent
  threw : Sent

unfoldable pub stored_result : ℕ → LookupData → Cache → Cache
unfolding cache_callsign
stored_result now d cache =
    if is_empty d.call
    then cache
    else cache_callsign now d.call d.rec (or_else d.source (codes "n1mm")) cache

unfoldable pub is_found : CallRecord → Bool
is_found rec = elim rec.found [ some true ↦ true | _ ↦ false ]

-- with the base call; stripSuffix may throw
unfoldable pub placed_at : Option Text → Point → Text → Sent
placed_at none p source = threw
placed_at (some base) p source =
    placed (record { base = base; point = p; loc_source = or_else source (codes "lookup") })

unfoldable pub sent_result : LookupData → Sent
unfolding is_found grid_to_lat_lon placed_at strip_suffix
sent_result d =
    if is_found d.rec
    then elim (grid_to_lat_lon d.grid) [
      | none ↦ plain
      | some p ↦ placed_at (strip_suffix d.call) p d.source
    ]
    else plain

unfoldable pub on_lookup_result : ℕ → LookupData → Cache → Cache × Sent
unfolding stored_result sent_result
on_lookup_result now d cache = (stored_result now d cache, sent_result d)

-- `hertz` is Number() of a frequency, `none` for NaN.
module _ (hertz : Text → Option ℕ) where
  -- freqToBand
  unfoldable pub freq_band : Text → Option Text
  unfolding find_edge
  freq_band freq = elim (hertz freq) [
    | none ↦ none
    | some hz ↦ if hz == 0 then none else find_edge band_edges hz
  ]

  unfoldable pub radio_view : RadioState → RadioView
  unfolding freq_band
  radio_view r = record {
    radio_nr = r.radio_nr;
    station_name = r.station_name;
    mode = r.mode;
    op_call = r.op_call;
    is_running = r.is_running;
    is_transmitting = r.is_transmitting;
    focus_entry = r.focus_entry;
    antenna = r.antenna;
    rotator = r.rotator;
    focus_radio = r.focus_radio;
    active_radio = r.active_radio;
    function_key_caption = r.function_key_caption;
    band = freq_band r.freq;
  }

  unfoldable pub on_radio_update : ℕ → RadioState → List RadioRow → List RadioRow × RadioView
  unfolding upsert_radio radio_view
  on_radio_update now r table = (upsert_radio now r table, radio_view r)

  -- Whatever the frequencies of a radio are within a band, and whatever its other frequency, the
  -- browsers are sent the same.
  pub on_radio_update-hides_freq :
      (now : ℕ) (r : RadioState) (freq tx_freq : Text) (table : List RadioRow)
      → freq_band freq ≡ freq_band r.freq
      → (on_radio_update now (record r { freq = freq; tx_freq = tx_freq }) table).1
        ≡ (on_radio_update now r table).1
  unfolding on_radio_update radio_view
  on_radio_update-hides_freq now r freq tx_freq table h = rw h refl
