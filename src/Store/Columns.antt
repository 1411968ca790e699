-- ===== src/Store/Columns.antt =====
-- The columns of the qsos table and the values that they hold (src/db/queries.js, schema.sql).
-- The numbers in it are flags, points and counts: natural numbers.
use contestscore.Prelude.{ℕ, Bool, true, false, not, Option, none, some, [], ◌==◌}
use contestscore.Prelude.Text.{Text, text_eq, is_empty}

-- QSO_COLUMNS
pub data Column : Type 0 where
  ext_id call band mode operator mycall contestname : Column
  contestnr rx_freq tx_freq countryprefix wpxprefix : Column
  stationprefix continent snt snt_nr rcv rcv_nr : Column
  gridsquare exchange1 section comment op_name power : Column
  misctext zone prec ck is_mult1 is_mult2 is_mult3 : Column
  points radio_nr run1run2 rover_loc radio_interfaced : Column
  comp_nr is_original netbios_name is_run_qso station_name : Column
  is_claimed_qso sent_exchange n1mm_timestamp : Column

pub data Value : Type 0 where
  null : Value
  text : Text → Value
  num : ℕ → Value

-- What JavaScript takes for true.
unfoldable pub truthy : Value → Bool
truthy null = false
truthy (text s) = not (is_empty s)
truthy (num n) = not (n == 0)

unfoldable pub is_null : Value → Bool
is_null null = true
is_null _ = false

-- `=` of SQL: no value equals NULL.
unfoldable pub sql_eq : Value → Value → Bool
sql_eq (text a) (text b) = text_eq a b
sql_eq (num a) (num b) = a == b
sql_eq _ _ = false

-- v || ''
unfoldable pub or_empty : Value → Value
or_empty null = text []
or_empty (text s) = text s
or_empty (num n) = elim (n == 0) [ true ↦ text [] | false ↦ num n ]

-- A parsed packet: the keys that it has.
pub record Qso : Type 0 where
  pub fields : Column → Option Value
  pub logged_at : Option Text

-- QSO_DEFAULTS
unfoldable pub qso_defaults : Column → Value
qso_defaults ext_id = null
qso_defaults is_mult1 = num 0
qso_defaults is_mult2 = num 0
qso_defaults is_mult3 = num 0
qso_defaults points = num 0
qso_defaults radio_nr = null
qso_defaults radio_interfaced = null
qso_defaults comp_nr = null
qso_defaults is_original = num 1
qso_defaults is_run_qso = num 0
qso_defaults is_claimed_qso = num 1
qso_defaults _ = text []

-- { ...QSO_DEFAULTS, ...qso }, column by column
unfoldable pub normalize_qso : Qso → Column → Value
unfolding qso_defaults
normalize_qso qso c = elim (qso.fields c) [ none ↦ qso_defaults c | some v ↦ v ]

-- updateSet leaves `ext_id` out
unfoldable pub is_ext_id : Column → Bool
is_ext_id ext_id = true
is_ext_id _ = false
