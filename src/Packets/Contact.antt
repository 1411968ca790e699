-- ===== src/Packets/Contact.antt =====
-- parseContact and parseContactDelete of src/parsers, behind xml2js: `c` is the packet's root
-- element.
use contestscore.Packets.Fields.{
  Fields, or_blank, or_nullish, present, or_null, to_bool, native_mult, matches, join_texts,
  number_or_zero, number_or_null, tens_of_hz_to_hz,
}
use contestscore.Store.Columns.{
  Column, ext_id, call, band, mode, operator, mycall, contestname, contestnr, rx_freq, tx_freq,
  countryprefix, wpxprefix, stationprefix, continent, snt, snt_nr, rcv, rcv_nr, gridsquare,
  exchange1, section, comment, op_name, power, misctext, zone, prec, ck, is_mult1, is_mult2,
  is_mult3, points, radio_nr, run1run2, rover_loc, radio_interfaced, comp_nr, is_original,
  netbios_name, is_run_qso, station_name, is_claimed_qso, sent_exchange, n1mm_timestamp, Value,
  text, num, Qso,
}
use contestscore.Prelude.{ℕ, ◌-◌, Bool, not, ◌&&◌, ◌||◌, [], ◌∷◌, Option, none, some, if◌then◌else◌}
use contestscore.Prelude.Text.{Text, codes, text_eq, to_lower_case, or_else, starts_with}

unfoldable pub is_dxlog_native : Fields → Bool
unfolding present or_blank starts_with to_lower_case
is_dxlog_native c =
    present (c (codes "guid"))
    || starts_with (codes "dxlog") (to_lower_case (or_blank (c (codes "logger"))))

-- native ? c.x : null
unfoldable pub if_native : Bool → Option Text → Option Text
if_native native val = if native then val else none

unfoldable pub native_exchange : Bool → Fields → Text
unfolding join_texts
native_exchange native c =
    if native
    then join_texts
        (c (codes "exch1") ∷ c (codes "exch2") ∷ c (codes "exch3") ∷ c (codes "exch4") ∷ [])
    else []

-- is_mult1, is_mult2 and is_mult3: the native value, or a flag
unfoldable pub mult_flag : Bool → Option Text → Option Text → Option Text → ℕ
unfolding present native_mult to_bool
mult_flag native ismultiplier mult flag =
    if native && not (present ismultiplier) then native_mult mult else to_bool flag

-- a flag that is 1 where neither packet format has it
unfoldable pub flag_or : Option Text → ℕ → ℕ
unfolding to_bool
flag_or none other = other
flag_or (some val) other = to_bool (some val)

unfoldable pub is_timestamp : Text → Bool
unfolding matches
is_timestamp s = matches (codes "dddd-dd-dd dd:dd:dd") s

unfoldable pub backfill_time : Fields → Option Text
unfolding is_timestamp or_blank text_eq
backfill_time c =
    if text_eq (or_blank (c (codes "app"))) (codes "ContestScore-Backfill")
      && is_timestamp (or_blank (c (codes "timestamp")))
    then c (codes "timestamp")
    else none

-- c.x || ''
unfoldable pub column_text : Fields → Text → Value
unfolding or_blank
column_text c name = text (or_blank (c name))

module _ (number : Text → Option ℕ) (decimal : ℕ → Text) where
  -- the object that parseContact returns, key by key; logged_at stands apart
  unfoldable pub contact_column : Bool → Fields → Column → Value
  unfolding or_blank or_nullish or_null if_native native_exchange mult_flag flag_or to_bool
      number_or_zero number_or_null tens_of_hz_to_hz column_text
  contact_column native c ext_id =
      or_null (or_else (or_blank (c (codes "ID"))) (or_blank (if_native native (c (codes "guid")))))
  contact_column native c call = column_text c (codes "call")
  contact_column native c band = column_text c (codes "band")
  contact_column native c mode = column_text c (codes "mode")
  contact_column native c operator = column_text c (codes "operator")
  contact_column native c mycall = column_text c (codes "mycall")
  contact_column native c contestname = column_text c (codes "contestname")
  contact_column native c contestnr = column_text c (codes "contestnr")
  contact_column native c rx_freq = text (tens_of_hz_to_hz number decimal (c (codes "rxfreq")))
  contact_column native c tx_freq = text (tens_of_hz_to_hz number decimal (c (codes "txfreq")))
  contact_column native c countryprefix = column_text c (codes "countryprefix")
  contact_column native c wpxprefix = column_text c (codes "wpxprefix")
  contact_column native c stationprefix = column_text c (codes "stationprefix")
  contact_column native c continent = column_text c (codes "continent")
  contact_column native c snt = column_text c (codes "snt")
  contact_column native c snt_nr =
      text (or_else (or_blank (c (codes "sntnr"))) (or_blank (if_native native (c (codes "nr")))))
  contact_column native c rcv = column_text c (codes "rcv")
  contact_column native c rcv_nr = column_text c (codes "rcvnr")
  contact_column native c gridsquare = column_text c (codes "gridsquare")
  contact_column native c exchange1 = text (
      or_else (or_blank (c (codes "exchange1")))
        (or_else (or_blank (c (codes "exchangel"))) (native_exchange native c)))
  contact_column native c section = column_text c (codes "section")
  contact_column native c comment = column_text c (codes "comment")
  contact_column native c op_name = column_text c (codes "name")
  contact_column native c power = column_text c (codes "power")
  contact_column native c misctext = column_text c (codes "misctext")
  contact_column native c zone = column_text c (codes "zone")
  contact_column native c prec = column_text c (codes "prec")
  contact_column native c ck = column_text c (codes "ck")
  contact_column native c is_mult1 = num (
      mult_flag native (c (codes "ismultiplier1")) (c (codes "mult1"))
        (or_nullish (c (codes "ismultiplier1")) (c (codes "ismultiplierl"))))
  contact_column native c is_mult2 =
      num (
        mult_flag native (c (codes "ismultiplier2")) (c (codes "mult2"))
          (c (codes "ismultiplier2")))
  contact_column native c is_mult3 =
      num (
        mult_flag native (c (codes "ismultiplier3")) (c (codes "mult3"))
          (c (codes "ismultiplier3")))
  contact_column native c points = num (number_or_zero number decimal (c (codes "points")))
  contact_column native c radio_nr = number_or_null number decimal (c (codes "radionr"))
  contact_column native c run1run2 = column_text c (codes "run1run2")
  contact_column native c rover_loc = column_text c (codes "RoverLocation")
  contact_column native c radio_interfaced =
      number_or_null number decimal (c (codes "RadioInterfaced"))
  contact_column native c comp_nr = number_or_null number decimal (c (codes "NetworkedCompNr"))
  contact_column native c is_original =
      num (flag_or (c (codes "IsOriginal")) (flag_or (if_native native (c (codes "local"))) 1))
  contact_column native c netbios_name = column_text c (codes "NetBiosName")
  contact_column native c is_run_qso =
      num (to_bool (or_nullish (c (codes "IsRunQSO")) (if_native native (c (codes "runqso")))))
  contact_column native c station_name = text (
      or_else (or_blank (c (codes "StationName")))
        (or_blank (if_native native (c (codes "stationid")))))
  contact_column native c is_claimed_qso =
      num (flag_or (c (codes "IsClaimedQso")) (1 - flag_or (if_native native (c (codes "xqso"))) 0))
  contact_column native c sent_exchange = column_text c (codes "SentExchange")
  contact_column native c n1mm_timestamp = column_text c (codes "timestamp")

  unfoldable pub parse_contact : Fields → Qso
  unfolding contact_column is_dxlog_native backfill_time
  parse_contact c = record {
    fields = λ col. some (contact_column (is_dxlog_native c) c col);
    logged_at = backfill_time c;
  }

-- the keys of parseContactDelete's object
unfoldable pub delete_column : Fields → Column → Option Value
unfolding column_text or_null or_blank
delete_column c ext_id = some (or_null (or_blank (c (codes "ID"))))
delete_column c call = some (column_text c (codes "call"))
delete_column c band = some (column_text c (codes "band"))
delete_column c mycall = some (column_text c (codes "mycall"))
delete_column c contestnr = some (column_text c (codes "contestnr"))
delete_column c station_name = some (column_text c (codes "StationName"))
delete_column c n1mm_timestamp = some (column_text c (codes "timestamp"))
delete_column c _ = none

unfoldable pub parse_contact_delete : Fields → Qso
unfolding delete_column
parse_contact_delete c = record { fields = delete_column c; logged_at = none }
