-- ===== src/Tests/StoreTests.antt =====
-- Runs of the qsos statements of src/db/queries.js.
use contestscore.Store.Columns.{
  Column, ext_id, call, Value, text, truthy, is_null, sql_eq, or_empty, Qso, qso_defaults,
  normalize_qso,
}
use contestscore.Store.Qsos.{
  Row, Table, empty, any, new_row, append, upsert_qso_by_ext_id, upsert_qso, field, delete_qso,
  clear_qsos, get_persisted_qso, matches_natural_key,
}
use contestscore.Store.Valid.{IsValid}
use contestscore.Store.Preserved.{statements-IsValid}
use contestscore.Store.Reads.{stamp, get_persisted-upsert}
use contestscore.Store.Writes.{get_persisted-upsert_ne}
use contestscore.Store.Deletes.{delete_qso_by_id, get_persisted-natural_key}
use contestscore.Prelude.{◌≡◌, ◌≢◌, refl, ap, true, false, [], ◌∷◌, Option, none, some}
use contestscore.Prelude.Text.{Text, codes, text_eq}

-- a packet with these keys only
abbrev packet_fields : Option Value → Text → Column → Option Value
packet_fields id worked ext_id = id
packet_fields id worked call = some (text worked)
packet_fields id worked _ = none

abbrev packet : Option Value → Text → Qso
packet id worked = record { fields = packet_fields id worked; logged_at = none }

abbrev id_1 : Value
id_1 = text (codes "1")

abbrev id_2 : Value
id_2 = text (codes "2")

abbrev tagged : Qso
tagged = packet (some id_1) (codes "K1ABC")

abbrev other_tagged : Qso
other_tagged = packet (some id_2) (codes "W1AW")

abbrev untagged : Qso
untagged = packet none (codes "K1ABC")

abbrev noon : Text
noon = codes "12:00"

abbrev one_row : Table
one_row = append (new_row noon tagged empty) empty

apart : id_1 ≢ id_2
unfolding sql_eq text_eq
apart h = let f : true ≡ false = ap (sql_eq id_1) h in cc

stored : upsert_qso noon tagged empty ≡ some one_row
unfolding upsert_qso upsert_qso_by_ext_id normalize_qso truthy is_null any
stored = refl

empty-IsValid : IsValid empty
empty-IsValid = record { unique = tt; increasing = tt; numbered = tt; called = tt }

statements-IsValid_example :
    ((t' : Table) → upsert_qso noon tagged empty ≡ some t' → IsValid t')
    × IsValid (delete_qso tagged empty)
    × IsValid (clear_qsos empty)
statements-IsValid_example = statements-IsValid noon tagged empty empty-IsValid

get_persisted-upsert_example :
    (r : Row) × (get_persisted_qso tagged one_row ≡ some r)
    × (r.cols ≡ normalize_qso tagged)
    × (r.logged_at ≡ stamp noon tagged (get_persisted_qso tagged empty))
unfolding truthy
get_persisted-upsert_example = get_persisted-upsert tagged id_1 refl refl noon empty one_row stored

get_persisted-upsert_ne_example :
    get_persisted_qso other_tagged one_row ≡ get_persisted_qso other_tagged empty
unfolding truthy
get_persisted-upsert_ne_example =
    get_persisted-upsert_ne tagged id_1 refl refl other_tagged id_2 refl refl apart noon empty
      one_row stored

delete_qso_by_id_example :
    (get_persisted_qso tagged (delete_qso tagged one_row) ≡ none)
    × (get_persisted_qso other_tagged (delete_qso tagged one_row)
        ≡ get_persisted_qso other_tagged one_row)
unfolding truthy
delete_qso_by_id_example =
    delete_qso_by_id tagged other_tagged id_1 id_2 one_row refl refl refl refl apart

abbrev tagged_row : Row
tagged_row = record {
  id = 1;
  cols = λ c. normalize_qso (packet (some id_1) (codes "K1ABC")) c;
  logged_at = noon;
}

get_persisted-natural_key_example :
    get_persisted_qso untagged (record { rows = tagged_row ∷ []; next_id = 2 }) ≡ some tagged_row
unfolding truthy field matches_natural_key normalize_qso qso_defaults sql_eq or_empty text_eq
get_persisted-natural_key_example =
    get_persisted-natural_key untagged [] tagged_row
      (record { rows = tagged_row ∷ []; next_id = 2 }) refl refl tt refl
