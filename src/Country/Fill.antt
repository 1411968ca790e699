-- ===== src/Country/Fill.antt =====
-- enrichGeo of src/analyze/geo.js on a parsed QSO. `resolver` is the loaded country file's, which
-- answers every call with `none` if the file is missing.
use contestscore.Country.Resolver.{Country}
use contestscore.Store.Columns.{
  Column, call, continent, zone, countryprefix, Value, text, truthy, Qso,
}
use contestscore.Store.Qsos.{field}
use contestscore.Prelude.{Bool, false, not, ◌&&◌, ◌||◌, [], Option, none, some, if◌then◌else◌}
use contestscore.Prelude.Text.{Text, codes, text_eq, is_empty}

-- the fields to override
pub record Override : Type 0 where
  pub continent : Bool
  pub countryprefix : Bool
  pub zone : Bool

-- qso.zone === '0'
unfoldable pub is_zero_text : Value → Bool
unfolding text_eq
is_zero_text (text s) = text_eq s (codes "0")
is_zero_text _ = false

-- hit.x || qso.x || ''
unfoldable pub pick_value : Text → Value → Value
unfolding truthy
pick_value hit old = if not (is_empty hit) then text hit else if truthy old then old else text []

unfoldable pub blank_zone : Value → Bool
unfolding truthy is_zero_text
blank_zone v = not (truthy v) || is_zero_text v

-- A column of the filled QSO; a key that the packet lacks stays away unless it is filled.
unfoldable pub fill_column : Override → Country → Qso → Column → Option Value
unfolding field truthy blank_zone pick_value
fill_column ov hit qso continent =
    if not (truthy (field qso continent)) || ov.continent
    then some (pick_value hit.continent (field qso continent))
    else qso.fields continent
fill_column ov hit qso zone =
    if blank_zone (field qso zone) || ov.zone
    then some (pick_value hit.cqzone (field qso zone))
    else qso.fields zone
fill_column ov hit qso countryprefix =
    if not (truthy (field qso countryprefix)) || ov.countryprefix
    then some (pick_value hit.prefix (field qso countryprefix))
    else qso.fields countryprefix
fill_column ov hit qso c = qso.fields c

unfoldable pub any_missing : Qso → Bool
unfolding field truthy blank_zone
any_missing qso =
    not (truthy (field qso continent))
    || not (truthy (field qso countryprefix))
    || blank_zone (field qso zone)

-- resolver(call) on a value: String(call)
unfoldable pub resolve_value : (Text → Option Country) → Value → Option Country
resolve_value resolver (text s) = resolver s
resolve_value resolver _ = none

unfoldable pub enrich_geo : (Text → Option Country) → Override → Qso → Qso
unfolding field truthy any_missing fill_column resolve_value
enrich_geo resolver ov qso =
    if not (truthy (field qso call))
    then qso
    else if not (any_missing qso) && not (ov.continent || ov.countryprefix || ov.zone)
    then qso
    else elim (resolve_value resolver (field qso call)) [
      | none ↦ qso
      | some hit ↦ record qso { fields = fill_column ov hit qso }
    ]
