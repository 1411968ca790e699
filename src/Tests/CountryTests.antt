-- ===== src/Tests/CountryTests.antt =====
-- Runs of src/analyze/cty.js and geo.js.
use contestscore.JsMap.{get}
use contestscore.Lookup.Suffix.{extend, split_at, segments}
use contestscore.Country.Resolver.{
  Country, Alias, with_prefix, version_of, with_overrides, add_token, add_alias, add_aliases,
  add_entity, build_cty, empty_cty, is_plain, is_candidate, shortest, pick_location,
  token_of_segments, location_token, resolve_upper,
}
use contestscore.Country.Longest.{IsLongest, resolve_upper-IsLongest}
use contestscore.Store.Columns.{Column, call, continent, zone, Value, text, Qso}
use contestscore.Prelude.{◌≡◌, refl, List, [], ◌∷◌, Option, none, some, length}
use contestscore.Prelude.Text.{
  Text, codes, text_eq, text_key, starts_with, every, is_digit, all_digits,
}

abbrev usa : Country
usa = record {
  entity = some 291;
  name = codes "United States";
  prefix = codes "K";
  continent = codes "NA";
  cqzone = codes "5";
}

abbrev alias_aa0 : Alias
alias_aa0 = record { clean = codes "AA0"; cq_override = codes "4"; cont_override = [] }

abbrev cty_lines : List (Country × List Alias)
cty_lines = (usa, alias_aa0 ∷ []) ∷ []

abbrev usa_zone_4 : Country
usa_zone_4 = record usa { cqzone = codes "4" }

resolved_portable : location_token (codes "AA0XY/P") ≡ codes "AA0XY"
unfolding location_token segments split_at extend token_of_segments pick_location shortest
    is_candidate is_plain all_digits every is_digit text_eq
resolved_portable = refl

no_exact : (worked : Text) → get worked (build_cty cty_lines empty_cty).exact ≡ none
unfolding build_cty add_entity add_aliases add_alias version_of add_token with_prefix with_overrides
    starts_with get
no_exact worked = refl

resolve_upper-IsLongest_example :
    IsLongest
      (build_cty cty_lines empty_cty).prefixes
      (location_token (codes "AA0XY/P"))
      (length (location_token (codes "AA0XY/P")))
      (resolve_upper (build_cty cty_lines empty_cty) (codes "AA0XY/P"))
resolve_upper-IsLongest_example =
    resolve_upper-IsLongest cty_lines (codes "AA0XY/P") (no_exact (codes "AA0XY/P"))
      (no_exact (location_token (codes "AA0XY/P")))

abbrev logged_fields : Column → Option Value
logged_fields call = some (text (codes "AA0XY"))
logged_fields continent = some (text (codes "EU"))
logged_fields zone = some (text (codes "0"))
logged_fields _ = none

abbrev logged : Qso
logged = record { fields = logged_fields; logged_at = none }

abbrev to_usa : Text → Option Country
to_usa worked = some usa_zone_4
