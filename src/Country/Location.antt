-- ===== src/Country/Location.antt =====
-- usCallAreaLatLon, resolveLatLon and resolveLatLonEnriched of src/analyze/geo.js: where a worked
-- station is shown on the map. Points are those of Country.Grid. `coordinates` gives the position of
-- the resolver's entity, `none` if the country file has none.
use contestscore.Country.Grid.{Point, grid_to_lat_lon}
use contestscore.Country.Resolver.{Country, location_token}
use contestscore.Prelude.{
  ℕ, ◌+◌, ◌-◌, ◌*◌, Bool, false, ◌&&◌, ◌||◌, [], ◌∷◌, Option, none, some, leb, ◌==◌, length,
  if◌then◌else◌,
}
use contestscore.Prelude.Text.{
  Text, codes, is_empty, is_digit, is_upper, every, or_else, to_upper_case, trim,
}

-- a point by half degrees north and west
abbrev halves : ℕ → ℕ → Point
halves north west = record { lat = (180 + north) * 24; lon = (360 - west) * 24 }

-- US_CALL_AREA_CENTERS
unfoldable pub us_call_area_center : ℕ → Point
us_call_area_center d =
    if d == b'0'
    then halves 83 192
    else if d == b'1'
    then halves 86 143
    else if d == b'2'
    then halves 85 151
    else if d == b'3'
    then halves 80 155
    else if d == b'4'
    then halves 66 167
    else if d == b'5'
    then halves 65 192
    else if d == b'6'
    then halves 74 240
    else if d == b'7'
    then halves 87 232
    else if d == b'8'
    then halves 80 165
    else halves 82 178

-- ([0-9])[A-Z]{1,3}$
unfoldable pub digit_and_suffix : Text → Option ℕ
unfolding is_digit is_upper every
digit_and_suffix [] = none
digit_and_suffix (d ∷ s) =
    if is_digit d && every is_upper s && leb 1 (length s) && leb (length s) 3 then some d else none

-- US_CALL_AREA_RE
unfoldable pub us_call_area : Text → Option ℕ
unfolding digit_and_suffix is_upper
us_call_area (a ∷ b ∷ s) =
    if a == b'A'
    then (if leb b'A' b && leb b b'L' then digit_and_suffix s else none)
    else if a == b'K' || a == b'N' || a == b'W'
    then (if is_upper b then digit_and_suffix s else digit_and_suffix (b ∷ s))
    else none
us_call_area _ = none

unfoldable pub us_call_area_lat_lon : Text → Option Point
unfolding us_call_area us_call_area_center location_token to_upper_case trim
us_call_area_lat_lon call = elim (us_call_area (location_token (trim (to_upper_case call)))) [
  | none ↦ none
  | some d ↦ some (us_call_area_center d)
]

-- What the map reads of a QSO, and of the cached record of its call.
pub record Plotted : Type 0 where
  pub call : Text
  pub gridsquare : Text

pub record Callbook : Type 0 where
  pub found : Bool
  pub grid : Text
  pub source : Text

pub data LocSource : Type 0 where
  exchange estimate : LocSource
  looked_up : Text → LocSource

-- hit.entity === 291
unfoldable pub is_mainland : Country → Bool
is_mainland hit = elim hit.entity [ none ↦ false | some n ↦ n == 291 ]

-- a ?? b on points
unfoldable pub or_point : Option Point → Option Point → Option Point
or_point none b = b
or_point (some p) b = some p

-- cached && cached.found, and the grid of it
unfoldable pub callbook_point : Option Callbook → Option (Point × Text)
unfolding grid_to_lat_lon
callbook_point none = none
callbook_point (some rec) =
    if rec.found
    then elim (grid_to_lat_lon rec.grid) [
      | none ↦ none
      | some p ↦ some (p, or_else rec.source (codes "lookup"))
    ]
    else none

module _ (resolver : Text → Option Country) (coordinates : Country → Option Point) where
  unfoldable pub country_point : Text → Option Point
  unfolding is_mainland us_call_area_lat_lon or_point
  country_point call = elim (resolver call) [
    | none ↦ none
    | some hit ↦
        if is_mainland hit
        then or_point (us_call_area_lat_lon call) (coordinates hit)
        else coordinates hit
  ]

  unfoldable pub resolve_lat_lon : Plotted → Option Point
  unfolding grid_to_lat_lon country_point or_point
  resolve_lat_lon q =
      or_point (grid_to_lat_lon q.gridsquare)
        (if is_empty q.call then none else country_point q.call)

  -- what is left when neither the exchange nor the callbook has a grid
  unfoldable pub estimated : Option Point → Option (Point × LocSource)
  estimated none = none
  estimated (some p) = some (p, estimate)

  unfoldable pub from_callbook : Option (Point × Text) → Plotted → Option (Point × LocSource)
  unfolding estimated resolve_lat_lon
  from_callbook none q = estimated (resolve_lat_lon q)
  from_callbook (some (p, source)) q = some (p, looked_up source)

  unfoldable pub resolve_lat_lon_enriched : Plotted → Option Callbook → Option (Point × LocSource)
  unfolding grid_to_lat_lon callbook_point from_callbook
  resolve_lat_lon_enriched q cached = elim (grid_to_lat_lon q.gridsquare) [
    | some p ↦ some (p, exchange)
    | none ↦ from_callbook (if is_empty q.call then none else callbook_point cached) q
  ]
