-- ===== src/Analyze/Adif/Values.antt =====
-- truthy, normMode and bandToCanonical of src/analyze/adif.js. A frequency in MHz is a number of Hz.
use contestscore.Analyze.Bands.{canonical_band}
use contestscore.Analyze.Tokens.{look_up}
use contestscore.Packets.Fields.{or_blank}
use contestscore.Prelude.{
  ℕ, ◌*◌, Bool, ◌||◌, ◌&&◌, List, [], ◌∷◌, Option, none, some, ltb, if◌then◌else◌,
}
use contestscore.Prelude.Text.{Text, codes, text_eq, to_lower_case, to_upper_case, trim}

abbrev mhz : Text → ℕ → Text × ℕ
mhz name thousandths = (name, thousandths * 1000)

-- ADIF_BAND_MHZ
abbrev pub adif_band_mhz : List (Text × ℕ)
adif_band_mhz =
    (codes "2190m", 135700)
    ∷ mhz (codes "630m") 472
    ∷ mhz (codes "160m") 1800
    ∷ mhz (codes "80m") 3500
    ∷ mhz (codes "60m") 5300
    ∷ mhz (codes "40m") 7000
    ∷ mhz (codes "30m") 10100
    ∷ mhz (codes "20m") 14000
    ∷ mhz (codes "17m") 18100
    ∷ mhz (codes "15m") 21000
    ∷ mhz (codes "12m") 24900
    ∷ mhz (codes "10m") 28000
    ∷ mhz (codes "8m") 40000
    ∷ mhz (codes "6m") 50000
    ∷ mhz (codes "5m") 60000
    ∷ mhz (codes "4m") 70000
    ∷ mhz (codes "2m") 144000
    ∷ mhz (codes "1.25m") 222000
    ∷ mhz (codes "70cm") 432000
    ∷ mhz (codes "33cm") 902000
    ∷ mhz (codes "23cm") 1240000
    ∷ mhz (codes "13cm") 2300000
    ∷ mhz (codes "9cm") 3300000
    ∷ mhz (codes "6cm") 5650000
    ∷ mhz (codes "3cm") 10000000
    ∷ []

unfoldable pub band_hz : Text → List (Text × ℕ) → Option ℕ
unfolding text_eq
band_hz k [] = none
band_hz k ((name, hz) ∷ rest) = if text_eq name k then some hz else band_hz k rest

-- MODE_MAP
abbrev pub adif_mode_map : List (Text × Text)
adif_mode_map =
    (codes "SSB", codes "SSB")
    ∷ (codes "USB", codes "SSB")
    ∷ (codes "LSB", codes "SSB")
    ∷ (codes "CW", codes "CW")
    ∷ (codes "FM", codes "FM")
    ∷ (codes "AM", codes "AM")
    ∷ (codes "RTTY", codes "RTTY")
    ∷ (codes "PSK", codes "PSK")
    ∷ (codes "PSK31", codes "PSK")
    ∷ (codes "PSK63", codes "PSK")
    ∷ (codes "FT8", codes "FT8")
    ∷ (codes "FT4", codes "FT4")
    ∷ (codes "MFSK", codes "MFSK")
    ∷ (codes "JT65", codes "JT65")
    ∷ (codes "JT9", codes "JT9")
    ∷ (codes "DIGITALVOICE", codes "DIGITAL")
    ∷ (codes "DIGI", codes "DIGITAL")
    ∷ []

-- truthy
unfoldable pub is_yes : Text → Bool
unfolding text_eq trim to_lower_case
is_yes v =
    let s = to_lower_case (trim v) in
    text_eq s (codes "1")
    || text_eq s (codes "y")
    || text_eq s (codes "yes")
    || text_eq s (codes "true")
    || text_eq s (codes "t")

-- normMode
unfoldable pub adif_mode : Option Text → Option Text → Text
unfolding text_eq to_upper_case or_blank look_up
adif_mode mode submode =
    let m = to_upper_case (or_blank mode) in
    if text_eq m (codes "MFSK") && text_eq (to_upper_case (or_blank submode)) (codes "FT4")
    then codes "FT4"
    else look_up m adif_mode_map m

-- `parse_mhz` is parseFloat, in Hz, with `none` for NaN; `show_mhz` is String() of a frequency.
module _ (parse_mhz : Text → Option ℕ) (show_mhz : ℕ → Text) where
  unfoldable pub band_by_name : Text → Text
  unfolding band_hz to_lower_case canonical_band
  band_by_name band = elim (band_hz (to_lower_case band) adif_band_mhz) [
    | none ↦ band
    | some hz ↦ canonical_band parse_mhz show_mhz hz
  ]

  unfoldable pub band_to_canonical : Option Text → Option Text → Text
  unfolding band_by_name or_blank canonical_band
  band_to_canonical band freq = elim (parse_mhz (or_blank freq)) [
    | none ↦ band_by_name (or_blank band)
    | some f ↦ if ltb 0 f then canonical_band parse_mhz show_mhz f else band_by_name (or_blank band)
  ]
