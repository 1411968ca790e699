-- ===== src/Analyze/Bands.antt =====
-- canonicalBand of src/analyze/bands.js and freqToBand of src/analyze/cabrillo.js. A frequency in MHz
-- is a number of Hz here.
use contestscore.Prelude.{ℕ, ◌*◌, ◌&&◌, List, [], ◌∷◌, Option, none, some, ltb, leb, if◌then◌else◌}
use contestscore.Prelude.Text.{Text, codes}

pub record Band : Type 0 where
  pub lo : ℕ
  pub hi : ℕ
  pub band : Text

abbrev khz : ℕ → ℕ → Text → Band
khz lo hi band = record { lo = lo * 1000; hi = hi * 1000; band = band }

-- BANDS
abbrev pub bands : List Band
bands =
    khz 100 200 (codes "0.136")
    ∷ khz 400 500 (codes "0.472")
    ∷ khz 1700 2100 (codes "1.8")
    ∷ khz 3400 4100 (codes "3.5")
    ∷ khz 5200 5500 (codes "5.3")
    ∷ khz 6900 7400 (codes "7")
    ∷ khz 10000 10200 (codes "10.1")
    ∷ khz 13900 14500 (codes "14")
    ∷ khz 18000 18200 (codes "18.1")
    ∷ khz 20900 21500 (codes "21")
    ∷ khz 24800 25100 (codes "24.9")
    ∷ khz 27900 29800 (codes "28")
    ∷ khz 49000 55000 (codes "50")
    ∷ khz 69000 75000 (codes "70")
    ∷ khz 143000 149000 (codes "144")
    ∷ khz 218000 226000 (codes "222")
    ∷ khz 419000 451000 (codes "432")
    ∷ khz 902000 928000 (codes "902")
    ∷ khz 1240000 1300000 (codes "1240")
    ∷ khz 2300000 2450000 (codes "2300")
    ∷ []

unfoldable pub find_band : List Band → ℕ → Option Band
find_band [] hz = none
find_band (b ∷ bs) hz = if leb b.lo hz && ltb hz b.hi then some b else find_band bs hz

-- `show_mhz` is String() of the frequency in MHz; `parse_float` is parseFloat, in thousandths.
module _ (parse_float : Text → Option ℕ) (show_mhz : ℕ → Text) where
  unfoldable pub canonical_band : ℕ → Text
  unfolding find_band
  canonical_band hz = elim (find_band bands hz) [ none ↦ show_mhz hz | some b ↦ b.band ]

  -- from 1800 on a number is in kHz, below in MHz
  unfoldable pub freq_to_band : Text → Text
  unfolding canonical_band
  freq_to_band raw = elim (parse_float raw) [
    | none ↦ raw
    | some n ↦ canonical_band (if leb 1800000 n then n else n * 1000)
  ]
