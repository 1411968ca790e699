-- ===== src/Analyze/Contests.antt =====
-- SPECS, normalizeContest and specForContest of src/analyze/contests.js. The regular expression of a
-- spec is the list of its alternatives.
use contestscore.Lookup.Suffix.{split_at}
use contestscore.Prelude.{
  ℕ, ◌-◌, Bool, false, ◌&&◌, ◌||◌, List, [], ◌∷◌, ◌++◌, Option, none, some, ◌==◌, length, drop,
  if◌then◌else◌,
}
use contestscore.Prelude.Text.{
  Text, codes, text_eq, is_empty, is_space, is_digit, is_upper, every, to_upper_case, trim,
  starts_with, contains,
}

-- one class of /[\s_]/
unfoldable pub is_gap : ℕ → Bool
unfolding is_space
is_gap c = is_space c || c == b'_'

-- replace(/[\s_]+/g, '-'); `inside` says that the character before was of the run
unfoldable pub dash_runs : Bool → Text → Text
unfolding is_gap
dash_runs inside [] = []
dash_runs inside (c ∷ s) =
    let rest = dash_runs (is_gap c) s in
    if is_gap c then (if inside then rest else b'-' ∷ rest) else c ∷ rest

unfoldable pub normalize_contest : Text → Text
unfolding dash_runs trim to_upper_case
normalize_contest header = dash_runs false (trim (to_upper_case header))

-- A field of an exchange; the last three are decided by the token.
pub data Field : Type 0 where
  rst serial zone section state loc hq grid name check prec class age memnum power : Field
  hqzone stnum spcnum : Field

-- An alternative of a regular expression: /^t/, /t/, /^t(-|$)/, /^t$/, and the names of state QSO
-- parties, /(^|-)(\dQP|[A-Z]{2,3}QP)($|-)/.
pub data Alternative : Type 0 where
  starts holds stands exactly : Text → Alternative
  party : Alternative

-- What a spec says of the exchange: the fields sent and received; those for a station in the
-- contest's home country and for one outside of it; or no fixed grammar.
pub data Layout : Type 0 where
  fixed : List Field → List Field → Layout
  by_home : List Field × List Field → List Field × List Field → Layout
  flexible : Layout

pub record ContestSpec : Type 0 where
  pub key : Text
  pub match_any : List Alternative
  pub layout : Layout

-- \dQP or [A-Z]{2,3}QP
unfoldable pub is_party_name : Text → Bool
unfolding text_eq is_digit is_upper every
is_party_name [] = false
is_party_name (c ∷ s) =
    (is_digit c && text_eq s (codes "QP"))
    || (every is_upper (c ∷ s)
        && (length s == 3 || length s == 4)
        && text_eq (drop (length s - 2) s) (codes "QP"))

unfoldable pub any_party : List Text → Bool
unfolding is_party_name
any_party [] = false
any_party (p ∷ ps) = is_party_name p || any_party ps

unfoldable pub alternative_fits : Alternative → Text → Bool
unfolding starts_with contains text_eq any_party split_at
alternative_fits (starts t) s = starts_with t s
alternative_fits (holds t) s = contains t s
alternative_fits (stands t) s = text_eq t s || starts_with (t ++ b'-' ∷ []) s
alternative_fits (exactly t) s = text_eq t s
alternative_fits party s = any_party (split_at b'-' s)

unfoldable pub fits : List Alternative → Text → Bool
unfolding alternative_fits
fits [] s = false
fits (a ∷ as_left) s = alternative_fits a s || fits as_left s

-- an exchange that is sent and received in the same form
abbrev both : Text → List Alternative → List Field → ContestSpec
both key match_any fields = record {
  key = key;
  match_any = match_any;
  layout = fixed fields fields;
}

-- /^a-?b/
abbrev starts_dashed : Text → Text → List Alternative
starts_dashed a b = starts (a ++ b) ∷ starts (a ++ b'-' ∷ b) ∷ []

-- SPECS
abbrev pub specs : List ContestSpec
specs =
    both (codes "CQ-WW") (starts_dashed (codes "CQ") (codes "WW")) (rst ∷ zone ∷ [])
    ∷ both (codes "CQ-WPX") (starts_dashed (codes "CQ") (codes "WPX")) (rst ∷ serial ∷ [])
    ∷ both (codes "CQ-160") (starts_dashed (codes "CQ") (codes "160")) (rst ∷ loc ∷ [])
    ∷ both (codes "WAE") (starts (codes "WAE") ∷ starts (codes "WORKED-ALL-EUROPE") ∷ [])
        (rst ∷ serial ∷ [])
    ∷ both (codes "IARU-HF") (starts (codes "IARU") ∷ []) (rst ∷ hqzone ∷ [])
    ∷ both (codes "STEW-PERRY")
        (starts_dashed (codes "STEW") (codes "PERRY") ++ holds (codes "TOPBAND-DISTANCE") ∷ [])
        (grid ∷ [])
    ∷ both (codes "ARRL-SS") (starts (codes "ARRL-SS") ∷ holds (codes "SWEEPSTAKES") ∷ [])
        (serial ∷ prec ∷ check ∷ section ∷ [])
    ∷ both (codes "ARRL-FD")
        (starts (codes "ARRL-FIELD-DAY")
          ∷ starts (codes "ARRL-FD")
          ∷ starts (codes "FIELD-DAY")
          ∷ [])
        (class ∷ section ∷ [])
    ∷ record {
      key = codes "ARRL-DX";
      match_any = starts (codes "ARRL-DX") ∷ [];
      layout = by_home (rst ∷ state ∷ [], rst ∷ power ∷ []) (rst ∷ power ∷ [], rst ∷ state ∷ []);
    }
    ∷ both (codes "ARRL-160") (starts (codes "ARRL-160") ∷ []) (rst ∷ section ∷ [])
    ∷ both (codes "ARRL-10") (starts (codes "ARRL-10") ∷ []) (rst ∷ stnum ∷ [])
    ∷ both (codes "ARRL-RTTY") (starts (codes "ARRL-RTTY") ∷ holds (codes "RTTY-ROUNDUP") ∷ [])
        (rst ∷ stnum ∷ [])
    ∷ both (codes "RAC")
        (stands (codes "RAC") ∷ holds (codes "CANADA-DAY") ∷ holds (codes "CANADA-WINTER") ∷ [])
        (rst ∷ stnum ∷ [])
    ∷ both (codes "ALL-ASIAN")
        (starts_dashed (codes "ALL") (codes "ASIAN") ++ starts_dashed (codes "AA") (codes "DX"))
        (rst ∷ age ∷ [])
    ∷ both (codes "OCEANIA") (starts (codes "OCEANIA") ∷ starts_dashed (codes "OC") (codes "DX"))
        (rst ∷ serial ∷ [])
    ∷ both (codes "SAC") (stands (codes "SAC") ∷ holds (codes "SCANDINAVIAN") ∷ [])
        (rst ∷ serial ∷ [])
    ∷ both (codes "JIDX") (starts (codes "JIDX") ∷ []) (rst ∷ zone ∷ [])
    ∷ both (codes "RDXC")
        (starts (codes "RDXC") ∷ starts (codes "RUSSIAN-DX") ∷ starts (codes "RUS-DX") ∷ [])
        (rst ∷ stnum ∷ [])
    ∷ both (codes "EU-HF") (starts_dashed (codes "EU") (codes "HF")) (rst ∷ age ∷ [])
    ∷ both (codes "ARI") (stands (codes "ARI") ∷ []) (rst ∷ stnum ∷ [])
    ∷ both (codes "NAQP") (starts (codes "NAQP") ∷ []) (name ∷ loc ∷ [])
    ∷ both (codes "NA-SPRINT")
        (starts_dashed (codes "NA") (codes "SPRINT")
          ++ starts_dashed (codes "NCCC") (codes "SPRINT"))
        (serial ∷ name ∷ loc ∷ [])
    ∷ both (codes "CWT")
        (exactly (codes "CWT")
          ∷ exactly (codes "CWOPS")
          ∷ exactly (codes "CWOPSCWT")
          ∷ exactly (codes "CWOPS-CWT")
          ∷ [])
        (name ∷ spcnum ∷ [])
    ∷ both (codes "SST")
        (exactly (codes "SST") ∷ exactly (codes "K1USNSST") ∷ exactly (codes "K1USN-SST") ∷ [])
        (name ∷ loc ∷ [])
    ∷ both (codes "MST")
        (exactly (codes "MST") ∷ exactly (codes "ICWCMST") ∷ exactly (codes "ICWC-MST") ∷ [])
        (name ∷ loc ∷ [])
    ∷ both (codes "MWC") (starts (codes "OK1WC") ∷ starts (codes "MWC") ∷ []) (name ∷ serial ∷ [])
    ∷ record {
      key = codes "QSO-PARTY";
      match_any = holds (codes "QSOPARTY") ∷ holds (codes "QSO-PARTY") ∷ party ∷ [];
      layout = flexible;
    }
    ∷ []

-- SPECS.find
unfoldable pub find_spec : List ContestSpec → Text → Option ContestSpec
unfolding fits
find_spec [] s = none
find_spec (sp ∷ rest) s =
    let found = find_spec rest s in if fits sp.match_any s then some sp else found

unfoldable pub spec_for_contest : Text → Option ContestSpec
unfolding normalize_contest find_spec
spec_for_contest header =
    let norm = normalize_contest header in if is_empty norm then none else find_spec specs norm
