-- ===== src/Tests/AnalyzerTests.antt =====
-- Runs of the exchange grammars, the ADIF reader and the analyzer of src/analyze.
use contestscore.Analyze.Adif.Operators.{IsSound, parse_adif-IsSound}
use contestscore.Analyze.Adif.Records.{parse_adif}
use contestscore.Analyze.Adif.RoundTrip
use contestscore.Analyze.Adif.RoundTrip.{print, written, has_no_tag, no_name, scan-print}
use contestscore.Analyze.Adif.Tags.{scan, is_name_code, is_not_close}
use contestscore.Analyze.Analysis.{Analysis, key_of}
use contestscore.Analyze.Cabrillo.{digits_value}
use contestscore.Analyze.Contests.{
  Field, spec_for_contest, normalize_contest, find_spec, fits, alternative_fits, any_party,
  is_party_name, dash_runs, is_gap,
}
use contestscore.Analyze.Grammar.{Target, Entry, apply_fields, map_fields, target_of}
use contestscore.Analyze.Grammar.Laws.{with_tokens, with_call, apply_fields-exact, map_fields-fills}
use contestscore.Analyze.Live.{top_value}
use contestscore.Analyze.Live.TopValue.{occurrences, top_value-most}
use contestscore.Analyze.Tokens.{is_transmitter_id}
use contestscore.Country.Resolver.{Country}
use contestscore.Lookup.Suffix.{split_at, extend}
use contestscore.Prelude.{
  ℕ, ◌≤◌, ◌≡◌, refl, true, false, List, [], ◌∷◌, ◌++◌, Option, none, some, arith,
}
use contestscore.Prelude.Text.{
  Text, codes, text_eq, is_empty, is_digit, is_upper, is_lower, is_space, every, all_digits,
  to_upper_case, upper_code, starts_with, contains, trim, trim_start,
}

abbrev sweepstakes : List Field
sweepstakes = Field.serial ∷ Field.prec ∷ Field.check ∷ Field.section ∷ []

abbrev sent_tokens : List Text
sent_tokens = codes "1" ∷ codes "A" ∷ codes "99" ∷ codes "CT" ∷ []

abbrev received_tokens : List Text
received_tokens = codes "27" ∷ codes "B" ∷ codes "77" ∷ codes "sv" ∷ []

abbrev entry : Entry
entry = record { call = []; exch_tokens = []; column = λ c. [] }

apply_fields-exact_example :
    (apply_fields sweepstakes sweepstakes
        (with_tokens (sent_tokens ++ codes "W6SX" ∷ received_tokens) entry)
      ≡ (
        true,
        map_fields sweepstakes received_tokens (
            with_call
              (codes "W6SX")
              (with_tokens (sent_tokens ++ codes "W6SX" ∷ received_tokens) entry)),
      ))
    × (apply_fields sweepstakes sweepstakes
          (with_tokens ((sent_tokens ++ codes "W6SX" ∷ received_tokens) ++ codes "0" ∷ []) entry)
        ≡ (
          true,
          map_fields sweepstakes received_tokens (
              with_call (codes "W6SX") (
                with_tokens
                  ((sent_tokens ++ codes "W6SX" ∷ received_tokens) ++ codes "0" ∷ [])
                  entry)),
        ))
unfolding is_transmitter_id text_eq
apply_fields-exact_example =
    apply_fields-exact sweepstakes sweepstakes sent_tokens received_tokens (codes "W6SX")
      (codes "0") entry refl refl refl

map_fields-fills_example :
    (map_fields
        ((Field.rst ∷ []) ++ Field.stnum ∷ [])
        ((codes "599" ∷ []) ++ codes "ct" ∷ [])
        entry).column
      Target.section
    ≡ codes "CT"
unfolding target_of all_digits every is_digit to_upper_case upper_code is_lower
map_fields-fills_example =
    map_fields-fills Target.section (Field.rst ∷ []) [] Field.stnum (codes "599" ∷ []) []
      (codes "ct") entry refl refl refl tt

field_day : key_of (spec_for_contest (codes "arrl  field_day")) ≡ some (codes "ARRL-FD")
unfolding key_of spec_for_contest normalize_contest dash_runs is_gap is_space trim trim_start
    to_upper_case upper_code is_lower find_spec fits alternative_fits starts_with contains text_eq
    any_party is_party_name is_digit is_upper every split_at extend
field_day = refl

abbrev fields : List RoundTrip.Field
fields =
    record {
      name = codes "CALL";
      digits = codes "04";
      kind = some (codes "S");
      value = codes "W1AW";
      filler = codes " < ";
    }
    ∷ record {
      name = codes "Freq";
      digits = codes "5";
      kind = none;
      value = codes "14.04";
      filler = [];
    }
    ∷ []

scan-print_example : scan 0 (print fields) ≡ written fields
unfolding is_name_code is_upper is_lower is_digit every has_no_tag no_name is_not_close digits_value
scan-print_example = scan-print fields (
  record {
    named = refl;
    name_codes = refl;
    counted = refl;
    digit_codes = refl;
    len = refl;
    kind_codes = refl;
    plain = refl;
  },
  (
    record {
      named = refl;
      name_codes = refl;
      counted = refl;
      digit_codes = refl;
      len = refl;
      kind_codes = refl;
      plain = refl;
    },
    tt,
  ),
)

abbrev no_number : Text → Option ℕ
no_number s = none

abbrev one_code : ℕ → Text
one_code n = n ∷ []

abbrev no_country : Text → Option Country
no_country call = none

abbrev adif_text : Text
adif_text = codes "<eoh><CALL:4>W1AW <operator:5>K1ABC<eor>"

parse_adif-IsSound_example : IsSound (parse_adif no_number one_code no_number adif_text)
parse_adif-IsSound_example = parse_adif-IsSound no_number one_code no_number adif_text

abbrev log_text : Text
log_text = codes "X-QSO: 14042 CW 2025-06-07 1830 K1ABC 599 05 W1AW 599 05" ++ 10 ∷ codes " QSO: 7"

abbrev contests : List Text
contests = codes "ARRL-SS" ∷ [] ∷ codes "CQ-WW" ∷ codes "CQ-WW" ∷ []

top_value-most_example :
    (is_empty (top_value contests) ≡ false)
    × (occurrences (codes "ARRL-SS") contests ≤ occurrences (top_value contests) contests)
unfolding occurrences text_eq
top_value-most_example = top_value-most contests (codes "ARRL-SS") refl (omega arith)
