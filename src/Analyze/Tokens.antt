-- ===== src/Analyze/Tokens.antt =====
-- The helpers of src/analyze/cabrillo.js on single tokens.
use contestscore.Lookup.Suffix.{split_at}
use contestscore.Prelude.{
  ℕ, ◌-◌, ◌/◌, ◌%◌, Bool, true, false, not, ◌&&◌, ◌||◌, List, [], ◌∷◌, ◌++◌, Option, none, some,
  leb, ◌==◌, length, get_elem?, take, drop, keep, if◌then◌else◌,
}
use contestscore.Prelude.Text.{
  Text, codes, text_eq, is_empty, is_digit, is_upper, every, or_else, to_upper_case,
}

-- MODE_MAP
abbrev mode_map : List (Text × Text)
mode_map =
    (codes "CW", codes "CW")
    ∷ (codes "PH", codes "SSB")
    ∷ (codes "SSB", codes "SSB")
    ∷ (codes "USB", codes "SSB")
    ∷ (codes "LSB", codes "SSB")
    ∷ (codes "FM", codes "FM")
    ∷ (codes "AM", codes "AM")
    ∷ (codes "RY", codes "RTTY")
    ∷ (codes "RTTY", codes "RTTY")
    ∷ (codes "DG", codes "DIGITAL")
    ∷ (codes "DIGITAL", codes "DIGITAL")
    ∷ (codes "PSK", codes "PSK")
    ∷ (codes "FT8", codes "FT8")
    ∷ (codes "FT4", codes "FT4")
    ∷ (codes "MFSK", codes "MFSK")
    ∷ []

unfoldable pub look_up : Text → List (Text × Text) → Text → Text
unfolding text_eq
look_up k [] other = other
look_up k ((name, value) ∷ rest) other = if text_eq name k then value else look_up k rest other

-- MODE_MAP[u] || u
unfoldable pub norm_mode : Text → Text
unfolding look_up to_upper_case
norm_mode raw = let u = to_upper_case raw in look_up u mode_map u

-- padStart(2, '0')
unfoldable pub pad2 : Text → Text
pad2 [] = codes "00"
pad2 (c ∷ []) = b'0' ∷ c ∷ []
pad2 (c ∷ d ∷ s) = c ∷ d ∷ s

-- replace(/[^\d]/g, '')
unfoldable pub digits_of : Text → Text
unfolding is_digit
digits_of s = keep is_digit s

unfoldable pub to_timestamp : Text → Text → Text
unfolding digits_of pad2
to_timestamp date time =
    let d = digits_of date in
    let t = digits_of time in
    if length d == 8
    then take 4 d
      ++ b'-' ∷ take 2 (drop 4 d)
      ++ b'-' ∷ take 2 (drop 6 d)
      ++ b' ' ∷ pad2 (or_else (take 2 t) (codes "00"))
      ++ b':' ∷ pad2 (or_else (take 2 (drop 2 t)) (codes "00"))
      ++ b':' ∷ pad2 (or_else (take 2 (drop 4 t)) (codes "00"))
    else []

unfoldable pub is_alnum : ℕ → Bool
unfolding is_digit is_upper
is_alnum c = is_upper c || is_digit c

-- the last character is a letter
unfoldable pub ends_in_letter : Text → Bool
unfolding is_upper
ends_in_letter [] = false
ends_in_letter (c ∷ []) = is_upper c
ends_in_letter (c ∷ d ∷ s) = ends_in_letter (d ∷ s)

unfoldable pub any_digit_in : Text → Bool
unfolding is_digit
any_digit_in [] = false
any_digit_in (c ∷ s) = is_digit c || any_digit_in s

-- [A-Z0-9]{0,3}\d[A-Z0-9]*[A-Z]: a digit among the first four, and a letter at the end
unfoldable pub is_base_call : Text → Bool
unfolding is_alnum ends_in_letter any_digit_in every
is_base_call s = every is_alnum s && any_digit_in (take 4 s) && ends_in_letter s

unfoldable pub all_parts : List Text → Bool
unfolding is_alnum every
all_parts [] = true
all_parts (p ∷ ps) = not (is_empty p) && every is_alnum p && all_parts ps

unfoldable pub is_call_of_parts : List Text → Bool
unfolding is_base_call all_parts
is_call_of_parts [] = false
is_call_of_parts (p ∷ ps) = is_base_call p && all_parts ps

-- looksLikeCall: CALL_RE and the length
unfoldable pub looks_like_callsign : Text → Bool
unfolding is_call_of_parts split_at
looks_like_callsign tok =
    leb 3 (length tok) && leb (length tok) 12 && is_call_of_parts (split_at b'/' tok)

-- /^[01]$/
unfoldable pub is_transmitter_id : Text → Bool
unfolding text_eq
is_transmitter_id s = text_eq s (codes "0") || text_eq s (codes "1")

-- toks without a trailing transmitter id, if their number is even
unfoldable pub without_id : List Text → List Text
unfolding is_transmitter_id
without_id toks =
    if length toks % 2 == 0
    then elim (get_elem? toks (length toks - 1)) [
      | none ↦ toks
      | some last ↦ if is_transmitter_id last then take (length toks - 1) toks else toks
    ]
    else toks

unfoldable pub is_other_call : Text → Text → Bool
unfolding looks_like_callsign text_eq
is_other_call my_call tok = looks_like_callsign tok && not (text_eq tok my_call)

-- the fallback: the middle one of the call-shaped tokens
unfoldable pub only_call : List Text → Text
only_call calls = elim (get_elem? calls (length calls / 2)) [ none ↦ [] | some c ↦ c ]

unfoldable pub middle : List Text → Option Text
middle toks = if length toks % 2 == 1 then get_elem? toks ((length toks - 1) / 2) else none

unfoldable pub pick_worked_call : List Text → Text → Text
unfolding without_id middle is_other_call only_call
pick_worked_call rest my_call =
    let toks = without_id rest in
    let fallback = only_call (keep (is_other_call my_call) toks) in
    elim (middle toks) [
      | none ↦ fallback
      | some cand ↦ if is_other_call my_call cand then cand else fallback
    ]
