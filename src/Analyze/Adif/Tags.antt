-- ===== src/Analyze/Adif/Tags.antt =====
-- splitRecords and parseFields of src/analyze/adif.js.
use contestscore.Analyze.Cabrillo.{digits_value}
use contestscore.Packets.Fields.{Fields}
use contestscore.Prelude.{
  ℕ, zero, suc, ◌-◌, Bool, true, false, not, ◌||◌, List, [], ◌∷◌, Option, none, some, ◌==◌, length,
  take, drop, if◌then◌else◌,
}
use contestscore.Prelude.Text.{
  Text, codes, text_eq, is_digit, is_upper, is_lower, starts_with, to_lower_case,
}

-- [A-Za-z0-9_]
unfoldable pub is_name_code : ℕ → Bool
unfolding is_upper is_lower is_digit
is_name_code c = is_upper c || is_lower c || is_digit c || c == b'_'

-- one more character in front of a run
unfoldable pub extend_run : Bool → ℕ → Text → Text × Text → Text × Text
extend_run true c s (run, rest) = (c ∷ run, rest)
extend_run false c s r = ([], c ∷ s)

-- the longest run of characters that pass, and what follows
unfoldable pub span : (ℕ → Bool) → Text → Text × Text
unfolding extend_run
span p [] = ([], [])
span p (c ∷ s) = extend_run (p c) c s (span p s)

unfoldable pub is_not_close : ℕ → Bool
is_not_close c = not (c == b'>')

-- (?::[^>]*)?>, and what follows
unfoldable pub tag_end : Text → Option Text
unfolding span is_not_close
tag_end [] = none
tag_end (c ∷ s) =
    if c == b'>'
    then some s
    else if c == b':'
    then elim (span is_not_close s).1 [ [] ↦ none | x ∷ rest ↦ some rest ]
    else none

-- A match of the expression for a tag: m[1], parseInt(m[2], 10), and what follows.
pub record Tag : Type 0 where
  pub name : Text
  pub len : ℕ
  pub rest : Text

unfoldable pub tag_of_length : Text → Text × Text → Option Tag
unfolding tag_end digits_value
tag_of_length name ([], s) = none
tag_of_length name (d ∷ digits, s) = elim (tag_end s) [
  | none ↦ none
  | some rest ↦ some (record { name = name; len = digits_value 0 (d ∷ digits); rest = rest })
]

unfoldable pub tag_of_name : Text × Text → Option Tag
unfolding span is_digit tag_of_length
tag_of_name (n ∷ name, c ∷ s) =
    if c == b':' then tag_of_length (n ∷ name) (span is_digit s) else none
tag_of_name _ = none

-- a tag at the start of a text
unfoldable pub tag_at : Text → Option Tag
unfolding span is_name_code tag_of_name
tag_at [] = none
tag_at (c ∷ s) = if c == b'<' then tag_of_name (span is_name_code s) else none

-- The loop over the matches: each goes on behind the tag before it. `skip` characters still belong
-- to that tag.
unfoldable pub scan : ℕ → Text → List (Text × Text)
unfolding to_lower_case
scan skip [] = []
scan (suc skip) (c ∷ s) = scan skip s
scan zero (c ∷ s) = elim (tag_at (c ∷ s)) [
  | none ↦ scan zero s
  | some t ↦ (to_lower_case t.name, take t.len t.rest) ∷ scan (length s - length t.rest) s
]

-- out[name] = value, in the order of the matches: the last one counts
unfoldable pub last_value : Text → List (Text × Text) → Option Text
unfolding text_eq
last_value k [] = none
last_value k ((name, value) ∷ m) = elim (last_value k m) [
  | some v ↦ some v
  | none ↦ if text_eq name k then some value else none
]

unfoldable pub parse_fields : Text → Fields
unfolding scan last_value
parse_fields record_text k = last_value k (scan zero record_text)

-- text in lower case starts with p
unfoldable pub starts_like : Text → Text → Bool
unfolding starts_with to_lower_case
starts_like p s = starts_with p (to_lower_case s)

-- s.slice(s.search(/<eoh>/i) + 5), `none` for -1
unfoldable pub after_header : Text → Option Text
unfolding starts_like
after_header [] = none
after_header (c ∷ s) =
    let rest = after_header s in
    if starts_like (codes "<eoh>") (c ∷ s) then some (drop 4 s) else rest

unfoldable pub extend_record : ℕ → List Text → List Text
extend_record c [] = (c ∷ []) ∷ []
extend_record c (r ∷ rs) = (c ∷ r) ∷ rs

-- split(/<eor>/i)
unfoldable pub split_eor : ℕ → Text → List Text
unfolding starts_like extend_record
split_eor skip [] = [] ∷ []
split_eor (suc skip) (c ∷ s) = split_eor skip s
split_eor zero (c ∷ s) = elim (starts_like (codes "<eor>") (c ∷ s)) [
  | true ↦ [] ∷ split_eor 4 s
  | false ↦ extend_record c (split_eor zero s)
]

unfoldable pub split_records : Text → List Text
unfolding after_header split_eor
split_records s = elim (after_header s) [ none ↦ split_eor 0 s | some body ↦ split_eor 0 body ]
