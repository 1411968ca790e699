-- ===== src/Packets/Fields.antt =====
-- What src/parsers reads of a packet. xml2js turns an element whose children hold plain text into an
-- object of strings, here a function; a missing child is `none`. The arrays and objects that it
-- makes of repeated children and of children with attributes are not modelled.
use contestscore.Store.Columns.{Value, null, text, num}
use contestscore.Prelude.{
  ℕ, ◌*◌, Bool, true, false, not, ◌&&◌, ◌||◌, List, [], ◌∷◌, ◌++◌, Option, none, some, ◌==◌,
  if◌then◌else◌,
}
use contestscore.Prelude.Text.{Text, codes, text_eq, is_empty, is_digit, to_lower_case, trim}

abbrev pub Fields : Type 0
Fields = Text → Option Text

-- c.x || ''
unfoldable pub or_blank : Option Text → Text
or_blank none = []
or_blank (some s) = s

-- a ?? b
unfoldable pub or_nullish : Option Text → Option Text → Option Text
or_nullish none b = b
or_nullish (some a) b = some a

-- c.x != null
unfoldable pub present : Option Text → Bool
present none = false
present (some s) = true

-- s || null
unfoldable pub or_null : Text → Value
or_null [] = null
or_null (c ∷ s) = text (c ∷ s)

-- String(val).trim() !== '' on what is not null
unfoldable pub has_text : Option Text → Bool
unfolding trim
has_text none = false
has_text (some s) = not (is_empty (trim s))

unfoldable pub bit : Bool → ℕ
bit true = 1
bit false = 0

-- toBool of parsers/contact.js and parsers/radio.js
unfoldable pub to_bool : Option Text → ℕ
unfolding bit to_lower_case text_eq
to_bool none = 0
to_bool (some val) =
    let s = to_lower_case val in bit (text_eq s (codes "true") || text_eq s (codes "1"))

unfoldable pub native_mult : Option Text → ℕ
unfolding bit has_text
native_mult val = bit (has_text val)

-- a fixed layout, where `d` stands for a digit
unfoldable pub matches : Text → Text → Bool
unfolding is_digit
matches [] [] = true
matches (p ∷ ps) (c ∷ s) = (if p == b'd' then is_digit c else p == c) && matches ps s
matches _ _ = false

-- filter(...).join(' ')
unfoldable pub join_texts : List (Option Text) → Text
unfolding has_text
join_texts [] = []
join_texts (none ∷ xs) = join_texts xs
join_texts (some s ∷ xs) =
    let rest = join_texts xs in
    if has_text (some s) then (if is_empty rest then s else s ++ b' ' ∷ rest) else rest

-- `number` is Number() on a string, with `none` for NaN; `decimal` is String() on a number.
module _ (number : Text → Option ℕ) (decimal : ℕ → Text) where
  -- Number(s) || 0
  unfoldable pub number_or_zero : Option Text → ℕ
  number_or_zero none = 0
  number_or_zero (some s) = elim (number s) [ none ↦ 0 | some n ↦ n ]

  -- s != null ? Number(s) : null, as SQLite stores it: NaN becomes NULL
  unfoldable pub number_or_null : Option Text → Value
  number_or_null none = null
  number_or_null (some s) = elim (number s) [ none ↦ null | some n ↦ num n ]

  -- tensOfHzToHz of parsers/util.js
  unfoldable pub tens_of_hz_to_hz : Option Text → Text
  tens_of_hz_to_hz none = []
  tens_of_hz_to_hz (some []) = []
  tens_of_hz_to_hz (some (c ∷ s)) = elim (number (c ∷ s)) [
    | none ↦ codes "NaN"
    | some n ↦ decimal (n * 10)
  ]
