-- ===== src/Lookup/Suffix.antt =====
-- stripSuffix of src/lookup/index.js: the base call of a portable call.
use contestscore.Prelude.{
  ℕ, Bool, false, not, ◌&&◌, ◌||◌, List, [], ◌∷◌, Option, none, some, leb, ◌==◌, length, keep,
  if◌then◌else◌,
}
use contestscore.Prelude.Text.{
  Text, codes, text_eq, is_empty, is_digit, to_upper_case, trim, includes, all_digits,
}

-- one more character in front of the parts, of which there is always one
unfoldable pub extend : ℕ → ℕ → List Text → List Text
extend c d [] = if d == c then [] ∷ [] ∷ [] else (d ∷ []) ∷ []
extend c d (part ∷ parts) = if d == c then [] ∷ part ∷ parts else (d ∷ part) ∷ parts

-- s.split(c) for one character
unfoldable pub split_at : ℕ → Text → List Text
unfolding extend
split_at c [] = [] ∷ []
split_at c (d ∷ s) = extend c d (split_at c s)

-- split('/').filter(Boolean)
unfoldable pub segments : Text → List Text
unfolding split_at
segments c = keep (λ p. not (is_empty p)) (split_at b'/' c)

-- /^(P|M|MM|AM|A|R|QRP|LH|\d{1,2})$/
unfoldable pub is_plain_tail : Text → Bool
is_plain_tail t =
    text_eq t (codes "P")
    || text_eq t (codes "M")
    || text_eq t (codes "MM")
    || text_eq t (codes "AM")
    || text_eq t (codes "A")
    || text_eq t (codes "R")
    || text_eq t (codes "QRP")
    || text_eq t (codes "LH")
    || (all_digits t && leb (length t) 2)

-- the array without its last element, if that is a plain suffix
unfoldable pub drop_tail : List Text → List Text
unfolding is_plain_tail
drop_tail [] = []
drop_tail (p ∷ []) = if is_plain_tail p then [] else p ∷ []
drop_tail (p ∷ q ∷ parts) = p ∷ drop_tail (q ∷ parts)

unfoldable pub any_digit : Text → Bool
any_digit [] = false
any_digit (c ∷ s) = is_digit c || any_digit s

unfoldable pub looks_like_call : Text → Bool
unfolding any_digit is_digit
looks_like_call t = any_digit t && leb 3 (length t)

unfoldable pub choose_call : Text → Text → Text
unfolding looks_like_call
choose_call a b =
    if looks_like_call a && not (looks_like_call b)
    then a
    else if looks_like_call b && not (looks_like_call a)
    then b
    else if leb (length b) (length a)
    then a
    else b

-- the tests on `parts` after the plain suffix is gone; an empty array has no `a`, and `a.length`
-- is a TypeError, which is `none`
unfoldable pub pick_part : List Text → Option Text
unfolding choose_call
pick_part [] = none
pick_part (p ∷ []) = some p
pick_part (a ∷ b ∷ _) = some (choose_call a b)

unfoldable pub base_part : List Text → Option Text
unfolding drop_tail pick_part
base_part [] = pick_part []
base_part (p ∷ []) = some p
base_part (p ∷ q ∷ parts) = pick_part (drop_tail (p ∷ q ∷ parts))

-- `none` is the TypeError that stripSuffix throws on a call of slashes only
unfoldable pub strip_suffix : Text → Option Text
unfolding segments base_part to_upper_case trim includes
strip_suffix raw =
    let c = to_upper_case (trim raw) in
    if is_empty c || not (includes b'/' c) then some c else base_part (segments c)
