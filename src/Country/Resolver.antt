-- ===== src/Country/Resolver.antt =====
-- The country file of src/analyze/cty.js once its lines are split: the maps that parseCty builds
-- from entities and alias tokens, and the resolver on them. Coordinates are left out.
use contestscore.JsMap.{JsMap, get, put}
use contestscore.Lookup.Suffix.{segments}
use contestscore.Prelude.{
  ℕ, zero, suc, ◌+◌, Bool, false, not, ◌&&◌, ◌||◌, List, [], ◌∷◌, Option, none, some, ltb, leb,
  ◌==◌, length, take, keep, if◌then◌else◌,
}
use contestscore.Prelude.Text.{
  Text, codes, text_eq, text_key, is_empty, or_else, to_upper_case, trim, all_digits, starts_with,
}
use Prim.Native.Nat.{max, min}

pub record Country : Type 0 where
  pub entity : Option ℕ
  pub name : Text
  pub prefix : Text
  pub continent : Text
  pub cqzone : Text

pub record Cty : Type 0 where
  pub exact : JsMap Text Country
  pub prefixes : JsMap Text Country
  pub max_prefix_len : ℕ
  pub version : Option Text
  pub entities : ℕ

-- A token of the alias list: `clean` without its overrides, in upper case, and the zone and the
-- continent that override the entity's (`m[1]`, `m[3]`), empty if there are none.
pub record Alias : Type 0 where
  pub clean : Text
  pub cq_override : Text
  pub cont_override : Text

-- first writer wins
unfoldable pub add_prefix : Text → Country → JsMap Text Country → JsMap Text Country
unfolding put get
add_prefix key rec m =
    if is_empty key then m else elim (get key m) [ none ↦ put key rec m | some old ↦ m ]

-- addPrefix and the update of maxPrefixLen
unfoldable pub with_prefix : Text → Country → Cty → Cty
unfolding add_prefix
with_prefix key rec cty = record cty {
  prefixes = add_prefix key rec cty.prefixes;
  max_prefix_len = max cty.max_prefix_len (length key);
}

-- VERSION_RE: the digits of "=VER20260915"
unfoldable pub version_of : Text → Option Text
unfolding starts_with all_digits
version_of clean =
    let digits = drop_four clean in
    if starts_with (codes "=VER") clean && all_digits digits && (length digits == 8)
    then some digits
    else none
  where
    drop_four : Text → Text
    drop_four (a ∷ b ∷ c ∷ d ∷ s) = s
    drop_four _ = []

unfoldable pub with_overrides : Alias → Country → Country
with_overrides a base = record base {
  continent = or_else a.cont_override base.continent;
  cqzone = or_else a.cq_override base.cqzone;
}

-- `if (clean.startsWith('='))`
unfoldable pub add_token : Text → Country → Cty → Cty
unfolding with_prefix put
add_token [] rec cty = cty
add_token (c ∷ clean) rec cty =
    if c == b'='
    then record cty { exact = put clean rec cty.exact }
    else with_prefix (c ∷ clean) rec cty

-- the body of the loop over the alias tokens
unfoldable pub add_alias : Country → Alias → Cty → Cty
unfolding version_of with_overrides add_token
add_alias base a cty = elim (version_of a.clean) [
  | some v ↦ record cty { version = some v }
  | none ↦ add_token a.clean (with_overrides a base) cty
]

unfoldable pub add_aliases : Country → List Alias → Cty → Cty
unfolding add_alias
add_aliases base [] cty = cty
add_aliases base (a ∷ rest) cty = add_aliases base rest (add_alias base a cty)

-- one line of the file
unfoldable pub add_entity : Country × List Alias → Cty → Cty
unfolding add_aliases with_prefix
add_entity (base, aliases) cty =
    add_aliases base aliases
      (with_prefix base.prefix base (record cty { entities = cty.entities + 1 }))

unfoldable pub build_cty : List (Country × List Alias) → Cty → Cty
unfolding add_entity
build_cty [] cty = cty
build_cty (line ∷ lines) cty = build_cty lines (add_entity line cty)

abbrev pub empty_cty : Cty
empty_cty = record { exact = []; prefixes = []; max_prefix_len = 1; version = none; entities = 0 }

-- PLAIN_SUFFIXES
abbrev plain_suffixes : List Text
plain_suffixes =
    codes "P"
    ∷ codes "M"
    ∷ codes "MM"
    ∷ codes "AM"
    ∷ codes "A"
    ∷ codes "QRP"
    ∷ codes "QRPP"
    ∷ codes "LH"
    ∷ codes "LGT"
    ∷ codes "R"
    ∷ codes "BCN"
    ∷ codes "B"
    ∷ codes "J"
    ∷ codes "Y"
    ∷ codes "AG"
    ∷ codes "AE"
    ∷ codes "KT"
    ∷ codes "N"
    ∷ codes "T"
    ∷ codes "W"
    ∷ codes "G"
    ∷ codes "D"
    ∷ []

unfoldable pub is_plain : List Text → Text → Bool
unfolding text_eq
is_plain [] s = false
is_plain (p ∷ ps) s = text_eq p s || is_plain ps s

unfoldable pub is_candidate : Text → Bool
unfolding is_plain all_digits
is_candidate s = not (is_plain plain_suffixes s) && not (all_digits s && leb (length s) 2)

-- candidates.sort((a, b) => a.length - b.length)[0]; the sort is stable
unfoldable pub shortest : Text → List Text → Text
shortest best [] = best
shortest best (s ∷ rest) = shortest (if ltb (length s) (length best) then s else best) rest

unfoldable pub pick_location : Text → List Text → Text
unfolding shortest
pick_location first [] = first
pick_location first (c ∷ rest) = shortest c rest

unfoldable pub token_of_segments : Text → List Text → Text
unfolding pick_location is_candidate
token_of_segments call [] = call
token_of_segments call (s ∷ []) = s
token_of_segments call (s ∷ t ∷ rest) = pick_location s (keep is_candidate (s ∷ t ∷ rest))

unfoldable pub location_token : Text → Text
unfolding token_of_segments segments
location_token call = token_of_segments call (segments call)

-- the loop from `n` down to 1
unfoldable pub longest_prefix : JsMap Text Country → Text → ℕ → Option Country
unfolding get
longest_prefix prefixes loc zero = none
longest_prefix prefixes loc (suc n) =
    let shorter = longest_prefix prefixes loc n in
    elim (get (take (suc n) loc) prefixes) [ some hit ↦ some hit | none ↦ shorter ]

-- the resolver on a call in upper case
unfoldable pub resolve_upper : Cty → Text → Option Country
unfolding get location_token longest_prefix
resolve_upper cty call = elim (get call cty.exact) [
  | some hit ↦ some hit
  | none ↦
      let loc = location_token call in
      elim (get loc cty.exact) [
        | some hit ↦ some hit
        | none ↦ longest_prefix cty.prefixes loc (min (length loc) cty.max_prefix_len)
      ]
]

unfoldable pub resolve : Cty → Text → Option Country
unfolding resolve_upper to_upper_case trim
resolve cty call_raw =
    let call = trim (to_upper_case call_raw) in
    if is_empty call then none else resolve_upper cty call
