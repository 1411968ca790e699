-- ===== src/Analyze/Grammar.antt =====
-- The exchange of a QSO by the grammar of its contest: mapFields, applyFlexible, applyGenericExchange
-- and applyExchange of src/analyze/contests.js.
pub mod Laws
use contestscore.Analyze.Contests.{Field, Layout, fixed, by_home, flexible}
use contestscore.Analyze.Tokens.{is_transmitter_id, looks_like_callsign}
use contestscore.Prelude.{
  ℕ, ◌+◌, ◌-◌, Bool, true, false, not, ◌&&◌, ◌||◌, List, [], ◌∷◌, Option, none, some, ltb, leb,
  ◌==◌, length, get_elem?, take, drop, keep, if◌then◌else◌,
}
use contestscore.Prelude.Text.{
  Text, codes, text_eq, is_empty, is_digit, is_upper, all_digits, every, to_upper_case,
}

-- The columns that an exchange fills.
pub data Target : Type 0 where
  rcv_nr zone section gridsquare op_name ck prec exchange1 power : Target

-- A QSO of the log: the worked call, the tokens behind one's own call, and those columns.
pub record Entry : Type 0 where
  pub call : Text
  pub exch_tokens : List Text
  pub column : Target → Text

-- FIELD_TO_COL with the three pseudo-fields, `none` for the signal report
unfoldable pub target_of : Field → Text → Option Target
unfolding all_digits
target_of Field.rst t = none
target_of Field.serial t = some rcv_nr
target_of Field.zone t = some zone
target_of Field.section t = some section
target_of Field.state t = some section
target_of Field.loc t = some section
target_of Field.hq t = some section
target_of Field.grid t = some gridsquare
target_of Field.name t = some op_name
target_of Field.check t = some ck
target_of Field.prec t = some prec
target_of Field.class t = some exchange1
target_of Field.age t = some exchange1
target_of Field.memnum t = some exchange1
target_of Field.power t = some power
target_of Field.hqzone t = some (if all_digits t then zone else section)
target_of Field.stnum t = some (if all_digits t then rcv_nr else section)
target_of Field.spcnum t = some (if all_digits t then exchange1 else section)

abbrev pub number_of : Target → ℕ
number_of rcv_nr = 0
number_of zone = 1
number_of section = 2
number_of gridsquare = 3
number_of op_name = 4
number_of ck = 5
number_of prec = 6
number_of exchange1 = 7
number_of power = 8

-- q[col] = v
unfoldable pub set_column : Target → Text → Entry → Entry
set_column c v q = record q { column = λ d. if number_of c == number_of d then v else q.column d }

-- SECTION_COLS
unfoldable pub shaped : Target → Text → Text
unfolding to_upper_case
shaped section t = to_upper_case t
shaped _ t = t

unfoldable pub store_field : Option Target → Text → Entry → Entry
unfolding set_column shaped
store_field none t q = q
store_field (some c) t q = set_column c (shaped c t) q

unfoldable pub map_fields : List Field → List Text → Entry → Entry
unfolding store_field target_of
map_fields (f ∷ fs) (t ∷ ts) q =
    map_fields fs ts (if is_empty t then q else store_field (target_of f t) t q)
map_fields _ _ q = q

-- toks.slice(toks.indexOf(call) + 1), `none` for the index -1
unfoldable pub after_call : Text → List Text → Option (List Text)
unfolding text_eq
after_call call [] = none
after_call call (t ∷ ts) = if text_eq t call then some ts else after_call call ts

-- without transmitter ids
unfoldable pub no_ids : List Text → List Text
unfolding is_transmitter_id
no_ids ts = keep (λ t. not (is_transmitter_id t)) ts

-- /^(5(\d\d|9|NN))$/i
unfoldable pub is_report : Text → Bool
unfolding is_digit to_upper_case text_eq
is_report (a ∷ b ∷ []) = a == b'5' && b == b'9'
is_report (a ∷ b ∷ c ∷ []) =
    a == b'5' && ((is_digit b && is_digit c) || text_eq (to_upper_case (b ∷ c ∷ [])) (codes "NN"))
is_report _ = false

-- a leading signal report goes, unless it is the only token
unfoldable pub drop_report : List Text → List Text
unfolding is_report
drop_report (t ∷ u ∷ ts) = if is_report t then u ∷ ts else t ∷ u ∷ ts
drop_report ts = ts

unfoldable pub last_section : List Text → Entry → Entry
unfolding set_column to_upper_case
last_section ts q = elim (get_elem? ts (length ts - 1)) [
  | none ↦ q
  | some t ↦ set_column section (to_upper_case t) q
]

unfoldable pub serial_and_section : List Text → Entry → Entry
unfolding last_section set_column all_digits
serial_and_section (t ∷ u ∷ ts) q =
    if all_digits t
    then last_section (u ∷ ts) (set_column rcv_nr t q)
    else last_section (t ∷ u ∷ ts) q
serial_and_section ts q = last_section ts q

unfoldable pub apply_flexible : Entry → Entry
unfolding after_call no_ids drop_report serial_and_section
apply_flexible q = elim (after_call q.call q.exch_tokens) [
  | none ↦ q
  | some r ↦ serial_and_section (drop_report (no_ids r)) q
]

-- MODE_TOKEN
unfoldable pub is_mode_token : Text → Bool
unfolding text_eq to_upper_case
is_mode_token t =
    let u = to_upper_case t in
    text_eq u (codes "CW")
    || text_eq u (codes "SSB")
    || text_eq u (codes "USB")
    || text_eq u (codes "LSB")
    || text_eq u (codes "PH")
    || text_eq u (codes "RY")
    || text_eq u (codes "FM")
    || text_eq u (codes "AM")
    || text_eq u (codes "FT8")
    || text_eq u (codes "FT4")
    || text_eq u (codes "RTTY")
    || text_eq u (codes "PSK")
    || text_eq u (codes "DIG")
    || text_eq u (codes "DG")

-- /^[A-Za-z]{2,5}$/ and no mode
unfoldable pub is_region_token : Text → Bool
unfolding is_mode_token every is_upper to_upper_case
is_region_token t =
    leb 2 (length t)
    && leb (length t) 5
    && every is_upper (to_upper_case t)
    && not (is_mode_token t)

unfoldable pub trailing_region : List Text → Entry → Entry
unfolding is_region_token set_column to_upper_case
trailing_region r q = elim (get_elem? r (length r - 1)) [
  | none ↦ q
  | some t ↦ if is_region_token t then set_column section (to_upper_case t) q else q
]

-- the body of applyGenericExchange's loop
unfoldable pub apply_generic_exchange : Entry → Entry
unfolding after_call no_ids trailing_region
apply_generic_exchange q =
    if not (is_empty (q.column section))
    then q
    else elim (after_call q.call q.exch_tokens) [ none ↦ q | some r ↦ trailing_region (no_ids r) q ]

-- without the transmitter id that makes the exchange one token too long
unfoldable pub exact_tokens : ℕ → List Text → List Text
unfolding is_transmitter_id
exact_tokens n toks = elim (get_elem? toks (length toks - 1)) [
  | none ↦ toks
  | some t ↦
      if length toks == n + 1 && is_transmitter_id t then take (length toks - 1) toks else toks
]

-- the call at a place of the tokens, where it is shaped like one
unfoldable pub take_call : Option Text → Entry → Entry
unfolding looks_like_callsign
take_call none q = q
take_call (some c) q = if looks_like_callsign c then record q { call = c } else q

-- the body of applyExchange's loop: whether the count fits, and the QSO
unfoldable pub apply_fields : List Field → List Field → Entry → Bool × Entry
unfolding exact_tokens take_call map_fields after_call
apply_fields sent rcvd q =
    let toks = exact_tokens (length sent + 1 + length rcvd) q.exch_tokens in
    if length toks == length sent + 1 + length rcvd
    then (
      true,
      map_fields rcvd (drop (length sent + 1) toks) (take_call (get_elem? toks (length sent)) q),
    )
    else (false, elim (after_call q.call toks) [ none ↦ q | some r ↦ map_fields rcvd r q ])

unfoldable pub apply_all : List Field → List Field → List Entry → Bool × List Entry
unfolding apply_fields
apply_all sent rcvd [] = (false, [])
apply_all sent rcvd (q ∷ qs) =
    let (rest_matched, rest) = apply_all sent rcvd qs in
    let (matched, q') = apply_fields sent rcvd q in (matched || rest_matched, q' ∷ rest)

unfoldable pub apply_flexible_all : List Entry → List Entry
unfolding apply_flexible
apply_flexible_all [] = []
apply_flexible_all (q ∷ qs) = apply_flexible q ∷ apply_flexible_all qs

unfoldable pub apply_exchange : Layout → Bool → List Entry → Bool × List Entry
unfolding apply_all apply_flexible_all
apply_exchange flexible is_domestic qs = (true, apply_flexible_all qs)
apply_exchange (fixed sent rcvd) is_domestic qs = apply_all sent rcvd qs
apply_exchange (by_home (hs, hr) (ds, dr)) is_domestic qs =
    if is_domestic then apply_all hs hr qs else apply_all ds dr qs
