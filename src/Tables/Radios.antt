-- ===== src/Tables/Radios.antt =====
-- radio_state in src/db/queries.js: one row for each radio of each station.
use contestscore.Packets.Dispatch.{RadioState}
use contestscore.Prelude.{
  ℕ, ◌≡◌, ◌∙◌, refl, inl, inr, Bool, true, ◌&&◌, List, [], ◌∷◌, Option, none, some, arith, ◌==◌,
  Bool-cases, if◌then◌else◌,
}
use contestscore.Prelude.Text.{text_eq, text_eq_iff}

pub record RadioRow : Type 0 where
  pub radio : RadioState
  pub updated_at : ℕ

-- the conflict target (station_name, radio_nr)
unfoldable pub same_radio : RadioState → RadioState → Bool
unfolding text_eq
same_radio a b = text_eq a.station_name b.station_name && (a.radio_nr == b.radio_nr)

-- upsertRadio: the row of the radio is overwritten where it stands, or a new one comes at the end
unfoldable pub upsert_radio : ℕ → RadioState → List RadioRow → List RadioRow
unfolding same_radio
upsert_radio now r [] = record { radio = r; updated_at = now } ∷ []
upsert_radio now r (x ∷ xs) =
    if same_radio x.radio r
    then record { radio = r; updated_at = now } ∷ xs
    else x ∷ upsert_radio now r xs

unfoldable pub find_radio : RadioState → List RadioRow → Option RadioRow
unfolding same_radio
find_radio r [] = none
find_radio r (x ∷ xs) = let rest = find_radio r xs in if same_radio x.radio r then some x else rest

same_radio_trans : (a b c : RadioState) → same_radio a b ≡ true → same_radio a c ≡ same_radio b c
unfolding same_radio
same_radio_trans a b c h =
    let names : a.station_name ≡ b.station_name =
      (text_eq_iff a.station_name b.station_name).0 (ground arith) in
    let numbers : a.radio_nr ≡ b.radio_nr = ground arith in rw (names, numbers) refl

same_radio_sym : (a b : RadioState) → same_radio a b ≡ true → same_radio b a ≡ true
unfolding same_radio
same_radio_sym a b h =
    ground
      (arith, text_eq_iff a.station_name b.station_name, text_eq_iff b.station_name a.station_name)

-- A state that arrives replaces that of the radio with its station and number, whatever the radio
-- said before, and leaves every other radio as it is.
pub find_radio-upsert :
    (now : ℕ) (r s : RadioState) (xs : List RadioRow)
    → find_radio s (upsert_radio now r xs)
      ≡ (if same_radio r s then some (record { radio = r; updated_at = now }) else find_radio s xs)
unfolding find_radio upsert_radio
find_radio-upsert now r s [] = refl
find_radio-upsert now r s (x ∷ xs) = elim (Bool-cases (same_radio x.radio r)) [
  | inl same ↦ elim (Bool-cases (same_radio r s)) [
    | inl hit ↦ rw (same, hit) refl
    | inr miss ↦ let other = same_radio_trans x.radio r s same ∙ miss in rw (same, miss, other) refl
  ]
  | inr differs ↦ elim (Bool-cases (same_radio x.radio s)) [
    | inl at_x ↦ elim (Bool-cases (same_radio r s)) [
      | inl hit ↦ absurd (ground (arith, same_radio_trans x.radio s r at_x, same_radio_sym r s))
      | inr miss ↦ rw (differs, at_x, miss) refl
    ]
    | inr past ↦ rw (differs, past) (find_radio-upsert now r s xs)
  ]
]
