-- ===== src/Country/FillLaws.antt =====
-- What enrichGeo of src/analyze/geo.js may change.
use contestscore.Country.Resolver.{Country}
use contestscore.Country.Fill.{
  Override, pick_value, fill_column, any_missing, resolve_value, enrich_geo,
}
use contestscore.Store.Columns.{
  Column, call, continent, zone, countryprefix, Value, text, truthy, Qso,
}
use contestscore.Store.Qsos.{field}
use contestscore.Prelude.{
  ◌≡◌, ◌≢◌, ◌⊎◌, refl, inl, inr, true, not, ◌&&◌, ◌||◌, Option, some, arith, Bool-cases,
  Option-cases,
}
use contestscore.Prelude.Text.{Text, codes}

-- either nothing, or the columns of a country that the resolver knows
pub enrich_geo-cases :
    (resolver : Text → Option Country) (ov : Override) (qso : Qso)
    → (enrich_geo resolver ov qso ≡ qso)
      ⊎ ((hit : Country) × (resolve_value resolver (field qso call) ≡ some hit)
          × (enrich_geo resolver ov qso ≡ record qso { fields = fill_column ov hit qso }))
unfolding enrich_geo
enrich_geo-cases resolver ov qso = elim (Bool-cases (truthy (field qso call))) [
  | inr e ↦ inl (rw e refl)
  | inl e ↦
      elim (Bool-cases
        (not (any_missing qso) && not (ov.continent || ov.countryprefix || ov.zone))) [
          | inl f ↦ inl (rw (e, f) refl)
          | inr f ↦ elim (Option-cases (resolve_value resolver (field qso call))) [
            | inl n ↦ inl (rw (e, f, n) refl)
            | inr (hit, n) ↦ inr (hit, n, rw (e, f, n) refl)
          ]
        ]
]

-- What a column must hold to be kept: a value that is not blank, and for the zone not the text 0.
abbrev pub IsGiven : Column → Value → Type 0
IsGiven zone v = (truthy v ≡ true) × (v ≢ text (codes "0"))
IsGiven c v = truthy v ≡ true

pick_value-truthy :
    (hit : Text) (old : Value) → truthy old ≡ true → truthy (pick_value hit old) ≡ true
unfolding pick_value truthy
pick_value-truthy hit old h = ground arith

-- No override and no country file ever blanks a column.
pub enrich_geo-never_blanks :
    (resolver : Text → Option Country) (ov : Override) (qso : Qso) (c : Column)
    → truthy (field qso c) ≡ true
    → truthy (field (enrich_geo resolver ov qso) c) ≡ true
unfolding field fill_column
enrich_geo-never_blanks resolver ov qso c given = elim (enrich_geo-cases resolver ov qso) [
  | inl e ↦ rw e given
  | inr (hit, n, e) ↦ rw e (go hit c given)
]
  where
    go :
        (hit : Country) (c : Column)
        → truthy (field qso c) ≡ true
        → truthy (field (record qso { fields = fill_column ov hit qso }) c) ≡ true
    go hit continent given =
        ground (arith, pick_value-truthy hit.continent (field qso continent) given)
    go hit zone given = ground (arith, pick_value-truthy hit.cqzone (field qso zone) given)
    go hit countryprefix given =
        ground (arith, pick_value-truthy hit.prefix (field qso countryprefix) given)
    go hit c given = given
