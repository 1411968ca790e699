-- ===== src/Tests/PacketTests.antt =====
-- Runs of src/parsers and src/udp.
use contestscore.JsMap.{keys}
use contestscore.Country.Fill.{enrich_geo}
use contestscore.Lookup.Service.{init}
use contestscore.Lookup.Reach.{Reach-IsConsistent, here}
use contestscore.Packets.Breakdown.{at_row, IsMentioned, AllLabelled, score_rows-sums}
use contestscore.Packets.Contact.{parse_contact, parse_contact_delete}
use contestscore.Packets.Dispatch.{Packet}
use contestscore.Packets.Events.{
  App, World, all_fields, on_contact_new, on_contact_delete, on_packets,
}
use contestscore.Packets.Fields.{Fields}
use contestscore.Packets.Ingest.{IsSound, on_packets-IsSound, on_contact_new-stores}
use contestscore.Packets.Score.{Results, shown, row_key, or_zero, score_rows}
use contestscore.Store.Columns.{Column, normalize_qso}
use contestscore.Store.Qsos.{Row, empty, get_persisted_qso}
use contestscore.Prelude.{
  In, ◌↔◌, ℕ, ◌≡◌, refl, true, false, [], ◌∷◌, Option, none, some, Distinct, if◌then◌else◌,
}
use contestscore.Prelude.Text.{Text, codes, text_eq, text_key}

abbrev only : Text → Text → Fields
only name value asked = if text_eq name asked then some value else none

abbrev and_also : Text → Text → Fields → Fields
and_also name value c asked = if text_eq name asked then some value else c asked

abbrev one_digit : Text → Option ℕ
one_digit [] = some 0
one_digit (c ∷ s) = some 7

abbrev one_code : ℕ → Text
one_code n = n ∷ []

abbrev sevens : Text → ℕ
sevens s = 7

abbrev quiet_world : World
quiet_world = record {
  resolver = λ call. none;
  enabled = true;
  cached = λ call. false;
  now_text = codes "noon";
  now_ms = 0;
}

abbrev start : App
start = record { table = empty; lookup = init false }

-- band "20", CW
abbrev on_20_cw : Fields
on_20_cw = and_also (codes "band") (codes "20") (only (codes "mode") (codes "CW"))

-- two multiplier types for one band and mode
abbrev two_types : Results
two_types = record {
  fields = λ name. none;
  class_attrs = λ name. none;
  qth = λ name. none;
  qso = record { attrs = on_20_cw; text = codes "156" } ∷ [];
  point = [];
  mult =
      record { attrs = on_20_cw; text = codes "10" }
      ∷ record { attrs = on_20_cw; text = codes "3" }
      ∷ [];
}

score_rows-sums_example :
    let rows = score_rows sevens two_types in
    Distinct (keys rows)
    × (In (codes "20|CW") (keys rows) ↔ IsMentioned (codes "20|CW") two_types)
    × AllLabelled rows
    × (at_row (λ r. r.qsos) 0 (codes "20|CW") rows ≡ 7)
    × (at_row (λ r. r.points) 0 (codes "20|CW") rows ≡ 0)
    × (at_row (λ r. r.mults) none (codes "20|CW") rows ≡ some 14)
unfolding row_key shown text_eq or_zero
score_rows-sums_example = score_rows-sums sevens two_types (codes "20|CW")

abbrev contact_fields : Fields
contact_fields = and_also (codes "ID") (codes "g1") (only (codes "call") (codes "K1ABC"))

abbrev contact_packet : Packet
contact_packet = record { root = codes "contactinfo"; body = some contact_fields; results = none }

start-IsSound : IsSound start
start-IsSound = record {
  table = record { unique = tt; increasing = tt; numbered = tt; called = tt };
  lookup = Reach-IsConsistent {provider = []} {enabled = true} {between_ms = 0} false here;
}

on_packets-IsSound_example : IsSound (
    on_packets one_digit one_code sevens
      ((quiet_world, some contact_packet) ∷ (quiet_world, none) ∷ [])
      start)
on_packets-IsSound_example =
    on_packets-IsSound one_digit one_code sevens
      ((quiet_world, some contact_packet) ∷ (quiet_world, none) ∷ []) start start-IsSound

on_contact_new-stores_example :
    let contact =
      enrich_geo quiet_world.resolver all_fields
        (parse_contact one_digit one_code contact_fields) in
    let (persisted, after) =
      on_contact_new quiet_world (parse_contact one_digit one_code contact_fields) start in
    ((r : Row) × (persisted ≡ some r)
      × (r.cols ≡ normalize_qso contact)
      × (r.cols Column.mode
          ≡ normalize_qso (parse_contact one_digit one_code contact_fields) Column.mode))
    × (get_persisted_qso contact
          (on_contact_delete (parse_contact_delete contact_fields) after).table
        ≡ none)
unfolding text_eq
on_contact_new-stores_example =
    on_contact_new-stores one_digit one_code contact_fields b'g' (codes "1") refl quiet_world start
      contact_fields Column.mode refl refl
