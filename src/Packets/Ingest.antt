-- ===== src/Packets/Ingest.antt =====
-- What holds of the QSO table and the lookup queue after any packets have come in through
-- src/udp/index.js.
use contestscore.Country.Fill.{enrich_geo, fill_column}
use contestscore.Country.FillLaws.{enrich_geo-cases}
use contestscore.Country.Resolver.{Country}
use contestscore.Lookup.Service.{Service, enqueue}
use contestscore.Lookup.Consistent.{IsConsistent}
use contestscore.Lookup.Reach.{enqueue-IsConsistent}
use contestscore.Packets.Contact.{
  parse_contact, parse_contact_delete, contact_column, delete_column, column_text,
}
use contestscore.Packets.Fields.{Fields, or_blank, or_null}
use contestscore.Packets.Dispatch.{
  Packet, Event, radio_update, contact_new, contact_delete, score_update, lookup_result,
  handle_any_buffer,
}
use contestscore.Packets.Events.{
  App, World, all_fields, store_contact, enqueue_value, on_contact_new, on_contact_delete, on_event,
  on_packet, on_packets,
}
use contestscore.Store.Columns.{
  Column, ext_id, call, continent, countryprefix, zone, Value, null, text, num, truthy, is_null,
  Qso, qso_defaults, normalize_qso,
}
use contestscore.Store.Qsos.{
  Row, Table, upsert_qso, upsert_qso_by_ext_id, field, same_ext_id, get_persisted_qso, any, append,
  new_row, update_rows, use_id,
}
use contestscore.Store.Valid.{IsValid}
use contestscore.Store.Preserved.{statements-IsValid}
use contestscore.Store.Reads.{get_persisted-upsert, upsert_by_id}
use contestscore.Store.Deletes.{delete_qso-gone}
use contestscore.Prelude.{
  ℕ, ◌≡◌, ◌∙◌, refl, ap, inl, inr, Bool, true, false, List, [], ◌∷◌, Option, none, some, arith,
  Bool-cases, Option-cases,
}
use contestscore.Prelude.Text.{Text, codes}

-- The table and the lookup queue keep their invariants.
pub record IsSound (app : App) : Type 0 where
  pub table : IsValid app.table
  pub lookup : IsConsistent app.lookup

store_contact-IsValid :
    (now : Text) (contact : Qso) (t : Table) → IsValid t → IsValid (store_contact now contact t).1
store_contact-IsValid now contact t h = elim (Option-cases (upsert_qso now contact t)) [
  | inl e ↦ unfold store_contact in rw (e, store_contact) h
  | inr (t', e) ↦
      unfold store_contact in rw (e, store_contact) ((statements-IsValid now contact t h).0 t' e)
]

enqueue_value-IsConsistent :
    (w : World) (v : Value) (s : Service) → IsConsistent s → IsConsistent (enqueue_value w v s)
unfolding enqueue_value
enqueue_value-IsConsistent w null s h = h
enqueue_value-IsConsistent w (num n) s h = h
enqueue_value-IsConsistent w (text raw) s h =
    elim (Option-cases (enqueue w.enabled w.cached w.now_ms raw s)) [
      | inl e ↦ rw (e, enqueue_value) h
      | inr (s', e) ↦
          rw (e, enqueue_value) (enqueue-IsConsistent w.enabled w.cached w.now_ms raw s s' e h)
    ]

on_contact_new-IsSound :
    (w : World) (packet : Qso) (app : App) → IsSound app → IsSound (on_contact_new w packet app).1
unfolding on_contact_new
on_contact_new-IsSound w packet app h =
    let contact = enrich_geo w.resolver all_fields packet in
    record {
      table = store_contact-IsValid w.now_text contact app.table h.table;
      lookup = elim (Bool-cases (truthy (field contact call))) [
        | inl e ↦ rw e (enqueue_value-IsConsistent w (field contact call) app.lookup h.lookup)
        | inr e ↦ rw e h.lookup
      ];
    }

on_event-IsSound : (w : World) (e : Event) (app : App) → IsSound app → IsSound (on_event w e app)
unfolding on_event on_contact_delete
on_event-IsSound w (contact_new contact) app h = on_contact_new-IsSound w contact app h
on_event-IsSound w (contact_delete contact) app h = record {
  table = (statements-IsValid w.now_text contact app.table h.table).1;
  lookup = h.lookup;
}
on_event-IsSound w (radio_update r) app h = h
on_event-IsSound w (score_update s) app h = h
on_event-IsSound w (lookup_result l) app h = h

module _ (number : Text → Option ℕ) (decimal : ℕ → Text) (number_or_0 : Text → ℕ) where
  on_packet-IsSound :
      (w : World) (p : Option Packet) (app : App)
      → IsSound app
      → IsSound (on_packet number decimal number_or_0 w p app)
  on_packet-IsSound w p app h =
      elim (Option-cases (handle_any_buffer number decimal number_or_0 p)) [
        | inl n ↦ unfold on_packet in rw (n, on_packet) h
        | inr (e, n) ↦ unfold on_packet in rw (n, on_packet) (on_event-IsSound w e app h)
      ]

  -- From a state where they are so, and whatever packets arrive, in any order and at any times, broken
  -- ones among them: the table stays within its unique indexes and the lookup queue consistent with
  -- its pending set.
  pub on_packets-IsSound :
      (ps : List (World × Option Packet)) (app : App)
      → IsSound app
      → IsSound (on_packets number decimal number_or_0 ps app)
  unfolding on_packets
  on_packets-IsSound [] app h = h
  on_packets-IsSound ((w, p) ∷ ps) app h =
      on_packets-IsSound ps (on_packet number decimal number_or_0 w p app)
        (on_packet-IsSound w p app h)

ext_id-enrich_geo :
    (resolver : Text → Option Country) (qso : Qso)
    → (enrich_geo resolver all_fields qso).fields ext_id ≡ qso.fields ext_id
unfolding fill_column
ext_id-enrich_geo resolver qso = elim (enrich_geo-cases resolver all_fields qso) [
  | inl e ↦ rw e
  | inr (hit, n, e) ↦ rw e
]

call-enrich_geo :
    (resolver : Text → Option Country) (qso : Qso)
    → (enrich_geo resolver all_fields qso).fields call ≡ qso.fields call
unfolding fill_column
call-enrich_geo resolver qso = elim (enrich_geo-cases resolver all_fields qso) [
  | inl e ↦ rw e
  | inr (hit, n, e) ↦ rw e
]

-- The columns that the country file may fill.
abbrev pub is_geography : Column → Bool
is_geography continent = true
is_geography countryprefix = true
is_geography zone = true
is_geography _ = false

other-enrich_geo :
    (resolver : Text → Option Country) (qso : Qso) (col : Column)
    → is_geography col ≡ false
    → (enrich_geo resolver all_fields qso).fields col ≡ qso.fields col
unfolding fill_column
other-enrich_geo resolver qso col other = elim (enrich_geo-cases resolver all_fields qso) [
  | inl e ↦ rw e
  | inr (hit, n, e) ↦ rw e (go hit col other)
]
  where
    go :
        (hit : Country) (col : Column)
        → is_geography col ≡ false
        → fill_column all_fields hit qso col ≡ qso.fields col
    go hit continent h = cc
    go hit countryprefix h = cc
    go hit zone h = cc
    go hit col h = refl

normalize_qso-same :
    (a b : Qso) (col : Column)
    → a.fields col ≡ b.fields col
    → normalize_qso a col ≡ normalize_qso b col
unfolding normalize_qso
normalize_qso-same a b col e =
    ap (λ (o : Option Value). elim o [ none ↦ qso_defaults col | some v ↦ v ]) e

call_present :
    (qso : Qso) (worked : Value)
    → qso.fields call ≡ some worked
    → is_null worked ≡ false
    → is_null (normalize_qso qso call) ≡ false
unfolding normalize_qso
call_present qso worked called present =
    ap is_null (let e : normalize_qso qso call ≡ worked = ground arith in e) ∙ present

-- a QSO with an ext_id and a call that is not null can be stored
upsert-some :
    (now : Text) (qso : Qso) (id worked : Value) (t : Table)
    → qso.fields ext_id ≡ some id
    → truthy id ≡ true
    → qso.fields call ≡ some worked
    → is_null worked ≡ false
    → (t' : Table) × (upsert_qso now qso t ≡ some t')
upsert-some now qso id worked t sent sure called present =
    let c = call_present qso worked called present in
    elim (Bool-cases (any (same_ext_id (normalize_qso qso ext_id)) t.rows)) [
      | inl old ↦ (
        use_id (record t { rows = update_rows (normalize_qso qso) t.rows }),
        upsert_by_id qso id sent sure now t ∙ unfold upsert_qso_by_ext_id in rw (c, old) refl,
      )
      | inr new ↦ (
        append (new_row now qso t) t,
        upsert_by_id qso id sent sure now t ∙ unfold upsert_qso_by_ext_id in rw (c, new) refl,
      )
    ]

module _ (number : Text → Option ℕ) (decimal : ℕ → Text) (c : Fields) (d : ℕ) (s : Text)
    (sent : c (codes "ID") ≡ some (d ∷ s)) where
  id-parse_contact : (parse_contact number decimal c).fields ext_id ≡ some (text (d ∷ s))
  unfolding parse_contact contact_column or_null or_blank
  id-parse_contact = rw sent refl

  call-parse_contact :
      (parse_contact number decimal c).fields call ≡ some (text (or_blank (c (codes "call"))))
  unfolding parse_contact contact_column column_text
  call-parse_contact = refl

  -- A contact packet of plain texts with an <ID> that is not empty, new or a replacement, is stored
  -- whatever else it holds, and the row that is read back has every column as parsed, but for the
  -- continent, the country prefix and the zone, which are those that enrichGeo gives. A delete packet
  -- with that <ID> removes it, whatever else that packet holds.
  pub on_contact_new-stores :
      (w : World) (app : App) (del : Fields) (col : Column)
      → del (codes "ID") ≡ some (d ∷ s)
      → is_geography col ≡ false
      → let contact = enrich_geo w.resolver all_fields (parse_contact number decimal c) in
        let (persisted, after) = on_contact_new w (parse_contact number decimal c) app in
        ((r : Row) × (persisted ≡ some r)
          × (r.cols ≡ normalize_qso contact)
          × (r.cols col ≡ normalize_qso (parse_contact number decimal c) col))
        × (get_persisted_qso contact (on_contact_delete (parse_contact_delete del) after).table
            ≡ none)
  unfolding on_contact_new on_contact_delete
  on_contact_new-stores w app del col same other =
      let parsed = parse_contact number decimal c in
      let contact = enrich_geo w.resolver all_fields parsed in
      let id : contact.fields ext_id ≡ some (text (d ∷ s)) =
        ext_id-enrich_geo w.resolver parsed ∙ id-parse_contact in
      let sure : truthy (text (d ∷ s)) ≡ true = unfold truthy in refl in
      let (t', e) =
        upsert-some w.now_text contact (text (d ∷ s)) (text (or_blank (c (codes "call")))) app.table
          id sure (call-enrich_geo w.resolver parsed ∙ call-parse_contact)
          (unfold is_null in refl) in
      let (r, found, cols, at) =
        get_persisted-upsert contact (text (d ∷ s)) id sure w.now_text app.table t' e in
      let stored : store_contact w.now_text contact app.table ≡ (some r, t') =
        unfold store_contact in rw (e, found, store_contact) refl in
      (
        (
          r,
          ap (λ x. x.0) stored,
          cols,
          ap (λ (v : Column → Value). v col) cols
              ∙ normalize_qso-same contact parsed col
                  (other-enrich_geo w.resolver parsed col other),
        ),
        delete_qso-gone (parse_contact_delete del) contact (text (d ∷ s))
            (on_contact_new w parsed app).1.table
            (unfold parse_contact_delete delete_column or_null or_blank in rw same refl) id sure,
      )
