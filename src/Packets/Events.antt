-- ===== src/Packets/Events.antt =====
-- The handlers that startListeners of src/udp/index.js sets up, as far as they change the QSO table
-- and the lookup queue; score_update, radio_update and lookup_result touch neither.
use contestscore.Country.Fill.{Override, enrich_geo}
use contestscore.Country.Resolver.{Country}
use contestscore.Lookup.Service.{Service, enqueue}
use contestscore.Packets.Dispatch.{Packet, Event, contact_new, contact_delete, handle_any_buffer}
use contestscore.Store.Columns.{call, Value, text, truthy, Qso}
use contestscore.Store.Qsos.{Row, Table, upsert_qso, delete_qso, field, get_persisted_qso}
use contestscore.Prelude.{ℕ, Bool, true, List, [], ◌∷◌, Option, none, some, if◌then◌else◌}
use contestscore.Prelude.Text.{Text}

pub record App : Type 0 where
  pub table : Table
  pub lookup : Service

abbrev pub all_fields : Override
all_fields = record { continent = true; countryprefix = true; zone = true }

-- The world around an event: the country file, whether lookups are on, the callsign cache, and the
-- clock as SQLite's datetime('now') and as Date.now().
pub record World : Type 0 where
  pub resolver : Text → Option Country
  pub enabled : Bool
  pub cached : Text → Bool
  pub now_text : Text
  pub now_ms : ℕ

-- safely('contact:new', ...): a statement that throws leaves the table, and nothing is read back
unfoldable pub store_contact : Text → Qso → Table → Option Row × Table
unfolding upsert_qso get_persisted_qso
store_contact now contact t = elim (upsert_qso now contact t) [
  | none ↦ (none, t)
  | some t' ↦ (get_persisted_qso contact t', t')
]

-- lookup.enqueue(contact.call); what it throws goes to the listener, which logs it
unfoldable pub enqueue_value : World → Value → Service → Service
unfolding enqueue
enqueue_value w (text s) q = elim (enqueue w.enabled w.cached w.now_ms s q) [
  | none ↦ q
  | some q' ↦ q'
]
enqueue_value w _ q = q

-- the row to send, `none` for the packet itself, and what is left behind
unfoldable pub on_contact_new : World → Qso → App → Option Row × App
unfolding enrich_geo store_contact enqueue_value field truthy
on_contact_new w packet app =
    let contact = enrich_geo w.resolver all_fields packet in
    let (persisted, table) = store_contact w.now_text contact app.table in
    let lookup =
      if truthy (field contact call)
      then enqueue_value w (field contact call) app.lookup
      else app.lookup in
    (persisted, record { table = table; lookup = lookup })

unfoldable pub on_contact_delete : Qso → App → App
unfolding delete_qso
on_contact_delete contact app = record app { table = delete_qso contact app.table }

unfoldable pub on_event : World → Event → App → App
unfolding on_contact_new on_contact_delete
on_event w (contact_new contact) app = (on_contact_new w contact app).1
on_event w (contact_delete contact) app = on_contact_delete contact app
on_event w _ app = app

module _ (number : Text → Option ℕ) (decimal : ℕ → Text) (number_or_0 : Text → ℕ) where
  unfoldable pub on_packet : World → Option Packet → App → App
  unfolding handle_any_buffer on_event
  on_packet w p app = elim (handle_any_buffer number decimal number_or_0 p) [
    | none ↦ app
    | some e ↦ on_event w e app
  ]

  -- packets as they arrive, each with the world at its time
  unfoldable pub on_packets : List (World × Option Packet) → App → App
  unfolding on_packet
  on_packets [] app = app
  on_packets ((w, p) ∷ rest) app = on_packets rest (on_packet w p app)
