-- ===== src/Packets/Dispatch.antt =====
-- From a packet to an event: parsers/lookup.js, parsers/radio.js, udp/dispatch.js and the three
-- listeners, all under src. A packet is what xml2js makes of the bytes; `none` for it is an error.
use contestscore.Packets.Contact.{parse_contact, parse_contact_delete}
use contestscore.Packets.Fields.{
  Fields, or_blank, to_bool, number_or_zero, number_or_null, tens_of_hz_to_hz,
}
use contestscore.Packets.Score.{Results, Score, parse_score}
use contestscore.Store.Columns.{Value, Qso}
use contestscore.Prelude.{ℕ, Bool, false, ◌||◌, List, [], ◌∷◌, Option, none, some, if◌then◌else◌}
use contestscore.Prelude.Text.{Text, codes, text_eq, or_else}

-- `body` is the root element's children, `none` if it is empty; `results` is the <dynamicresults>
-- that is the root or stands in an <rtc> root.
pub record Packet : Type 0 where
  pub root : Text
  pub body : Option Fields
  pub results : Option Results

pub record LookupInfo : Type 0 where
  pub call : Text
  pub name : Text
  pub country : Text
  pub grid : Text
  pub state : Text
  pub county : Text
  pub cqzone : Text
  pub ituzone : Text
  pub dxcc : Text
  pub continent : Text

pub record RadioState : Type 0 where
  pub radio_nr : ℕ
  pub station_name : Text
  pub freq : Text
  pub tx_freq : Text
  pub mode : Text
  pub op_call : Text
  pub is_running : ℕ
  pub is_transmitting : ℕ
  pub focus_entry : Value
  pub antenna : Text
  pub rotator : Text
  pub focus_radio : Value
  pub active_radio : Value
  pub function_key_caption : Text

pub data Event : Type 0 where
  radio_update : RadioState → Event
  contact_new : Qso → Event
  contact_delete : Qso → Event
  score_update : Score → Event
  lookup_result : LookupInfo → Event

unfoldable pub parse_lookup : Fields → LookupInfo
unfolding or_blank
parse_lookup l = record {
  call = or_blank (l (codes "call"));
  name = or_blank (l (codes "name"));
  country = or_blank (l (codes "country"));
  grid = or_blank (l (codes "grid"));
  state = or_blank (l (codes "state"));
  county = or_blank (l (codes "county"));
  cqzone = or_blank (l (codes "cqzone"));
  ituzone = or_blank (l (codes "ituzone"));
  dxcc = or_blank (l (codes "dxcc"));
  continent = or_blank (l (codes "continent"));
}

-- result.name
unfoldable pub child : Text → Packet → Option Fields
unfolding text_eq
child name p = if text_eq p.root name then p.body else none

-- includes(root)
unfoldable pub is_root : List Text → Packet → Bool
unfolding text_eq
is_root [] p = false
is_root (name ∷ names) p = text_eq p.root name || is_root names p

-- an event for what is there; its absence is the error that the listener logs
unfoldable pub event_of : {A : Type 0} → (A → Event) → Option A → Option Event
event_of make none = none
event_of make (some a) = some (make a)

-- a || b on elements
unfoldable pub first_of : Option Fields → Option Fields → Option Fields
first_of none b = b
first_of (some a) b = some a

-- Numbers: `number` is Number(), `decimal` is String(), `number_or_0` is `Number(s) || 0`.
module _ (number : Text → Option ℕ) (decimal : ℕ → Text) (number_or_0 : Text → ℕ) where
  unfoldable pub parse_radio : Fields → RadioState
  unfolding or_blank to_bool number_or_zero number_or_null tens_of_hz_to_hz
  parse_radio r = record {
    radio_nr = number_or_zero number decimal (r (codes "RadioNr"));
    station_name = or_else (or_blank (r (codes "StationName"))) (or_blank (r (codes "Station")));
    freq = tens_of_hz_to_hz number decimal (r (codes "Freq"));
    tx_freq = tens_of_hz_to_hz number decimal (r (codes "TXFreq"));
    mode = or_blank (r (codes "Mode"));
    op_call = or_blank (r (codes "OpCall"));
    is_running = to_bool (r (codes "IsRunning"));
    is_transmitting = to_bool (r (codes "IsTransmitting"));
    focus_entry = number_or_null number decimal (r (codes "FocusEntry"));
    antenna = or_blank (r (codes "Antenna"));
    rotator = or_else (or_blank (r (codes "Rotors"))) (or_blank (r (codes "Rotator")));
    focus_radio = number_or_null number decimal (r (codes "FocusRadioNr"));
    active_radio = number_or_null number decimal (r (codes "ActiveRadioNr"));
    function_key_caption = or_blank (r (codes "FunctionKeyCaption"));
  }

  unfoldable pub handle_radio_buffer : Packet → Option Event
  unfolding child event_of parse_radio
  handle_radio_buffer p = event_of (λ c. radio_update (parse_radio c)) (child (codes "RadioInfo") p)

  unfoldable pub handle_score_buffer : Packet → Option Event
  unfolding event_of parse_score
  handle_score_buffer p = event_of (λ s. score_update (parse_score number_or_0 s)) p.results

  unfoldable pub handle_contact_buffer : Packet → Option Event
  unfolding child is_root event_of first_of parse_lookup parse_contact parse_contact_delete
  handle_contact_buffer p =
      if is_root (codes "lookupinfo" ∷ []) p
      then event_of (λ c. lookup_result (parse_lookup c)) (child (codes "lookupinfo") p)
      else if is_root (codes "contactinfo" ∷ codes "contactreplace" ∷ []) p
      then event_of (λ c. contact_new (parse_contact number decimal c))
          (first_of (child (codes "contactinfo") p) (child (codes "contactreplace") p))
      else if is_root (codes "contactdelete" ∷ []) p
      then event_of (λ c. contact_delete (parse_contact_delete c)) (child (codes "contactdelete") p)
      else none

  unfoldable pub route : Packet → Option Event
  unfolding is_root handle_radio_buffer handle_contact_buffer handle_score_buffer
  route p =
      if is_root (codes "RadioInfo" ∷ []) p
      then handle_radio_buffer p
      else if is_root
          (codes "contactinfo"
            ∷ codes "contactreplace"
            ∷ codes "contactdelete"
            ∷ codes "lookupinfo"
            ∷ codes "spot"
            ∷ [])
          p
      then handle_contact_buffer p
      else if is_root (codes "dynamicresults" ∷ codes "rtc" ∷ []) p
      then handle_score_buffer p
      else none

  unfoldable pub handle_any_buffer : Option Packet → Option Event
  unfolding route
  handle_any_buffer none = none
  handle_any_buffer (some p) = route p
