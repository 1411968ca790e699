-- ===== src/Tests/BrokerTests.antt =====
-- Runs of hamdata/broker.js.
use contestscore.Broker.{
  Broker, CallRecord, answer, cached_record, fresh_row, fresh_record, ttl_of, is_young, launch,
  as_found, settle_record, get_call, start_request, set_paused, new_broker,
}
use contestscore.Broker.Drain.{Upstream, at_once, after, get_call-after_settle}
use contestscore.Broker.Flight.{
  IsOrderly, here, next, asked, started, switched, Reach-IsOrderly, get_call-paused,
}
use contestscore.JsMap.{get}
use contestscore.Lookup.Service.{has}
use contestscore.Prelude.{◌+◌, ◌≡◌, if◌then◌else◌, none, refl, true, false, [], ◌∷◌, some, arith}
use contestscore.Prelude.Text.{codes, text_eq, text_key}

abbrev idle_broker : Broker
idle_broker = new_broker [] false

abbrev asked_broker : Broker
asked_broker = (get_call true 1000 (codes "W1AW") idle_broker).1

Reach-IsOrderly_example : IsOrderly (start_request asked_broker)
unfolding get_call cached_record fresh_row get launch has new_broker
Reach-IsOrderly_example = Reach-IsOrderly {has_client = true} {between_ms = 350} [] false (
    next (next here (asked 1000 (codes "W1AW") idle_broker))
      (started 1000 (codes "W1AW") [] asked_broker refl refl (omega arith)))

abbrev known : CallRecord
known = record { fields = []; found = some true }

abbrev stopped_broker : Broker
stopped_broker =
    new_broker
      ((codes "W1AW", record { stored = some known; source = codes "hamqth"; cached_at = some 0 })
        ∷ [])
      true

get_call-paused_example :
    ((get_call true 1000 (codes "W1AW") stopped_broker).1.chain ≡ stopped_broker.chain)
    × ((rec : CallRecord)
        → cached_record 1000 (codes "W1AW") stopped_broker ≡ some rec
        → (get_call true 1000 (codes "W1AW") stopped_broker).0 ≡ answer rec)
unfolding new_broker
get_call-paused_example = get_call-paused true 1000 (codes "W1AW") stopped_broker refl

-- a record that was found is good for half a year
still_fresh : cached_record 1000 (codes "W1AW") stopped_broker ≡ some known
unfolding cached_record fresh_row fresh_record ttl_of is_young get new_broker text_eq
still_fresh = refl

-- what is no call is answered with an error
abbrev choosy : Upstream
choosy = record {
  outcome = λ call. if text_eq call (codes "W1AW") then some known else none;
  ends = λ call. 5000;
  saved = λ call. true;
}

abbrev settled_broker : Broker
settled_broker = settle_record true 5000 5000 (codes "W1AW") [] known stopped_broker

get_call-after_settle_example :
    get_call true 9000 (codes "W1AW") (set_paused false settled_broker) ≡ (
      answer (as_found known),
      record (set_paused false settled_broker) {
        hits = (set_paused false settled_broker).hits + 1;
      },
    )
unfolding ttl_of as_found
get_call-after_settle_example =
    get_call-after_settle {has_client = true} {between_ms = 350} 5000 5000 9000 (codes "W1AW") []
      known stopped_broker (set_paused false settled_broker)
      (after at_once (switched false settled_broker) tt) (omega arith)
