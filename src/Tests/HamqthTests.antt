-- ===== src/Tests/HamqthTests.antt =====
-- Runs of src/lookup/hamqth.js.
use contestscore.Hamqth
use contestscore.Hamqth.{
  Root, Request, auth, query, Response, page, unreachable, session_died, ok, err, Answer, Client,
  new_client, child_text, read_session, read_search, read_error, root_of, send, now_of, accept,
  session_of, authenticate, is_current, query_once, not_found, answer_of,
}
use contestscore.Hamqth.Retry.{Sends, Answered, lookup-Sends}
use contestscore.Packets.Fields.{Fields}
use contestscore.Prelude.{ℕ, zero, suc, [], none, some, if◌then◌else◌}
use contestscore.Prelude.Text.{Text, codes, text_eq, to_upper_case, trim}

abbrev one_field : Text → Text → Fields
one_field name value k = if text_eq name k then some value else none

abbrev session_page : Text → Text → Response
session_page name value =
    page (some (record { session = some (one_field name value); search = none }))

-- the session has died; a new one is given; the call is not known
abbrev served : ℕ → Request → Response
served zero q = session_page (codes "error") (codes "Session does not exist or expired")
served (suc zero) q = session_page (codes "session_id") (codes "B")
served (suc (suc n)) q = session_page (codes "error") (codes "Callsign not found")

abbrev clock : ℕ → ℕ
clock n = 1000

abbrev with_session : Client
with_session = record { session_id = some (codes "A"); session_at = 0; sent = [] }

lookup-Sends_example :
    Sends with_session 4 (Hamqth.lookup served clock (codes "w1aw") with_session).1
    × Answered
        (to_upper_case (trim (codes "w1aw")))
        (Hamqth.lookup served clock (codes "w1aw") with_session)
lookup-Sends_example = lookup-Sends served clock (codes "w1aw") with_session
