-- ===== src/Tests/TablesTests.antt =====
-- Runs of the other tables of src/db/queries.js and of src/solar/index.js.
use contestscore.Packets.Score.{Score}
use contestscore.Prelude.{
  ℕ, ◌+◌, ◌≡◌, refl, false, List, [], ◌∷◌, ◌++◌, Option, none, some, arith, length,
}
use contestscore.Prelude.Text.{codes}
use contestscore.Solar.Readings.{
  Reading, get_latest_solar, get_solar_since, is_after, get_solar_for_session, get_solar_before,
  get_solar_in_range, by_time, place, is_lead_in, is_between,
}
use contestscore.Solar.Replica.{missing, copy_pages-replicates}
use contestscore.Solar.Service.{copy_pages, added, time_of}
use contestscore.Solar.Session.{IsSession, get_solar_for_session-IsSession}
use contestscore.Tables.Newest.{IsBreakdown, get_score_breakdown-IsBreakdown}
use contestscore.Tables.Scores.{Snapshot, get_score_breakdown}

abbrev reading : ℕ → Reading
reading t = record {
  sfi = some 150;
  a_index = none;
  k_index = some 3;
  sunspots = none;
  xray = none;
  geomag = none;
  source_updated = none;
  fetched_at = t;
}

abbrev remote : List Reading
remote = reading 7200 ∷ reading 14400 ∷ reading 21600 ∷ []

abbrev local : List Reading
local = reading 7200 ∷ []

-- a service with pages of one row
abbrev pages : ℕ → Option ℕ → Option (List Reading)
pages n after = some (get_solar_since after 1 remote)

copy_pages-replicates_example :
    copy_pages pages 1 4 0 0 local
    ≡ some (local ++ missing local remote, added (0 + length (missing local remote)))
unfolding get_latest_solar time_of is_after
copy_pages-replicates_example =
    copy_pages-replicates pages 0 remote (omega arith) (λ n after. refl) 4 0 0 local (omega arith)

two_copied : copy_pages pages 1 4 0 0 local ≡ some (remote, added 2)
unfolding copy_pages get_solar_since by_time place is_after
two_copied = refl

get_solar_for_session-IsSession_example :
    IsSession 10000 20000 remote (get_solar_for_session 10000 20000 remote)
get_solar_for_session-IsSession_example =
    get_solar_for_session-IsSession 10000 20000 remote (omega arith)

in_effect_first : get_solar_for_session 10000 20000 remote ≡ reading 7200 ∷ reading 14400 ∷ []
unfolding get_solar_for_session get_solar_before get_solar_in_range by_time place is_lead_in
    is_between
in_effect_first = refl

abbrev header : Score
header = record {
  contest = codes "CQ-WW-CW";
  call = codes "K1ABC";
  ops = [];
  power = [];
  assisted = 0;
  transmitter = [];
  category_ops = [];
  category_bands = [];
  category_mode = [];
  overlay = [];
  dxcc_country = [];
  cq_zone = [];
  iaru_zone = [];
  arrl_section = [];
  st_prov_oth = [];
  grid6 = [];
  score_total = 10;
  soft = [];
  timestamp = [];
  breakdown = [];
}

abbrev snapshot : ℕ → Snapshot
snapshot n = record {
  header = header;
  band = some (codes "14");
  mode = some (codes "CW");
  qsos = n;
  points = n;
  mults = none;
  is_total = false;
  captured_at = n;
}

get_score_breakdown-IsBreakdown_example :
    IsBreakdown (snapshot 1 ∷ snapshot 2 ∷ []) (get_score_breakdown (snapshot 1 ∷ snapshot 2 ∷ []))
get_score_breakdown-IsBreakdown_example =
    get_score_breakdown-IsBreakdown (snapshot 1 ∷ snapshot 2 ∷ [])
