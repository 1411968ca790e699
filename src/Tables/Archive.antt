-- ===== src/Tables/Archive.antt =====
-- analyzed_logs in src/db/queries.js: the table is the list of its rows in the order of their rowids.
use contestscore.Prelude.{
  ℕ, ◌+◌, ◌*◌, Bool, false, not, ◌||◌, List, [], ◌∷◌, ◌++◌, Option, none, some, ltb, leb, ◌==◌,
  take, keep, if◌then◌else◌,
}
use contestscore.Prelude.Text.{Text, text_eq}

-- The values that insertAnalyzedLog writes; the parsed QSOs are a text.
pub record AnalyzedLog : Type 0 where
  pub id : Text
  pub filename : Text
  pub format : Text
  pub contest : Text
  pub contest_key : Option Text
  pub exchange_parsed : Bool
  pub station_call : Text
  pub operators : Text
  pub claimed_score : Option ℕ
  pub qso_count : ℕ
  pub has_points : Bool
  pub has_mults : Bool
  pub has_operator : Bool
  pub has_run_flag : Bool
  pub raw_bytes : ℕ
  pub parsed_json : Text
  pub created_at : ℕ

unfoldable pub has_id : Text → List AnalyzedLog → Bool
unfolding text_eq
has_id id [] = false
has_id id (r ∷ rs) = text_eq r.id id || has_id id rs

-- insertAnalyzedLog; an id that is taken throws
unfoldable pub insert_analyzed_log : AnalyzedLog → List AnalyzedLog → Option (List AnalyzedLog)
unfolding has_id
insert_analyzed_log r table = if has_id r.id table then none else some (table ++ r ∷ [])

unfoldable pub get_analyzed_log : Text → List AnalyzedLog → Option AnalyzedLog
unfolding text_eq
get_analyzed_log id [] = none
get_analyzed_log id (r ∷ rs) =
    let rest = get_analyzed_log id rs in if text_eq r.id id then some r else rest

unfoldable pub delete_analyzed_log : Text → List AnalyzedLog → List AnalyzedLog
unfolding text_eq
delete_analyzed_log id table = keep (λ (r : AnalyzedLog). not (text_eq r.id id)) table

unfoldable pub place_log : AnalyzedLog → List AnalyzedLog → List AnalyzedLog
place_log r [] = r ∷ []
place_log r (x ∷ xs) =
    if ltb r.created_at x.created_at || (r.created_at == x.created_at)
    then x ∷ place_log r xs
    else r ∷ x ∷ xs

-- ORDER BY created_at DESC, rowid DESC
unfoldable pub newest_logs : List AnalyzedLog → List AnalyzedLog
unfolding place_log
newest_logs [] = []
newest_logs (r ∷ rs) = place_log r (newest_logs rs)

-- listAnalyzedLogs
unfoldable pub list_analyzed_logs : ℕ → List AnalyzedLog → List AnalyzedLog
unfolding newest_logs
list_analyzed_logs limit table = take limit (newest_logs table)

-- DELETE ... WHERE created_at < datetime('now', '-n days')
unfoldable pub prune_by_age : ℕ → ℕ → List AnalyzedLog → List AnalyzedLog
prune_by_age now days table =
    keep (λ (r : AnalyzedLog). leb now (r.created_at + days * 86400)) table

-- DELETE ... WHERE id NOT IN (the newest `count` ids)
unfoldable pub prune_by_count : ℕ → List AnalyzedLog → List AnalyzedLog
unfolding list_analyzed_logs has_id
prune_by_count count table =
    keep (λ (r : AnalyzedLog). has_id r.id (list_analyzed_logs count table)) table

-- pruneAnalyzedLogs; 0 turns a bound off
unfoldable pub prune_analyzed_logs : ℕ → ℕ → ℕ → List AnalyzedLog → List AnalyzedLog
unfolding prune_by_age prune_by_count
prune_analyzed_logs now count days table =
    let young = if days == 0 then table else prune_by_age now days table in
    if count == 0 then young else prune_by_count count young
