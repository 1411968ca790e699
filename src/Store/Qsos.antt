-- ===== src/Store/Qsos.antt =====
-- The statements of src/db/queries.js on the qsos table, under the two partial unique indexes of
-- src/db/schema.sql. `now` is datetime('now').
use mathlib.Core.Option
use contestscore.Store.Columns.{
  Column, ext_id, call, band, mode, mycall, contestnr, Value, null, truthy, is_null, sql_eq,
  or_empty, Qso, normalize_qso, is_ext_id,
}
use contestscore.Prelude.{
  ℕ, ◌+◌, Bool, false, not, ◌&&◌, ◌||◌, List, [], ◌∷◌, ◌++◌, Option, none, some, map, keep, ltb,
  if◌then◌else◌,
}
use contestscore.Prelude.Text.{Text}

pub record Row : Type 0 where
  pub id : ℕ
  pub cols : Column → Value
  pub logged_at : Text

pub record Table : Type 0 where
  pub rows : List Row
  pub next_id : ℕ

abbrev pub empty : Table
empty = record { rows = []; next_id = 1 }

unfoldable pub same_ext_id : Value → Row → Bool
unfolding sql_eq
same_ext_id v r = sql_eq (r.cols ext_id) v

-- idx_qsos_natural_key, on the columns of a row
unfoldable pub same_natural_key : (Column → Value) → (Column → Value) → Bool
unfolding sql_eq
same_natural_key a b =
    sql_eq (a call) (b call)
    && sql_eq (a band) (b band)
    && sql_eq (a mode) (b mode)
    && sql_eq (a contestnr) (b contestnr)
    && sql_eq (a mycall) (b mycall)

-- Two rows that one of the unique indexes does not let stand together.
unfoldable pub clash : (Column → Value) → (Column → Value) → Bool
unfolding is_null same_natural_key
clash a b =
    sql_eq (a ext_id) (b ext_id)
    || (is_null (a ext_id) && is_null (b ext_id) && same_natural_key a b)

unfoldable pub any : (Row → Bool) → List Row → Bool
any p [] = false
any p (r ∷ rs) = p r || any p rs

-- COALESCE(@logged_at, datetime('now'))
unfoldable pub new_row : Text → Qso → Table → Row
unfolding normalize_qso
new_row now qso t = record {
  id = t.next_id;
  cols = normalize_qso qso;
  logged_at = Option.get_or qso.logged_at now;
}

unfoldable pub append : Row → Table → Table
append r t = record { rows = t.rows ++ r ∷ []; next_id = t.next_id + 1 }

-- an insert that meets a conflict: AUTOINCREMENT has used up an id
unfoldable pub use_id : Table → Table
use_id t = record t { next_id = t.next_id + 1 }

-- the DO UPDATE SET of upsertQsoByExtId: every column but ext_id, and not logged_at
unfoldable pub overwrite : (Column → Value) → Row → Row
unfolding is_ext_id
overwrite full r = record r { cols = λ c. if is_ext_id c then r.cols c else full c }

unfoldable pub updated : (Column → Value) → Row → Row
unfolding overwrite same_ext_id
updated full r = if same_ext_id (full ext_id) r then overwrite full r else r

unfoldable pub update_rows : (Column → Value) → List Row → List Row
unfolding updated
update_rows full = map (updated full)

-- `call` is NOT NULL: this statement then throws, which is `none`
unfoldable pub upsert_qso_by_ext_id : Text → Qso → Table → Option Table
unfolding any update_rows use_id append new_row
upsert_qso_by_ext_id now qso t =
    let full = normalize_qso qso in
    if is_null (full call)
    then none
    else if any (same_ext_id (full ext_id)) t.rows
    then some (use_id (record t { rows = update_rows full t.rows }))
    else some (append (new_row now qso t) t)

-- INSERT OR IGNORE
unfoldable pub insert_qso_ignore : Text → Qso → Table → Table
unfolding any clash use_id append new_row
insert_qso_ignore now qso t =
    let full = normalize_qso qso in
    if is_null (full call) || any (λ r. clash r.cols full) t.rows
    then use_id t
    else append (new_row now qso t) t

unfoldable pub upsert_qso : Text → Qso → Table → Option Table
unfolding upsert_qso_by_ext_id insert_qso_ignore truthy
upsert_qso now qso t =
    if truthy (normalize_qso qso ext_id)
    then upsert_qso_by_ext_id now qso t
    else some (insert_qso_ignore now qso t)

-- qso.key, `undefined` counting as null
unfoldable pub field : Qso → Column → Value
field qso c = Option.get_or (qso.fields c) null

-- the WHERE of _deleteQsoFallback
unfoldable pub matches_fallback : Qso → Row → Bool
unfolding field sql_eq or_empty is_null
matches_fallback qso r =
    is_null (r.cols ext_id)
    && sql_eq (r.cols call) (or_empty (field qso call))
    && sql_eq (r.cols band) (or_empty (field qso band))
    && sql_eq (r.cols mycall) (or_empty (field qso mycall))
    && sql_eq (r.cols contestnr) (or_empty (field qso contestnr))

unfoldable pub deleted : Qso → Row → Bool
unfolding field truthy same_ext_id matches_fallback
deleted qso =
    if truthy (field qso ext_id) then same_ext_id (field qso ext_id) else matches_fallback qso

unfoldable pub delete_qso : Qso → Table → Table
unfolding deleted
delete_qso qso t = record t { rows = keep (λ r. not (deleted qso r)) t.rows }

-- DELETE FROM qsos; AUTOINCREMENT goes on counting
unfoldable pub clear_qsos : Table → Table
clear_qsos t = record t { rows = [] }

unfoldable pub find : (Row → Bool) → List Row → Option Row
find p [] = none
find p (r ∷ rs) = if p r then some r else find p rs

-- ORDER BY id DESC LIMIT 1
unfoldable pub newer : Row → Option Row → Option Row
newer r none = some r
newer r (some s) = if ltb s.id r.id then some r else some s

unfoldable pub find_newest : (Row → Bool) → List Row → Option Row
unfolding newer
find_newest p [] = none
find_newest p (r ∷ rs) = if p r then newer r (find_newest p rs) else find_newest p rs

unfoldable pub matches_natural_key : Qso → Row → Bool
unfolding field sql_eq or_empty
matches_natural_key qso r =
    sql_eq (r.cols call) (or_empty (field qso call))
    && sql_eq (r.cols band) (or_empty (field qso band))
    && sql_eq (r.cols mode) (or_empty (field qso mode))
    && sql_eq (r.cols contestnr) (or_empty (field qso contestnr))
    && sql_eq (r.cols mycall) (or_empty (field qso mycall))

unfoldable pub get_persisted_qso : Qso → Table → Option Row
unfolding field truthy find same_ext_id find_newest matches_natural_key
get_persisted_qso qso t =
    if truthy (field qso ext_id)
    then find (same_ext_id (field qso ext_id)) t.rows
    else find_newest (matches_natural_key qso) t.rows
