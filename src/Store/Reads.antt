-- ===== src/Store/Reads.antt =====
-- What is read back after a write to the qsos table of src/db/queries.js.
use mathlib.Core.Option
use contestscore.Store.Columns.{
  Column, ext_id, Value, null, text, num, sql_eq, is_null, truthy, Qso, normalize_qso, is_ext_id,
}
use contestscore.Store.Qsos.{
  use_id, Row, Table, same_ext_id, any, new_row, append, overwrite, updated, update_rows,
  upsert_qso_by_ext_id, upsert_qso, field, find, get_persisted_qso,
}
use contestscore.Store.Preserved.{upsert_qso_by_ext_id-cases}
use contestscore.Prelude.{
  ◌≡◌, ◌∙◌, refl, sym, ap, inl, inr, Bool, true, false, List, [], ◌∷◌, ◌++◌, Option, none, some,
  arith, Bool-cases, fun_ext,
}
use contestscore.Prelude.Text.{Text, text_eq_iff, text_eq_refl}

pub sql_eq-eq : (a b : Value) → sql_eq a b ≡ true → a ≡ b
unfolding sql_eq
sql_eq-eq null b h = cc
sql_eq-eq (text a) (text b) h = ap text ((text_eq_iff a b).0 h)
sql_eq-eq (num a) (num b) h = ground arith
sql_eq-eq (text a) _ h = cc
sql_eq-eq (num a) _ h = cc

pub sql_eq_self : (a : Value) → is_null a ≡ false → sql_eq a a ≡ true
unfolding sql_eq is_null
sql_eq_self null h = cc
sql_eq_self (text a) h = text_eq_refl a
sql_eq_self (num a) h = ground arith

pub truthy_present : (v : Value) → truthy v ≡ true → is_null v ≡ false
unfolding truthy is_null
truthy_present null h = cc
truthy_present (text s) h = refl
truthy_present (num n) h = refl

is_ext_id-eq : (c : Column) → is_ext_id c ≡ true → c ≡ ext_id
unfolding is_ext_id
is_ext_id-eq ext_id h = refl
is_ext_id-eq _ h = cc

-- the columns of an overwritten row are those that were sent
pub cols-overwrite :
    (full : Column → Value) (r : Row)
    → same_ext_id (full ext_id) r ≡ true
    → (overwrite full r).cols ≡ full
unfolding overwrite same_ext_id
cols-overwrite full r h = fun_ext λ c. elim (Bool-cases (is_ext_id c)) [
  | inl e ↦ rw e (rw (is_ext_id-eq c e) (sql_eq-eq (r.cols ext_id) (full ext_id) h))
  | inr e ↦ rw e
]

pub same_ext_id-overwrite :
    (full : Column → Value) (v : Value) (r : Row)
    → same_ext_id v (overwrite full r) ≡ same_ext_id v r
unfolding same_ext_id overwrite
same_ext_id-overwrite full v r = refl

find-update_rows :
    (full : Column → Value) (rs : List Row)
    → find (same_ext_id (full ext_id)) (update_rows full rs)
      ≡ Option.map (overwrite full) (find (same_ext_id (full ext_id)) rs)
unfolding find update_rows updated
find-update_rows full [] = refl
find-update_rows full (r ∷ rs) = elim (Bool-cases (same_ext_id (full ext_id) r)) [
  | inl e ↦ rw e (rw (same_ext_id-overwrite full (full ext_id) r, e) refl)
  | inr e ↦ rw e (rw e (find-update_rows full rs))
]

pub any-find :
    (p : Row → Bool) (rs : List Row)
    → any p rs ≡ true
    → (r : Row) × (find p rs ≡ some r) × (p r ≡ true)
unfolding any find
any-find p [] h = cc
any-find p (r ∷ rs) h = elim (Bool-cases (p r)) [
  | inl e ↦ (r, rw e refl, e)
  | inr e ↦ let (s, f, q) = any-find p rs (ground arith) in (s, rw e f, q)
]

find-append :
    (p : Row → Bool) (rs : List Row) (r : Row)
    → any p rs ≡ false
    → p r ≡ true
    → (find p rs ≡ none) × (find p (rs ++ r ∷ []) ≡ some r)
unfolding any find
find-append p [] r n h = (refl, rw h refl)
find-append p (s ∷ rs) r n h = ground (arith, find-append p rs r)

-- the time that the row for a QSO carries once it is stored
abbrev pub stamp : Text → Qso → Option Row → Text
stamp now qso none = Option.get_or qso.logged_at now
stamp now qso (some old) = old.logged_at

module _ (qso : Qso) (id : Value) (sent : qso.fields ext_id ≡ some id)
    (sure : truthy id ≡ true) where
  pub normalize_id : normalize_qso qso ext_id ≡ id
  unfolding normalize_qso
  normalize_id = ground arith

  pub get_persisted_by_id :
      (t : Table) → get_persisted_qso qso t ≡ find (same_ext_id (normalize_qso qso ext_id)) t.rows
  unfolding get_persisted_qso field
  get_persisted_by_id t = rw (normalize_id, sent) (rw sure refl)

  pub upsert_by_id :
      (now : Text) (t : Table) → upsert_qso now qso t ≡ upsert_qso_by_ext_id now qso t
  unfolding upsert_qso
  upsert_by_id now t = rw normalize_id (rw sure refl)

  pub same_new_row :
      (now : Text) (t : Table) → same_ext_id (normalize_qso qso ext_id) (new_row now qso t) ≡ true
  unfolding same_ext_id new_row
  same_new_row now t =
      sql_eq_self (normalize_qso qso ext_id) (rw normalize_id (truthy_present id sure))

  -- A QSO sent with an ext_id is read back with every column as sent. It keeps the time at which it
  -- was first stored; a new one has the time that it brings, or else `now`.
  pub get_persisted-upsert :
      (now : Text) (t t' : Table)
      → upsert_qso now qso t ≡ some t'
      → (r : Row) × (get_persisted_qso qso t' ≡ some r)
        × (r.cols ≡ normalize_qso qso)
        × (r.logged_at ≡ stamp now qso (get_persisted_qso qso t))
  unfolding append use_id
  get_persisted-upsert now t t' e =
      let full = normalize_qso qso in
      let mine = same_ext_id (full ext_id) in
      let (c, way) = upsert_qso_by_ext_id-cases now qso t t' (sym (upsert_by_id now t) ∙ e) in
      elim way [
        | inl (old, p) ↦
            let (r, f, same) = any-find mine t.rows old in
            (
              overwrite full r,
              get_persisted_by_id t'
                  ∙ ap (λ (u : Table). find mine u.rows) p
                  ∙ find-update_rows full t.rows
                  ∙ ap (Option.map (overwrite full)) f,
              cols-overwrite full r same,
              unfold overwrite in rw (get_persisted_by_id t, f),
            )
        | inr (new, p) ↦
            let (before, after) =
              find-append mine t.rows (new_row now qso t) new (same_new_row now t) in
            (
              new_row now qso t,
              get_persisted_by_id t' ∙ ap (λ (u : Table). find mine u.rows) p ∙ after,
              unfold new_row in refl,
              unfold new_row in rw (get_persisted_by_id t, before),
            )
      ]
