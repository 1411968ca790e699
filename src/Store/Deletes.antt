-- ===== src/Store/Deletes.antt =====
-- deleteQso of src/db/queries.js: what is gone afterwards, and what cannot be touched.
use contestscore.Store.Columns.{ext_id, Value, sql_eq, is_null, truthy, Qso, normalize_qso}
use contestscore.Store.Qsos.{
  Row, Table, same_ext_id, field, deleted, delete_qso, find, get_persisted_qso, matches_fallback,
  matches_natural_key, find_newest, newer,
}
use contestscore.Store.Reads.{sql_eq-eq, get_persisted_by_id, normalize_id}
use contestscore.Prelude.{
  ◌<◌, ◌≡◌, ◌≢◌, ◌∙◌, refl, sym, ap, inl, inr, Bool, true, false, not, List, [], ◌∷◌, ◌++◌, none,
  some, arith, All, keep, Bool-cases,
}

find-removed : (p : Row → Bool) (rs : List Row) → find p (keep (λ r. not (p r)) rs) ≡ none
unfolding find
find-removed p [] = refl
find-removed p (r ∷ rs) = elim (Bool-cases (p r)) [
  | inl e ↦ rw e (find-removed p rs)
  | inr e ↦ rw e (rw e (find-removed p rs))
]

find-keep_other :
    (p q : Row → Bool)
    → ((r : Row) → p r ≡ true → q r ≡ false)
    → (rs : List Row) → find p (keep (λ r. not (q r)) rs) ≡ find p rs
unfolding find
find-keep_other p q apart [] = refl
find-keep_other p q apart (r ∷ rs) = elim (Bool-cases (p r)) [
  | inl e ↦ rw (apart r e, e)
  | inr e ↦ elim (Bool-cases (q r)) [
    | inl f ↦ rw f (rw e (find-keep_other p q apart rs))
    | inr f ↦ rw f (rw e (find-keep_other p q apart rs))
  ]
]

same_ext_id_apart :
    (v w : Value) → v ≢ w → (r : Row) → same_ext_id w r ≡ true → same_ext_id v r ≡ false
unfolding same_ext_id
same_ext_id_apart v w n r e = elim (Bool-cases (sql_eq (r.cols ext_id) v)) [
  | inl f ↦ absurd (n (sym (sql_eq-eq (r.cols ext_id) v f) ∙ sql_eq-eq (r.cols ext_id) w e))
  | inr f ↦ f
]

found_by :
    (q : Qso) (id : Value) (t : Table)
    → q.fields ext_id ≡ some id
    → truthy id ≡ true
    → get_persisted_qso q t ≡ find (same_ext_id id) t.rows
found_by q id t sent sure =
    get_persisted_by_id q id sent sure t
    ∙ ap (λ (v : Value). find (same_ext_id v) t.rows) (normalize_id q id sent sure)

rows-delete_qso :
    (q : Qso) (id : Value) (t : Table)
    → q.fields ext_id ≡ some id
    → truthy id ≡ true
    → (delete_qso q t).rows ≡ keep (λ r. not (same_ext_id id r)) t.rows
unfolding delete_qso deleted field
rows-delete_qso q id t sent sure = rw sent (rw sure refl)

pub delete_qso-gone :
    (qso reader : Qso) (id : Value) (t : Table)
    → qso.fields ext_id ≡ some id
    → reader.fields ext_id ≡ some id
    → truthy id ≡ true
    → get_persisted_qso reader (delete_qso qso t) ≡ none
delete_qso-gone qso reader id t sent asked sure =
    found_by reader id (delete_qso qso t) asked sure
    ∙ ap (find (same_ext_id id)) (rows-delete_qso qso id t sent sure)
    ∙ find-removed (same_ext_id id) t.rows

-- A delete with an ext_id: that QSO is no longer found, and what is found under any other ext_id
-- stays as it was.
pub delete_qso_by_id :
    (qso other : Qso) (id j : Value) (t : Table)
    → qso.fields ext_id ≡ some id
    → truthy id ≡ true
    → other.fields ext_id ≡ some j
    → truthy j ≡ true
    → id ≢ j
    → (get_persisted_qso qso (delete_qso qso t) ≡ none)
      × (get_persisted_qso other (delete_qso qso t) ≡ get_persisted_qso other t)
delete_qso_by_id qso other id j t sent sure sent_j sure_j differ =
    let after = delete_qso qso t in
    let rows = rows-delete_qso qso id t sent sure in
    (
      found_by qso id after sent sure
          ∙ ap (find (same_ext_id id)) rows
          ∙ find-removed (same_ext_id id) t.rows,
      found_by other j after sent_j sure_j
          ∙ ap (find (same_ext_id j)) rows
          ∙ find-keep_other (same_ext_id j) (same_ext_id id) (same_ext_id_apart id j differ) t.rows
          ∙ sym (found_by other j t sent_j sure_j),
    )

not-null_of_same : (v : Value) (r : Row) → same_ext_id v r ≡ true → is_null (r.cols ext_id) ≡ false
unfolding same_ext_id sql_eq is_null
not-null_of_same v r h = ground arith

-- A delete with no ext_id never touches a row that has one.
pub delete_qso-fallback :
    (qso other : Qso) (j : Value) (t : Table)
    → truthy (field qso ext_id) ≡ false
    → other.fields ext_id ≡ some j
    → truthy j ≡ true
    → get_persisted_qso other (delete_qso qso t) ≡ get_persisted_qso other t
unfolding delete_qso deleted
delete_qso-fallback qso other j t blank sent_j sure_j =
    get_persisted_by_id other j sent_j sure_j (delete_qso qso t)
    ∙ rw blank (
        find-keep_other (same_ext_id (normalize_qso other ext_id)) (matches_fallback qso)
          (λ r e.
            unfold matches_fallback in rw (not-null_of_same (normalize_qso other ext_id) r e) refl)
          t.rows)
    ∙ sym (get_persisted_by_id other j sent_j sure_j t)

find_newest-append :
    (p : Row → Bool) (rs : List Row) (r : Row)
    → All (λ s. s.id < r.id) rs
    → p r ≡ true
    → find_newest p (rs ++ r ∷ []) ≡ some r
unfolding find_newest newer
find_newest-append p [] r h e = rw e refl
find_newest-append p (s ∷ rs) r h e = rw (find_newest-append p rs r h.1 e) (ground (arith, h.0))

-- Without an ext_id the read-back goes by the natural key alone: if the newest row matches it, that
-- row is returned, also when it carries an ext_id and so is no row that this QSO can have written.
pub get_persisted-natural_key :
    (qso : Qso) (rs : List Row) (r : Row) (t : Table)
    → truthy (field qso ext_id) ≡ false
    → t.rows ≡ rs ++ r ∷ []
    → All (λ s. s.id < r.id) rs
    → matches_natural_key qso r ≡ true
    → get_persisted_qso qso t ≡ some r
unfolding get_persisted_qso
get_persisted-natural_key qso rs r t blank shape later e =
    rw (blank, shape) (find_newest-append (matches_natural_key qso) rs r later e)
