-- ===== src/Store/Writes.antt =====
-- What a write to the qsos table of src/db/queries.js leaves alone.
use contestscore.Store.Columns.{
  Column, ext_id, Value, sql_eq, truthy, Qso, normalize_qso, is_ext_id,
}
use contestscore.Store.Qsos.{
  use_id, Row, Table, same_ext_id, any, new_row, append, overwrite, updated, update_rows,
  upsert_qso_by_ext_id, upsert_qso, find, get_persisted_qso,
}
use contestscore.Store.Preserved.{upsert_qso_by_ext_id-cases}
use contestscore.Store.Reads.{
  sql_eq-eq, cols-overwrite, same_ext_id-overwrite, normalize_id, same_new_row, upsert_by_id,
  get_persisted_by_id,
}
use contestscore.Prelude.{
  ◌≡◌, ◌≢◌, ◌∙◌, refl, sym, ap, inl, inr, Bool, true, false, List, [], ◌∷◌, ◌++◌, some, arith,
  Bool-cases, fun_ext, if◌then◌else◌,
}
use contestscore.Prelude.Text.{Text}

-- overwriting a row with its own columns
overwrite_same : (full : Column → Value) (r : Row) → r.cols ≡ full → overwrite full r ≡ r
unfolding overwrite
overwrite_same full r h = λ i. record { id = r.id; cols = cols i; logged_at = r.logged_at }
  where
    cols : (λ c. if is_ext_id c then r.cols c else full c) ≡ r.cols
    cols = fun_ext λ c. elim (Bool-cases (is_ext_id c)) [
      | inl e ↦ rw e
      | inr e ↦ rw e (ap (λ (f : Column → Value). f c) (sym h))
    ]

updated_same : (full : Column → Value) (r : Row) → r.cols ≡ full → updated full r ≡ r
unfolding updated
updated_same full r h = elim (Bool-cases (same_ext_id (full ext_id) r)) [
  | inl e ↦ rw e (overwrite_same full r h)
  | inr e ↦ rw e
]

updated_idem : (full : Column → Value) (r : Row) → updated full (updated full r) ≡ updated full r
unfolding updated
updated_idem full r = elim (Bool-cases (same_ext_id (full ext_id) r)) [
  | inl e ↦ rw e (
      rw (same_ext_id-overwrite full (full ext_id) r, e)
        (overwrite_same full (overwrite full r) (cols-overwrite full r e)))
  | inr e ↦ rw e (rw e refl)
]

update_rows_idem :
    (full : Column → Value) (rs : List Row)
    → update_rows full (update_rows full rs) ≡ update_rows full rs
unfolding update_rows
update_rows_idem full [] = refl
update_rows_idem full (r ∷ rs) = rw (updated_idem full r, update_rows_idem full rs)

update_rows-append :
    (full : Column → Value) (rs : List Row) (r : Row)
    → any (same_ext_id (full ext_id)) rs ≡ false
    → r.cols ≡ full
    → update_rows full (rs ++ r ∷ []) ≡ rs ++ r ∷ []
unfolding update_rows any
update_rows-append full [] r n h = rw (updated_same full r h)
update_rows-append full (s ∷ rs) r n h =
    let skip : updated full s ≡ s = unfold updated in ground arith in
    rw (skip, update_rows-append full rs r (ground arith) h)

any-append : (p : Row → Bool) (rs : List Row) (r : Row) → p r ≡ true → any p (rs ++ r ∷ []) ≡ true
unfolding any
any-append p [] r h = rw h
any-append p (s ∷ rs) r h = ground (arith, any-append p rs r)

any-update_rows :
    (full : Column → Value) (v : Value) (rs : List Row)
    → any (same_ext_id v) (update_rows full rs) ≡ any (same_ext_id v) rs
unfolding any update_rows updated
any-update_rows full v [] = refl
any-update_rows full v (r ∷ rs) =
    ground (arith, any-update_rows full v rs, same_ext_id-overwrite full v r)

-- Another ext_id is found where it was.
find-update_rows_ne :
    (full : Column → Value) (v : Value) (rs : List Row)
    → full ext_id ≢ v
    → find (same_ext_id v) (update_rows full rs) ≡ find (same_ext_id v) rs
unfolding find update_rows updated same_ext_id overwrite is_ext_id
find-update_rows_ne full v [] n = refl
find-update_rows_ne full v (r ∷ rs) n = ground (
  arith,
  find-update_rows_ne full v rs n,
  sql_eq-eq (r.cols ext_id) (full ext_id),
  sql_eq-eq (r.cols ext_id) v,
)

find-append_ne :
    (p : Row → Bool) (rs : List Row) (r : Row) → p r ≡ false → find p (rs ++ r ∷ []) ≡ find p rs
unfolding find
find-append_ne p [] r h = rw h refl
find-append_ne p (s ∷ rs) r h = ground (arith, find-append_ne p rs r)

new_row_ne :
    (now : Text) (qso : Qso) (v : Value) (t : Table)
    → normalize_qso qso ext_id ≢ v
    → same_ext_id v (new_row now qso t) ≡ false
unfolding same_ext_id new_row
new_row_ne now qso v t n = elim (Bool-cases (sql_eq (normalize_qso qso ext_id) v)) [
  | inl e ↦ absurd (n (sql_eq-eq (normalize_qso qso ext_id) v e))
  | inr e ↦ e
]

module _ (qso : Qso) (id : Value) (sent : qso.fields ext_id ≡ some id)
    (sure : truthy id ≡ true) where
  -- A QSO sent once more with the same ext_id and the same fields, at whatever time, changes no row; an
  -- id is used up.
  pub upsert-upsert :
      (now later : Text) (t t' : Table)
      → upsert_qso now qso t ≡ some t'
      → upsert_qso later qso t' ≡ some (use_id t')
  unfolding append use_id
  upsert-upsert now later t t' e =
      let full = normalize_qso qso in
      let (c, way) =
        upsert_qso_by_ext_id-cases now qso t t' (sym (upsert_by_id qso id sent sure now t) ∙ e) in
      upsert_by_id qso id sent sure later t' ∙ elim way [
        | inl (old, p) ↦ rw p (
            unfold upsert_qso_by_ext_id in
            rw (c, any-update_rows full (full ext_id) t.rows, old, update_rows_idem full t.rows)
              refl)
        | inr (new, p) ↦ rw p (
            unfold upsert_qso_by_ext_id in
            rw
              (
                c,
                any-append (same_ext_id (full ext_id)) t.rows (new_row now qso t)
                    (same_new_row qso id sent sure now t),
                update_rows-append full t.rows (new_row now qso t) new (unfold new_row in refl),
              )
              refl)
      ]

  -- It leaves what is read back for any other ext_id as it was.
  pub get_persisted-upsert_ne :
      (other : Qso) (j : Value)
      → other.fields ext_id ≡ some j
      → truthy j ≡ true
      → id ≢ j
      → (now : Text) (t t' : Table) → upsert_qso now qso t ≡ some t'
      → get_persisted_qso other t' ≡ get_persisted_qso other t
  unfolding append use_id
  get_persisted-upsert_ne other j sent_j sure_j differ now t t' e =
      let full = normalize_qso qso in
      let v = normalize_qso other ext_id in
      let apart : full ext_id ≢ v =
        rw (normalize_id qso id sent sure, normalize_id other j sent_j sure_j) differ in
      let (c, way) =
        upsert_qso_by_ext_id-cases now qso t t' (sym (upsert_by_id qso id sent sure now t) ∙ e) in
      get_persisted_by_id other j sent_j sure_j t'
      ∙ elim way [
        | inl (old, p) ↦
            ap (λ (u : Table). find (same_ext_id v) u.rows) p
            ∙ find-update_rows_ne full v t.rows apart
        | inr (new, p) ↦
            ap (λ (u : Table). find (same_ext_id v) u.rows) p
            ∙ find-append_ne (same_ext_id v) t.rows (new_row now qso t)
                (new_row_ne now qso v t apart)
      ]
      ∙ sym (get_persisted_by_id other j sent_j sure_j t)
