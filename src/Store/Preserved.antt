-- ===== src/Store/Preserved.antt =====
-- Every statement of src/db/queries.js on the qsos table keeps the table valid.
use contestscore.Store.Columns.{
  Column, ext_id, call, Value, null, text, num, is_null, truthy, Qso, normalize_qso,
}
use contestscore.Store.Qsos.{
  use_id, Row, Table, same_ext_id, clash, any, new_row, append, update_rows, upsert_qso_by_ext_id,
  insert_qso_ignore, upsert_qso, delete_qso, clear_qsos,
}
use contestscore.Prelude.{
  ◌<◌, ◌≡◌, ◌⊎◌, ◌∙◌, refl, inl, inr, true, false, List, some, arith, All, All-keep, All-weaken,
  Bool-cases,
}
use contestscore.Prelude.Text.{Text}
use contestscore.Store.Valid.{
  IsValid, Unique-keep, Increasing-keep, append-IsValid, update_rows-All, update_rows-Unique,
  update_rows-Increasing, id-updated, call-updated, clash_ext_id, any-All,
}

no_clash :
    (full : Column → Value) (rs : List Row)
    → is_null (full ext_id) ≡ false
    → All (λ r. same_ext_id (full ext_id) r ≡ false) rs
    → All (λ r. clash r.cols full ≡ false) rs
unfolding same_ext_id
no_clash full rs n h =
    All-weaken _ (λ r. clash r.cols full ≡ false) (λ r k. clash_ext_id r.cols full (inr n) ∙ k) rs h

truthy-not_null : (v : Value) → truthy v ≡ true → is_null v ≡ false
unfolding truthy is_null
truthy-not_null null h = cc
truthy-not_null (text s) h = refl
truthy-not_null (num n) h = refl

-- The two ways in which the upsert succeeds.
pub upsert_qso_by_ext_id-cases :
    (now : Text) (qso : Qso) (t t' : Table)
    → upsert_qso_by_ext_id now qso t ≡ some t'
    → (is_null (normalize_qso qso call) ≡ false)
      × (((any (same_ext_id (normalize_qso qso ext_id)) t.rows ≡ true)
            × (t' ≡ use_id (record t { rows = update_rows (normalize_qso qso) t.rows })))
          ⊎ ((any (same_ext_id (normalize_qso qso ext_id)) t.rows ≡ false)
              × (t' ≡ append (new_row now qso t) t)))
unfolding upsert_qso_by_ext_id
upsert_qso_by_ext_id-cases now qso t t' e = elim (Bool-cases (is_null (normalize_qso qso call))) [
  | inl missing ↦ absurd (ground arith)
  | inr c ↦ elim (Bool-cases (any (same_ext_id (normalize_qso qso ext_id)) t.rows)) [
    | inl old ↦ (c, inl (old, ground arith))
    | inr new ↦ (c, inr (new, ground arith))
  ]
]

new_row-IsValid :
    (now : Text) (qso : Qso) (t : Table)
    → is_null (normalize_qso qso call) ≡ false
    → All (λ r. clash r.cols (normalize_qso qso) ≡ false) t.rows
    → IsValid t
    → IsValid (append (new_row now qso t) t)
unfolding new_row
new_row-IsValid now qso t c k h = append-IsValid (new_row now qso t) t refl c k h

update-IsValid :
    (full : Column → Value) (t : Table)
    → is_null (full call) ≡ false
    → IsValid t
    → IsValid (record t { rows = update_rows full t.rows })
update-IsValid full t c h = record {
  unique = update_rows-Unique full t.rows h.unique;
  increasing = update_rows-Increasing full t.rows h.increasing;
  numbered = update_rows-All _ _ full (λ r l. rw (id-updated full r) l) t.rows h.numbered;
  called = update_rows-All _ _ full (λ r n. call-updated full r c n) t.rows h.called;
}

use_id-IsValid : (t : Table) → IsValid t → IsValid (use_id t)
unfolding use_id
use_id-IsValid t h = record {
  unique = h.unique;
  increasing = h.increasing;
  numbered = All-weaken (λ r. r.id < t.next_id) _ (λ r l. omega arith) t.rows h.numbered;
  called = h.called;
}

upsert_qso_by_ext_id-IsValid :
    (now : Text) (qso : Qso) (t t' : Table)
    → truthy (normalize_qso qso ext_id) ≡ true
    → upsert_qso_by_ext_id now qso t ≡ some t'
    → IsValid t
    → IsValid t'
upsert_qso_by_ext_id-IsValid now qso t t' id e h =
    let (c, way) = upsert_qso_by_ext_id-cases now qso t t' e in
    elim way [
      | inl (old, p) ↦ rw p (use_id-IsValid _ (update-IsValid (normalize_qso qso) t c h))
      | inr (new, p) ↦ rw p (
          new_row-IsValid now qso t c
            (no_clash (normalize_qso qso) t.rows (truthy-not_null _ id) (any-All _ t.rows new)) h)
    ]

insert_qso_ignore-IsValid :
    (now : Text) (qso : Qso) (t : Table) → IsValid t → IsValid (insert_qso_ignore now qso t)
unfolding insert_qso_ignore
insert_qso_ignore-IsValid now qso t h = elim (Bool-cases (is_null (normalize_qso qso call))) [
  | inl missing ↦ rw missing (use_id-IsValid t h)
  | inr c ↦ elim (Bool-cases (any (λ r. clash r.cols (normalize_qso qso)) t.rows)) [
    | inl old ↦ rw (c, old) (use_id-IsValid t h)
    | inr new ↦ rw (c, new) (new_row-IsValid now qso t c (any-All _ t.rows new) h)
  ]
]

-- No statement brings two rows together that share an ext_id, or that share the natural key with
-- both of them lacking an ext_id; ids stay unique, and no row lacks a call.
pub statements-IsValid :
    (now : Text) (qso : Qso) (t : Table)
    → IsValid t
    → ((t' : Table) → upsert_qso now qso t ≡ some t' → IsValid t')
      × IsValid (delete_qso qso t)
      × IsValid (clear_qsos t)
unfolding upsert_qso delete_qso clear_qsos
statements-IsValid now qso t h = (
  λ t' e. elim (Bool-cases (truthy (normalize_qso qso ext_id))) [
    | inl id ↦ upsert_qso_by_ext_id-IsValid now qso t t' id (ground arith) h
    | inr blank ↦
        let p : insert_qso_ignore now qso t ≡ t' = ground arith in
        rw (← p) (insert_qso_ignore-IsValid now qso t h)
  ],
  record {
    unique = Unique-keep _ t.rows h.unique;
    increasing = Increasing-keep _ t.rows h.increasing;
    numbered = All-keep _ _ t.rows h.numbered;
    called = All-keep _ _ t.rows h.called;
  },
  record { unique = tt; increasing = tt; numbered = tt; called = tt },
)
