-- ===== src/Store/Valid.antt =====
-- The unique indexes of the qsos table (src/db/schema.sql) hold after every statement.
use contestscore.Store.Columns.{Column, ext_id, call, Value, null, text, num, sql_eq, is_null}
use contestscore.Store.Qsos.{
  Row, Table, same_ext_id, clash, any, append, overwrite, updated, update_rows,
}
use contestscore.Prelude.{
  ◌+◌, ◌<◌, ◌≡◌, ◌⊎◌, ◌∙◌, sym, inl, inr, Bool, true, false, List, [], ◌∷◌, ◌++◌, arith, keep, All,
  All-append, All-keep, All-weaken, Bool-cases,
}

-- No two rows collide in one of the two unique indexes.
abbrev pub Unique : List Row → Type 0
Unique [] = Unit
Unique (r ∷ rs) = All (λ s. clash r.cols s.cols ≡ false) rs × Unique rs

-- Ids grow from row to row, so they identify the rows.
abbrev pub Increasing : List Row → Type 0
Increasing [] = Unit
Increasing (r ∷ rs) = All (λ s. r.id < s.id) rs × Increasing rs

pub record IsValid (t : Table) : Type 0 where
  pub unique : Unique t.rows
  pub increasing : Increasing t.rows
  pub numbered : All (λ r. r.id < t.next_id) t.rows
  pub called : All (λ r. is_null (r.cols call) ≡ false) t.rows

Unique-append :
    (rs : List Row) (r : Row)
    → Unique rs
    → All (λ s. clash s.cols r.cols ≡ false) rs
    → Unique (rs ++ r ∷ [])
Unique-append [] r h k = (tt, tt)
Unique-append (s ∷ rs) r h k =
    (All-append (λ u. clash s.cols u.cols ≡ false) rs r h.0 k.0, Unique-append rs r h.1 k.1)

Increasing-append :
    (rs : List Row) (r : Row)
    → Increasing rs
    → All (λ s. s.id < r.id) rs
    → Increasing (rs ++ r ∷ [])
Increasing-append [] r h k = (tt, tt)
Increasing-append (s ∷ rs) r h k =
    (All-append (λ u. s.id < u.id) rs r h.0 k.0, Increasing-append rs r h.1 k.1)

pub Unique-keep : (p : Row → Bool) (rs : List Row) → Unique rs → Unique (keep p rs)
Unique-keep p [] h = tt
Unique-keep p (r ∷ rs) h = elim (Bool-cases (p r)) [
  | inl e ↦ rw e (All-keep (λ s. clash r.cols s.cols ≡ false) p rs h.0, Unique-keep p rs h.1)
  | inr e ↦ rw e (Unique-keep p rs h.1)
]

pub Increasing-keep : (p : Row → Bool) (rs : List Row) → Increasing rs → Increasing (keep p rs)
Increasing-keep p [] h = tt
Increasing-keep p (r ∷ rs) h = elim (Bool-cases (p r)) [
  | inl e ↦ rw e (All-keep (λ s. r.id < s.id) p rs h.0, Increasing-keep p rs h.1)
  | inr e ↦ rw e (Increasing-keep p rs h.1)
]

pub any-All : (p : Row → Bool) (rs : List Row) → any p rs ≡ false → All (λ r. p r ≡ false) rs
unfolding any
any-All p [] h = tt
any-All p (r ∷ rs) h = (ground arith, any-All p rs (ground arith))

pub append-IsValid :
    (r : Row) (t : Table)
    → r.id ≡ t.next_id
    → is_null (r.cols call) ≡ false
    → All (λ s. clash s.cols r.cols ≡ false) t.rows
    → IsValid t
    → IsValid (append r t)
unfolding append
append-IsValid r t e c k h = record {
  unique = Unique-append t.rows r h.unique k;
  increasing = Increasing-append t.rows r h.increasing (rw e h.numbered);
  numbered =
      All-append (λ s. s.id < t.next_id + 1) t.rows r
        (All-weaken (λ s. s.id < t.next_id) _ (λ s l. omega arith) t.rows h.numbered) (omega arith);
  called = All-append (λ s. is_null (s.cols call) ≡ false) t.rows r h.called c;
}

ext_id-updated : (full : Column → Value) (r : Row) → (updated full r).cols ext_id ≡ r.cols ext_id
unfolding updated overwrite
ext_id-updated full r = ground arith

pub not-null_of_eq : (a b : Value) → sql_eq a b ≡ true → (is_null a ≡ false) × (is_null b ≡ false)
unfolding sql_eq is_null
not-null_of_eq null b h = cc
not-null_of_eq (text a) b h = ground arith
not-null_of_eq (num a) b h = ground arith

-- Between rows of which one has an ext_id only the ext_ids count.
pub clash_ext_id :
    (a b : Column → Value)
    → (is_null (a ext_id) ≡ false) ⊎ (is_null (b ext_id) ≡ false)
    → clash a b ≡ sql_eq (a ext_id) (b ext_id)
unfolding clash
clash_ext_id a b h = ground arith

clash-updated :
    (full : Column → Value) (r s : Row)
    → clash (updated full r).cols (updated full s).cols ≡ clash r.cols s.cols
clash-updated full r s = elim (Bool-cases (same_ext_id (full ext_id) r)) [
  | inl e ↦
      one_sided (inl (not-null_of_eq (r.cols ext_id) (full ext_id) (unfold same_ext_id in e)).0)
  | inr e ↦ elim (Bool-cases (same_ext_id (full ext_id) s)) [
    | inl f ↦
        one_sided (inr (not-null_of_eq (s.cols ext_id) (full ext_id) (unfold same_ext_id in f)).0)
    | inr f ↦ unfold updated in rw (e, f)
  ]
]
  where
    one_sided :
        (is_null (r.cols ext_id) ≡ false) ⊎ (is_null (s.cols ext_id) ≡ false)
        → clash (updated full r).cols (updated full s).cols ≡ clash r.cols s.cols
    one_sided h =
        clash_ext_id (updated full r).cols (updated full s).cols
          (rw (ext_id-updated full r, ext_id-updated full s) h)
        ∙ rw (ext_id-updated full r, ext_id-updated full s) (sym (clash_ext_id r.cols s.cols h))

-- A property of rows that `updated` keeps.
pub update_rows-All :
    (P Q : Row → Type 0) (full : Column → Value)
    → ((s : Row) → P s → Q (updated full s))
    → (rs : List Row) → All P rs
    → All Q (update_rows full rs)
unfolding update_rows
update_rows-All P Q full f [] h = tt
update_rows-All P Q full f (s ∷ rs) h = (f s h.0, update_rows-All P Q full f rs h.1)

pub update_rows-Unique :
    (full : Column → Value) (rs : List Row) → Unique rs → Unique (update_rows full rs)
unfolding update_rows
update_rows-Unique full [] h = tt
update_rows-Unique full (r ∷ rs) h = (
  update_rows-All _ _ full (λ s e. clash-updated full r s ∙ e) rs h.0,
  update_rows-Unique full rs h.1,
)

pub id-updated : (full : Column → Value) (r : Row) → (updated full r).id ≡ r.id
unfolding updated overwrite
id-updated full r = ground arith

pub update_rows-Increasing :
    (full : Column → Value) (rs : List Row) → Increasing rs → Increasing (update_rows full rs)
unfolding update_rows
update_rows-Increasing full [] h = tt
update_rows-Increasing full (r ∷ rs) h = (
  update_rows-All _ _ full (λ s e. rw (id-updated full r, id-updated full s) e) rs h.0,
  update_rows-Increasing full rs h.1,
)

pub call-updated :
    (full : Column → Value) (r : Row)
    → is_null (full call) ≡ false
    → is_null (r.cols call) ≡ false
    → is_null ((updated full r).cols call) ≡ false
unfolding updated overwrite
call-updated full r c h = ground arith
