-- ===== src/Tables/Newest.antt =====
-- What getScoreBreakdown of src/db/queries.js answers.
use contestscore.Prelude.{
  ◌≡◌, ◌∙◌, refl, sym, ap, ◌⊎◌, inl, inr, true, false, List, [], ◌∷◌, ◌++◌, Option, none, some,
  arith, In, Bool-cases,
}
use contestscore.Prelude.Text.{Text, text_eq_iff}
use contestscore.Tables.Scores.{
  Snapshot, same_value, succeeds, is_succeeded, newest_rows, row_lt, place_row, by_band_and_mode,
  get_score_breakdown,
}
use mathlib.Core.Path.{subst}

In-place_row : (a r : Snapshot) (xs : List Snapshot) → In a (place_row r xs) → (a ≡ r) ⊎ In a xs
unfolding place_row
In-place_row a r [] m = m
In-place_row a r (x ∷ xs) m = elim (Bool-cases (row_lt x r)) [
  | inl e ↦ elim (let m' : In a (x ∷ place_row r xs) = rw e at m in m') [
    | inl same ↦ inr (inl same)
    | inr k ↦ elim (In-place_row a r xs k) [ inl same ↦ inl same | inr l ↦ inr (inr l) ]
  ]
  | inr e ↦ (let m' : In a (r ∷ x ∷ xs) = rw e at m in m')
]

In-place_row_of : (a r : Snapshot) (xs : List Snapshot) → (a ≡ r) ⊎ In a xs → In a (place_row r xs)
unfolding place_row
In-place_row_of a r [] m = m
In-place_row_of a r (x ∷ xs) m = elim (Bool-cases (row_lt x r)) [
  | inl e ↦ rw e (elim m [
    | inl same ↦ inr (In-place_row_of a r xs (inl same))
    | inr (inl same) ↦ inl same
    | inr (inr k) ↦ inr (In-place_row_of a r xs (inr k))
  ])
  | inr e ↦ rw e m
]

In-by_band : (a : Snapshot) (xs : List Snapshot) → In a (by_band_and_mode xs) → In a xs
unfolding by_band_and_mode
In-by_band a [] m = m
In-by_band a (x ∷ xs) m = elim (In-place_row a x (by_band_and_mode xs) m) [
  | inl same ↦ inl same
  | inr k ↦ inr (In-by_band a xs k)
]

In-by_band_of : (a : Snapshot) (xs : List Snapshot) → In a xs → In a (by_band_and_mode xs)
unfolding by_band_and_mode
In-by_band_of a [] m = m
In-by_band_of a (x ∷ xs) m =
    In-place_row_of a x (by_band_and_mode xs)
      (elim m [ inl same ↦ inl same | inr k ↦ inr (In-by_band_of a xs k) ])

-- The row stands in the table, is none of totals, and no later row of its band and mode follows.
abbrev pub IsNewest : List Snapshot → Snapshot → Type 0
IsNewest table r =
    (before : List Snapshot) × (after : List Snapshot) × (table ≡ before ++ r ∷ after)
    × (r.is_total ≡ false)
    × (is_succeeded r after ≡ false)

abbrev pub SameKey : Snapshot → Snapshot → Type 0
SameKey r s = (r.band ≡ s.band) × (r.mode ≡ s.mode)

-- No two rows of the list have the same band and mode.
abbrev pub Apart : List Snapshot → Type 0
Apart [] = Unit
Apart (r ∷ rs) = ((s : Snapshot) → In s rs → ¬ SameKey r s) × Apart rs

-- The rows of an answer are the newest of their bands and modes, one for each that the table has.
pub record IsBreakdown (table rows : List Snapshot) : Type 0 where
  pub newest : (r : Snapshot) → In r rows → IsNewest table r
  pub apart : Apart rows
  pub complete :
      (r : Snapshot) → In r table → r.is_total ≡ false → (s : Snapshot) × In s rows × SameKey r s

newest_rows-keep :
    (r : Snapshot) (rs : List Snapshot)
    → r.is_total ≡ false
    → is_succeeded r rs ≡ false
    → newest_rows (r ∷ rs) ≡ r ∷ newest_rows rs
unfolding newest_rows
newest_rows-keep r rs h k = rw (h, k) refl

newest_rows-drop_total :
    (r : Snapshot) (rs : List Snapshot) → r.is_total ≡ true → newest_rows (r ∷ rs) ≡ newest_rows rs
unfolding newest_rows
newest_rows-drop_total r rs h = rw h refl

newest_rows-drop :
    (r : Snapshot) (rs : List Snapshot)
    → is_succeeded r rs ≡ true
    → newest_rows (r ∷ rs) ≡ newest_rows rs
unfolding newest_rows
newest_rows-drop r rs h = ground (arith, h)

same_value_iff : (a b : Option Text) → same_value a b ≡ true → a ≡ b
unfolding same_value
same_value_iff none none h = refl
same_value_iff (some a) (some b) h = ap (λ (t : Text). some t) ((text_eq_iff a b).0 h)
same_value_iff none (some b) h = cc
same_value_iff (some a) none h = cc

same_value_refl : (a : Option Text) → same_value a a ≡ true
unfolding same_value
same_value_refl none = refl
same_value_refl (some a) = (text_eq_iff a a).1 refl

succeeds_of : (r s : Snapshot) → s.is_total ≡ false → SameKey r s → succeeds r s ≡ true
unfolding succeeds
succeeds_of r s h (b, m) =
    rw (b, m, h) (ground (arith, same_value_refl s.band, same_value_refl s.mode))

succeeds-key : (r s : Snapshot) → succeeds r s ≡ true → (s.is_total ≡ false) × SameKey r s
unfolding succeeds
succeeds-key r s h = (
  ground arith,
  (same_value_iff r.band s.band (ground arith), same_value_iff r.mode s.mode (ground arith)),
)

is_succeeded_of :
    (r s : Snapshot) (rs : List Snapshot) → In s rs → succeeds r s ≡ true → is_succeeded r rs ≡ true
unfolding is_succeeded
is_succeeded_of r s [] m h = absurd m
is_succeeded_of r s (x ∷ rs) (inl same) h =
    let at_x : succeeds r x ≡ true = rw (← same) h in ground arith
is_succeeded_of r s (x ∷ rs) (inr m) h = ground (arith, is_succeeded_of r s rs m h)

is_succeeded-row :
    (r : Snapshot) (rs : List Snapshot)
    → is_succeeded r rs ≡ true
    → (s : Snapshot) × In s rs × (succeeds r s ≡ true)
unfolding is_succeeded
is_succeeded-row r [] h = cc
is_succeeded-row r (x ∷ rs) h = elim (Bool-cases (succeeds r x)) [
  | inl e ↦ (x, inl refl, e)
  | inr e ↦ let (s, m, k) = is_succeeded-row r rs (ground arith) in (s, inr m, k)
]

IsNewest-cons : (x r : Snapshot) (rs : List Snapshot) → IsNewest rs r → IsNewest (x ∷ rs) r
IsNewest-cons x r rs (before, after, e, t, n) =
    (x ∷ before, after, ap (λ (l : List Snapshot). x ∷ l) e, t, n)

IsNewest-In : (r : Snapshot) (table : List Snapshot) → IsNewest table r → In r table
IsNewest-In r table (before, after, e, t, n) = subst (In r) (sym e) (inside before)
  where
    inside : (before : List Snapshot) → In r (before ++ r ∷ after)
    inside [] = inl refl
    inside (x ∷ xs) = inr (inside xs)

-- the row that stays in front of those that stay behind it
kept_row :
    (r : Snapshot) (rs : List Snapshot)
    → r.is_total ≡ false
    → is_succeeded r rs ≡ false
    → IsBreakdown rs (newest_rows rs)
    → IsBreakdown (r ∷ rs) (r ∷ newest_rows rs)
kept_row r rs plain last ih = record {
  newest = λ s m. elim m [
    | inl same ↦ rw same ([], rs, refl, plain, last)
    | inr k ↦ IsNewest-cons r s rs (ih.newest s k)
  ];
  apart = (clash, ih.apart);
  complete = λ s m plain'. elim m [
    | inl same ↦
        (r, inl refl, (ap (λ (x : Snapshot). x.band) same, ap (λ (x : Snapshot). x.mode) same))
    | inr k ↦ let (t, inside, key) = ih.complete s k plain' in (t, inr inside, key)
  ];
}
  where
    clash : (t : Snapshot) → In t (newest_rows rs) → SameKey r t → ⊥
    clash t m key =
        let newest = ih.newest t m in
        let later =
          is_succeeded_of r t rs (IsNewest-In t rs newest) (succeeds_of r t newest.3 key) in
        ground (arith, last, later)

-- the row that a later one replaces
dropped_row :
    (r : Snapshot) (rs : List Snapshot)
    → is_succeeded r rs ≡ true
    → IsBreakdown rs (newest_rows rs)
    → IsBreakdown (r ∷ rs) (newest_rows rs)
dropped_row r rs later ih = record {
  newest = λ s m. IsNewest-cons r s rs (ih.newest s m);
  apart = ih.apart;
  complete = λ s m plain. elim m [
    | inl same ↦
        let (t, inside, k) = is_succeeded-row r rs later in
        let (plain', (band, mode)) = succeeds-key r t k in
        let (u, inside', (band', mode')) = ih.complete t inside plain' in
        (
          u,
          inside',
          (
            ap (λ (x : Snapshot). x.band) same ∙ band ∙ band',
            ap (λ (x : Snapshot). x.mode) same ∙ mode ∙ mode',
          ),
        )
    | inr k ↦ ih.complete s k plain
  ];
}

dropped_total :
    (r : Snapshot) (rs : List Snapshot)
    → r.is_total ≡ true
    → IsBreakdown rs (newest_rows rs)
    → IsBreakdown (r ∷ rs) (newest_rows rs)
dropped_total r rs total ih = record {
  newest = λ s m. IsNewest-cons r s rs (ih.newest s m);
  apart = ih.apart;
  complete = λ s m plain. elim m [
    | inl same ↦ absurd (let e = ap (λ (x : Snapshot). x.is_total) same in ground arith)
    | inr k ↦ ih.complete s k plain
  ];
}

newest_rows-IsBreakdown : (table : List Snapshot) → IsBreakdown table (newest_rows table)
unfolding newest_rows
newest_rows-IsBreakdown [] = record {
  newest = λ r m. absurd m;
  apart = tt;
  complete = λ r m plain. absurd m;
}
newest_rows-IsBreakdown (r ∷ rs) = by_cases (newest_rows-IsBreakdown rs)
  where
    by_cases : IsBreakdown rs (newest_rows rs) → IsBreakdown (r ∷ rs) (newest_rows (r ∷ rs))
    by_cases ih = elim (Bool-cases r.is_total) [
      | inl total ↦
          subst (IsBreakdown (r ∷ rs)) (sym (newest_rows-drop_total r rs total))
            (dropped_total r rs total ih)
      | inr plain ↦ elim (Bool-cases (is_succeeded r rs)) [
        | inl later ↦
            subst (IsBreakdown (r ∷ rs)) (sym (newest_rows-drop r rs later))
              (dropped_row r rs later ih)
        | inr last ↦
            subst (IsBreakdown (r ∷ rs)) (sym (newest_rows-keep r rs plain last))
              (kept_row r rs plain last ih)
      ]
    ]

Apart-place_row :
    (r : Snapshot) (xs : List Snapshot)
    → ((s : Snapshot) → In s xs → ¬ SameKey r s)
    → Apart xs
    → Apart (place_row r xs)
unfolding place_row
Apart-place_row r [] new d = (new, tt)
Apart-place_row r (x ∷ xs) new d = elim (Bool-cases (row_lt x r)) [
  | inr e ↦ rw e (new, d)
  | inl e ↦ rw e (
    λ s m key. elim (In-place_row s r xs m) [
      | inl same ↦
          let key' : SameKey x r = rw same at key in new x (inl refl) (sym key'.0, sym key'.1)
      | inr k ↦ d.0 s k key
    ],
    Apart-place_row r xs (λ s m. new s (inr m)) d.1,
  )
]

Apart-by_band : (xs : List Snapshot) → Apart xs → Apart (by_band_and_mode xs)
unfolding by_band_and_mode
Apart-by_band [] d = tt
Apart-by_band (x ∷ xs) d =
    Apart-place_row x (by_band_and_mode xs) (λ s m. d.0 s (In-by_band s xs m))
      (Apart-by_band xs d.1)

-- Of every table, the answer has exactly one row for each band and mode that a row other than the
-- totals has, and it is the latest of these rows.
pub get_score_breakdown-IsBreakdown :
    (table : List Snapshot) → IsBreakdown table (get_score_breakdown table)
unfolding get_score_breakdown
get_score_breakdown-IsBreakdown table =
    let b = newest_rows-IsBreakdown table in
    record {
      newest = λ r m. b.newest r (In-by_band r (newest_rows table) m);
      apart = Apart-by_band (newest_rows table) b.apart;
      complete = λ r m plain.
          let (s, inside, key) = b.complete r m plain in
          (s, In-by_band_of s (newest_rows table) inside, key);
    }
