-- ===== src/Charts/Stacked.antt =====
-- The counts by key over time of public/js/charts.js, row by row.
use contestscore.Charts.{
  time_axis, bucket_of, bucket_ms, Counts, add_at, fill, has_key, used_keys, Grid, zero_grid,
  add_in_row, fill_grid, build_stacked_by_key,
}
use contestscore.Prelude.{
  ℕ, ◌≡◌, ◌∙◌, refl, sym, ap, inl, inr, true, false, List, [], ◌∷◌, Option, none, some,
  Option-cases, Bool-cases, arith, if◌then◌else◌,
}
use contestscore.Prelude.Text.{Text, text_eq, text_eq_iff, text_eq_refl}
use mathlib.Core.Path.{subst}
use contestscore.Rates.Dedupe.{LoggedQso, one_of}

-- The QSOs of a key.
unfoldable pub of_key : (LoggedQso → Text) → Text → List LoggedQso → List LoggedQso
unfolding text_eq
of_key key_of k [] = []
of_key key_of k (q ∷ qs) =
    let rest = of_key key_of k qs in if text_eq (key_of q) k then q ∷ rest else rest

-- The rows each on its own: the counts of the QSOs of the key.
unfoldable pub rows_of :
    (LoggedQso → Option ℕ) → ℕ → (LoggedQso → Text) → List LoggedQso → Grid → Grid
unfolding of_key
rows_of time_of ms key_of qs [] = []
rows_of time_of ms key_of qs ((k, m) ∷ g) =
    (k, fill time_of ms (λ q. 1) (of_key key_of k qs) m) ∷ rows_of time_of ms key_of qs g

-- No row has the key.
Lacks : Text → Grid → Type 0
Lacks k [] = Unit
Lacks k ((j, m) ∷ g) = (text_eq k j ≡ false) × Lacks k g

-- Every row has its own key.
Apart : Grid → Type 0
Apart [] = Unit
Apart ((k, m) ∷ g) = Lacks k g × Apart g

Lacks-add_in_row : (k j : Text) (b : ℕ) (g : Grid) → Lacks k g → Lacks k (add_in_row j b g)
unfolding Lacks add_in_row
Lacks-add_in_row k j b [] h = tt
Lacks-add_in_row k j b ((l, m) ∷ g) h = elim (Bool-cases (text_eq j l)) [
  | inl e ↦ rw e (h.0, h.1)
  | inr e ↦ rw e (h.0, Lacks-add_in_row k j b g h.1)
]

Apart-add_in_row : (j : Text) (b : ℕ) (g : Grid) → Apart g → Apart (add_in_row j b g)
unfolding Apart add_in_row
Apart-add_in_row j b [] h = tt
Apart-add_in_row j b ((l, m) ∷ g) h = elim (Bool-cases (text_eq j l)) [
  | inl e ↦ rw e (h.0, h.1)
  | inr e ↦ rw e (Lacks-add_in_row l j b g h.0, Apart-add_in_row j b g h.1)
]

module _ (time_of : LoggedQso → Option ℕ) (ms : ℕ) (key_of : LoggedQso → Text) where
  skip_none :
      (q : LoggedQso) (qs : List LoggedQso) (m : Counts)
      → time_of q ≡ none
      → fill time_of ms (λ x. 1) (q ∷ qs) m ≡ fill time_of ms (λ x. 1) qs m
  unfolding fill
  skip_none q qs m e = rw e refl

  count_some :
      (q : LoggedQso) (qs : List LoggedQso) (t : ℕ) (m : Counts)
      → time_of q ≡ some t
      → fill time_of ms (λ x. 1) (q ∷ qs) m
        ≡ fill time_of ms (λ x. 1) qs (add_at (bucket_of ms t) 1 m)
  unfolding fill
  count_some q qs t m e = rw e refl

  -- A QSO without a time counts nowhere.
  fill-none :
      (k : Text) (q : LoggedQso) (qs : List LoggedQso) (m : Counts)
      → time_of q ≡ none
      → fill time_of ms (λ x. 1) (of_key key_of k (q ∷ qs)) m
        ≡ fill time_of ms (λ x. 1) (of_key key_of k qs) m
  unfolding fill of_key
  fill-none k q qs m e = elim (Bool-cases (text_eq (key_of q) k)) [
    | inl f ↦ rw f (skip_none q (of_key key_of k qs) m e)
    | inr f ↦ rw f refl
  ]

  rows_of-none :
      (q : LoggedQso) (qs : List LoggedQso) (g : Grid)
      → time_of q ≡ none
      → rows_of time_of ms key_of (q ∷ qs) g ≡ rows_of time_of ms key_of qs g
  unfolding rows_of
  rows_of-none q qs [] e = refl
  rows_of-none q qs ((k, m) ∷ g) e = rw (fill-none k q qs m e, rows_of-none q qs g e) refl

  rows_of-Lacks :
      (q : LoggedQso) (qs : List LoggedQso) (g : Grid)
      → Lacks (key_of q) g
      → rows_of time_of ms key_of (q ∷ qs) g ≡ rows_of time_of ms key_of qs g
  unfolding rows_of Lacks of_key
  rows_of-Lacks q qs [] h = refl
  rows_of-Lacks q qs ((k, m) ∷ g) h = rw (h.0, rows_of-Lacks q qs g h.1) refl

  rows_of-some :
      (q : LoggedQso) (qs : List LoggedQso) (t : ℕ) (g : Grid)
      → time_of q ≡ some t
      → Apart g
      → rows_of time_of ms key_of qs (add_in_row (key_of q) (bucket_of ms t) g)
        ≡ rows_of time_of ms key_of (q ∷ qs) g
  unfolding rows_of Apart of_key fill add_in_row
  rows_of-some q qs t [] e h = refl
  rows_of-some q qs t ((k, m) ∷ g) e h = elim (Bool-cases (text_eq (key_of q) k)) [
    | inl f ↦
        let same : k ≡ key_of q = sym ((text_eq_iff (key_of q) k).0 f) in
        let lacking : Lacks (key_of q) g = subst (λ (j : Text). Lacks j g) same h.0 in
        let counted = fill time_of ms (λ x. 1) (of_key key_of k qs) (add_at (bucket_of ms t) 1 m) in
        rw f (
          ap (λ (l : Grid). (k, counted) ∷ l) (sym (rows_of-Lacks q qs g lacking))
          ∙ ap (λ (c : Counts). (k, c) ∷ rows_of time_of ms key_of (q ∷ qs) g)
              (sym (count_some q (of_key key_of k qs) t m e)))
    | inr f ↦ rw (f, rows_of-some q qs t g e h.1) refl
  ]

  rows_of-nil : (g : Grid) → rows_of time_of ms key_of [] g ≡ g
  unfolding rows_of of_key fill
  rows_of-nil [] = refl
  rows_of-nil ((k, m) ∷ g) = ap (λ (l : Grid). (k, m) ∷ l) (rows_of-nil g)

  fill_grid-rows_of :
      (qs : List LoggedQso) (g : Grid)
      → Apart g
      → fill_grid time_of ms key_of qs g ≡ rows_of time_of ms key_of qs g
  unfolding fill_grid
  fill_grid-rows_of [] g h = sym (rows_of-nil g)
  fill_grid-rows_of (q ∷ qs) g h = elim (Option-cases (time_of q)) [
    | inl e ↦ rw e (fill_grid-rows_of qs g h ∙ sym (rows_of-none q qs g e))
    | inr (t, e) ↦
        let g' = add_in_row (key_of q) (bucket_of ms t) g in
        rw e (
          fill_grid-rows_of qs g' (Apart-add_in_row (key_of q) (bucket_of ms t) g h)
          ∙ rows_of-some q qs t g e h)
  ]

module _ (axis : List ℕ) (key_of : LoggedQso → Text) (qs : List LoggedQso) where
  one_of-suc : (k j : Text) (seen : List Text) → one_of k seen ≡ true → one_of k (j ∷ seen) ≡ true
  unfolding one_of
  one_of-suc k j seen h = ground arith

  one_of_here : (j : Text) (seen : List Text) → one_of j (j ∷ seen) ≡ true
  unfolding one_of
  one_of_here j seen = rw (text_eq_refl j) refl

  one_of_differ :
      (k j : Text) (seen : List Text)
      → one_of k seen ≡ true
      → one_of j seen ≡ false
      → text_eq k j ≡ false
  one_of_differ k j seen h n = elim (Bool-cases (text_eq k j)) [
    | inr f ↦ f
    | inl f ↦
        let same : k ≡ j = (text_eq_iff k j).0 f in
        let clash : one_of j seen ≡ true = subst (λ (x : Text). one_of x seen ≡ true) same h in
        absurd (let wrong : true ≡ false = sym clash ∙ n in cc)
  ]

  -- A key that has come does not come again.
  Lacks-used_keys :
      (k : Text) (seen ks : List Text)
      → one_of k seen ≡ true
      → Lacks k (zero_grid axis (used_keys key_of qs seen ks))
  unfolding used_keys zero_grid Lacks
  Lacks-used_keys k seen [] h = tt
  Lacks-used_keys k seen (j ∷ ks) h =
      let later = Lacks-used_keys k (j ∷ seen) ks (one_of-suc k j seen h) in
      elim (Bool-cases (one_of j seen)) [
        | inl e ↦ rw e later
        | inr e ↦ elim (Bool-cases (has_key key_of j qs)) [
          | inl f ↦ rw (e, f) (one_of_differ k j seen h e, later)
          | inr f ↦ rw (e, f) later
        ]
      ]

  Apart-used_keys : (seen ks : List Text) → Apart (zero_grid axis (used_keys key_of qs seen ks))
  unfolding used_keys zero_grid Apart
  Apart-used_keys seen [] = tt
  Apart-used_keys seen (j ∷ ks) =
      let later = Apart-used_keys (j ∷ seen) ks in
      elim (Bool-cases (one_of j seen)) [
        | inl e ↦ rw e later
        | inr e ↦ elim (Bool-cases (has_key key_of j qs)) [
          | inl f ↦ rw (e, f) (Lacks-used_keys j (j ∷ seen) ks (one_of_here j seen), later)
          | inr f ↦ rw (e, f) later
        ]
      ]

-- The one pass over the log counts in each row the QSOs of its key, as if only these were logged, in the
-- buckets of the whole log; a QSO whose key has no row, and one without a time, is counted nowhere.
pub build_stacked_by_key-rows_of :
    (time_of : LoggedQso → Option ℕ) (minutes : ℕ) (key_of : LoggedQso → Text)
    (ordered_keys : List Text) (qs : List LoggedQso)
    → build_stacked_by_key time_of minutes key_of ordered_keys qs
      ≡ rows_of time_of (bucket_ms minutes) key_of qs (
          zero_grid
            (time_axis time_of (bucket_ms minutes) qs)
            (used_keys key_of qs [] ordered_keys))
unfolding build_stacked_by_key
build_stacked_by_key-rows_of time_of minutes key_of ordered_keys qs =
    fill_grid-rows_of time_of (bucket_ms minutes) key_of qs
      (zero_grid (time_axis time_of (bucket_ms minutes) qs) (used_keys key_of qs [] ordered_keys))
      (Apart-used_keys (time_axis time_of (bucket_ms minutes) qs) key_of qs [] ordered_keys)
