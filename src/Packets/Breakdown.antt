-- ===== src/Packets/Breakdown.antt =====
-- The breakdown that src/parsers/score.js collects, against a reading of the packet element by
-- element.
use contestscore.JsMap.{
  get, put, keys, get-put_eq, get-put_ne, In-keys-put, In-keys-put_of, Distinct-keys-put,
}
use contestscore.Packets.Score.{
  Leaf, Results, ScoreRow, ScoreRows, shown, row_key, new_score_row, row_for, assign, or_zero,
  set_qsos, set_points, add_mults, each, score_rows,
}
use contestscore.Prelude.{
  ℕ, ◌+◌, ◌≡◌, ◌↔◌, ◌⊎◌, ◌∙◌, refl, sym, ap, inl, inr, In, map, List, [], ◌∷◌, ◌++◌, Option, none,
  some, Distinct, Bool-cases, Option-cases, if◌then◌else◌,
}
use contestscore.Prelude.Text.{Text, text_eq, text_eq_iff, text_key}

abbrev pub of_row : {A : Type 0} → (ScoreRow → A) → A → Option ScoreRow → A
of_row proj other none = other
of_row proj other (some r) = proj r

-- a field of the row with a key, or else what a new row has there
abbrev pub at_row : {A : Type 0} → (ScoreRow → A) → A → Text → ScoreRows → A
at_row proj other k rows = of_row proj other (get k rows)

-- the text's number in the last element with a key
abbrev pub last_number : (Text → ℕ) → Text → ℕ → List Leaf → ℕ
last_number number_or_0 k other [] = other
last_number number_or_0 k other (el ∷ els) =
    last_number number_or_0 k (if text_eq (row_key el) k then number_or_0 el.text else other) els

-- the sum of the numbers in the elements with a key, over all types; `none` if there is none
abbrev pub total_number : (Text → ℕ) → Text → Option ℕ → List Leaf → Option ℕ
total_number number_or_0 k sum [] = sum
total_number number_or_0 k sum (el ∷ els) =
    total_number number_or_0 k
      (if text_eq (row_key el) k then some (or_zero sum + number_or_0 el.text) else sum) els

at_row-row_for :
    {A : Type 0} (proj : ScoreRow → A) (other : A) (el : Leaf) (rows : ScoreRows)
    → proj (new_score_row el) ≡ other
    → proj (row_for el rows) ≡ at_row proj other (row_key el) rows
unfolding row_for
at_row-row_for proj other el rows h = elim (Option-cases (get (row_key el) rows)) [
  | inl e ↦ rw (e, row_for) h
  | inr (r, e) ↦ rw (e, row_for) refl
]

at_row-assign :
    {A : Type 0} (proj : ScoreRow → A) (other : A) (change : ScoreRow → ScoreRow) (el : Leaf)
    (k : Text) (rows : ScoreRows)
    → at_row proj other k (assign change el rows) ≡ (
        if text_eq (row_key el) k
        then proj (change (row_for el rows))
        else at_row proj other k rows)
unfolding assign
at_row-assign proj other change el k rows = elim (Bool-cases (text_eq (row_key el) k)) [
  | inl same ↦ rw (get-put_eq (row_key el) k (change (row_for el rows)) rows same, same) refl
  | inr other_key ↦
      rw (get-put_ne (row_key el) k (change (row_for el rows)) rows other_key, other_key) refl
]

-- a loop that does not touch a field
at_row-each_other :
    {A : Type 0} (number_or_0 : Text → ℕ) (proj : ScoreRow → A) (other : A)
    (change : Leaf → ScoreRow → ScoreRow)
    → ((el : Leaf) → proj (new_score_row el) ≡ other)
    → ((el : Leaf) (r : ScoreRow) → proj (change el r) ≡ proj r)
    → (k : Text) (els : List Leaf) (rows : ScoreRows)
    → at_row proj other k (each number_or_0 change els rows) ≡ at_row proj other k rows
unfolding each
at_row-each_other number_or_0 proj other change fresh_row keeps k [] rows = refl
at_row-each_other number_or_0 proj other change fresh_row keeps k (el ∷ els) rows =
    at_row-each_other number_or_0 proj other change fresh_row keeps k els
      (assign (change el) el rows)
    ∙ at_row-assign proj other (change el) el k rows
    ∙ (elim (Bool-cases (text_eq (row_key el) k)) [
      | inl same ↦ rw same (
          keeps el (row_for el rows)
          ∙ at_row-row_for proj other el rows (fresh_row el)
          ∙ ap (λ (j : Text). at_row proj other j rows) ((text_eq_iff (row_key el) k).0 same))
      | inr differs ↦ rw differs refl
    ])

-- What tells the rows apart: band and mode as the key writes them.
abbrev pub label : ScoreRow → Text
label r = shown r.band ++ b'|' ∷ shown r.mode

-- Every row has the band and the mode of its key.
abbrev pub AllLabelled : ScoreRows → Type 0
AllLabelled [] = Unit
AllLabelled ((k, r) ∷ rows) = (label r ≡ k) × AllLabelled rows

AllLabelled-get :
    (k : Text) (r : ScoreRow) (rows : ScoreRows)
    → AllLabelled rows
    → get k rows ≡ some r
    → label r ≡ k
unfolding get
AllLabelled-get k r [] h e = cc
AllLabelled-get k r ((j, q) ∷ rows) h e = elim (Bool-cases (text_eq j k)) [
  | inl same ↦
      let e' : some q ≡ some r = rw same at e in
      let q_r : q ≡ r = cc in ap label (sym q_r) ∙ h.0 ∙ (text_eq_iff j k).0 same
  | inr other ↦ AllLabelled-get k r rows h.1 (let e' : get k rows ≡ some r = rw other at e in e')
]

AllLabelled-put :
    (k : Text) (r : ScoreRow) (rows : ScoreRows)
    → AllLabelled rows
    → label r ≡ k
    → AllLabelled (put k r rows)
unfolding put
AllLabelled-put k r [] h e = (e, tt)
AllLabelled-put k r ((j, q) ∷ rows) h e = elim (Bool-cases (text_eq j k)) [
  | inl same ↦ rw same (e ∙ sym ((text_eq_iff j k).0 same), h.1)
  | inr other ↦ rw other (h.0, AllLabelled-put k r rows h.1 e)
]

label-row_for :
    (el : Leaf) (rows : ScoreRows) → AllLabelled rows → label (row_for el rows) ≡ row_key el
unfolding row_for row_key new_score_row
label-row_for el rows h = elim (Option-cases (get (row_key el) rows)) [
  | inl e ↦ rw (e, row_for) refl
  | inr (r, e) ↦ rw (e, row_for) (AllLabelled-get (row_key el) r rows h e)
]

AllLabelled-each :
    (number_or_0 : Text → ℕ) (change : Leaf → ScoreRow → ScoreRow)
    → ((el : Leaf) (r : ScoreRow) → label (change el r) ≡ label r)
    → (els : List Leaf) (rows : ScoreRows) → AllLabelled rows
    → AllLabelled (each number_or_0 change els rows)
unfolding each assign
AllLabelled-each number_or_0 change keeps [] rows h = h
AllLabelled-each number_or_0 change keeps (el ∷ els) rows h =
    AllLabelled-each number_or_0 change keeps els (assign (change el) el rows) (
      AllLabelled-put (row_key el) (change el (row_for el rows)) rows h
        (keeps el (row_for el rows) ∙ label-row_for el rows h))

In-keys-put_iff :
    (k j : Text) (r : ScoreRow) (rows : ScoreRows)
    → In j (keys (put k r rows)) ↔ ((j ≡ k) ⊎ In j (keys rows))
In-keys-put_iff k j r rows = (In-keys-put k j r rows, In-keys-put_of k j r rows)

In-keys-each :
    (number_or_0 : Text → ℕ) (change : Leaf → ScoreRow → ScoreRow) (k : Text) (els : List Leaf)
    (rows : ScoreRows)
    → In k (keys (each number_or_0 change els rows)) ↔ (In k (keys rows) ⊎ In k (map row_key els))
unfolding each assign
In-keys-each number_or_0 change k [] rows =
    (λ m. inl m, λ m. elim m [ inl h ↦ h | inr h ↦ absurd h ])
In-keys-each number_or_0 change k (el ∷ els) rows =
    let later = In-keys-each number_or_0 change k els (assign (change el) el rows) in
    let here = In-keys-put_iff (row_key el) k (change el (row_for el rows)) rows in
    (
      λ m. elim (later.0 m) [
        | inl h ↦ elim (here.0 h) [ inl same ↦ inr (inl same) | inr old ↦ inl old ]
        | inr h ↦ inr (inr h)
      ],
      λ m. elim m [
        | inl old ↦ later.1 (inl (here.1 (inr old)))
        | inr (inl same) ↦ later.1 (inl (here.1 (inl same)))
        | inr (inr h) ↦ later.1 (inr h)
      ],
    )

-- The packet has an element for a key.
abbrev pub IsMentioned : Text → Results → Type 0
IsMentioned k s =
    (In k (map row_key s.qso) ⊎ In k (map row_key s.point)) ⊎ In k (map row_key s.mult)

module _ (number_or_0 : Text → ℕ) where
  qsos-each :
      (k : Text) (els : List Leaf) (rows : ScoreRows)
      → at_row (λ r. r.qsos) 0 k (each number_or_0 (set_qsos number_or_0) els rows)
        ≡ last_number number_or_0 k (at_row (λ r. r.qsos) 0 k rows) els
  unfolding each set_qsos
  qsos-each k [] rows = refl
  qsos-each k (el ∷ els) rows =
      qsos-each k els (assign (set_qsos number_or_0 el) el rows)
      ∙ ap (λ (n : ℕ). last_number number_or_0 k n els)
          (at_row-assign (λ r. r.qsos) 0 (set_qsos number_or_0 el) el k rows)

  points-each :
      (k : Text) (els : List Leaf) (rows : ScoreRows)
      → at_row (λ r. r.points) 0 k (each number_or_0 (set_points number_or_0) els rows)
        ≡ last_number number_or_0 k (at_row (λ r. r.points) 0 k rows) els
  unfolding each set_points
  points-each k [] rows = refl
  points-each k (el ∷ els) rows =
      points-each k els (assign (set_points number_or_0 el) el rows)
      ∙ ap (λ (n : ℕ). last_number number_or_0 k n els)
          (at_row-assign (λ r. r.points) 0 (set_points number_or_0 el) el k rows)

  mults-assign :
      (el : Leaf) (k : Text) (rows : ScoreRows)
      → at_row (λ r. r.mults) none k (assign (add_mults number_or_0 el) el rows) ≡ (
          if text_eq (row_key el) k
          then some (or_zero (at_row (λ r. r.mults) none k rows) + number_or_0 el.text)
          else at_row (λ r. r.mults) none k rows)
  unfolding add_mults
  mults-assign el k rows =
      at_row-assign (λ r. r.mults) none (add_mults number_or_0 el) el k rows
      ∙ (elim (Bool-cases (text_eq (row_key el) k)) [
        | inl same ↦ rw same (
            ap (λ (o : Option ℕ). some (or_zero o + number_or_0 el.text))
              (at_row-row_for (λ r. r.mults) none el rows (unfold new_score_row in refl)
                ∙ ap (λ (j : Text). at_row (λ r. r.mults) none j rows)
                    ((text_eq_iff (row_key el) k).0 same)))
        | inr differs ↦ rw differs refl
      ])

  mults-each :
      (k : Text) (els : List Leaf) (rows : ScoreRows)
      → at_row (λ r. r.mults) none k (each number_or_0 (add_mults number_or_0) els rows)
        ≡ total_number number_or_0 k (at_row (λ r. r.mults) none k rows) els
  unfolding each
  mults-each k [] rows = refl
  mults-each k (el ∷ els) rows =
      mults-each k els (assign (add_mults number_or_0 el) el rows)
      ∙ ap (λ (o : Option ℕ). total_number number_or_0 k o els) (mults-assign el k rows)

  Distinct-each :
      (change : Leaf → ScoreRow → ScoreRow) (els : List Leaf) (rows : ScoreRows)
      → Distinct (keys rows)
      → Distinct (keys (each number_or_0 change els rows))
  unfolding each assign
  Distinct-each change [] rows h = h
  Distinct-each change (el ∷ els) rows h =
      Distinct-each change els (assign (change el) el rows)
        (Distinct-keys-put (row_key el) (change el (row_for el rows)) rows h)

  rows-each : (k : Text) (s : Results) → In k (keys (score_rows number_or_0 s)) ↔ IsMentioned k s
  unfolding score_rows
  rows-each k s =
      let after_qsos = each number_or_0 (set_qsos number_or_0) s.qso [] in
      let after_points = each number_or_0 (set_points number_or_0) s.point after_qsos in
      let q = In-keys-each number_or_0 (set_qsos number_or_0) k s.qso [] in
      let p = In-keys-each number_or_0 (set_points number_or_0) k s.point after_qsos in
      let m = In-keys-each number_or_0 (add_mults number_or_0) k s.mult after_points in
      (
        λ h. elim (m.0 h) [
          | inr i ↦ inr i
          | inl i ↦ elim (p.0 i) [
            | inr j ↦ inl (inr j)
            | inl j ↦ elim (q.0 j) [ inl l ↦ absurd l | inr l ↦ inl (inl l) ]
          ]
        ],
        λ h. elim h [
          | inr i ↦ m.1 (inr i)
          | inl (inr i) ↦ m.1 (inl (p.1 (inr i)))
          | inl (inl i) ↦ m.1 (inl (p.1 (inl (q.1 (inr i)))))
        ],
      )

  score_rows-AllLabelled : (s : Results) → AllLabelled (score_rows number_or_0 s)
  unfolding score_rows set_qsos set_points add_mults
  score_rows-AllLabelled s =
      let after_qsos = each number_or_0 (set_qsos number_or_0) s.qso [] in
      let after_points = each number_or_0 (set_points number_or_0) s.point after_qsos in
      AllLabelled-each number_or_0 (add_mults number_or_0) (λ el r. refl) s.mult after_points
        (AllLabelled-each number_or_0 (set_points number_or_0) (λ el r. refl) s.point after_qsos
          (AllLabelled-each number_or_0 (set_qsos number_or_0) (λ el r. refl) s.qso [] tt))

  -- The breakdown has exactly one row for each key, band and mode, that an element of the packet has, and
  -- no other row; each row shows the band and the mode of its key. Its QSOs and points are those of the packet's
  -- last element for them, 0 if there is none; its multipliers are the sum over all elements for
  -- them, whatever their type, and null if there is none.
  pub score_rows-sums :
      (s : Results) (k : Text)
      → let rows = score_rows number_or_0 s in
        Distinct (keys rows)
        × (In k (keys rows) ↔ IsMentioned k s)
        × AllLabelled rows
        × (at_row (λ r. r.qsos) 0 k rows ≡ last_number number_or_0 k 0 s.qso)
        × (at_row (λ r. r.points) 0 k rows ≡ last_number number_or_0 k 0 s.point)
        × (at_row (λ r. r.mults) none k rows ≡ total_number number_or_0 k none s.mult)
  unfolding score_rows
  score_rows-sums s k =
      let after_qsos = each number_or_0 (set_qsos number_or_0) s.qso [] in
      let after_points = each number_or_0 (set_points number_or_0) s.point after_qsos in
      (
        Distinct-each (add_mults number_or_0) s.mult after_points (
            Distinct-each (set_points number_or_0) s.point after_qsos
              (Distinct-each (set_qsos number_or_0) s.qso [] tt)),
        rows-each k s,
        score_rows-AllLabelled s,
        at_row-each_other number_or_0 (λ r. r.qsos) 0 (add_mults number_or_0)
              (λ el. unfold new_score_row in refl) (λ el r. unfold add_mults in refl) k s.mult
              after_points
            ∙ at_row-each_other number_or_0 (λ r. r.qsos) 0 (set_points number_or_0)
                (λ el. unfold new_score_row in refl) (λ el r. unfold set_points in refl) k s.point
                after_qsos
            ∙ qsos-each k s.qso []
            ∙ ap (λ (n : ℕ). last_number number_or_0 k n s.qso) (unfold get in refl),
        at_row-each_other number_or_0 (λ r. r.points) 0 (add_mults number_or_0)
              (λ el. unfold new_score_row in refl) (λ el r. unfold add_mults in refl) k s.mult
              after_points
            ∙ points-each k s.point after_qsos
            ∙ ap (λ (n : ℕ). last_number number_or_0 k n s.point)
                (at_row-each_other number_or_0 (λ r. r.points) 0 (set_qsos number_or_0)
                    (λ el. unfold new_score_row in refl) (λ el r. unfold set_qsos in refl) k s.qso
                    []
                  ∙ unfold get in refl),
        mults-each k s.mult after_points
            ∙ ap (λ (o : Option ℕ). total_number number_or_0 k o s.mult)
                (at_row-each_other number_or_0 (λ r. r.mults) none (set_points number_or_0)
                    (λ el. unfold new_score_row in refl) (λ el r. unfold set_points in refl) k
                    s.point after_qsos
                  ∙ at_row-each_other number_or_0 (λ r. r.mults) none (set_qsos number_or_0)
                      (λ el. unfold new_score_row in refl) (λ el r. unfold set_qsos in refl) k s.qso
                      []
                  ∙ unfold get in refl),
      )
