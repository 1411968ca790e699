-- ===== src/Solar/Replica.antt =====
-- refreshFromHamdata of src/solar/index.js against getSolarSince of src/db/queries.js, which the shared
-- service answers with.
use mathlib.Core.List.{append_assoc, append-nil}
use contestscore.Prelude.{
  ℕ, zero, suc, ◌+◌, ◌≤◌, ◌<◌, ◌≡◌, ◌∙◌, refl, sym, ap, inl, inr, Bool, true, false, List, [], ◌∷◌,
  ◌++◌, Option, none, some, arith, ltb, length, length-append, take, drop, keep, All, All-keep,
  All-weaken, ltb→lt, Bool-cases,
}
use mathlib.Core.Path.{subst}
use contestscore.Solar.Readings.{
  Reading, insert_solar_snapshot, get_latest_solar, is_after, get_solar_since,
}
use contestscore.Solar.Service.{time_of, insert_all, Outcome, added, copy_pages}
use contestscore.Solar.Sorting.{
  Ordered, All-In, by_time_of_Ordered, get_latest_solar-cons_some, get_latest_solar-cases,
  get_latest_solar-In,
}

-- The times rise.
abbrev pub Ascending : List Reading → Type 0
Ascending [] = Unit
Ascending (x ∷ xs) = All (λ (y : Reading). x.fetched_at < y.fetched_at) xs × Ascending xs

Ascending-Ordered : (xs : List Reading) → Ascending xs → Ordered xs
Ascending-Ordered [] h = tt
Ascending-Ordered (x ∷ xs) h = (
  All-weaken _ _ (λ (y : Reading) (p : x.fetched_at < y.fetched_at). omega arith) xs h.0,
  Ascending-Ordered xs h.1,
)

Ascending-keep : (p : Reading → Bool) (xs : List Reading) → Ascending xs → Ascending (keep p xs)
Ascending-keep p [] h = tt
Ascending-keep p (x ∷ xs) h = elim (Bool-cases (p x)) [
  | inl e ↦ rw e (All-keep _ p xs h.0, Ascending-keep p xs h.1)
  | inr e ↦ rw e (Ascending-keep p xs h.1)
]

-- what a table misses of another: the rows behind its newest
abbrev pub missing : List Reading → List Reading → List Reading
missing table remote = keep (is_after (time_of (get_latest_solar table))) remote

keep-All :
    (p : Reading → Bool) (xs : List Reading) → All (λ (x : Reading). p x ≡ true) xs → keep p xs ≡ xs
keep-All p [] h = refl
keep-All p (x ∷ xs) h = rw h.0 (ap (λ (l : List Reading). x ∷ l) (keep-All p xs h.1))

keep-keep :
    (p q : Reading → Bool) (xs : List Reading)
    → ((x : Reading) → p x ≡ true → q x ≡ true)
    → keep p (keep q xs) ≡ keep p xs
keep-keep p q [] h = refl
keep-keep p q (x ∷ xs) h = elim (Bool-cases (q x)) [
  | inl e ↦ elim (Bool-cases (p x)) [
    | inl f ↦ rw (e, f) (ap (λ (l : List Reading). x ∷ l) (keep-keep p q xs h))
    | inr f ↦ rw (e, f) (keep-keep p q xs h)
  ]
  | inr e ↦ elim (Bool-cases (p x)) [
    | inl f ↦ absurd (let g = h x f in ground arith)
    | inr f ↦ rw (e, f) (keep-keep p q xs h)
  ]
]

All-take : (P : Reading → Type 0) (n : ℕ) (xs : List Reading) → All P xs → All P (take n xs)
All-take P zero xs h = tt
All-take P (suc n) [] h = tt
All-take P (suc n) (x ∷ xs) h = (h.0, All-take P n xs h.1)

take-drop : (n : ℕ) (xs : List Reading) → take n xs ++ drop n xs ≡ xs
take-drop zero xs = refl
take-drop (suc n) [] = refl
take-drop (suc n) (x ∷ xs) = ap (λ (l : List Reading). x ∷ l) (take-drop n xs)

keep-past :
    (t : ℕ) (x : Reading) (xs : List Reading)
    → x.fetched_at ≤ t
    → keep (is_after (some t)) (x ∷ xs) ≡ keep (is_after (some t)) xs
unfolding is_after
keep-past t x xs h = let past : ltb t x.fetched_at ≡ false = ground arith in rw past refl

keep-later :
    (t : ℕ) (xs : List Reading)
    → All (λ (y : Reading). t < y.fetched_at) xs
    → keep (is_after (some t)) xs ≡ xs
unfolding is_after
keep-later t xs h =
    keep-All (is_after (some t)) xs
      (All-weaken _ _ (λ (y : Reading) (p : t < y.fetched_at). ground arith) xs h)

time_of_single : (x l : Reading) → get_latest_solar (x ∷ []) ≡ some l → x.fetched_at ≡ l.fetched_at
unfolding get_latest_solar
time_of_single x l e = let same : x ≡ l = cc in ap (λ (r : Reading). r.fetched_at) same

get_latest_solar-tail :
    (x y l : Reading) (ys : List Reading)
    → get_latest_solar (x ∷ y ∷ ys) ≡ some l
    → get_latest_solar (y ∷ ys) ≡ some l
get_latest_solar-tail x y l ys e =
    let (k, e', m) = get_latest_solar-cases y ys in
    e' ∙ sym (get_latest_solar-cons_some x k (y ∷ ys) e') ∙ e

-- Behind the last row of a page comes what the page left out.
keep-cut :
    (k : ℕ) (m : List Reading) (l : Reading)
    → Ascending m
    → get_latest_solar (take (suc k) m) ≡ some l
    → keep (is_after (some l.fetched_at)) m ≡ drop (suc k) m
keep-cut k [] l a e = refl
keep-cut zero (x ∷ xs) l a e =
    let t : x.fetched_at ≡ l.fetched_at = time_of_single x l e in
    keep-past l.fetched_at x xs (omega arith)
    ∙ keep-later l.fetched_at xs (
        All-weaken _ _ (λ (y : Reading) (p : x.fetched_at < y.fetched_at). omega (arith, t)) xs a.0)
keep-cut (suc k) (x ∷ []) l a e = keep-past l.fetched_at x [] (omega (arith, time_of_single x l e))
keep-cut (suc k) (x ∷ y ∷ ys) l a e =
    let tail = get_latest_solar-tail x y l (take k ys) e in
    let later =
      All-In _ (take (suc k) (y ∷ ys)) l (All-take _ (suc k) (y ∷ ys) a.0)
        (get_latest_solar-In (y ∷ take k ys) l tail) in
    keep-past l.fetched_at x (y ∷ ys) (omega (arith, later)) ∙ keep-cut k (y ∷ ys) l a.1 tail

insert_all-append : (rs table : List Reading) → insert_all rs table ≡ table ++ rs
unfolding insert_all insert_solar_snapshot
insert_all-append [] table = sym (append-nil table)
insert_all-append (r ∷ rs) table =
    insert_all-append rs (table ++ r ∷ []) ∙ append_assoc table (r ∷ []) rs

get_latest_solar-append :
    (table rs : List Reading) (l : Reading)
    → get_latest_solar rs ≡ some l
    → get_latest_solar (table ++ rs) ≡ some l
get_latest_solar-append [] rs l e = e
get_latest_solar-append (x ∷ table) rs l e =
    get_latest_solar-cons_some x l (table ++ rs) (get_latest_solar-append table rs l e)

get_solar_since-Ascending :
    (after : Option ℕ) (limit : ℕ) (remote : List Reading)
    → Ascending remote
    → get_solar_since after limit remote ≡ take limit (keep (is_after after) remote)
unfolding get_solar_since
get_solar_since-Ascending after limit remote h =
    let m = keep (is_after after) remote in
    ap (take limit)
      (by_time_of_Ordered m (Ascending-Ordered m (Ascending-keep (is_after after) remote h)))

is_after_trans :
    (after : Option ℕ) (l x : Reading)
    → is_after after l ≡ true
    → is_after (some l.fetched_at) x ≡ true
    → is_after after x ≡ true
unfolding is_after
is_after_trans none l x h k = refl
is_after_trans (some t) l x h k = ground arith

length-take : (n : ℕ) (xs : List Reading) → length (take n xs) < n → take n xs ≡ xs
length-take zero xs h = absurd (omega arith)
length-take (suc n) [] h = refl
length-take (suc n) (x ∷ xs) h = ap (λ (l : List Reading). x ∷ l) (length-take n xs (omega arith))

length-drop :
    (n : ℕ) (xs : List Reading) (x : Reading) → length (drop (suc n) (x ∷ xs)) < length (x ∷ xs)
length-drop zero xs x = omega arith
length-drop (suc n) [] x = omega arith
length-drop (suc n) (y ∷ ys) x = omega (arith, length-drop n ys y)

keep-passes :
    (p : Reading → Bool) (xs : List Reading) → All (λ (x : Reading). p x ≡ true) (keep p xs)
keep-passes p [] = tt
keep-passes p (x ∷ xs) = elim (Bool-cases (p x)) [
  | inl e ↦ rw e (e, keep-passes p xs)
  | inr e ↦ rw e (keep-passes p xs)
]

-- After a page is stored, what is missing is what the page left out.
missing-after_page :
    (k : ℕ) (table remote : List Reading) (x : Reading) (xs : List Reading)
    → Ascending remote
    → missing table remote ≡ x ∷ xs
    → missing (table ++ x ∷ take k xs) remote ≡ drop k xs
unfolding time_of
missing-after_page k table remote x xs asc e =
    let after = time_of (get_latest_solar table) in
    let (l, last, m) = get_latest_solar-cases x (take k xs) in
    let all_after =
      subst (All (λ (r : Reading). is_after after r ≡ true)) e
        (keep-passes (is_after after) remote) in
    let l_after = All-In _ (x ∷ take k xs) l (All-take _ (suc k) (x ∷ xs) all_after) m in
    let asc' = subst Ascending e (Ascending-keep (is_after after) remote asc) in
    rw (get_latest_solar-append table (x ∷ take k xs) l last) (
      sym (
        keep-keep (is_after (some l.fetched_at)) (is_after after) remote
          (λ y q. is_after_trans after l y l_after q))
      ∙ ap (keep (is_after (some l.fetched_at))) e
      ∙ keep-cut k (x ∷ xs) l asc' last)

module _ (reply : ℕ → Option ℕ → Option (List Reading)) (page_size fuel n total : ℕ)
    (table : List Reading) where
  copy_pages-end :
      reply n (time_of (get_latest_solar table)) ≡ some []
      → copy_pages reply page_size (suc fuel) n total table ≡ some (table, added total)
  unfolding copy_pages
  copy_pages-end e = rw (e, copy_pages) refl

  copy_pages-short :
      (r : Reading) (rs : List Reading)
      → reply n (time_of (get_latest_solar table)) ≡ some (r ∷ rs)
      → ltb (length (r ∷ rs)) page_size ≡ true
      → copy_pages reply page_size (suc fuel) n total table
        ≡ some (table ++ r ∷ rs, added (total + length (r ∷ rs)))
  unfolding copy_pages
  copy_pages-short r rs e short =
      rw (e, copy_pages) (rw short (rw (insert_all-append (r ∷ rs) table) refl))

  copy_pages-full :
      (r : Reading) (rs : List Reading)
      → reply n (time_of (get_latest_solar table)) ≡ some (r ∷ rs)
      → ltb (length (r ∷ rs)) page_size ≡ false
      → copy_pages reply page_size (suc fuel) n total table
        ≡ copy_pages reply page_size fuel (n + 1) (total + length (r ∷ rs)) (table ++ r ∷ rs)
  unfolding copy_pages
  copy_pages-full r rs e full =
      rw (e, copy_pages) (rw full (rw (insert_all-append (r ∷ rs) table) refl))

all_there :
    (total : ℕ) (table m : List Reading)
    → m ≡ []
    → ◌≡◌ {A = Option (List Reading × Outcome)}
        (some (table ++ m, added (total + length m)))
        (some (table, added total))
all_there total table m e =
    let same : total + 0 ≡ total = omega arith in rw (e, append-nil table, same) refl

joined_pages :
    (total : ℕ) (table page rest m : List Reading)
    → page ++ rest ≡ m
    → ◌≡◌ {A = Option (List Reading × Outcome)}
        (some ((table ++ page) ++ rest, added (total + length page + length rest)))
        (some (table ++ m, added (total + length m)))
joined_pages total table page rest m e =
    let count : total + length page + length rest ≡ total + length (page ++ rest) =
      omega (arith, length-append page rest) in
    rw (← e) (rw (count, append_assoc table page rest) refl)

module _ (reply : ℕ → Option ℕ → Option (List Reading)) (k : ℕ) (remote : List Reading)
    (asc : Ascending remote)
    (serves : (n : ℕ) (after : Option ℕ)
      → reply n after ≡ some (get_solar_since after (suc k) remote)) where
  page_lem :
      (n : ℕ) (table : List Reading)
      → reply n (time_of (get_latest_solar table)) ≡ some (take (suc k) (missing table remote))
  page_lem n table =
      serves n (time_of (get_latest_solar table))
      ∙ ap (λ (l : List Reading). some l)
          (get_solar_since-Ascending (time_of (get_latest_solar table)) (suc k) remote asc)

  -- If no two readings of the shared service are of one second, and its rows are in the order of time,
  -- then, whatever the table holds, the loop ends once its fuel exceeds the number of the rows that the
  -- shared service has behind the table's newest; then the table has all of these, each once and in
  -- their order, and their number is what the loop counted.
  pub copy_pages-replicates :
      (fuel n total : ℕ) (table : List Reading)
      → length (missing table remote) < fuel
      → copy_pages reply (suc k) fuel n total table
        ≡ some (table ++ missing table remote, added (total + length (missing table remote)))
  copy_pages-replicates zero n total table h = absurd (omega arith)
  copy_pages-replicates (suc fuel) n total table h =
      step (missing table remote) refl (copy_pages-replicates fuel (n + 1))
    where
      step :
          (m : List Reading)
          → missing table remote ≡ m
          → ((total' : ℕ) (table' : List Reading)
              → length (missing table' remote) < fuel
              → copy_pages reply (suc k) fuel (n + 1) total' table'
                ≡ some (
                  table' ++ missing table' remote,
                  added (total' + length (missing table' remote)),
                ))
          → copy_pages reply (suc k) (suc fuel) n total table
            ≡ some (table ++ missing table remote, added (total + length (missing table remote)))
      step [] e ih =
          let nothing = page_lem n table ∙ ap (λ (m : List Reading). some (take (suc k) m)) e in
          copy_pages-end reply (suc k) fuel n total table nothing
          ∙ sym (all_there total table (missing table remote) e)
      step (x ∷ xs) e ih =
          let page = x ∷ take k xs in
          let paged = page_lem n table ∙ ap (λ (m : List Reading). some (take (suc k) m)) e in
          elim (Bool-cases (ltb (length page) (suc k))) [
            | inl short ↦
                let whole : page ≡ x ∷ xs =
                  length-take (suc k) (x ∷ xs) (ltb→lt (length page) (suc k) short) in
                copy_pages-short reply (suc k) fuel n total table x (take k xs) paged short
                ∙ ap (λ (m : List Reading). some (table ++ m, added (total + length m)))
                    (whole ∙ sym e)
            | inr full ↦
                let left = missing-after_page k table remote x xs asc e in
                let fewer : length (missing (table ++ page) remote) < fuel =
                  omega (arith, length-drop k xs x, ap length left, ap length e) in
                copy_pages-full reply (suc k) fuel n total table x (take k xs) paged full
                ∙ ih (total + length page) (table ++ page) fewer
                ∙ joined_pages total table page (missing (table ++ page) remote)
                    (missing table remote)
                    (ap (λ (l : List Reading). page ++ l) left ∙ take-drop (suc k) (x ∷ xs) ∙ sym e)
          ]
