-- ===== src/Solar/Sorting.antt =====
-- Lists of readings in the order of their times.
use contestscore.Prelude.{
  ◌≤◌, ◌≡◌, ◌∙◌, refl, sym, ap, ◌⊎◌, inl, inr, Bool, true, false, List, [], ◌∷◌, none, some, arith,
  leb, keep, All, In, All-keep, All-weaken, Bool-cases, Option-cases,
}
use mathlib.Core.Path.{subst}
use contestscore.Solar.Readings.{Reading, get_latest_solar, place, by_time}

-- The times do not fall.
abbrev pub Ordered : List Reading → Type 0
Ordered [] = Unit
Ordered (x ∷ xs) = All (λ (y : Reading). x.fetched_at ≤ y.fetched_at) xs × Ordered xs

pub All-In : {A : Type 0} (P : A → Type 0) (xs : List A) (a : A) → All P xs → In a xs → P a
All-In P [] a h m = absurd m
All-In P (x ∷ xs) a h (inl e) = rw e h.0
All-In P (x ∷ xs) a h (inr m) = All-In P xs a h.1 m

pub All-of_In : {A : Type 0} (P : A → Type 0) (xs : List A) → ((a : A) → In a xs → P a) → All P xs
All-of_In P [] h = tt
All-of_In P (x ∷ xs) h = (h x (inl refl), All-of_In P xs (λ a m. h a (inr m)))

pub In-keep :
    {A : Type 0} (p : A → Bool) (xs : List A) (a : A) → In a (keep p xs) → In a xs × (p a ≡ true)
In-keep p [] a m = absurd m
In-keep p (x ∷ xs) a m = elim (Bool-cases (p x)) [
  | inl e ↦ elim (let m' : In a (x ∷ keep p xs) = rw e at m in m') [
    | inl same ↦ (inl same, rw same e)
    | inr k ↦ let (inside, passes) = In-keep p xs a k in (inr inside, passes)
  ]
  | inr e ↦
      let (inside, passes) = In-keep p xs a (let m' : In a (keep p xs) = rw e at m in m') in
      (inr inside, passes)
]

pub In-keep_of :
    {A : Type 0} (p : A → Bool) (xs : List A) (a : A) → In a xs → p a ≡ true → In a (keep p xs)
In-keep_of p [] a m h = absurd m
In-keep_of p (x ∷ xs) a m h = elim (Bool-cases (p x)) [
  | inl e ↦ rw e (elim m [ inl same ↦ inl same | inr k ↦ inr (In-keep_of p xs a k h) ])
  | inr e ↦ rw e (elim m [
    | inl same ↦ absurd (let e' : p a ≡ false = rw same e in ground arith)
    | inr k ↦ In-keep_of p xs a k h
  ])
]

All-place :
    (P : Reading → Type 0) (r : Reading) (xs : List Reading) → P r → All P xs → All P (place r xs)
unfolding place
All-place P r [] p h = (p, tt)
All-place P r (x ∷ xs) p h = elim (Bool-cases (leb r.fetched_at x.fetched_at)) [
  | inl e ↦ rw e (p, h)
  | inr e ↦ rw e (h.0, All-place P r xs p h.1)
]

place-Ordered : (r : Reading) (xs : List Reading) → Ordered xs → Ordered (place r xs)
unfolding place
place-Ordered r [] h = (tt, tt)
place-Ordered r (x ∷ xs) h = elim (Bool-cases (leb r.fetched_at x.fetched_at)) [
  | inl e ↦
      let first : r.fetched_at ≤ x.fetched_at = ground arith in
      rw e (
        (
          first,
          All-weaken _ _ (λ (y : Reading) (q : x.fetched_at ≤ y.fetched_at). omega arith) xs h.0,
        ),
        h,
      )
  | inr e ↦ rw e (All-place _ r xs (ground arith) h.0, place-Ordered r xs h.1)
]

pub by_time-Ordered : (xs : List Reading) → Ordered (by_time xs)
unfolding by_time
by_time-Ordered [] = tt
by_time-Ordered (x ∷ xs) = place-Ordered x (by_time xs) (by_time-Ordered xs)

In-place : (a r : Reading) (xs : List Reading) → In a (place r xs) → (a ≡ r) ⊎ In a xs
unfolding place
In-place a r [] m = m
In-place a r (x ∷ xs) m = elim (Bool-cases (leb r.fetched_at x.fetched_at)) [
  | inl e ↦ (let m' : In a (r ∷ x ∷ xs) = rw e at m in m')
  | inr e ↦ elim (let m' : In a (x ∷ place r xs) = rw e at m in m') [
    | inl same ↦ inr (inl same)
    | inr k ↦ elim (In-place a r xs k) [ inl same ↦ inl same | inr l ↦ inr (inr l) ]
  ]
]

In-place_of : (a r : Reading) (xs : List Reading) → (a ≡ r) ⊎ In a xs → In a (place r xs)
unfolding place
In-place_of a r [] m = m
In-place_of a r (x ∷ xs) m = elim (Bool-cases (leb r.fetched_at x.fetched_at)) [
  | inl e ↦ rw e m
  | inr e ↦ rw e (elim m [
    | inl same ↦ inr (In-place_of a r xs (inl same))
    | inr (inl same) ↦ inl same
    | inr (inr k) ↦ inr (In-place_of a r xs (inr k))
  ])
]

pub In-by_time : (a : Reading) (xs : List Reading) → In a (by_time xs) → In a xs
unfolding by_time
In-by_time a [] m = m
In-by_time a (x ∷ xs) m = elim (In-place a x (by_time xs) m) [
  | inl same ↦ inl same
  | inr k ↦ inr (In-by_time a xs k)
]

pub In-by_time_of : (a : Reading) (xs : List Reading) → In a xs → In a (by_time xs)
unfolding by_time
In-by_time_of a [] m = m
In-by_time_of a (x ∷ xs) m =
    In-place_of a x (by_time xs)
      (elim m [ inl same ↦ inl same | inr k ↦ inr (In-by_time_of a xs k) ])

place_first :
    (r : Reading) (xs : List Reading)
    → All (λ (y : Reading). r.fetched_at ≤ y.fetched_at) xs
    → place r xs ≡ r ∷ xs
unfolding place
place_first r [] h = refl
place_first r (x ∷ xs) h =
    let le : leb r.fetched_at x.fetched_at ≡ true = ground (arith, h.0) in rw le refl

-- Readings in order stay as they are.
pub by_time_of_Ordered : (xs : List Reading) → Ordered xs → by_time xs ≡ xs
unfolding by_time
by_time_of_Ordered [] h = refl
by_time_of_Ordered (x ∷ xs) h = rw (by_time_of_Ordered xs h.1) (place_first x xs h.0)

pub Ordered-keep : (p : Reading → Bool) (xs : List Reading) → Ordered xs → Ordered (keep p xs)
Ordered-keep p [] h = tt
Ordered-keep p (x ∷ xs) h = elim (Bool-cases (p x)) [
  | inl e ↦ rw e (All-keep _ p xs h.0, Ordered-keep p xs h.1)
  | inr e ↦ rw e (Ordered-keep p xs h.1)
]

get_latest_solar-cons_none :
    (r : Reading) (rs : List Reading)
    → get_latest_solar rs ≡ none
    → get_latest_solar (r ∷ rs) ≡ some r
unfolding get_latest_solar
get_latest_solar-cons_none r rs e = rw (e, get_latest_solar) refl

pub get_latest_solar-cons_some :
    (r l : Reading) (rs : List Reading)
    → get_latest_solar rs ≡ some l
    → get_latest_solar (r ∷ rs) ≡ some l
unfolding get_latest_solar
get_latest_solar-cons_some r l rs e = rw (e, get_latest_solar) refl

-- A list that is not empty has a last reading, and what holds of all holds of it.
pub get_latest_solar-cases :
    (r : Reading) (rs : List Reading)
    → (l : Reading) × (get_latest_solar (r ∷ rs) ≡ some l) × In l (r ∷ rs)
unfolding get_latest_solar
get_latest_solar-cases r [] = (r, refl, inl refl)
get_latest_solar-cases r (x ∷ xs) =
    let (l, e, m) = get_latest_solar-cases x xs in
    (l, get_latest_solar-cons_some r l (x ∷ xs) e, inr m)

pub get_latest_solar-In : (rs : List Reading) (l : Reading) → get_latest_solar rs ≡ some l → In l rs
unfolding get_latest_solar
get_latest_solar-In [] l e = cc
get_latest_solar-In (r ∷ rs) l e =
    let (k, e', m) = get_latest_solar-cases r rs in
    let same : some k ≡ some l = sym e' ∙ e in
    let eq : k ≡ l = cc in subst (λ (x : Reading). In x (r ∷ rs)) eq m

pub get_latest_solar-none : (rs : List Reading) → get_latest_solar rs ≡ none → rs ≡ []
get_latest_solar-none [] e = refl
get_latest_solar-none (r ∷ rs) e = let (l, e', m) = get_latest_solar-cases r rs in cc

-- The last of readings in order is the newest.
pub get_latest_solar-newest :
    (rs : List Reading) (l : Reading)
    → Ordered rs
    → get_latest_solar rs ≡ some l
    → All (λ (r : Reading). r.fetched_at ≤ l.fetched_at) rs
get_latest_solar-newest [] l o e = tt
get_latest_solar-newest (r ∷ rs) l o e = elim (Option-cases (get_latest_solar rs)) [
  | inl alone ↦
      let same : some r ≡ some l = sym (get_latest_solar-cons_none r rs alone) ∙ e in
      let eq : r ≡ l = cc in
      (omega (arith, ap (λ (x : Reading). x.fetched_at) eq), rw (get_latest_solar-none rs alone) tt)
  | inr (k, last) ↦
      let same : some k ≡ some l = sym (get_latest_solar-cons_some r k rs last) ∙ e in
      let eq : k ≡ l = cc in
      let at_l : get_latest_solar rs ≡ some l = last ∙ same in
      (All-In _ rs l o.0 (get_latest_solar-In rs l at_l), get_latest_solar-newest rs l o.1 at_l)
]
