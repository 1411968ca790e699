-- ===== src/Charts/Bars/Ranking.antt =====
-- The bars of buildOperatorContribution in public/js/charts.js.
use contestscore.Charts.Bars.{
  Totals, or_nothing, add_total, totals_of, place_biggest, biggest_first,
  build_operator_contribution,
}
use contestscore.JsMap.{get, put}
use contestscore.Prelude.{
  ℕ, ◌+◌, ◌≤◌, ◌≡◌, refl, inl, inr, List, [], ◌∷◌, arith, ltb, Bool-cases, All, All-weaken,
}
use contestscore.Prelude.Text.{Text, text_eq, text_key}
use contestscore.Rates.Dedupe.{LoggedQso}

-- What all bars come to.
pub total : Totals → ℕ
total [] = 0
total ((k, n) ∷ m) = n + total m

-- What all QSOs come to.
pub sum_of : (LoggedQso → ℕ) → List LoggedQso → ℕ
sum_of value [] = 0
sum_of value (q ∷ qs) = value q + sum_of value qs

-- No bar is higher than the one before it.
pub Descends : Totals → Type 0
Descends [] = Unit
Descends ((k, n) ∷ m) = All (λ (e : Text × ℕ). e.1 ≤ n) m × Descends m

total-put : (k : Text) (w : ℕ) (m : Totals) → total (put k w m) + or_nothing (get k m) ≡ total m + w
unfolding total get put or_nothing
total-put k w [] = omega arith
total-put k w ((j, n) ∷ m) = elim (Bool-cases (text_eq j k)) [
  | inl e ↦ rw e (omega arith)
  | inr e ↦ rw e (omega (arith, total-put k w m))
]

total-add_total : (k : Text) (v : ℕ) (m : Totals) → total (add_total k v m) ≡ total m + v
unfolding add_total
total-add_total k v m = omega (arith, total-put k (or_nothing (get k m) + v) m)

total-totals_of :
    (key_of : LoggedQso → Text) (value : LoggedQso → ℕ) (qs : List LoggedQso) (m : Totals)
    → total (totals_of key_of value qs m) ≡ total m + sum_of value qs
unfolding totals_of sum_of
total-totals_of key_of value [] m = omega arith
total-totals_of key_of value (q ∷ qs) m = omega (
  arith,
  total-totals_of key_of value qs (add_total (key_of q) (value q) m),
  total-add_total (key_of q) (value q) m,
)

total-place_biggest : (k : Text) (n : ℕ) (m : Totals) → total (place_biggest (k, n) m) ≡ n + total m
unfolding total place_biggest
total-place_biggest k n [] = refl
total-place_biggest k n ((j, v) ∷ m) = elim (Bool-cases (ltb n v)) [
  | inl e ↦ rw e (omega (arith, total-place_biggest k n m))
  | inr e ↦ rw e refl
]

total-biggest_first : (m : Totals) → total (biggest_first m) ≡ total m
unfolding total biggest_first
total-biggest_first [] = refl
total-biggest_first ((k, n) ∷ m) =
    omega (arith, total-place_biggest k n (biggest_first m), total-biggest_first m)

All-place_biggest :
    (b : ℕ) (k : Text) (n : ℕ) (m : Totals)
    → n ≤ b
    → All (λ (e : Text × ℕ). e.1 ≤ b) m
    → All (λ (e : Text × ℕ). e.1 ≤ b) (place_biggest (k, n) m)
unfolding place_biggest
All-place_biggest b k n [] h a = (h, tt)
All-place_biggest b k n ((j, v) ∷ m) h a = elim (Bool-cases (ltb n v)) [
  | inl e ↦ rw e (a.0, All-place_biggest b k n m h a.1)
  | inr e ↦ rw e (h, a)
]

Descends-place_biggest :
    (k : Text) (n : ℕ) (m : Totals) → Descends m → Descends (place_biggest (k, n) m)
unfolding Descends place_biggest
Descends-place_biggest k n [] d = (tt, tt)
Descends-place_biggest k n ((j, v) ∷ m) d = elim (Bool-cases (ltb n v)) [
  | inl e ↦ rw e (All-place_biggest v k n m (ground arith) d.0, Descends-place_biggest k n m d.1)
  | inr e ↦
      let le : v ≤ n = ground arith in
      rw e ((le, All-weaken _ _ (λ (x : Text × ℕ) (h : x.1 ≤ v). omega arith) m d.0), d)
]

Descends-biggest_first : (m : Totals) → Descends (biggest_first m)
unfolding Descends biggest_first
Descends-biggest_first [] = tt
Descends-biggest_first ((k, n) ∷ m) =
    Descends-place_biggest k n (biggest_first m) (Descends-biggest_first m)

-- No operator's bar is higher than the one before it, and together the bars come to the sum of the values of
-- all QSOs.
pub build_operator_contribution-ranks :
    (operator_of : LoggedQso → Text) (value : LoggedQso → ℕ) (qs : List LoggedQso)
    → Descends (build_operator_contribution operator_of value qs)
      × (total (build_operator_contribution operator_of value qs) ≡ sum_of value qs)
unfolding build_operator_contribution total
build_operator_contribution-ranks operator_of value qs = (
  Descends-biggest_first (totals_of operator_of value qs []),
  omega (
    arith,
    total-biggest_first (totals_of operator_of value qs []),
    total-totals_of operator_of value qs [],
  ),
)
