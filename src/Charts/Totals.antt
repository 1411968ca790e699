-- ===== src/Charts/Totals.antt =====
-- The cumulative chart of public/js/charts.js ends at the total.
use contestscore.Charts.{
  logged_times, span_of, bucket_of, bucket_ms, most_buckets, axis_of, time_axis, Counts, zeros,
  add_at, fill, running, build_cumulative,
}
use mathlib.Core.Path.{subst}
use contestscore.Charts.Axis.{axis_of-All}
use contestscore.Prelude.{
  ℕ, ◌+◌, ◌/◌, ◌<◌, ◌≡◌, ◌∙◌, refl, sym, ap, inl, inr, true, List, [], ◌∷◌, Option, none, some,
  arith, ◌==◌, All, In, Bool-cases, Option-cases,
}
use contestscore.Rates.Dedupe.{LoggedQso}

total : Counts → ℕ
total [] = 0
total ((k, v) ∷ m) = v + total m

buckets_in : Counts → List ℕ
buckets_in [] = []
buckets_in ((k, v) ∷ m) = k ∷ buckets_in m

total-zeros : (bs : List ℕ) → total (zeros bs) ≡ 0
unfolding total zeros
total-zeros [] = refl
total-zeros (b ∷ bs) = omega (arith, total-zeros bs)

buckets_in-zeros : (bs : List ℕ) → buckets_in (zeros bs) ≡ bs
unfolding buckets_in zeros
buckets_in-zeros [] = refl
buckets_in-zeros (b ∷ bs) = ap (λ (l : List ℕ). b ∷ l) (buckets_in-zeros bs)

buckets_in-add_at : (b v : ℕ) (m : Counts) → buckets_in (add_at b v m) ≡ buckets_in m
unfolding buckets_in add_at
buckets_in-add_at b v [] = refl
buckets_in-add_at b v ((k, w) ∷ m) = elim (Bool-cases (k == b)) [
  | inl e ↦ rw e refl
  | inr e ↦ rw e (ap (λ (l : List ℕ). k ∷ l) (buckets_in-add_at b v m))
]

total-add_at : (b v : ℕ) (m : Counts) → In b (buckets_in m) → total (add_at b v m) ≡ total m + v
unfolding total add_at buckets_in
total-add_at b v [] h = absurd h
total-add_at b v ((k, w) ∷ m) (inl e) =
    let same : (k == b) ≡ true = ground arith in rw same (omega arith)
total-add_at b v ((k, w) ∷ m) (inr h) = elim (Bool-cases (k == b)) [
  | inl e ↦ rw e (omega arith)
  | inr e ↦ rw e (omega (arith, total-add_at b v m h))
]

-- What the QSOs with a time come to.
pub timed_total : (LoggedQso → Option ℕ) → (LoggedQso → ℕ) → List LoggedQso → ℕ
timed_total time_of value [] = 0
timed_total time_of value (q ∷ qs) =
    (elim (time_of q) [ none ↦ 0 | some t ↦ value q ]) + timed_total time_of value qs

-- The last entry, or a default.
pub last_or : ℕ → List ℕ → ℕ
last_or d [] = d
last_or d (x ∷ xs) = last_or x xs

last_or-running : (run : ℕ) (m : Counts) → last_or run (running run m) ≡ run + total m
unfolding last_or running total
last_or-running run [] = omega arith
last_or-running run ((b, v) ∷ m) = omega (arith, last_or-running (run + v) m)

logged_times-none :
    (time_of : LoggedQso → Option ℕ) (q : LoggedQso) (qs : List LoggedQso)
    → time_of q ≡ none
    → logged_times time_of (q ∷ qs) ≡ logged_times time_of qs
unfolding logged_times
logged_times-none time_of q qs e = rw (e, logged_times) refl

logged_times-some :
    (time_of : LoggedQso → Option ℕ) (q : LoggedQso) (qs : List LoggedQso) (t : ℕ)
    → time_of q ≡ some t
    → logged_times time_of (q ∷ qs) ≡ t ∷ logged_times time_of qs
unfolding logged_times
logged_times-some time_of q qs t e = rw (e, logged_times) refl

bucket_ms-pos : (minutes : ℕ) → 0 < bucket_ms minutes
unfolding bucket_ms
bucket_ms-pos minutes = ground arith

module _ (time_of : LoggedQso → Option ℕ) (ms : ℕ) (value : LoggedQso → ℕ) where
  total-fill :
      (qs : List LoggedQso) (m : Counts)
      → All (λ (t : ℕ). In (bucket_of ms t) (buckets_in m)) (logged_times time_of qs)
      → total (fill time_of ms value qs m) ≡ total m + timed_total time_of value qs
  unfolding fill timed_total
  total-fill [] m h = omega arith
  total-fill (q ∷ qs) m h = elim (Option-cases (time_of q)) [
    | inl e ↦
        rw e (total-fill qs m (subst (All _) (logged_times-none time_of q qs e) h) ∙ omega arith)
    | inr (t, e) ↦
        let m' = add_at (bucket_of ms t) (value q) m in
        let h' : All (λ (x : ℕ). In (bucket_of ms x) (buckets_in m)) (t ∷ logged_times time_of qs) =
          subst (All _) (logged_times-some time_of q qs t e) h in
        let later : All (λ (x : ℕ). In (bucket_of ms x) (buckets_in m')) (logged_times time_of qs) =
          rw (buckets_in-add_at (bucket_of ms t) (value q) m) h'.1 in
        rw e
          (total-fill qs m' later ∙ omega (arith, total-add_at (bucket_of ms t) (value q) m h'.0))
  ]

cumulative_lem :
    (time_of : LoggedQso → Option ℕ) (ms : ℕ) (value : LoggedQso → ℕ) (qs : List LoggedQso)
    (axis : List ℕ)
    → All (λ (x : ℕ). In (bucket_of ms x) axis) (logged_times time_of qs)
    → last_or 0 (running 0 (fill time_of ms value qs (zeros axis))) ≡ timed_total time_of value qs
cumulative_lem time_of ms value qs axis h =
    let h' : All (λ (x : ℕ). In (bucket_of ms x) (buckets_in (zeros axis)))
        (logged_times time_of qs) =
      subst (λ (bs : List ℕ). All (λ (x : ℕ). In (bucket_of ms x) bs) (logged_times time_of qs))
        (sym (buckets_in-zeros axis)) h in
    omega (
      arith,
      last_or-running 0 (fill time_of ms value qs (zeros axis)),
      total-fill time_of ms value qs (zeros axis) h',
      total-zeros axis,
    )

time_axis-some :
    (time_of : LoggedQso → Option ℕ) (ms : ℕ) (qs : List LoggedQso) (t : ℕ) (ts : List ℕ)
    → logged_times time_of qs ≡ t ∷ ts
    → time_axis time_of ms qs ≡ axis_of ms (t ∷ ts)
unfolding time_axis
time_axis-some time_of ms qs t ts e = ap (axis_of ms) e

-- A chart with room for the buckets from the first QSO's to the last's ends at the sum of the values of all
-- QSOs that have a time, whatever the order in which they were logged.
pub build_cumulative-last :
    (time_of : LoggedQso → Option ℕ) (minutes : ℕ) (value : LoggedQso → ℕ) (qs : List LoggedQso)
    (t : ℕ) (ts : List ℕ)
    → logged_times time_of qs ≡ t ∷ ts
    → (span_of (t ∷ ts) t t).1 / bucket_ms minutes
      < (span_of (t ∷ ts) t t).0 / bucket_ms minutes + most_buckets
    → last_or 0 (build_cumulative time_of minutes value qs) ≡ timed_total time_of value qs
unfolding build_cumulative
build_cumulative-last time_of minutes value qs t ts e near =
    let ms = bucket_ms minutes in
    cumulative_lem time_of ms value qs (time_axis time_of ms qs) (
      subst (λ (bs : List ℕ). All (λ (x : ℕ). In (bucket_of ms x) bs) (logged_times time_of qs))
        (sym (time_axis-some time_of ms qs t ts e))
        (subst (λ (xs : List ℕ). All (λ (x : ℕ). In (bucket_of ms x) (axis_of ms (t ∷ ts))) xs)
          (sym e) (axis_of-All ms t ts (bucket_ms-pos minutes) near)))
