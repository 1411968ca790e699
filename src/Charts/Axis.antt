-- ===== src/Charts/Axis.antt =====
-- The time axis of public/js/charts.js has the bucket of every QSO.
use contestscore.Charts.{span_of, bucket_of, bucket_list, most_buckets, axis_of}
use native.Mathlib.Nat.{le-div_iff_mul-le, div-mul-le_self}
use contestscore.Prelude.{
  ℕ, zero, suc, ◌+◌, ◌-◌, ◌*◌, ◌/◌, ◌≤◌, ◌<◌, ◌≡◌, inl, inr, true, List, [], ◌∷◌, arith, ltb, leb,
  All, In, All-weaken, if◌then◌else◌,
}

bucket_list-In :
    (room j b stop ms x : ℕ)
    → x ≡ b + j * ms
    → j < room
    → x ≤ stop
    → In x (bucket_list room b stop ms)
unfolding bucket_list
bucket_list-In zero j b stop ms x e h l = absurd (omega arith)
bucket_list-In (suc room) zero b stop ms x e h l =
    let first : leb b stop ≡ true = ground arith in rw first (inl (omega arith))
bucket_list-In (suc room) (suc j) b stop ms x e h l =
    let step : x ≡ b + ms + j * ms = grind arith in
    let first : leb b stop ≡ true = ground (arith, step) in
    rw first (inr (bucket_list-In room j (b + ms) stop ms x step (omega arith) l))

span_of-outer :
    (ts : List ℕ) (lo hi : ℕ) → ((span_of ts lo hi).0 ≤ lo) × (hi ≤ (span_of ts lo hi).1)
unfolding span_of
span_of-outer [] lo hi = (omega arith, omega arith)
span_of-outer (t ∷ ts) lo hi =
    let (l, h) = span_of-outer ts (if ltb t lo then t else lo) (if ltb hi t then t else hi) in
    (ground arith, ground arith)

span_of-All :
    (ts : List ℕ) (lo hi : ℕ)
    → All (λ (t : ℕ). ((span_of ts lo hi).0 ≤ t) × (t ≤ (span_of ts lo hi).1)) ts
unfolding span_of
span_of-All [] lo hi = tt
span_of-All (t ∷ ts) lo hi =
    let (l, h) = span_of-outer ts (if ltb t lo then t else lo) (if ltb hi t then t else hi) in
    (
      (ground arith, ground arith),
      span_of-All ts (if ltb t lo then t else lo) (if ltb hi t then t else hi),
    )

div_mono : (a b ms : ℕ) → 0 < ms → a ≤ b → a / ms ≤ b / ms
div_mono a b ms pos h =
    let below = div-mul-le_self a ms in
    (le-div_iff_mul-le {k = ms} {x = a / ms} {y = b} pos).1 (omega arith)

-- Every time between two has its bucket on the list from the first's, if there is room up to the last's.
bucket-In :
    (room ms lo hi t : ℕ)
    → 0 < ms
    → lo ≤ t
    → t ≤ hi
    → hi / ms < lo / ms + room
    → In (bucket_of ms t) (bucket_list room (bucket_of ms lo) (bucket_of ms hi) ms)
unfolding bucket_of
bucket-In room ms lo hi t pos l h near =
    let a : lo / ms ≤ t / ms = div_mono lo t ms pos l in
    let b : t / ms ≤ hi / ms = div_mono t hi ms pos h in
    bucket_list-In room (t / ms - lo / ms) (lo / ms * ms) (hi / ms * ms) ms (t / ms * ms)
      (spread (lo / ms) (t / ms) ms a) (omega (arith, a, b, near)) (scaled (t / ms) (hi / ms) ms b)
  where
    spread : (x y k : ℕ) → x ≤ y → y * k ≡ x * k + (y - x) * k
    spread x y k h' = let e : y ≡ x + (y - x) = omega arith in grind arith

    scaled : (x y k : ℕ) → x ≤ y → x * k ≤ y * k
    scaled x y k h' = grind arith

axis_All-In :
    (room ms t : ℕ) (ts : List ℕ)
    → 0 < ms
    → (span_of (t ∷ ts) t t).1 / ms < (span_of (t ∷ ts) t t).0 / ms + room
    → All
        (λ (x : ℕ). In (bucket_of ms x) (
          bucket_list room
            (bucket_of ms (span_of (t ∷ ts) t t).0)
            (bucket_of ms (span_of (t ∷ ts) t t).1)
            ms))
        (t ∷ ts)
axis_All-In room ms t ts pos near =
    let lo = (span_of (t ∷ ts) t t).0 in
    let hi = (span_of (t ∷ ts) t t).1 in
    All-weaken _ _ (λ (x : ℕ) (p : (lo ≤ x) × (x ≤ hi)). bucket-In room ms lo hi x pos p.0 p.1 near)
      (t ∷ ts) (span_of-All (t ∷ ts) t t)

pub axis_of-All :
    (ms t : ℕ) (ts : List ℕ)
    → 0 < ms
    → (span_of (t ∷ ts) t t).1 / ms < (span_of (t ∷ ts) t t).0 / ms + most_buckets
    → All (λ (x : ℕ). In (bucket_of ms x) (axis_of ms (t ∷ ts))) (t ∷ ts)
unfolding axis_of
axis_of-All ms t ts pos near = axis_All-In most_buckets ms t ts pos near
