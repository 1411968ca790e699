-- ===== src/Analyze/Live/TopValue.antt =====
-- The value that topValue of src/analyze/index.js takes.
use contestscore.Analyze.Live.{count_of, tally, best_count, top_value}
use contestscore.JsMap.{JsMap, get, put, keys, get-put, Distinct-keys-put}
use contestscore.Prelude.{
  ℕ, ◌+◌, ◌≤◌, ◌<◌, ◌≡◌, ◌∙◌, refl, sym, ap, ◌⊎◌, inl, inr, true, false, List, [], ◌∷◌, some, arith,
  ltb, In, Distinct, Bool-cases, if◌then◌else◌,
}
use contestscore.Prelude.Text.{Text, text_eq, text_eq_iff, text_key, is_empty}

-- How often a text occurs.
unfoldable pub occurrences : Text → List Text → ℕ
occurrences v [] = 0
occurrences v (w ∷ vs) = (if text_eq w v then 1 else 0) + occurrences v vs

count_of-put :
    (k v : Text) (n : ℕ) (m : JsMap Text ℕ)
    → count_of v (put k n m) ≡ (if text_eq k v then n else count_of v m)
unfolding count_of
count_of-put k v n m = ground (arith, get-put k v n m)

count_of-tally :
    (v : Text) (vs : List Text) (m : JsMap Text ℕ)
    → is_empty v ≡ false
    → count_of v (tally vs m) ≡ count_of v m + occurrences v vs
unfolding tally occurrences
count_of-tally v [] m given = omega arith
count_of-tally v (w ∷ vs) m given = elim (Bool-cases (is_empty w)) [
  | inl blank ↦
      let other : text_eq w v ≡ false = ground (arith, text_eq_iff w v, given) in
      rw (blank, other) (count_of-tally v vs m given ∙ omega arith)
  | inr full ↦ rw full (
      count_of-tally v vs (put w (count_of w m + 1) m) given
      ∙ ground (arith, count_of-put w v (count_of w m + 1) m, text_eq_iff w v))
]

Distinct-tally :
    (vs : List Text) (m : JsMap Text ℕ) → Distinct (keys m) → Distinct (keys (tally vs m))
unfolding tally
Distinct-tally [] m d = d
Distinct-tally (v ∷ vs) m d = elim (Bool-cases (is_empty v)) [
  | inl e ↦ rw e (Distinct-tally vs m d)
  | inr e ↦ rw e (Distinct-tally vs _ (Distinct-keys-put v (count_of v m + 1) m d))
]

best_count-ge : (m : JsMap Text ℕ) (best : Text) (n : ℕ) → n ≤ (best_count m best n).1
unfolding best_count
best_count-ge [] best n = omega arith
best_count-ge ((v, c) ∷ m) best n =
    ground (arith, best_count-ge m (if ltb n c then v else best) (if ltb n c then c else n))

best_count-most :
    (k : Text) (m : JsMap Text ℕ) (best : Text) (n : ℕ) → count_of k m ≤ (best_count m best n).1
unfolding best_count count_of get
best_count-most k [] best n = omega arith
best_count-most k ((v, c) ∷ m) best n =
    let best' = if ltb n c then v else best in
    let n' = if ltb n c then c else n in
    let past : n' ≤ (best_count m best' n').1 = best_count-ge m best' n' in
    let ih : count_of k m ≤ (best_count m best' n').1 = best_count-most k m best' n' in
    elim (Bool-cases (text_eq v k)) [
      | inl e ↦ rw (e, count_of) (ground arith)
      | inr e ↦ rw (e, count_of) ih
    ]

get-In : (k : Text) (n : ℕ) (m : JsMap Text ℕ) → get k m ≡ some n → In k (keys m)
unfolding get
get-In k n [] h = cc
get-In k n ((v, c) ∷ m) h = elim (Bool-cases (text_eq v k)) [
  | inl e ↦ inl (sym ((text_eq_iff v k).0 e))
  | inr e ↦ inr (get-In k n m (let h' : get k m ≡ some n = rw e at h in h'))
]

get_head : (v : Text) (c : ℕ) (m : JsMap Text ℕ) → get v ((v, c) ∷ m) ≡ some c
unfolding get
get_head v c m = let e : text_eq v v ≡ true = (text_eq_iff v v).1 refl in rw e refl

get_past :
    (k v : Text) (n c : ℕ) (m : JsMap Text ℕ)
    → (¬ In v (keys m))
    → get k m ≡ some n
    → get k ((v, c) ∷ m) ≡ some n
unfolding get
get_past k v n c m fresh h = elim (Bool-cases (text_eq v k)) [
  | inl e ↦ absurd (fresh (rw ((text_eq_iff v k).0 e) (get-In k n m h)))
  | inr e ↦ rw e h
]

best_count-up :
    (v : Text) (c : ℕ) (m : JsMap Text ℕ) (best : Text) (n : ℕ)
    → ltb n c ≡ true
    → best_count ((v, c) ∷ m) best n ≡ best_count m v c
unfolding best_count
best_count-up v c m best n up = rw up refl

best_count-down :
    (v : Text) (c : ℕ) (m : JsMap Text ℕ) (best : Text) (n : ℕ)
    → ltb n c ≡ false
    → best_count ((v, c) ∷ m) best n ≡ best_count m best n
unfolding best_count
best_count-down v c m best n down = rw down refl

-- The result is the start or an entry: one step.
best_count-achieved_step :
    (v : Text) (c : ℕ) (m : JsMap Text ℕ) (best : Text) (n : ℕ)
    → (¬ In v (keys m))
    → (best_count m v c ≡ (v, c)) ⊎ (get (best_count m v c).0 m ≡ some (best_count m v c).1)
    → (best_count m best n ≡ (best, n))
      ⊎ (get (best_count m best n).0 m ≡ some (best_count m best n).1)
    → (best_count ((v, c) ∷ m) best n ≡ (best, n))
      ⊎ (get (best_count ((v, c) ∷ m) best n).0 ((v, c) ∷ m)
          ≡ some (best_count ((v, c) ∷ m) best n).1)
best_count-achieved_step v c m best n fresh taken kept = elim (Bool-cases (ltb n c)) [
  | inl up ↦ rw (best_count-up v c m best n up) (elim taken [
    | inl e ↦ inr (rw e (get_head v c m))
    | inr e ↦ inr (get_past (best_count m v c).0 v (best_count m v c).1 c m fresh e)
  ])
  | inr down ↦ rw (best_count-down v c m best n down) (elim kept [
    | inl e ↦ inl e
    | inr e ↦ inr (get_past (best_count m best n).0 v (best_count m best n).1 c m fresh e)
  ])
]

best_count-achieved :
    (m : JsMap Text ℕ) (best : Text) (n : ℕ)
    → Distinct (keys m)
    → (best_count m best n ≡ (best, n))
      ⊎ (get (best_count m best n).0 m ≡ some (best_count m best n).1)
unfolding best_count
best_count-achieved [] best n d = inl refl
best_count-achieved ((v, c) ∷ m) best n d =
    best_count-achieved_step v c m best n d.0 (best_count-achieved m v c d.1)
      (best_count-achieved m best n d.1)

best_of-counted :
    (v : Text) (m : JsMap Text ℕ)
    → Distinct (keys m)
    → 0 < count_of v m
    → count_of (best_count m [] 0).0 m ≡ (best_count m [] 0).1
unfolding count_of
best_of-counted v m d pos = elim (best_count-achieved m [] 0 d) [
  | inl e ↦ absurd (
      let top : count_of v m ≤ 0 =
        rw (← (ap (λ (r : Text × ℕ). r.1) e)) (best_count-most v m [] 0) in
      omega arith)
  | inr e ↦ rw (e, count_of) refl
]

count_of-none : (v : Text) → count_of v [] ≡ 0
unfolding count_of get
count_of-none v = refl

count_of-tally_blank :
    (vs : List Text) (m : JsMap Text ℕ) → count_of [] (tally vs m) ≡ count_of [] m
unfolding tally
count_of-tally_blank [] m = refl
count_of-tally_blank (w ∷ vs) m = elim (Bool-cases (is_empty w)) [
  | inl blank ↦ rw blank (count_of-tally_blank vs m)
  | inr full ↦ rw full (
      count_of-tally_blank vs (put w (count_of w m + 1) m)
      ∙ ground (arith, count_of-put w [] (count_of w m + 1) m, text_eq_iff w []))
]

counted_is_full : (t : Text) (vs : List Text) → 0 < count_of t (tally vs []) → is_empty t ≡ false
counted_is_full (c ∷ t) vs h = refl
counted_is_full [] vs h = absurd (omega (arith, count_of-tally_blank vs [], count_of-none []))

-- The value taken is not blank and occurs at least as often as any other that is not blank, if the
-- values hold one.
pub top_value-most :
    (vs : List Text) (v : Text)
    → is_empty v ≡ false
    → 0 < occurrences v vs
    → (is_empty (top_value vs) ≡ false) × (occurrences v vs ≤ occurrences (top_value vs) vs)
unfolding top_value
top_value-most vs v given some_v =
    let m = tally vs [] in
    let d : Distinct (keys m) = Distinct-tally vs [] tt in
    let count_v : count_of v m ≡ occurrences v vs =
      omega (arith, count_of-tally v vs [] given, count_of-none v) in
    let top = (best_count m [] 0).0 in
    let count_top = best_of-counted v m d (omega (arith, count_v)) in
    let most = best_count-most v m [] 0 in
    let full : is_empty top ≡ false =
      counted_is_full top vs (omega (arith, count_v, count_top, most)) in
    (
      full,
      omega (arith, count_of-tally top vs [] full, count_of-none top, count_v, count_top, most),
    )
