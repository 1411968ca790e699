-- ===== src/Rates/WindowLaws.antt =====
-- The two-pointer sweeps of public/js/stats.js and tui/index.js against a definition by counting.
use contestscore.Prelude.{
  ℕ, zero, suc, ◌+◌, ◌-◌, ◌≤◌, ◌<◌, ◌≡◌, ◌∙◌, refl, sym, ap, inl, inr, true, false, List, [], ◌∷◌,
  ◌++◌, some, ltb, length, get_elem?, arith, All, Option-cases, Bool-cases, if◌then◌else◌,
}
use native.Mathlib.Decide.{dec_lt}
use Prim.Native.Nat.{max}
use contestscore.Rates.Window.{advance}

abbrev pub Ascending : List ℕ → Type 0
Ascending [] = Unit
Ascending (t ∷ ts) = All (λ u. t ≤ u) ts × Ascending ts

-- how many of the times lie less than a window after `t`
abbrev pub count_within : ℕ → ℕ → List ℕ → ℕ
count_within w t [] = 0
count_within w t (u ∷ us) =
    let rest = count_within w t us in if ltb (u - t) w then suc rest else rest

-- the most entries in any window that begins at an entry
abbrev pub most_in_window : ℕ → List ℕ → ℕ
most_in_window w [] = 0
most_in_window w (t ∷ ts) = max (count_within w t ts + 1) (most_in_window w ts)

count_outside :
    (w t v : ℕ) (us : List ℕ) → w ≤ v - t → All (λ u. v ≤ u) us → count_within w t us ≡ 0
count_outside w t v [] h k = refl
count_outside w t v (u ∷ us) h k = ground (arith, count_outside w t v us h k.1)

-- Among ascending times those inside the window come first.
within-get :
    (w t : ℕ) (us : List ℕ) (m : ℕ)
    → Ascending us
    → m < count_within w t us
    → (u : ℕ) × (get_elem? us m ≡ some u) × (ltb (u - t) w ≡ true)
within-get w t [] m h l = absurd (omega arith)
within-get w t (u ∷ us) zero h l = elim (Bool-cases (ltb (u - t) w)) [
  | inl e ↦ (u, refl, e)
  | inr e ↦ absurd (ground (arith, count_outside w t u us))
]
within-get w t (u ∷ us) (suc m) h l = elim (Bool-cases (ltb (u - t) w)) [
  | inl e ↦ within-get w t us m h.1 (ground arith)
  | inr e ↦ absurd (ground (arith, count_outside w t u us))
]

head_outside :
    (w t v u : ℕ) (us : List ℕ)
    → ltb (v - t) w ≡ false
    → All (λ x. v ≤ x) us
    → get_elem? (v ∷ us) (count_within w t us) ≡ some u
    → u ≡ v
head_outside w t v u us f h e =
    let first : get_elem? (v ∷ us) 0 ≡ some u = rw (count_outside w t v us (ground arith) h) at e in
    cc

-- The first time outside the window comes right behind those inside.
outside-get :
    (w t : ℕ) (us : List ℕ) (u : ℕ)
    → Ascending us
    → get_elem? us (count_within w t us) ≡ some u
    → ltb (u - t) w ≡ false
outside-get w t [] u h e = cc
outside-get w t (v ∷ us) u h e = elim (Bool-cases (ltb (v - t) w)) [
  | inl f ↦ outside-get w t us u h.1 (rw f at e)
  | inr f ↦ rw (head_outside w t v u us f h.0 (rw f at e)) f
]

get-append :
    (pre us : List ℕ) (t m : ℕ) → get_elem? (pre ++ t ∷ us) (length pre + m + 1) ≡ get_elem? us m
get-append [] us t m = let e : 0 + m + 1 ≡ suc m = omega arith in rw e
get-append (p ∷ pre) us t m =
    let e : suc (length pre) + m + 1 ≡ suc (length pre + m + 1) = omega arith in
    rw e (get-append pre us t m)

-- one round of the inner loop
module _ (times : List ℕ) (w t rounds j : ℕ) where
  advance-stop :
      ((u : ℕ) → get_elem? times (j + 1) ≡ some u → ltb (u - t) w ≡ false)
      → advance times w t (suc rounds) j ≡ j
  unfolding advance
  advance-stop h = elim (Option-cases (get_elem? times (j + 1))) [
    | inl e ↦ rw (e, advance) refl
    | inr (u, e) ↦ rw (e, advance) (rw (h u e) refl)
  ]

  advance-go :
      (u : ℕ)
      → get_elem? times (j + 1) ≡ some u
      → ltb (u - t) w ≡ true
      → advance times w t (suc rounds) j ≡ advance times w t rounds (j + 1)
  unfolding advance
  advance-go u e h = rw (e, advance) (rw h refl)

-- From any place inside the window of the entry at `length pre`, the inner loop ends at its end.
pub advance-count :
    (w t : ℕ) (pre us : List ℕ) (rounds d : ℕ)
    → Ascending us
    → d ≤ count_within w t us
    → count_within w t us ≤ d + rounds
    → advance (pre ++ t ∷ us) w t rounds (length pre + d) ≡ length pre + count_within w t us
advance-count w t pre us zero d h lo hi =
    let e : d ≡ count_within w t us = omega arith in unfold advance in rw e
advance-count w t pre us (suc rounds) d h lo hi = elim (dec_lt d (count_within w t us)) [
  | yes p ↦
      let (u, e, f) = within-get w t us d h p in
      let e' : length pre + d + 1 ≡ length pre + (d + 1) = omega arith in
      advance-go (pre ++ t ∷ us) w t rounds (length pre + d) u (get-append pre us t d ∙ e) f
      ∙ ap (advance (pre ++ t ∷ us) w t rounds) e'
      ∙ advance-count w t pre us rounds (d + 1) h (omega arith) (omega arith)
  | no p ↦
      let e : d ≡ count_within w t us = omega arith in
      advance-stop (pre ++ t ∷ us) w t rounds (length pre + d) (λ u g.
        outside-get w t us u h (ap (get_elem? us) (sym e) ∙ sym (get-append pre us t d) ∙ g))
      ∙ ap (λ (x : ℕ). length pre + x) e
]
