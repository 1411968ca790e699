-- ===== src/Rates/Sweep.antt =====
-- The sweeps of public/js/stats.js and tui/index.js find the fullest window.
use contestscore.Prelude.{
  ℕ, ◌+◌, ◌-◌, ◌≤◌, ◌≡◌, ◌∙◌, refl, sym, List, [], ◌∷◌, ◌++◌, ltb, length, arith, length-append,
  if◌then◌else◌,
}
use mathlib.Core.List.{append_assoc}
use Prim.Native.Nat.{max}
use contestscore.Rates.Window.{
  advance, catch_up, sweep, best_window, sweep_count, best_window_count,
}
use contestscore.Rates.WindowLaws.{Ascending, count_within, most_in_window, advance-count}

count_within-le : (w t : ℕ) (us : List ℕ) → count_within w t us ≤ length us
count_within-le w t [] = omega arith
count_within-le w t (u ∷ us) = ground (arith, count_within-le w t us)

count_within_mono : (w t v : ℕ) (us : List ℕ) → t ≤ v → count_within w t us ≤ count_within w v us
count_within_mono w t v [] h = omega arith
count_within_mono w t v (u ∷ us) h = ground (arith, count_within_mono w t v us h)

-- Where the inner loop has stopped is no further than where it stops for the next entry.
abbrev Reached : ℕ → ℕ → ℕ → List ℕ → Type 0
Reached w i j [] = Unit
Reached w i j (t ∷ us) = j ≤ i + count_within w t us

Reached-next :
    (w i t : ℕ) (us : List ℕ) → Ascending (t ∷ us) → Reached w (i + 1) (i + count_within w t us) us
Reached-next w i t [] h = tt
Reached-next w i t (u ∷ us) h = ground (arith, count_within_mono w t u us h.0.0)

-- one round of the outer loop
round-count :
    (w t j : ℕ) (times pre us : List ℕ)
    → times ≡ pre ++ t ∷ us
    → Ascending us
    → j ≤ length pre + count_within w t us
    → advance times w t (length times) (catch_up (length pre) j) ≡ length pre + count_within w t us
unfolding catch_up
round-count w t j times pre us e h l =
    let d = j - length pre in
    let k : (if ltb j (length pre) then length pre else j) ≡ length pre + d = ground arith in
    rw (k, e)
      (advance-count w t pre us (length (pre ++ t ∷ us)) d h (omega arith)
        (omega (arith, length-append pre (t ∷ us), count_within-le w t us)))

module _ (w : ℕ) (times : List ℕ) where
  reached :
      (pre us : List ℕ) (t i j : ℕ)
      → times ≡ pre ++ t ∷ us
      → i ≡ length pre
      → Ascending us
      → j ≤ i + count_within w t us
      → advance times w t (length times) (catch_up i j) ≡ i + count_within w t us
  reached pre us t i j e n h r = rw n (round-count w t j times pre us e h (omega arith))

  sweep-most :
      (pre rest : List ℕ) (i j best best_start : ℕ)
      → times ≡ pre ++ rest
      → i ≡ length pre
      → Ascending rest
      → Reached w i j rest
      → (sweep times w rest i j best best_start).0 ≡ max best (most_in_window w rest)
  unfolding sweep
  sweep-most pre [] i j best best_start e n h r = omega arith
  sweep-most pre (t ∷ us) i j best best_start e n h r =
      let j' = advance times w t (length times) (catch_up i j) in
      let done : j' ≡ i + count_within w t us = reached pre us t i j e n h.1 r in
      let longer = ltb best (j' - i + 1) in
      sweep-most (pre ++ t ∷ []) us (i + 1) j' (if longer then j' - i + 1 else best)
        (if longer then t else best_start) (e ∙ sym (append_assoc pre (t ∷ []) us))
        (omega (arith, length-append pre (t ∷ []))) h.1 (rw done (Reached-next w i t us h))
      ∙ ground arith

  sweep_count-most :
      (pre rest : List ℕ) (i j best : ℕ)
      → times ≡ pre ++ rest
      → i ≡ length pre
      → Ascending rest
      → Reached w i j rest
      → sweep_count times w rest i j best ≡ max best (most_in_window w rest)
  unfolding sweep_count
  sweep_count-most pre [] i j best e n h r = omega arith
  sweep_count-most pre (t ∷ us) i j best e n h r =
      let j' = advance times w t (length times) (catch_up i j) in
      let done : j' ≡ i + count_within w t us = reached pre us t i j e n h.1 r in
      sweep_count-most (pre ++ t ∷ []) us (i + 1) j' (max best (j' - i + 1))
        (e ∙ sym (append_assoc pre (t ∷ []) us)) (omega (arith, length-append pre (t ∷ []))) h.1
        (rw done (Reached-next w i t us h))
      ∙ omega arith

-- For ascending times the stats page and the terminal both report the largest number of entries in
-- any window that begins at an entry.
pub best_window-most :
    (times : List ℕ) (w : ℕ)
    → Ascending times
    → ((best_window times w).count ≡ most_in_window w times)
      × (best_window_count times w ≡ most_in_window w times)
unfolding best_window best_window_count
best_window-most [] w h = (refl, refl)
best_window-most (t ∷ us) w h = (
  sweep-most w (t ∷ us) [] (t ∷ us) 0 0 0 t refl refl h (omega arith) ∙ omega arith,
  sweep_count-most w (t ∷ us) [] (t ∷ us) 0 0 0 refl refl h (omega arith) ∙ omega arith,
)
