-- ===== src/Rates/Window.antt =====
-- bestWindow of public/js/stats.js and bestWindowCount of tui/index.js. Times are milliseconds in
-- ascending order, so their differences are natural numbers.
use contestscore.Prelude.{
  ℕ, zero, suc, ◌+◌, ◌-◌, List, [], ◌∷◌, Option, none, some, ltb, length, get_elem?, if◌then◌else◌,
}
use Prim.Native.Nat.{max}

-- `while (j + 1 < times.length && times[j + 1] - times[i] < windowMs) j += 1`, with at most as many
-- rounds as there are times
unfoldable pub advance : List ℕ → ℕ → ℕ → ℕ → ℕ → ℕ
advance times window_ms t_i zero j = j
advance times window_ms t_i (suc rounds) j =
    let further = advance times window_ms t_i rounds (j + 1) in
    elim (get_elem? times (j + 1)) [
      | none ↦ j
      | some t ↦ if ltb (t - t_i) window_ms then further else j
    ]

-- `if (j < i) j = i`
unfoldable pub catch_up : ℕ → ℕ → ℕ
catch_up i j = if ltb j i then i else j

-- the `for` loop, over what is left of `times` from index `i` on
unfoldable pub sweep : List ℕ → ℕ → List ℕ → ℕ → ℕ → ℕ → ℕ → ℕ × ℕ
unfolding advance catch_up
sweep times window_ms [] i j best best_start = (best, best_start)
sweep times window_ms (t ∷ rest) i j best best_start =
    let j' = advance times window_ms t (length times) (catch_up i j) in
    let longer = ltb best (j' - i + 1) in
    sweep times window_ms rest (i + 1) j' (if longer then j' - i + 1 else best)
      (if longer then t else best_start)

pub record Window : Type 0 where
  pub count : ℕ
  pub start : Option ℕ

unfoldable pub best_window : List ℕ → ℕ → Window
unfolding sweep
best_window [] window_ms = record { count = 0; start = none }
best_window (t ∷ rest) window_ms =
    let (best, best_start) = sweep (t ∷ rest) window_ms (t ∷ rest) 0 0 0 t in
    record { count = best; start = some best_start }

-- the same loop in tui/index.js, with Math.max and no start
unfoldable pub sweep_count : List ℕ → ℕ → List ℕ → ℕ → ℕ → ℕ → ℕ
unfolding advance catch_up
sweep_count times window_ms [] i j best = best
sweep_count times window_ms (t ∷ rest) i j best =
    let j' = advance times window_ms t (length times) (catch_up i j) in
    sweep_count times window_ms rest (i + 1) j' (max best (j' - i + 1))

unfoldable pub best_window_count : List ℕ → ℕ → ℕ
unfolding sweep_count
best_window_count times window_ms = sweep_count times window_ms times 0 0 0
