-- ===== src/Rates/Dedupe.antt =====
-- isQtc, modeGroup, dedupeForScoring and qsoTime of public/js/stats.js; rateModeGroup and
-- dedupeForRate of tui/index.js are the same code with the time of a QSO as an argument.
use contestscore.JsMap.{JsMap, get, put}
use contestscore.Prelude.{
  ℕ, Bool, false, ◌||◌, List, [], ◌∷◌, ◌++◌, Option, none, some, map, ltb, if◌then◌else◌,
}
use contestscore.Prelude.Text.{
  Text, codes, text_eq, text_key, contains, to_upper_case, is_empty, or_else,
}

-- The fields of a logged QSO that these rules read.
pub record LoggedQso : Type 0 where
  pub id : ℕ
  pub call : Text
  pub band : Text
  pub mode : Text
  pub exchange1 : Text
  pub n1mm_timestamp : Text
  pub logged_at : Text

-- /QTC/i.test(q.exchange1 || '')
unfoldable pub is_qtc : LoggedQso → Bool
unfolding contains to_upper_case
is_qtc q = contains (codes "QTC") (to_upper_case q.exchange1)

unfoldable pub one_of : Text → List Text → Bool
unfolding text_eq
one_of m [] = false
one_of m (k ∷ ks) = text_eq k m || one_of m ks

abbrev phone_modes : List Text
phone_modes =
    codes "USB"
    ∷ codes "LSB"
    ∷ codes "SSB"
    ∷ codes "AM"
    ∷ codes "FM"
    ∷ codes "PH"
    ∷ codes "PHONE"
    ∷ codes "DV"
    ∷ codes "FMN"
    ∷ []

unfoldable pub mode_group : Text → Text
unfolding one_of to_upper_case text_eq
mode_group mode =
    let m = to_upper_case mode in
    if is_empty m
    then codes "—"
    else if text_eq m (codes "CW")
    then codes "CW"
    else if one_of m phone_modes
    then codes "PH"
    else codes "DG"

-- `${call.toUpperCase()}|${band}|${modeGroup(mode)}`
unfoldable pub dupe_key : LoggedQso → Text
unfolding mode_group
dupe_key q = to_upper_case q.call ++ (codes "|" ++ (q.band ++ (codes "|" ++ mode_group q.mode)))

-- `date_ms` is `new Date(raw.replace(' ', 'T') + 'Z').getTime()`, with `none` for NaN
unfoldable pub qso_time : (Text → Option ℕ) → LoggedQso → Option ℕ
qso_time date_ms q =
    let raw = or_else q.n1mm_timestamp q.logged_at in if is_empty raw then none else date_ms raw

abbrev pub Best : Type 0
Best = JsMap Text (LoggedQso × ℕ)

-- `if (!existing || t < existing.t) bestByGroup.set(k, { q, t })`
unfoldable pub keep_earliest : LoggedQso → ℕ → Option (LoggedQso × ℕ) → Best → Best
keep_earliest q t none best = put (dupe_key q) (q, t) best
keep_earliest q t (some (q', t')) best = if ltb t t' then put (dupe_key q) (q, t) best else best

module _ (time_of : LoggedQso → Option ℕ) where
  -- the time by which a QSO competes with others; `none` if it passes through
  unfoldable pub compared : LoggedQso → Option ℕ
  unfolding is_qtc
  compared q = if is_qtc q then none else time_of q

  unfoldable pub dedupe_loop : List LoggedQso → List LoggedQso → Best → List LoggedQso × Best
  dedupe_loop [] passthrough best = (passthrough, best)
  dedupe_loop (q ∷ qs) passthrough best = elim (compared q) [
    | none ↦ dedupe_loop qs (passthrough ++ q ∷ []) best
    | some t ↦ dedupe_loop qs passthrough (keep_earliest q t (get (dupe_key q) best) best)
  ]

  unfoldable pub dedupe_for_rate : List LoggedQso → List LoggedQso
  dedupe_for_rate qs =
      let (passthrough, best) = dedupe_loop qs [] [] in passthrough ++ map (λ e. e.1.0) best

unfoldable pub dedupe_for_scoring : (Text → Option ℕ) → List LoggedQso → List LoggedQso
dedupe_for_scoring date_ms = dedupe_for_rate (qso_time date_ms)
