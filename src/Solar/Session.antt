-- ===== src/Solar/Session.antt =====
-- What getSolarForSession of src/db/queries.js answers for a session.
use contestscore.Prelude.{
  ℕ, ◌+◌, ◌≤◌, ◌<◌, ◌≡◌, refl, inl, inr, List, ◌∷◌, none, some, arith, keep, In, Option-cases,
}
use mathlib.Core.Path.{subst}
use contestscore.Solar.Readings.{
  Reading, by_time, is_between, is_lead_in, solar_lead_in, get_solar_in_range, get_solar_before,
  get_solar_for_session,
}
use contestscore.Solar.Sorting.{
  Ordered, All-In, All-of_In, In-keep, In-keep_of, by_time-Ordered, In-by_time, In-by_time_of,
  get_latest_solar-In, get_latest_solar-none, get_latest_solar-newest,
}

-- `start` and `stop` bound the session. The answer is in the order of time and holds every reading of
-- the session; it holds none that is not of the table, or later, or more than the lead-in earlier;
-- and it begins with the newest reading before the session, if the lead-in has one.
pub record IsSession (start stop : ℕ) (table rs : List Reading) : Type 0 where
  pub ordered : Ordered rs
  pub complete : (r : Reading) → In r table → start ≤ r.fetched_at → r.fetched_at ≤ stop → In r rs
  pub sound :
      (r : Reading)
      → In r rs
      → In r table × (r.fetched_at ≤ stop) × (start ≤ r.fetched_at + solar_lead_in)
  pub in_effect :
      (r : Reading)
      → In r table
      → r.fetched_at < start
      → start ≤ r.fetched_at + solar_lead_in
      → (b : Reading) × (rest : List Reading) × (rs ≡ b ∷ rest)
        × (r.fetched_at ≤ b.fetched_at)
        × (b.fetched_at < start)

module _ (start stop : ℕ) (table : List Reading) where
  range-Ordered : Ordered (get_solar_in_range start stop table)
  unfolding get_solar_in_range
  range-Ordered = by_time-Ordered (keep (is_between start stop) table)

  during :
      (r : Reading)
      → In r (get_solar_in_range start stop table)
      → In r table × (start ≤ r.fetched_at) × (r.fetched_at ≤ stop)
  unfolding get_solar_in_range is_between
  during r m =
      let (inside, passes) =
        In-keep (is_between start stop) table r
          (In-by_time r (keep (is_between start stop) table) m) in
      (inside, ground arith, ground arith)

  in_range :
      (r : Reading)
      → In r table
      → start ≤ r.fetched_at
      → r.fetched_at ≤ stop
      → In r (get_solar_in_range start stop table)
  unfolding get_solar_in_range is_between
  in_range r m lo hi =
      In-by_time_of r (keep (is_between start stop) table)
        (In-keep_of (is_between start stop) table r m (ground arith))

  before_start :
      (b : Reading)
      → get_solar_before start table ≡ some b
      → In b table × (b.fetched_at < start) × (start ≤ b.fetched_at + solar_lead_in)
  unfolding get_solar_before is_lead_in
  before_start b e =
      let m = get_latest_solar-In (by_time (keep (is_lead_in start) table)) b e in
      let (inside, passes) =
        In-keep (is_lead_in start) table b (In-by_time b (keep (is_lead_in start) table) m) in
      (inside, ground arith, ground arith)

  newest_before :
      (b r : Reading)
      → get_solar_before start table ≡ some b
      → In r table
      → r.fetched_at < start
      → start ≤ r.fetched_at + solar_lead_in
      → r.fetched_at ≤ b.fetched_at
  unfolding get_solar_before is_lead_in
  newest_before b r e m early lead =
      let leads = keep (is_lead_in start) table in
      All-In _ (by_time leads) r
        (get_latest_solar-newest (by_time leads) b (by_time-Ordered leads) e)
        (In-by_time_of r leads (In-keep_of (is_lead_in start) table r m (ground arith)))

  none_before :
      (r : Reading)
      → get_solar_before start table ≡ none
      → In r table
      → r.fetched_at < start
      → start ≤ r.fetched_at + solar_lead_in
      → ⊥
  unfolding get_solar_before is_lead_in
  none_before r e m early lead =
      let leads = keep (is_lead_in start) table in
      let listed = In-by_time_of r leads (In-keep_of (is_lead_in start) table r m (ground arith)) in
      subst (λ (l : List Reading). In r l) (get_latest_solar-none (by_time leads) e) listed

  -- The answer for a session that does not end before it begins is in the order of time and holds
  -- every reading of the session; it holds no reading that the table lacks, none later than the
  -- session and none more than six hours earlier; and if the table has one within six hours before
  -- the session, the answer begins with the newest of these.
  pub get_solar_for_session-IsSession :
      start ≤ stop → IsSession start stop table (get_solar_for_session start stop table)
  unfolding get_solar_for_session
  get_solar_for_session-IsSession h = elim (Option-cases (get_solar_before start table)) [
    | inl e ↦
        rw (e, get_solar_for_session)
          (record {
            ordered = range-Ordered;
            complete = in_range;
            sound = λ r m. let (inside, lo, hi) = during r m in (inside, hi, omega arith);
            in_effect = λ r m early lead. absurd (none_before r e m early lead);
          })
    | inr (b, e) ↦
        let (inside, early, lead) = before_start b e in
        rw (e, get_solar_for_session)
          (record {
            ordered = (
              All-of_In _ (get_solar_in_range start stop table)
                  (λ r m. let (has, lo, hi) = during r m in omega arith),
              range-Ordered,
            );
            complete = λ r m lo hi. inr (in_range r m lo hi);
            sound = λ r m. elim m [
              | inl same ↦ rw same (inside, omega arith, lead)
              | inr k ↦ let (has, lo, hi) = during r k in (has, hi, omega arith)
            ];
            in_effect = λ r m ear le.
                (b, get_solar_in_range start stop table, refl, newest_before b r e m ear le, early);
          })
  ]
