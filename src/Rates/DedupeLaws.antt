-- ===== src/Rates/DedupeLaws.antt =====
-- What the dupe filter of public/js/stats.js and tui/index.js keeps.
use mathlib.Core.List.{append_assoc, append-nil}
use mathlib.Core.Path.{subst}
use contestscore.JsMap.{get, put, keys, get-put_self, get-put_eq, get-put_ne, Distinct-keys-put}
use contestscore.Rates.Dedupe.{
  LoggedQso, dupe_key, Best, keep_earliest, compared, dedupe_loop, dedupe_for_rate,
}
use contestscore.Prelude.{
  ℕ, ◌≤◌, ◌≡◌, ◌∙◌, refl, sym, ap, inl, inr, Bool, true, false, List, [], ◌∷◌, ◌++◌, Option, none,
  some, map, keep, In, In-append_left, In-append_right, In-append, Distinct, arith, ltb, Bool-cases,
  Option-cases,
}
use contestscore.Prelude.Text.{Text, text_eq, text_eq_iff, text_key}

-- Entry `e` stands for the group `k` of the QSOs `qs`: a QSO of the group with its time.
pub record Represents (time_of : LoggedQso → Option ℕ) (qs : List LoggedQso) (k : Text)
    (e : LoggedQso × ℕ) : Type 0 where
  logged : In e.0 qs
  timed : compared time_of e.0 ≡ some e.1
  grouped : dupe_key e.0 ≡ k

module _ (time_of : LoggedQso → Option ℕ) where
  -- One entry for each group of the QSOs seen, none of them later than a QSO of its group.
  pub record Sound (seen : List LoggedQso) (best : Best) : Type 0 where
    distinct : Distinct (keys best)
    held : (k : Text) (e : LoggedQso × ℕ) → get k best ≡ some e → Represents time_of seen k e
    covers :
        (q : LoggedQso) (t : ℕ)
        → In q seen
        → compared time_of q ≡ some t
        → (e : LoggedQso × ℕ) × (get (dupe_key q) best ≡ some e) × (e.1 ≤ t)

  Represents-more :
      (seen : List LoggedQso) (q : LoggedQso) (k : Text) (e : LoggedQso × ℕ)
      → Represents time_of seen k e
      → Represents time_of (seen ++ q ∷ []) k e
  Represents-more seen q k e h = record {
    logged = In-append_left e.0 seen (q ∷ []) h.logged;
    timed = h.timed;
    grouped = h.grouped;
  }

  Represents-new :
      (seen : List LoggedQso) (q : LoggedQso) (t : ℕ)
      → compared time_of q ≡ some t
      → Represents time_of (seen ++ q ∷ []) (dupe_key q) (q, t)
  Represents-new seen q t h = record {
    logged = In-append_right q seen (q ∷ []) (inl refl);
    timed = h;
    grouped = refl;
  }

  -- the three facts after one QSO is put in
  Sound-put :
      (seen : List LoggedQso) (best : Best) (q : LoggedQso) (t : ℕ)
      → compared time_of q ≡ some t
      → ((e : LoggedQso × ℕ) → get (dupe_key q) best ≡ some e → t ≤ e.1)
      → Sound seen best
      → Sound (seen ++ q ∷ []) (put (dupe_key q) (q, t) best)
  Sound-put seen best q t timed earlier h = record {
    distinct = Distinct-keys-put (dupe_key q) (q, t) best h.distinct;
    held = λ k e g. elim (Bool-cases (text_eq (dupe_key q) k)) [
      | inl same ↦
          let f : some (q, t) ≡ some e = sym (get-put_eq (dupe_key q) k (q, t) best same) ∙ g in
          let p : (q, t) ≡ e = cc in
          let key : dupe_key q ≡ k = (text_eq_iff (dupe_key q) k).0 same in
          subst (λ (x : LoggedQso × ℕ). Represents time_of (seen ++ q ∷ []) k x) p
            (subst (λ (x : Text). Represents time_of (seen ++ q ∷ []) x (q, t)) key
              (Represents-new seen q t timed))
      | inr other ↦
          Represents-more seen q k e
            (h.held k e (sym (get-put_ne (dupe_key q) k (q, t) best other) ∙ g))
    ];
    covers = λ p u m tp. elim (In-append p seen (q ∷ []) m) [
      | inl old ↦
          let (e, g, l) = h.covers p u old tp in
          elim (Bool-cases (text_eq (dupe_key q) (dupe_key p))) [
            | inl same ↦
                let key : dupe_key q ≡ dupe_key p =
                  (text_eq_iff (dupe_key q) (dupe_key p)).0 same in
                let l' : t ≤ e.1 = earlier e (ap (λ (k : Text). get k best) key ∙ g) in
                ((q, t), get-put_eq (dupe_key q) (dupe_key p) (q, t) best same, omega arith)
            | inr other ↦ (e, get-put_ne (dupe_key q) (dupe_key p) (q, t) best other ∙ g, l)
          ]
      | inr (inl same) ↦
          let f : some t ≡ some u = sym timed ∙ ap (compared time_of) (sym same) ∙ tp in
          let tu : t ≡ u = cc in
          (
            (q, t),
            ap (λ (x : LoggedQso). get (dupe_key x) (put (dupe_key q) (q, t) best)) same
                ∙ get-put_self (dupe_key q) (q, t) best,
            omega arith,
          )
      | inr (inr none_such) ↦ absurd none_such
    ];
  }

  Sound-skip :
      (seen : List LoggedQso) (best : Best) (q : LoggedQso)
      → ((t : ℕ)
          → compared time_of q ≡ some t
          → (e : LoggedQso × ℕ) × (get (dupe_key q) best ≡ some e) × (e.1 ≤ t))
      → Sound seen best
      → Sound (seen ++ q ∷ []) best
  Sound-skip seen best q covered h = record {
    distinct = h.distinct;
    held = λ k e g. Represents-more seen q k e (h.held k e g);
    covers = λ p u m tp. elim (In-append p seen (q ∷ []) m) [
      | inl old ↦ h.covers p u old tp
      | inr (inl same) ↦
          let (e, g, l) = covered u (ap (compared time_of) (sym same) ∙ tp) in
          (e, ap (λ (x : LoggedQso). get (dupe_key x) best) same ∙ g, l)
      | inr (inr none_such) ↦ absurd none_such
    ];
  }

  Sound-keep_earliest :
      (seen : List LoggedQso) (best : Best) (q : LoggedQso) (t : ℕ) (old : Option (LoggedQso × ℕ))
      → get (dupe_key q) best ≡ old
      → compared time_of q ≡ some t
      → Sound seen best
      → Sound (seen ++ q ∷ []) (keep_earliest q t old best)
  unfolding keep_earliest
  Sound-keep_earliest seen best q t none g timed h =
      Sound-put seen best q t timed (λ e f. absurd (ground arith)) h
  Sound-keep_earliest seen best q t (some (q', t')) g timed h = elim (Bool-cases (ltb t t')) [
    | inl e ↦ rw e (Sound-put seen best q t timed (λ x f. ground arith) h)
    | inr e ↦ rw e (Sound-skip seen best q (λ u tu. ((q', t'), g, ground arith)) h)
  ]

  -- QSOs that compete with no other
  abbrev pub passes : LoggedQso → Bool
  passes q = elim (compared time_of q) [ none ↦ true | some t ↦ false ]

  -- one round of the loop
  loop-pass :
      (q : LoggedQso) (qs passthrough : List LoggedQso) (best : Best)
      → compared time_of q ≡ none
      → dedupe_loop time_of (q ∷ qs) passthrough best
        ≡ dedupe_loop time_of qs (passthrough ++ q ∷ []) best
  unfolding dedupe_loop
  loop-pass q qs passthrough best e = rw (e, dedupe_loop) refl

  loop-keep :
      (q : LoggedQso) (qs passthrough : List LoggedQso) (best : Best) (t : ℕ)
      → compared time_of q ≡ some t
      → dedupe_loop time_of (q ∷ qs) passthrough best
        ≡ dedupe_loop time_of qs passthrough (keep_earliest q t (get (dupe_key q) best) best)
  unfolding dedupe_loop
  loop-keep q qs passthrough best t e = rw (e, dedupe_loop) refl

  keep-pass :
      (q : LoggedQso) (qs : List LoggedQso)
      → compared time_of q ≡ none
      → keep passes (q ∷ qs) ≡ q ∷ keep passes qs
  keep-pass q qs e = ground (arith, e)

  keep-drop :
      (q : LoggedQso) (qs : List LoggedQso) (t : ℕ)
      → compared time_of q ≡ some t
      → keep passes (q ∷ qs) ≡ keep passes qs
  keep-drop q qs t e = ground (arith, e)

  Result : List LoggedQso → List LoggedQso → List LoggedQso × Best → Type 0
  Result firsts seen r = (r.0 ≡ firsts) × Sound seen r.1

  loop_lem :
      (seen qs passthrough : List LoggedQso) (best : Best)
      → Sound seen best
      → Result
          (passthrough ++ keep passes qs)
          (seen ++ qs)
          (dedupe_loop time_of qs passthrough best)
  loop_lem seen [] passthrough best h =
      unfold dedupe_loop Result in (sym (append-nil passthrough), rw (append-nil seen) h)
  loop_lem seen (q ∷ qs) passthrough best h = elim (Option-cases (compared time_of q)) [
    | inl e ↦
        rw (loop-pass q qs passthrough best e, keep-pass q qs e)
          (rw (append_assoc passthrough (q ∷ []) (keep passes qs), append_assoc seen (q ∷ []) qs) at
            (loop_lem (seen ++ q ∷ []) qs (passthrough ++ q ∷ []) best
              (Sound-skip seen best q (λ t f. absurd (ground arith)) h)))
    | inr (t, e) ↦
        rw (loop-keep q qs passthrough best t e, keep-drop q qs t e)
          (rw (append_assoc seen (q ∷ []) qs) at (
            loop_lem (seen ++ q ∷ []) qs passthrough
              (keep_earliest q t (get (dupe_key q) best) best)
              (Sound-keep_earliest seen best q t (get (dupe_key q) best) refl e h)))
  ]

-- Whatever the clock, the filter returns first the QSOs without a time and the QTCs, in their order,
-- then one QSO of every group: a QSO of the log, and none of its group that has a time and is no QTC is earlier.
pub dedupe_for_rate-keeps_earliest :
    (time_of : LoggedQso → Option ℕ) (qs : List LoggedQso)
    → (best : Best) × (dedupe_for_rate time_of qs
        ≡ keep (passes time_of) qs ++ map (λ e. e.1.0) best)
      × Sound time_of qs best
unfolding dedupe_for_rate Result
dedupe_for_rate-keeps_earliest time_of qs =
    let start : Sound time_of [] [] = record {
      distinct = tt;
      held = λ k e g. absurd (unfold get in ground arith);
      covers = λ q t m. absurd m;
    } in
    let (firsts, sound) = loop_lem time_of [] qs [] [] start in
    (
      (dedupe_loop time_of qs [] []).1,
      ap (λ l. l ++ map (λ e. e.1.0) (dedupe_loop time_of qs [] []).1) firsts,
      sound,
    )
