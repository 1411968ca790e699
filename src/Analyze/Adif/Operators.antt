-- ===== src/Analyze/Adif/Operators.antt =====
-- The operators of a log that parseAdif of src/analyze/adif.js lists, and the flag that says that it
-- has any.
use contestscore.Analyze.Adif.Records.{
  AdifQso, Flags, AdifLog, empty_adif, add_operator, adif_qso, add_flags, add_record, read_record,
  has_call_tag, value_or_blank, read_records, parse_adif,
}
use contestscore.Analyze.Adif.Tags.{parse_fields, split_records}
use contestscore.Packets.Fields.{Fields}
use contestscore.Prelude.{
  ℕ, ◌≡◌, ◌∙◌, refl, sym, ap, ◌⊎◌, inl, inr, true, false, not, ◌&&◌, ◌||◌, List, [], ◌∷◌, ◌++◌,
  Option, arith, In, Distinct, In-append, In-append_left, In-append_right, Bool-cases,
  if◌then◌else◌,
}
use contestscore.Prelude.Text.{Text, codes, text_eq, text_eq_iff, is_empty}

In-add_operator : (o p : Text) (ps : List Text) → In o (add_operator p ps) → (o ≡ p) ⊎ In o ps
unfolding add_operator
In-add_operator o p [] h = h
In-add_operator o p (q ∷ ps) h = elim (Bool-cases (text_eq q p)) [
  | inl same ↦ inr (rw same at h)
  | inr other ↦ elim (let h' : In o (q ∷ add_operator p ps) = rw other at h in h') [
    | inl e ↦ inr (inl e)
    | inr k ↦ elim (In-add_operator o p ps k) [ inl e ↦ inl e | inr m ↦ inr (inr m) ]
  ]
]

In-add_operator_self : (p : Text) (ps : List Text) → In p (add_operator p ps)
unfolding add_operator
In-add_operator_self p [] = inl refl
In-add_operator_self p (q ∷ ps) = elim (Bool-cases (text_eq q p)) [
  | inl same ↦ rw same (inl (sym ((text_eq_iff q p).0 same)))
  | inr other ↦ rw other (inr (In-add_operator_self p ps))
]

In-add_operator_old : (o p : Text) (ps : List Text) → In o ps → In o (add_operator p ps)
unfolding add_operator
In-add_operator_old o p [] h = absurd h
In-add_operator_old o p (q ∷ ps) h = elim (Bool-cases (text_eq q p)) [
  | inl same ↦ rw same h
  | inr other ↦ rw other (elim h [ inl e ↦ inl e | inr k ↦ inr (In-add_operator_old o p ps k) ])
]

Distinct-add_operator : (p : Text) (ps : List Text) → Distinct ps → Distinct (add_operator p ps)
unfolding add_operator
Distinct-add_operator p [] d = (λ h. h, tt)
Distinct-add_operator p (q ∷ ps) d = elim (Bool-cases (text_eq q p)) [
  | inl same ↦ rw same d
  | inr other ↦ rw other (
    λ h. elim (In-add_operator q p ps h) [
      | inl e ↦ absurd (ground (arith, text_eq_iff q p))
      | inr k ↦ d.0 k
    ],
    Distinct-add_operator p ps d.1,
  )
]

-- The operators are those of the QSOs, blank ones left out, each once; the flag says whether one was
-- found.
pub record IsSound (log : AdifLog) : Type 0 where
  pub once : Distinct log.operators
  pub given : (o : Text) → In o log.operators → is_empty o ≡ false
  pub from_qso : (o : Text) → In o log.operators → (q : AdifQso) × In q log.qsos × (q.operator ≡ o)
  pub complete :
      (q : AdifQso) → In q log.qsos → is_empty q.operator ≡ false → In q.operator log.operators
  pub flag_set : log.flags.has_operator ≡ true → (o : Text) × In o log.operators
  pub flag_clear : log.flags.has_operator ≡ false → log.operators ≡ []

-- the log with one more QSO, and what of it the invariant speaks of
with_qso : AdifQso → Text → Text → Flags → AdifLog → AdifLog
with_qso q contest station flags log = record {
  contest = contest;
  station_call = station;
  operators = if is_empty q.operator then log.operators else add_operator q.operator log.operators;
  flags = flags;
  qsos = log.qsos ++ q ∷ [];
}

with_qso-blank :
    (q : AdifQso) (contest station : Text) (flags : Flags) (log : AdifLog)
    → flags.has_operator ≡ (log.flags.has_operator || not (is_empty q.operator))
    → is_empty q.operator ≡ true
    → IsSound log
    → IsSound (with_qso q contest station flags log)
unfolding with_qso
with_qso-blank q contest station flags log f e s =
    let same : flags.has_operator ≡ log.flags.has_operator = ground arith in
    record {
      once = rw e s.once;
      given = rw e s.given;
      from_qso = rw e λ o h.
          let (p, inside, eq) = s.from_qso o h in
          (p, In-append_left p log.qsos (q ∷ []) inside, eq);
      complete = rw e λ p h k. elim (In-append p log.qsos (q ∷ []) h) [
        | inl m ↦ s.complete p m k
        | inr (inl is_q) ↦ absurd (ground (arith, ap (λ (x : AdifQso). is_empty x.operator) is_q))
        | inr (inr m) ↦ absurd m
      ];
      flag_set = rw e λ h. s.flag_set (sym same ∙ h);
      flag_clear = rw e λ h. s.flag_clear (sym same ∙ h);
    }

with_qso-given :
    (q : AdifQso) (contest station : Text) (flags : Flags) (log : AdifLog)
    → flags.has_operator ≡ (log.flags.has_operator || not (is_empty q.operator))
    → is_empty q.operator ≡ false
    → IsSound log
    → IsSound (with_qso q contest station flags log)
unfolding with_qso
with_qso-given q contest station flags log f e s =
    let ops = add_operator q.operator log.operators in
    let set : flags.has_operator ≡ true = ground arith in
    record {
      once = rw e (Distinct-add_operator q.operator log.operators s.once);
      given = rw e λ o h. elim (In-add_operator o q.operator log.operators h) [
        | inl is_q ↦ ap is_empty is_q ∙ e
        | inr m ↦ s.given o m
      ];
      from_qso = rw e λ o h. elim (In-add_operator o q.operator log.operators h) [
        | inl is_q ↦ (q, In-append_right q log.qsos (q ∷ []) (inl refl), sym is_q)
        | inr m ↦
            let (p, inside, eq) = s.from_qso o m in
            (p, In-append_left p log.qsos (q ∷ []) inside, eq)
      ];
      complete = rw e λ p h k. elim (In-append p log.qsos (q ∷ []) h) [
        | inl m ↦ In-add_operator_old p.operator q.operator log.operators (s.complete p m k)
        | inr (inl is_q) ↦ rw is_q (In-add_operator_self q.operator log.operators)
        | inr (inr m) ↦ absurd m
      ];
      flag_set = rw e λ h. (q.operator, In-add_operator_self q.operator log.operators);
      flag_clear = λ h. cc;
    }

with_qso-IsSound :
    (q : AdifQso) (contest station : Text) (flags : Flags) (log : AdifLog)
    → flags.has_operator ≡ (log.flags.has_operator || not (is_empty q.operator))
    → IsSound log
    → IsSound (with_qso q contest station flags log)
with_qso-IsSound q contest station flags log f s = elim (Bool-cases (is_empty q.operator)) [
  | inl e ↦ with_qso-blank q contest station flags log f e s
  | inr e ↦ with_qso-given q contest station flags log f e s
]

empty_adif-IsSound : IsSound empty_adif
empty_adif-IsSound = record {
  once = tt;
  given = λ o h. absurd h;
  from_qso = λ o h. absurd h;
  complete = λ q h k. absurd h;
  flag_set = λ h. cc;
  flag_clear = λ h. refl;
}

module _ (parse_mhz : Text → Option ℕ) (show_mhz : ℕ → Text) (number : Text → Option ℕ) where
  add_record-IsSound :
      (f : Fields) (log : AdifLog)
      → IsSound log
      → IsSound (add_record parse_mhz show_mhz number f log)
  unfolding add_record with_qso add_flags
  add_record-IsSound f log s =
      with_qso-IsSound (adif_qso parse_mhz show_mhz number f) _ _
        (add_flags parse_mhz show_mhz number f (adif_qso parse_mhz show_mhz number f) log.flags) log
        refl s

  read_record-IsSound :
      (rec : Text) (log : AdifLog)
      → IsSound log
      → IsSound (read_record parse_mhz show_mhz number rec log)
  unfolding read_record
  read_record-IsSound rec log s =
      elim (Bool-cases
        (has_call_tag rec && not (is_empty (value_or_blank (parse_fields rec) (codes "call"))))) [
          | inl e ↦ rw e (add_record-IsSound (parse_fields rec) log s)
          | inr e ↦ rw e s
        ]

  read_records-IsSound :
      (recs : List Text) (log : AdifLog)
      → IsSound log
      → IsSound (read_records parse_mhz show_mhz number recs log)
  unfolding read_records
  read_records-IsSound [] log s = s
  read_records-IsSound (rec ∷ rest) log s =
      read_records-IsSound rest _ (read_record-IsSound rec log s)

  -- Of every text that is read, the operators are those of the QSOs, blank ones left out, each listed
  -- once, and the flag for operators is set exactly when there is one.
  pub parse_adif-IsSound : (text : Text) → IsSound (parse_adif parse_mhz show_mhz number text)
  unfolding parse_adif
  parse_adif-IsSound text = read_records-IsSound (split_records text) empty_adif empty_adif-IsSound
