-- ===== src/Analyze/Grammar/Laws.antt =====
-- What applyExchange of src/analyze/contests.js does with an exchange of the length that the spec says,
-- and what applyGenericExchange leaves alone.
use mathlib.Core.List.{append_assoc}
use contestscore.Analyze.Contests.{Field}
use contestscore.Analyze.Exchange.{get_elem?-append, take-append}
use contestscore.Analyze.Grammar.{
  Target, section, Entry, target_of, number_of, set_column, shaped, store_field, map_fields,
  exact_tokens, take_call, apply_fields,
}
use contestscore.Analyze.Tokens.{is_transmitter_id, looks_like_callsign}
use contestscore.Prelude.{
  ℕ, zero, suc, ◌+◌, ◌-◌, ◌≡◌, ◌≢◌, ◌∙◌, refl, sym, ap, inl, inr, Bool, true, false, List, [], ◌∷◌,
  ◌++◌, Option, none, some, arith, ◌==◌, length, get_elem?, drop, length-append, Bool-cases,
  Option-cases, if◌then◌else◌,
}
use contestscore.Prelude.Text.{Text, is_empty, to_upper_case}

drop-append : (xs ys : List Text) → drop (length xs) (xs ++ ys) ≡ ys
drop-append [] [] = refl
drop-append [] (y ∷ ys) = refl
drop-append (x ∷ xs) ys = drop-append xs ys

drop-past : (xs ys : List Text) (y : Text) → drop (length xs + 1) (xs ++ y ∷ ys) ≡ ys
drop-past xs ys y =
    let at_end : length (xs ++ y ∷ []) ≡ length xs + 1 = omega (arith, length-append xs (y ∷ [])) in
    rw (← at_end) (rw (← append_assoc xs (y ∷ []) ys) (drop-append (xs ++ y ∷ []) ys))

exact_tokens-fitting : (n : ℕ) (toks : List Text) → length toks ≡ n → exact_tokens n toks ≡ toks
unfolding exact_tokens
exact_tokens-fitting n toks h =
    let short : (length toks == n + 1) ≡ false = ground arith in
    elim (Option-cases (get_elem? toks (length toks - 1))) [
      | inl e ↦ rw (e, exact_tokens) refl
      | inr (t, e) ↦ rw (e, exact_tokens) (rw short refl)
    ]

exact_tokens-with_id :
    (n : ℕ) (toks : List Text) (id : Text)
    → length toks ≡ n
    → is_transmitter_id id ≡ true
    → exact_tokens n (toks ++ id ∷ []) ≡ toks
unfolding exact_tokens
exact_tokens-with_id n toks id h one =
    let last : length (toks ++ id ∷ []) - 1 ≡ length toks =
      omega (arith, length-append toks (id ∷ [])) in
    let found : get_elem? (toks ++ id ∷ []) (length (toks ++ id ∷ []) - 1) ≡ some id =
      rw last (get_elem?-append toks [] id) in
    let long : (length (toks ++ id ∷ []) == n + 1) ≡ true =
      ground (arith, length-append toks (id ∷ [])) in
    rw (found, exact_tokens) (rw (long, one) (rw last (take-append toks (id ∷ []))))

apply_fields_lem :
    (sent rcvd : List Field) (before after : List Text) (c : Text) (q : Entry)
    → length before ≡ length sent
    → length after ≡ length rcvd
    → exact_tokens (length sent + 1 + length rcvd) q.exch_tokens ≡ before ++ c ∷ after
    → apply_fields sent rcvd q ≡ (true, map_fields rcvd after (take_call (some c) q))
unfolding apply_fields
apply_fields_lem sent rcvd before after c q hb ha e =
    let long : (length (before ++ c ∷ after) == length sent + 1 + length rcvd) ≡ true =
      ground (arith, length-append before (c ∷ after)) in
    rw e (rw long (rw (← hb) (rw (get_elem?-append before after c, drop-past before after c) refl)))

abbrev pub with_tokens : List Text → Entry → Entry
with_tokens toks q = record q { exch_tokens = toks }

-- The QSO with a call in place of its own, if that is shaped like one.
abbrev pub with_call : Text → Entry → Entry
with_call c q = record q { call = if looks_like_callsign c then c else q.call }

take_call-with_call : (c : Text) (q : Entry) → take_call (some c) q ≡ with_call c q
unfolding take_call
take_call-with_call c q = elim (Bool-cases (looks_like_callsign c)) [
  | inl e ↦ rw e refl
  | inr e ↦ rw e refl
]

-- When the tokens are as many as the contest's grammar says, the one behind the sent fields becomes
-- the worked call if it is shaped like a call, the received fields are read from those behind it, and
-- the grammar counts as matched; so too with a transmitter id at the end.
pub apply_fields-exact :
    (sent rcvd : List Field) (before after : List Text) (c id : Text) (q : Entry)
    → length before ≡ length sent
    → length after ≡ length rcvd
    → is_transmitter_id id ≡ true
    → (apply_fields sent rcvd (with_tokens (before ++ c ∷ after) q)
        ≡ (true, map_fields rcvd after (with_call c (with_tokens (before ++ c ∷ after) q))))
      × (apply_fields sent rcvd (with_tokens ((before ++ c ∷ after) ++ id ∷ []) q) ≡ (
        true,
        map_fields rcvd after (with_call c (with_tokens ((before ++ c ∷ after) ++ id ∷ []) q)),
      ))
apply_fields-exact sent rcvd before after c id q hb ha one =
    let total : length (before ++ c ∷ after) ≡ length sent + 1 + length rcvd =
      omega (arith, length-append before (c ∷ after)) in
    (
      apply_fields_lem sent rcvd before after c _ hb ha
            (exact_tokens-fitting (length sent + 1 + length rcvd) (before ++ c ∷ after) total)
          ∙ read (with_tokens (before ++ c ∷ after) q),
      apply_fields_lem sent rcvd before after c _ hb ha (
            exact_tokens-with_id (length sent + 1 + length rcvd) (before ++ c ∷ after) id total one)
          ∙ read (with_tokens ((before ++ c ∷ after) ++ id ∷ []) q),
    )
  where
    read :
        (e : Entry)
        → ◌≡◌ {A = Bool × Entry}
            (true, map_fields rcvd after (take_call (some c) e))
            (true, map_fields rcvd after (with_call c e))
    read e = rw (take_call-with_call c e) refl

-- No field of the exchange fills a column.
abbrev pub Misses : Target → List Field → List Text → Type 0
Misses d (f ∷ fs) (t ∷ ts) = (target_of f t ≢ some d) × Misses d fs ts
Misses d _ _ = Unit

target_at : ℕ → Target
target_at zero = Target.rcv_nr
target_at (suc zero) = Target.zone
target_at (suc (suc zero)) = section
target_at (suc (suc (suc zero))) = Target.gridsquare
target_at (suc (suc (suc (suc zero)))) = Target.op_name
target_at (suc (suc (suc (suc (suc zero))))) = Target.ck
target_at (suc (suc (suc (suc (suc (suc zero)))))) = Target.prec
target_at (suc (suc (suc (suc (suc (suc (suc zero))))))) = Target.exchange1
target_at _ = Target.power

target_at-number_of : (c : Target) → target_at (number_of c) ≡ c
unfolding target_at
target_at-number_of Target.rcv_nr = refl
target_at-number_of _ = refl

number_of-injective : (c d : Target) → number_of c ≡ number_of d → c ≡ d
number_of-injective c d h = sym (target_at-number_of c) ∙ ap target_at h ∙ target_at-number_of d

store_field-other :
    (d : Target) (o : Option Target) (t : Text) (q : Entry)
    → o ≢ some d
    → (store_field o t q).column d ≡ q.column d
unfolding store_field set_column
store_field-other d none t q h = refl
store_field-other d (some c) t q h = elim (Bool-cases (number_of c == number_of d)) [
  | inl e ↦ absurd (h (ap (λ (x : Target). some x) (number_of-injective c d (ground arith))))
  | inr e ↦ rw e refl
]

-- A token as its column shows it: sections in upper case, all others as they were sent.
abbrev pub as_shown : Target → Text → Text
as_shown section t = to_upper_case t
as_shown _ t = t

shaped-as_shown : (d : Target) (t : Text) → shaped d t ≡ as_shown d t
unfolding shaped
shaped-as_shown section t = refl
shaped-as_shown _ t = refl

store_field_self :
    (d : Target) (t : Text) (q : Entry) → (store_field (some d) t q).column d ≡ as_shown d t
unfolding store_field set_column
store_field_self d t q =
    let e : (number_of d == number_of d) ≡ true = ground arith in rw e (shaped-as_shown d t)

map_fields-Misses :
    (d : Target) (fs : List Field) (ts : List Text) (q : Entry)
    → Misses d fs ts
    → (map_fields fs ts q).column d ≡ q.column d
unfolding map_fields
map_fields-Misses d [] ts q h = refl
map_fields-Misses d (f ∷ fs) [] q h = refl
map_fields-Misses d (f ∷ fs) (t ∷ ts) q h =
    map_fields-Misses d fs ts (if is_empty t then q else store_field (target_of f t) t q) h.1
    ∙ elim (Bool-cases (is_empty t)) [
      | inl e ↦ rw e refl
      | inr e ↦ rw e (store_field-other d (target_of f t) t q h.0)
    ]

-- After the fields are read, a column holds the token of the last field that fills it, in upper case
-- for a section, whatever the QSO held before and whichever columns the other fields fill.
pub map_fields-fills :
    (d : Target) (fs gs : List Field) (f : Field) (ts us : List Text) (t : Text) (q : Entry)
    → length fs ≡ length ts
    → is_empty t ≡ false
    → target_of f t ≡ some d
    → Misses d gs us
    → (map_fields (fs ++ f ∷ gs) (ts ++ t ∷ us) q).column d ≡ as_shown d t
unfolding map_fields
map_fields-fills d [] gs f [] us t q n given fills misses =
    map_fields-Misses d gs us (if is_empty t then q else store_field (target_of f t) t q) misses
    ∙ rw (given, fills) (store_field_self d t q)
map_fields-fills d (f' ∷ fs) gs f (t' ∷ ts) us t q n given fills misses =
    map_fields-fills d fs gs f ts us t
      (if is_empty t' then q else store_field (target_of f' t') t' q) (omega arith) given fills
      misses
map_fields-fills d [] gs f (t' ∷ ts) us t q n given fills misses = absurd (omega arith)
map_fields-fills d (f' ∷ fs) gs f [] us t q n given fills misses = absurd (omega arith)
