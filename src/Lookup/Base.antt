-- ===== src/Lookup/Base.antt =====
-- What stripSuffix of src/lookup/index.js returns, and the calls on which it throws.
use contestscore.Lookup.Suffix.{
  extend, split_at, segments, is_plain_tail, drop_tail, choose_call, pick_part, base_part,
  strip_suffix,
}
use contestscore.Prelude.{
  ℕ, ◌≡◌, ◌≢◌, ◌↔◌, ◌⊎◌, refl, inl, inr, Bool, true, false, not, ◌||◌, List, [], ◌∷◌, none, some,
  arith, ◌==◌, All, keep, Bool-cases, if◌then◌else◌,
}
use contestscore.Prelude.Text.{Text, is_empty, to_upper_case, trim, includes, every}

abbrev slash : ℕ
slash = b'/'

abbrev pub NoSlash : Text → Type 0
NoSlash s = includes b'/' s ≡ false

extend-NoSlash : (d : ℕ) (ps : List Text) → All NoSlash ps → All NoSlash (extend slash d ps)
unfolding extend includes
extend-NoSlash d [] h = elim (Bool-cases (d == slash)) [
  | inl e ↦ rw e (refl, (refl, tt))
  | inr e ↦ rw e (rw e refl, tt)
]
extend-NoSlash d (p ∷ ps) h = elim (Bool-cases (d == slash)) [
  | inl e ↦ rw e (refl, h)
  | inr e ↦ rw e (rw e h.0, h.1)
]

split_at-NoSlash : (s : Text) → All NoSlash (split_at slash s)
unfolding split_at includes
split_at-NoSlash [] = (refl, tt)
split_at-NoSlash (d ∷ s) = extend-NoSlash d (split_at slash s) (split_at-NoSlash s)

keep-All : (p : Text → Bool) (xs : List Text) → All NoSlash xs → All NoSlash (keep p xs)
keep-All p [] h = tt
keep-All p (x ∷ xs) h = elim (Bool-cases (p x)) [
  | inl e ↦ rw e (h.0, keep-All p xs h.1)
  | inr e ↦ rw e (keep-All p xs h.1)
]

drop_tail-All : (xs : List Text) → All NoSlash xs → All NoSlash (drop_tail xs)
unfolding drop_tail
drop_tail-All [] h = tt
drop_tail-All (p ∷ []) h = elim (Bool-cases (is_plain_tail p)) [ inl e ↦ rw e tt | inr e ↦ rw e h ]
drop_tail-All (p ∷ q ∷ xs) h = (h.0, drop_tail-All (q ∷ xs) h.1)

pick_part-NoSlash : (xs : List Text) (r : Text) → All NoSlash xs → pick_part xs ≡ some r → NoSlash r
unfolding pick_part choose_call
pick_part-NoSlash [] r h e = cc
pick_part-NoSlash (p ∷ []) r h e = ground (arith, h.0)
pick_part-NoSlash (a ∷ b ∷ xs) r h e = ground (arith, h.0, h.1.0)

base_part-NoSlash : (xs : List Text) (r : Text) → All NoSlash xs → base_part xs ≡ some r → NoSlash r
unfolding base_part
base_part-NoSlash [] r h e = pick_part-NoSlash [] r h e
base_part-NoSlash (p ∷ []) r h e = ground (arith, h.0)
base_part-NoSlash (p ∷ q ∷ xs) r h e =
    pick_part-NoSlash (drop_tail (p ∷ q ∷ xs)) r (drop_tail-All (p ∷ q ∷ xs) h) e

-- the text that stripSuffix looks at
abbrev pub canonical : Text → Text
canonical raw = to_upper_case (trim raw)

split_parts :
    (c r : Text)
    → includes slash c ≡ true
    → (if is_empty c || not (includes slash c) then some c else base_part (segments c)) ≡ some r
    → base_part (segments c) ≡ some r
unfolding includes
split_parts [] r h e = cc
split_parts (d ∷ c) r h e = rw h at e

-- A base call has no slash left.
pub strip_suffix-NoSlash : (raw r : Text) → strip_suffix raw ≡ some r → NoSlash r
unfolding strip_suffix segments
strip_suffix-NoSlash raw r e = elim (Bool-cases (includes slash (canonical raw))) [
  | inl yes_slash ↦
      base_part-NoSlash (segments (canonical raw)) r
        (keep-All _ (split_at slash (canonical raw)) (split_at-NoSlash (canonical raw)))
        (split_parts (canonical raw) r yes_slash e)
  | inr none_there ↦ ground arith
]

extend-cons :
    (d : ℕ) (ps : List Text) → (q : Text) × (qs : List Text) × (extend slash d ps ≡ q ∷ qs)
unfolding extend
extend-cons d [] = elim (Bool-cases (d == slash)) [
  | inl e ↦ ([], [] ∷ [], rw e)
  | inr e ↦ (d ∷ [], [], rw e)
]
extend-cons d (p ∷ ps) = elim (Bool-cases (d == slash)) [
  | inl e ↦ ([], p ∷ ps, rw e)
  | inr e ↦ (d ∷ p, ps, rw e)
]

split_at-cons : (s : Text) → (q : Text) × (qs : List Text) × (split_at slash s ≡ q ∷ qs)
unfolding split_at
split_at-cons [] = ([], [], refl)
split_at-cons (d ∷ s) = extend-cons d (split_at slash s)

segments-cons :
    (d : ℕ) (s : Text)
    → ((d == slash) ≡ true) × (segments (d ∷ s) ≡ segments s)
      ⊎ ((d == slash) ≡ false) × (segments (d ∷ s) ≢ [])
unfolding segments split_at extend
segments-cons d s =
    let (q, qs, e) = split_at-cons s in
    elim (Bool-cases (d == slash)) [
      | inl b ↦ inl (b, rw (e, extend) (rw b refl))
      | inr b ↦ inr (b, rw (e, extend) (rw b (λ h. cc)))
    ]

segments-empty_iff : (s : Text) → (segments s ≡ []) ↔ (every (λ d. d == slash) s ≡ true)
unfolding every
segments-empty_iff [] = (λ _. refl, λ _. unfold segments split_at in refl)
segments-empty_iff (d ∷ s) = elim (segments-cons d s) [
  | inl (b, e) ↦ rw (b, e) (segments-empty_iff s)
  | inr (b, e) ↦ rw b (λ h. absurd (e h), λ h. cc)
]

choice-some : (xs : List Text) → xs ≢ [] → pick_part xs ≢ none
unfolding pick_part
choice-some [] n h = n refl
choice-some (p ∷ []) n h = cc
choice-some (a ∷ b ∷ xs) n h = cc

base_part-none : (xs : List Text) → (base_part xs ≡ none) ↔ (xs ≡ [])
unfolding base_part
base_part-none [] = (λ _. refl, λ _. unfold pick_part in refl)
base_part-none (p ∷ []) = (λ h. cc, λ h. cc)
base_part-none (p ∷ q ∷ xs) =
    (λ h. absurd (choice-some (drop_tail (p ∷ q ∷ xs)) (unfold drop_tail in λ k. cc) h), λ h. cc)

slashes_include : (c : Text) → c ≢ [] → every (λ d. d == slash) c ≡ true → includes slash c ≡ true
unfolding every includes
slashes_include [] n h = absurd (n refl)
slashes_include (d ∷ c) n h = ground arith

-- stripSuffix throws exactly on the calls that are, up to white space at the ends, one slash or
-- more and nothing else.
pub strip_suffix-throws_iff :
    (raw : Text)
    → (strip_suffix raw ≡ none)
      ↔ ((canonical raw ≢ []) × (every (λ d. d == slash) (canonical raw) ≡ true))
unfolding strip_suffix
strip_suffix-throws_iff raw = go (canonical raw)
  where
    go :
        (c : Text)
        → ((if is_empty c || not (includes slash c) then some c else base_part (segments c)) ≡ none)
          ↔ ((c ≢ []) × (every (λ d. d == slash) c ≡ true))
    go [] = (λ h. cc, λ h. absurd (h.0 refl))
    go (d ∷ c) = (
      λ h. elim (Bool-cases (includes slash (d ∷ c))) [
        | inl e ↦ (λ k. cc, (segments-empty_iff (d ∷ c)).0 ((base_part-none _).0 (rw e at h)))
        | inr e ↦ absurd (ground arith)
      ],
      λ h.
          rw (slashes_include (d ∷ c) h.0 h.1)
            ((base_part-none _).1 ((segments-empty_iff (d ∷ c)).1 h.1)),
    )
