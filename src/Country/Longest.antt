-- ===== src/Country/Longest.antt =====
-- The resolver of src/analyze/cty.js finds the longest prefix, whatever file the maps come from.
use contestscore.JsMap.{JsMap, get, get-put_ne}
use contestscore.Country.Resolver.{
  Country, Cty, Alias, add_prefix, with_prefix, version_of, with_overrides, add_token, add_alias,
  add_aliases, add_entity, build_cty, empty_cty, location_token, longest_prefix, resolve_upper,
}
use contestscore.Prelude.{
  ℕ, zero, suc, ◌+◌, ◌≤◌, ◌<◌, ◌≡◌, ◌∙◌, refl, sym, inl, inr, List, [], ◌∷◌, Option, none, some,
  arith, length, take, leb, ◌==◌, Bool-cases, Option-cases,
}
use contestscore.Prelude.Text.{Text, text_eq, text_eq_iff, text_key}
use Prim.Native.Nat.{min}

-- no prefix of `loc` of more than `n` and at most `m` characters is a key
abbrev pub NoneAbove : JsMap Text Country → Text → ℕ → ℕ → Type 0
NoneAbove prefixes loc n m = (k : ℕ) → n < k → k ≤ m → get (take k loc) prefixes ≡ none

-- the answer for the longest prefix of `loc` that is a key, among those of at most `m` characters
abbrev pub IsLongest : JsMap Text Country → Text → ℕ → Option Country → Type 0
IsLongest prefixes loc m none = NoneAbove prefixes loc 0 m
IsLongest prefixes loc m (some r) =
    (n : ℕ) × (0 < n) × (n ≤ m) × (get (take n loc) prefixes ≡ some r) × NoneAbove prefixes loc n m

NoneAbove-suc :
    (prefixes : JsMap Text Country) (loc : Text) (n m : ℕ)
    → get (take (suc m) loc) prefixes ≡ none
    → NoneAbove prefixes loc n m
    → NoneAbove prefixes loc n (suc m)
NoneAbove-suc prefixes loc n m e h k lo hi = elim (Bool-cases (leb (suc m) k)) [
  | inl at_end ↦ let p : k ≡ suc m = ground arith in rw p e
  | inr below ↦ h k lo (ground arith)
]

IsLongest-suc :
    (prefixes : JsMap Text Country) (loc : Text) (m : ℕ) (o : Option Country)
    → get (take (suc m) loc) prefixes ≡ none
    → IsLongest prefixes loc m o
    → IsLongest prefixes loc (suc m) o
IsLongest-suc prefixes loc m none e h = NoneAbove-suc prefixes loc 0 m e h
IsLongest-suc prefixes loc m (some r) e (n, pos, le, hit, above) =
    (n, pos, omega arith, hit, NoneAbove-suc prefixes loc n m e above)

longest_prefix-hit :
    (prefixes : JsMap Text Country) (loc : Text) (m : ℕ) (r : Country)
    → get (take (suc m) loc) prefixes ≡ some r
    → longest_prefix prefixes loc (suc m) ≡ some r
unfolding longest_prefix
longest_prefix-hit prefixes loc m r e = rw (e, longest_prefix) refl

longest_prefix-miss :
    (prefixes : JsMap Text Country) (loc : Text) (m : ℕ)
    → get (take (suc m) loc) prefixes ≡ none
    → longest_prefix prefixes loc (suc m) ≡ longest_prefix prefixes loc m
unfolding longest_prefix
longest_prefix-miss prefixes loc m e = rw (e, longest_prefix) refl

longest_prefix-IsLongest :
    (prefixes : JsMap Text Country) (loc : Text) (m : ℕ)
    → IsLongest prefixes loc m (longest_prefix prefixes loc m)
longest_prefix-IsLongest prefixes loc zero =
    unfold longest_prefix in λ k lo hi. absurd (omega arith)
longest_prefix-IsLongest prefixes loc (suc m) =
    elim (Option-cases (get (take (suc m) loc) prefixes)) [
      | inl e ↦ rw (longest_prefix-miss prefixes loc m e) (
          IsLongest-suc prefixes loc m (longest_prefix prefixes loc m) e
            (longest_prefix-IsLongest prefixes loc m))
      | inr (r, e) ↦
          rw (longest_prefix-hit prefixes loc m r e)
            (suc m, omega arith, omega arith, e, λ k lo hi. absurd (omega arith))
    ]

-- maxPrefixLen is no less than the length of any key.
pub IsBounded : Cty → Type 0
IsBounded cty =
    (key : Text) (r : Country) → get key cty.prefixes ≡ some r → length key ≤ cty.max_prefix_len

with_prefix-IsBounded :
    (key : Text) (rec : Country) (cty : Cty) → IsBounded cty → IsBounded (with_prefix key rec cty)
unfolding IsBounded with_prefix add_prefix
with_prefix-IsBounded [] rec cty h j r e = omega (arith, h j r e)
with_prefix-IsBounded (c ∷ s) rec cty h j r e = elim (Option-cases (get (c ∷ s) cty.prefixes)) [
  | inr (old, f) ↦ omega (arith, h j r (rw f at e))
  | inl f ↦ elim (Bool-cases (text_eq (c ∷ s) j)) [
    | inl same ↦ let p : c ∷ s ≡ j = (text_eq_iff (c ∷ s) j).0 same in rw (← p) (omega arith)
    | inr other ↦
        omega (arith, h j r (sym (get-put_ne (c ∷ s) j rec cty.prefixes other) ∙ (rw f at e)))
  ]
]

add_token-IsBounded :
    (clean : Text) (rec : Country) (cty : Cty) → IsBounded cty → IsBounded (add_token clean rec cty)
unfolding add_token IsBounded
add_token-IsBounded [] rec cty h = h
add_token-IsBounded (c ∷ clean) rec cty h = elim (Bool-cases (c == b'=')) [
  | inl e ↦ rw e h
  | inr e ↦ rw e (with_prefix-IsBounded (c ∷ clean) rec cty h)
]

add_alias-IsBounded :
    (base : Country) (a : Alias) (cty : Cty) → IsBounded cty → IsBounded (add_alias base a cty)
unfolding add_alias IsBounded
add_alias-IsBounded base a cty h = elim (Option-cases (version_of a.clean)) [
  | inl e ↦ rw e (add_token-IsBounded a.clean (with_overrides a base) cty h)
  | inr (v, e) ↦ rw e h
]

add_aliases-IsBounded :
    (base : Country) (aliases : List Alias) (cty : Cty)
    → IsBounded cty
    → IsBounded (add_aliases base aliases cty)
unfolding add_aliases
add_aliases-IsBounded base [] cty h = h
add_aliases-IsBounded base (a ∷ aliases) cty h =
    add_aliases-IsBounded base aliases (add_alias base a cty) (add_alias-IsBounded base a cty h)

build_cty-IsBounded :
    (lines : List (Country × List Alias)) (cty : Cty)
    → IsBounded cty
    → IsBounded (build_cty lines cty)
unfolding build_cty add_entity
build_cty-IsBounded [] cty h = h
build_cty-IsBounded ((base, aliases) ∷ lines) cty h =
    build_cty-IsBounded lines (add_entity (base, aliases) cty) (
      add_aliases-IsBounded base aliases
        (with_prefix base.prefix base (record cty { entities = cty.entities + 1 }))
        (with_prefix-IsBounded base.prefix base (record cty { entities = cty.entities + 1 })
          (unfold IsBounded in h)))

empty_cty-IsBounded : IsBounded empty_cty
unfolding IsBounded get
empty_cty-IsBounded key r e = cc

length-take : (n : ℕ) (s : Text) → n ≤ length s → length (take n s) ≡ n
length-take zero s h = refl
length-take (suc n) [] h = absurd (omega arith)
length-take (suc n) (c ∷ s) h = omega (arith, length-take n s (omega arith))

-- a longer prefix than any key is no key
above_bound :
    (cty : Cty) (loc : Text)
    → IsBounded cty
    → NoneAbove cty.prefixes loc cty.max_prefix_len (length loc)
unfolding IsBounded
above_bound cty loc h k lo hi = elim (Option-cases (get (take k loc) cty.prefixes)) [
  | inl e ↦ e
  | inr (r, e) ↦ absurd (omega (arith, h (take k loc) r e, length-take k loc hi))
]

NoneAbove-join :
    (cty : Cty) (loc : Text) (n : ℕ)
    → IsBounded cty
    → NoneAbove cty.prefixes loc n (min (length loc) cty.max_prefix_len)
    → NoneAbove cty.prefixes loc n (length loc)
NoneAbove-join cty loc n b h k lo hi = elim (Bool-cases (leb k cty.max_prefix_len)) [
  | inl e ↦ h k lo (ground arith)
  | inr e ↦ above_bound cty loc b k (ground arith) hi
]

IsLongest-join :
    (cty : Cty) (loc : Text) (o : Option Country)
    → IsBounded cty
    → IsLongest cty.prefixes loc (min (length loc) cty.max_prefix_len) o
    → IsLongest cty.prefixes loc (length loc) o
IsLongest-join cty loc none b h = NoneAbove-join cty loc 0 b h
IsLongest-join cty loc (some r) b (n, pos, le, hit, above) =
    (n, pos, omega arith, hit, NoneAbove-join cty loc n b above)

resolve_upper-prefix :
    (cty : Cty) (call : Text)
    → get call cty.exact ≡ none
    → get (location_token call) cty.exact ≡ none
    → resolve_upper cty call
      ≡ longest_prefix cty.prefixes
          (location_token call)
          (min (length (location_token call)) cty.max_prefix_len)
unfolding resolve_upper
resolve_upper-prefix cty call e f = rw (e, f, resolve_upper) refl

-- With the maps of any country file, a call that is no exact entry, nor its location part, resolves
-- to the entry of the longest prefix of the location part that the file has, and to nothing if it
-- has none: the cap on the length of the prefixes that are tried hides no entry.
pub resolve_upper-IsLongest :
    (lines : List (Country × List Alias)) (call : Text)
    → let cty = build_cty lines empty_cty in
      let loc = location_token call in
      get call cty.exact ≡ none
      → get loc cty.exact ≡ none
      → IsLongest cty.prefixes loc (length loc) (resolve_upper cty call)
resolve_upper-IsLongest lines call no_call no_loc =
    let cty = build_cty lines empty_cty in
    let loc = location_token call in
    rw (resolve_upper-prefix cty call no_call no_loc) (
      IsLongest-join cty loc (longest_prefix cty.prefixes loc (min (length loc) cty.max_prefix_len))
        (build_cty-IsBounded lines empty_cty empty_cty-IsBounded)
        (longest_prefix-IsLongest cty.prefixes loc (min (length loc) cty.max_prefix_len)))
