-- ===== src/Analyze/Adif/RoundTrip.antt =====
-- parseFields of src/analyze/adif.js reads back the fields of a record that is written by the rules of
-- the format.
use mathlib.Core.List.{append_assoc}
use contestscore.Analyze.Adif.Tags.{
  is_name_code, is_not_close, extend_run, span, tag_end, Tag, tag_of_length, tag_of_name, tag_at,
  scan,
}
use contestscore.Analyze.Cabrillo.{digits_value}
use contestscore.Prelude.{
  ℕ, zero, ◌-◌, ◌≡◌, ◌∙◌, refl, sym, ap, inl, inr, Bool, Bool-cases, true, false, not, ◌&&◌, ◌||◌,
  List, [], ◌∷◌, ◌++◌, Option, none, some, arith, ◌==◌, length, take, length-append,
}
use contestscore.Prelude.Text.{Text, is_empty, is_digit, is_upper, is_lower, every, to_lower_case}

-- A field as a program writes it: its name, the digits of its length, its type if it has one, its
-- value, and what stands before the next tag.
pub record Field : Type 0 where
  pub name : Text
  pub digits : Text
  pub kind : Option Text
  pub value : Text
  pub filler : Text

-- No name begins here.
unfoldable pub no_name : Text → Bool
unfolding is_name_code
no_name [] = true
no_name (c ∷ s) = not (is_name_code c)

-- No '<' stands before a letter, a digit or an underscore.
unfoldable pub has_no_tag : Text → Bool
unfolding no_name
has_no_tag [] = true
has_no_tag (c ∷ s) = (not (c == b'<') || no_name s) && has_no_tag s

abbrev pub is_kind : Option Text → Bool
is_kind none = true
is_kind (some t) = every is_not_close t

-- The name is one, the length is that of the value, the type holds no '>', and nothing in the value or
-- behind it looks like a tag.
pub record IsField (f : Field) : Type 0 where
  pub named : is_empty f.name ≡ false
  pub name_codes : every is_name_code f.name ≡ true
  pub counted : is_empty f.digits ≡ false
  pub digit_codes : every is_digit f.digits ≡ true
  pub kind_codes : is_kind f.kind ≡ true
  pub len : digits_value 0 f.digits ≡ length f.value
  pub plain : has_no_tag (f.value ++ f.filler) ≡ true

abbrev pub AllFields : List Field → Type 0
AllFields [] = Unit
AllFields (f ∷ fs) = IsField f × AllFields fs

-- :TYPE
abbrev pub with_kind : Option Text → Text
with_kind none = []
with_kind (some t) = b':' ∷ t

-- <NAME:LEN>value and <NAME:LEN:TYPE>value
unfoldable pub print : List Field → Text
print [] = []
print (f ∷ fs) =
    b'<'
    ∷ (f.name
        ++ (b':'
            ∷ (f.digits ++ (with_kind f.kind ++ (b'>' ∷ (f.value ++ (f.filler ++ print fs)))))))

abbrev pub written : List Field → List (Text × Text)
written [] = []
written (f ∷ fs) = (to_lower_case f.name, f.value) ∷ written fs

span-append :
    (p : ℕ → Bool) (xs rest : Text) (y : ℕ)
    → every p xs ≡ true
    → p y ≡ false
    → span p (xs ++ y ∷ rest) ≡ (xs, y ∷ rest)
unfolding span every extend_run
span-append p [] rest y h n = rw n refl
span-append p (x ∷ xs) rest y h n =
    let first : p x ≡ true = ground arith in
    let others : every p xs ≡ true = ground arith in
    rw (first, span-append p xs rest y others n) refl

take-append : (xs ys : Text) → take (length xs) (xs ++ ys) ≡ xs
take-append [] [] = refl
take-append [] (y ∷ ys) = refl
take-append (x ∷ xs) ys = ap (λ (l : Text). x ∷ l) (take-append xs ys)

tag_end-kind :
    (k : Option Text) (rest : Text)
    → is_kind k ≡ true
    → tag_end (with_kind k ++ b'>' ∷ rest) ≡ some rest
unfolding tag_end
tag_end-kind none rest h = refl
tag_end-kind (some t) rest h =
    rw (span-append is_not_close t rest b'>' h (unfold is_not_close in refl)) refl

span-digits :
    (digits : Text) (k : Option Text) (rest : Text)
    → every is_digit digits ≡ true
    → span is_digit (digits ++ (with_kind k ++ b'>' ∷ rest)) ≡ (digits, with_kind k ++ b'>' ∷ rest)
unfolding is_digit
span-digits digits none rest h = span-append is_digit digits rest b'>' h refl
span-digits digits (some t) rest h = span-append is_digit digits (t ++ b'>' ∷ rest) b':' h refl

tag_of_length-digits :
    (name digits : Text) (k : Option Text) (rest : Text)
    → is_empty digits ≡ false
    → is_kind k ≡ true
    → tag_of_length name (digits, with_kind k ++ b'>' ∷ rest)
      ≡ some (record { name = name; len = digits_value 0 digits; rest = rest })
unfolding tag_of_length
tag_of_length-digits name [] k rest h q = cc
tag_of_length-digits name (d ∷ digits) k rest h q = rw (tag_end-kind k rest q, tag_of_length) refl

tag_of_name-digits :
    (name digits : Text) (k : Option Text) (rest : Text)
    → is_empty name ≡ false
    → is_empty digits ≡ false
    → every is_digit digits ≡ true
    → is_kind k ≡ true
    → tag_of_name (name, b':' ∷ (digits ++ (with_kind k ++ b'>' ∷ rest)))
      ≡ some (record { name = name; len = digits_value 0 digits; rest = rest })
unfolding tag_of_name
tag_of_name-digits [] digits k rest h c e q = cc
tag_of_name-digits (n ∷ name) digits k rest h c e q =
    rw (span-digits digits k rest e) (tag_of_length-digits (n ∷ name) digits k rest c q)

tag_at_lem :
    (name digits : Text) (k : Option Text) (rest : Text)
    → is_empty name ≡ false
    → every is_name_code name ≡ true
    → is_empty digits ≡ false
    → every is_digit digits ≡ true
    → is_kind k ≡ true
    → tag_at (b'<' ∷ (name ++ (b':' ∷ (digits ++ (with_kind k ++ (b'>' ∷ rest))))))
      ≡ some (record { name = name; len = digits_value 0 digits; rest = rest })
unfolding tag_at
tag_at_lem name digits k rest h e c d q =
    rw (span-append is_name_code name (digits ++ (with_kind k ++ (b'>' ∷ rest))) b':' e refl)
      (tag_of_name-digits name digits k rest h c d q)

scan-skip : (xs rest : Text) → scan (length xs) (xs ++ rest) ≡ scan zero rest
unfolding scan
scan-skip [] [] = refl
scan-skip [] (y ∷ rest) = refl
scan-skip (x ∷ xs) rest = scan-skip xs rest

scan-none : (c : ℕ) (s : Text) → tag_at (c ∷ s) ≡ none → scan zero (c ∷ s) ≡ scan zero s
unfolding scan
scan-none c s e = rw (e, scan) refl

scan-some :
    (c : ℕ) (s : Text) (t : Tag)
    → tag_at (c ∷ s) ≡ some t
    → scan zero (c ∷ s)
      ≡ (to_lower_case t.name, take t.len t.rest) ∷ scan (length s - length t.rest) s
unfolding scan
scan-some c s t e = rw (e, scan) refl

tag_at-other : (c : ℕ) (s : Text) → (c == b'<') ≡ false → tag_at (c ∷ s) ≡ none
unfolding tag_at
tag_at-other c s other = rw other refl

tag_at-no_name : (c : ℕ) (s : Text) → no_name s ≡ true → tag_at (c ∷ s) ≡ none
unfolding tag_at no_name span extend_run tag_of_name
tag_at-no_name c [] h = ground arith
tag_at-no_name c (x ∷ s) h =
    let other : is_name_code x ≡ false = ground arith in rw other (ground arith)

no_name-append :
    (s rest : Text) → no_name s ≡ true → no_name rest ≡ true → no_name (s ++ rest) ≡ true
unfolding no_name
no_name-append [] rest h k = k
no_name-append (x ∷ s) rest h k = h

scan-no_tag :
    (xs rest : Text)
    → has_no_tag xs ≡ true
    → no_name rest ≡ true
    → scan zero (xs ++ rest) ≡ scan zero rest
unfolding has_no_tag
scan-no_tag [] rest h k = refl
scan-no_tag (x ∷ xs) rest h k =
    let later : has_no_tag xs ≡ true = ground arith in
    elim (Bool-cases (x == b'<')) [
      | inr e ↦
          scan-none x (xs ++ rest) (tag_at-other x (xs ++ rest) e) ∙ scan-no_tag xs rest later k
      | inl e ↦
          let here : no_name xs ≡ true = ground arith in
          scan-none x (xs ++ rest) (tag_at-no_name x (xs ++ rest) (no_name-append xs rest here k))
          ∙ scan-no_tag xs rest later k
    ]

no_name-print : (fs : List Field) → no_name (print fs) ≡ true
unfolding no_name print is_name_code is_upper is_lower is_digit
no_name-print [] = refl
no_name-print (f ∷ fs) = refl

-- the length of a tag that is written before `rest`
length-tag :
    (name digits kind rest : Text)
    → length (name ++ (b':' ∷ (digits ++ (kind ++ (b'>' ∷ rest))))) - length rest
      ≡ length (name ++ (b':' ∷ (digits ++ (kind ++ (b'>' ∷ [])))))
length-tag name digits kind rest = omega (
  arith,
  length-append name (b':' ∷ (digits ++ (kind ++ (b'>' ∷ rest)))),
  length-append name (b':' ∷ (digits ++ (kind ++ (b'>' ∷ [])))),
  length-append digits (kind ++ (b'>' ∷ rest)),
  length-append digits (kind ++ (b'>' ∷ [])),
  length-append kind (b'>' ∷ rest),
  length-append kind (b'>' ∷ []),
)

append-tag :
    (name digits kind rest : Text)
    → name ++ (b':' ∷ (digits ++ (kind ++ (b'>' ∷ rest))))
      ≡ (name ++ (b':' ∷ (digits ++ (kind ++ (b'>' ∷ []))))) ++ rest
append-tag name digits kind rest = simp append_assoc

scan-tag :
    (name digits : Text) (k : Option Text) (rest : Text)
    → is_empty name ≡ false
    → every is_name_code name ≡ true
    → is_empty digits ≡ false
    → every is_digit digits ≡ true
    → is_kind k ≡ true
    → scan zero (b'<' ∷ (name ++ (b':' ∷ (digits ++ (with_kind k ++ (b'>' ∷ rest))))))
      ≡ (to_lower_case name, take (digits_value 0 digits) rest) ∷ scan zero rest
scan-tag name digits k rest h e c d q =
    let tag = name ++ (b':' ∷ (digits ++ (with_kind k ++ (b'>' ∷ [])))) in
    scan-some b'<' (name ++ (b':' ∷ (digits ++ (with_kind k ++ (b'>' ∷ rest)))))
      (record { name = name; len = digits_value 0 digits; rest = rest })
      (tag_at_lem name digits k rest h e c d q)
    ∙ ap (λ (l : List (Text × Text)). (to_lower_case name, take (digits_value 0 digits) rest) ∷ l)
        (rw (length-tag name digits (with_kind k) rest, append-tag name digits (with_kind k) rest)
          (scan-skip tag rest))

-- The fields of a record, <NAME:LEN>value or <NAME:LEN:TYPE>value, are read back in their order, each
-- value in its whole length, whatever the case of the names, if no '<' in a value or behind it stands
-- before a letter, a digit or an underscore.
pub scan-print : (fs : List Field) → AllFields fs → scan zero (print fs) ≡ written fs
unfolding print scan
scan-print [] h = refl
scan-print (f ∷ fs) (h, hs) =
    let rest = f.value ++ (f.filler ++ print fs) in
    let value : take (digits_value 0 f.digits) rest ≡ f.value =
      rw h.len (take-append f.value (f.filler ++ print fs)) in
    scan-tag f.name f.digits f.kind rest h.named h.name_codes h.counted h.digit_codes h.kind_codes
    ∙ ap (λ (v : Text). (to_lower_case f.name, v) ∷ scan zero rest) value
    ∙ ap (λ (l : List (Text × Text)). (to_lower_case f.name, f.value) ∷ l)
        (ap (scan zero) (sym (append_assoc f.value f.filler (print fs)))
          ∙ scan-no_tag (f.value ++ f.filler) (print fs) h.plain (no_name-print fs)
          ∙ scan-print fs hs)
