-- ===== src/Analyze/Exchange.antt =====
-- Which token pickWorkedCall of src/analyze/cabrillo.js takes.
use contestscore.Analyze.Tokens.{
  is_transmitter_id, without_id, is_other_call, middle, pick_worked_call,
}
use contestscore.Prelude.{
  ℕ, ◌+◌, ◌-◌, ◌*◌, ◌/◌, ◌%◌, ◌≡◌, ◌∙◌, refl, ap, true, false, List, [], ◌∷◌, ◌++◌, some, arith,
  ◌==◌, length, get_elem?, take, length-append,
}
use contestscore.Prelude.Text.{Text}

pub get_elem?-append :
    (xs ys : List Text) (y : Text) → get_elem? (xs ++ y ∷ ys) (length xs) ≡ some y
get_elem?-append [] ys y = refl
get_elem?-append (x ∷ xs) ys y = get_elem?-append xs ys y

pub take-append : (xs ys : List Text) → take (length xs) (xs ++ ys) ≡ xs
take-append [] [] = refl
take-append [] (y ∷ ys) = refl
take-append (x ∷ xs) ys = ap (λ (l : List Text). x ∷ l) (take-append xs ys)

length_sides :
    (sent rcvd : List Text) (call : Text)
    → length sent ≡ length rcvd
    → length (sent ++ call ∷ rcvd) ≡ 2 * length sent + 1
length_sides sent rcvd call h = omega (arith, length-append sent (call ∷ rcvd))

middle_sides :
    (sent rcvd : List Text) (call : Text)
    → length sent ≡ length rcvd
    → middle (sent ++ call ∷ rcvd) ≡ some call
unfolding middle
middle_sides sent rcvd call h =
    let n = length sent in
    let odd : ((2 * n + 1) % 2 == 1) ≡ true = ground arith in
    let half : (2 * n + 1 - 1) / 2 ≡ n = omega arith in
    rw (length_sides sent rcvd call h, odd, half) (get_elem?-append sent rcvd call)

without_id-odd :
    (sent rcvd : List Text) (call : Text)
    → length sent ≡ length rcvd
    → without_id (sent ++ call ∷ rcvd) ≡ sent ++ call ∷ rcvd
unfolding without_id
without_id-odd sent rcvd call h =
    let n = length sent in
    let odd : ((2 * n + 1) % 2 == 0) ≡ false = ground arith in
    rw (length_sides sent rcvd call h, odd) refl

without_id-even :
    (toks : List Text) (id : Text) (n : ℕ)
    → length toks ≡ 2 * n + 1
    → is_transmitter_id id ≡ true
    → without_id (toks ++ id ∷ []) ≡ toks
unfolding without_id
without_id-even toks id n h one =
    let even : (length (toks ++ id ∷ []) % 2 == 0) ≡ true =
      ground (arith, length-append toks (id ∷ [])) in
    let last : length (toks ++ id ∷ []) - 1 ≡ length toks =
      omega (arith, length-append toks (id ∷ [])) in
    rw (even, last) (rw (get_elem?-append toks [] id) (rw (one, last) (take-append toks (id ∷ []))))

pick_worked_call_lem :
    (rest : List Text) (my_call call : Text)
    → middle (without_id rest) ≡ some call
    → is_other_call my_call call ≡ true
    → pick_worked_call rest my_call ≡ call
unfolding pick_worked_call
pick_worked_call_lem rest my_call call e h = rw (e, pick_worked_call) (rw h refl)

-- When the sent and the received exchange have as many tokens, the token between them is taken as
-- the worked call if it is shaped like a call and not one's own, with a transmitter id at the end or
-- without.
pub pick_worked_call-between :
    (sent rcvd : List Text) (call my_call id : Text)
    → length sent ≡ length rcvd
    → is_other_call my_call call ≡ true
    → is_transmitter_id id ≡ true
    → (pick_worked_call (sent ++ call ∷ rcvd) my_call ≡ call)
      × (pick_worked_call ((sent ++ call ∷ rcvd) ++ id ∷ []) my_call ≡ call)
pick_worked_call-between sent rcvd call my_call id h other one = (
  pick_worked_call_lem (sent ++ call ∷ rcvd) my_call call
      (ap middle (without_id-odd sent rcvd call h) ∙ middle_sides sent rcvd call h) other,
  pick_worked_call_lem ((sent ++ call ∷ rcvd) ++ id ∷ []) my_call call
      (ap middle (
          without_id-even (sent ++ call ∷ rcvd) id (length sent) (length_sides sent rcvd call h)
            one)
        ∙ middle_sides sent rcvd call h)
      other,
)
