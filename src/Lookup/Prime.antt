-- ===== src/Lookup/Prime.antt =====
-- The back-fill at startup, `prime` of src/lookup/index.js.
use mathlib.Core.List.{reverse, append_assoc, append-nil, reverse-append}
use contestscore.Lookup.Suffix.{strip_suffix}
use contestscore.Lookup.Service.{Service, has, add, enqueue_base, enqueue, prime_loop, prime}
use contestscore.Lookup.Consistent.{busy}
use contestscore.Lookup.Reach.{enqueue-cases}
use contestscore.Lookup.Order.{wanted, busy-enqueue_base}
use contestscore.Prelude.{
  ℕ, suc, ◌+◌, ◌-◌, ◌≤◌, ◌≡◌, ap, sym, ◌∙◌, inl, inr, ltb→lt, Bool, true, false, not, ◌&&◌, List,
  [], ◌∷◌, ◌++◌, some, arith, ltb, length, length-append, Bool-cases, Option-cases,
}
use contestscore.Prelude.Text.{Text, is_empty}

abbrev Extends : Service → ℕ → Service → Type 0
Extends s n s' = (rest : List Text) × (busy s' ≡ busy s ++ rest) × (length rest ≤ n)

Extends-refl : (s : Service) (n : ℕ) → Extends s n s
Extends-refl s n = ([], sym (append-nil (busy s)), omega arith)

Extends-trans :
    (s t u : Service) (m n k : ℕ) → m + n ≤ k → Extends s m t → Extends t n u → Extends s k u
Extends-trans s t u m n k le (p, ep, lp) (q, eq, lq) =
    (p ++ q, rw (eq, ep) (append_assoc (busy s) p q), omega (arith, length-append p q))

enqueue_base-Extends :
    (cached : Text → Bool) (now : ℕ) (call : Text) (s : Service)
    → Extends s 1 (enqueue_base cached now call s)
enqueue_base-Extends cached now call s = elim (Bool-cases (wanted cached call s)) [
  | inl e ↦ (call ∷ [], (rw e at (busy-enqueue_base cached now call s)), omega arith)
  | inr e ↦ ([], (rw e at (busy-enqueue_base cached now call s)), omega arith)
]

enqueue-Extends :
    (enabled : Bool) (cached : Text → Bool) (now : ℕ) (raw_call : Text) (s s' : Service)
    → enqueue enabled cached now raw_call s ≡ some s'
    → Extends s 1 s'
enqueue-Extends enabled cached now raw_call s s' e =
    elim (enqueue-cases enabled cached now raw_call s s' e) [
      | inl p ↦ rw p (Extends-refl s 1)
      | inr (call, p) ↦ rw p (enqueue_base-Extends cached now call s)
    ]

length-add : (c : Text) (s : List Text) → has c s ≡ false → length (add c s) ≡ length s + 1
unfolding add
length-add c s h = rw h (length-append s (c ∷ []))

prime_loop-Extends :
    (enabled : Bool) (cached : Text → Bool) (now most : ℕ) (seen calls : List Text) (s s' : Service)
    → prime_loop enabled cached now most seen calls s ≡ some s'
    → Extends s (most - length seen) s'
unfolding prime_loop
prime_loop-Extends enabled cached now most seen [] s s' h =
    rw (let e : s' ≡ s = cc in e) (Extends-refl s _)
prime_loop-Extends enabled cached now most seen (raw ∷ calls) s s' h =
    elim (Bool-cases (ltb (length seen) most)) [
      | inr full ↦ rw (let e : s' ≡ s = ground arith in e) (Extends-refl s _)
      | inl room ↦ elim (Option-cases (strip_suffix raw)) [
        | inl bad ↦ absurd (ground arith)
        | inr (c, base) ↦ elim (Bool-cases (not (is_empty c) && not (has c seen))) [
          | inr old ↦ prime_loop-Extends enabled cached now most seen calls s s' (ground arith)
          | inl new ↦ elim (Option-cases (enqueue enabled cached now raw s)) [
            | inl bad ↦ absurd (ground arith)
            | inr (t, queued) ↦
                Extends-trans s t s' 1 (most - length (add c seen)) _
                  (omega (arith, ltb→lt (length seen) most room, length-add c seen (ground arith)))
                  (enqueue-Extends enabled cached now raw s t queued)
                  (prime_loop-Extends enabled cached now most (add c seen) calls t s'
                    (ground arith))
          ]
        ]
      ]
    ]

-- The back-fill adds at most `most` calls, behind those that are in flight or queued already.
pub prime-Extends :
    (enabled : Bool) (cached : Text → Bool) (now most : ℕ) (calls : List Text) (s s' : Service)
    → prime enabled cached now most calls s ≡ some s'
    → (rest : List Text) × (busy s' ≡ busy s ++ rest) × (length rest ≤ most)
unfolding prime
prime-Extends true cached now most calls s s' h =
    let (rest, e, l) = prime_loop-Extends true cached now most [] (reverse calls) s s' h in
    (rest, e, omega arith)
prime-Extends false cached now most calls s s' h =
    rw (let e : s' ≡ s = ground arith in e) (Extends-refl s most)

prime_loop_first :
    (cached : Text → Bool) (now most : ℕ) (raw call : Text) (calls : List Text) (s s' : Service)
    → s.paused ≡ false
    → strip_suffix raw ≡ some call
    → wanted cached call s ≡ true
    → prime_loop true cached now (suc most) [] (raw ∷ calls) s ≡ some s'
    → (rest : List Text) × (busy s' ≡ busy s ++ call ∷ rest)
unfolding prime_loop enqueue has
prime_loop_first cached now most raw [] calls s s' running base w h = absurd (ground arith)
prime_loop_first cached now most raw (d ∷ ds) calls s s' running base w h =
    let t = enqueue_base cached now (d ∷ ds) s in
    let (rest, e, l) =
      prime_loop-Extends true cached now (suc most) (add (d ∷ ds) []) calls t s'
        (ground (arith, base, running)) in
    (
      rest,
      e
          ∙ ap (λ q. q ++ rest) (rw w at (busy-enqueue_base cached now (d ∷ ds) s))
          ∙ append_assoc (busy s) ((d ∷ ds) ∷ []) rest,
    )

-- The rows come newest first, and the back-fill begins at their end: with any most that lets a call
-- in, a wanted call of the last row, which is the oldest, is looked up before that of any other.
pub prime-oldest_first :
    (cached : Text → Bool) (now most : ℕ) (newer : List Text) (raw call : Text) (s s' : Service)
    → s.paused ≡ false
    → strip_suffix raw ≡ some call
    → wanted cached call s ≡ true
    → prime true cached now (suc most) (newer ++ raw ∷ []) s ≡ some s'
    → (rest : List Text) × (busy s' ≡ busy s ++ call ∷ rest)
unfolding prime
prime-oldest_first cached now most newer raw call s s' running base w h =
    prime_loop_first cached now most raw call (reverse newer) s s' running base w
      (rw (reverse-append newer (raw ∷ [])) at h)
