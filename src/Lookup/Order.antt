-- ===== src/Lookup/Order.antt =====
-- Which calls src/lookup/index.js looks up, and in what order.
use mathlib.Core.List.{append_assoc, append-nil}
use contestscore.Lookup.Suffix.{strip_suffix}
use contestscore.Lookup.Service.{Service, start_run, push, has, enqueue_base, enqueue}
use contestscore.Lookup.Consistent.{requested, busy, busy-loop_head}
use contestscore.Lookup.Reach.{start_run-cases}
use contestscore.Prelude.{
  ℕ, ◌≡◌, ap, sym, ◌∙◌, inl, inr, Bool, true, false, not, ◌||◌, [], ◌∷◌, ◌++◌, some, arith, ltb,
  length, Bool-cases, if◌then◌else◌,
}
use contestscore.Prelude.Text.{Text}

busy-push : (call : Text) (s : Service) → busy (push call s) ≡ busy s ++ call ∷ []
unfolding push
busy-push call s = sym (append_assoc (requested s.phase) s.queue (call ∷ []))

busy-start_run : (now : ℕ) (s : Service) → busy (start_run now s) ≡ busy s
busy-start_run now s = elim (start_run-cases now s) [
  | inl (e, p) ↦ rw p (busy-loop_head now s ∙ ap (λ q. q ++ s.queue) (sym (ap requested e)))
  | inr p ↦ rw p
]

-- what enqueue wants of a base call
abbrev pub wanted : (Text → Bool) → Text → Service → Bool
wanted cached call s = not (ltb (length call) 3 || has call s.pending || cached call)

pub busy-enqueue_base :
    (cached : Text → Bool) (now : ℕ) (call : Text) (s : Service)
    → busy (enqueue_base cached now call s)
      ≡ busy s ++ (if wanted cached call s then call ∷ [] else [])
unfolding enqueue_base
busy-enqueue_base cached now call s =
    elim (Bool-cases (ltb (length call) 3 || has call s.pending || cached call)) [
      | inl e ↦ rw e (sym (append-nil (busy s)))
      | inr e ↦ rw e (busy-start_run now (push call s) ∙ busy-push call s)
    ]

-- On an enabled service that is not paused, a call of three characters or more that is neither
-- pending nor cached joins the calls that are in flight or queued, as the last; any other call
-- changes none of them.
pub busy-enqueue :
    (cached : Text → Bool) (now : ℕ) (raw_call call : Text) (s s' : Service)
    → s.paused ≡ false
    → strip_suffix raw_call ≡ some call
    → enqueue true cached now raw_call s ≡ some s'
    → busy s' ≡ busy s ++ (if wanted cached call s then call ∷ [] else [])
unfolding enqueue
busy-enqueue cached now raw_call call s s' running base e =
    let same : enqueue_base cached now call s ≡ s' = ground arith in
    rw (← same) (busy-enqueue_base cached now call s)
