-- ===== src/Broker/Flight.antt =====
-- The requests of hamdata/broker.js that are under way.
use contestscore.Broker.{
  Broker, CacheRow, CallRecord, answer, cached_record, launch, get_call, start_request, finish,
  settle_record, settle_failure, set_paused, new_broker,
}
use contestscore.JsMap.{JsMap}
use contestscore.Lookup.Pending.{not-In_of_has}
use contestscore.Lookup.Service.{has, delete}
use contestscore.Prelude.{
  ℕ, ◌+◌, ◌≤◌, ◌≡◌, ◌⊎◌, ◌∙◌, refl, sym, ap, inl, inr, Bool, true, false, not, List, [], ◌∷◌, ◌++◌,
  some, arith, In, Distinct, Distinct-append_one, Bool-cases, Option-cases,
}
use contestscore.Prelude.Text.{Text, text_eq, text_eq_iff, text_eq_refl}

-- No call is requested twice at a time, and what is in flight is what is in the chain.
pub record IsOrderly (s : Broker) : Type 0 where
  pub distinct : Distinct s.chain
  pub same : s.in_flight ≡ s.chain

-- The events of a broker, in any order; a request goes out only when the one before it is over and
-- `between_ms` have passed since.
pub data Step (has_client : Bool) (between_ms : ℕ) : Broker → Broker → Type 0 where
  asked :
      (now : ℕ) (call : Text) (s : Broker)
      → Step has_client between_ms s (get_call has_client now call s).1
  started :
      (now : ℕ) (call : Text) (rest : List Text) (s : Broker)
      → s.chain ≡ call ∷ rest
      → s.active ≡ false
      → s.last_upstream_at + between_ms ≤ now
      → Step has_client between_ms s (start_request s)
  fetched :
      (saved : Bool) (now stamp : ℕ) (call : Text) (rest : List Text) (rec : CallRecord)
      (s : Broker)
      → s.chain ≡ call ∷ rest
      → s.active ≡ true
      → Step has_client between_ms s (settle_record saved now stamp call rest rec s)
  broke :
      (now : ℕ) (call : Text) (rest : List Text) (s : Broker)
      → s.chain ≡ call ∷ rest
      → s.active ≡ true
      → Step has_client between_ms s (settle_failure now call rest s)
  switched : (value : Bool) (s : Broker) → Step has_client between_ms s (set_paused value s)

pub data Reach (has_client : Bool) (between_ms : ℕ) (s : Broker) : Broker → Type 0 where
  here : Reach has_client between_ms s s
  next :
      {t u : Broker}
      → Reach has_client between_ms s t
      → Step has_client between_ms t u
      → Reach has_client between_ms s u

delete_absent : (c : Text) (s : List Text) → ¬ In c s → delete c s ≡ s
unfolding delete
delete_absent c [] n = refl
delete_absent c (d ∷ s) n = elim (Bool-cases (text_eq d c)) [
  | inl e ↦ absurd (n (inl (sym ((text_eq_iff d c).0 e))))
  | inr e ↦ rw e (ap (λ (l : List Text). d ∷ l) (delete_absent c s (λ m. n (inr m))))
]

delete-first : (c : Text) (s : List Text) → ¬ In c s → delete c (c ∷ s) ≡ s
unfolding delete
delete-first c s n = rw (text_eq_refl c) (delete_absent c s n)

-- the four ways in which `get` goes on
pub get_call-cases :
    (has_client : Bool) (now : ℕ) (call : Text) (s : Broker)
    → ((get_call has_client now call s).1 ≡ s)
      ⊎ (((get_call has_client now call s).1 ≡ record s { hits = s.hits + 1 })
          ⊎ ((has call s.in_flight ≡ false)
              × (s.paused ≡ false)
              × ((get_call has_client now call s).1 ≡ launch call s)))
unfolding get_call
get_call-cases has_client now call s = elim (Option-cases (cached_record now call s)) [
  | inr (rec, e) ↦ inr (inl (rw (e, get_call) refl))
  | inl e ↦ elim (Bool-cases (not has_client)) [
    | inl a ↦ inl (rw (e, get_call) (rw a refl))
    | inr a ↦ elim (Bool-cases s.paused) [
      | inl b ↦ inl (rw (e, get_call) (rw (a, b) refl))
      | inr b ↦ elim (Bool-cases (has call s.in_flight)) [
        | inl d ↦ inl (rw (e, get_call) (rw (a, b, d) refl))
        | inr d ↦ inr (inr (d, b, rw (e, get_call) (rw (a, b, d) refl)))
      ]
    ]
  ]
]

launch-IsOrderly :
    (call : Text) (s : Broker)
    → has call s.in_flight ≡ false
    → IsOrderly s
    → IsOrderly (launch call s)
unfolding launch
launch-IsOrderly call s new h = record {
  distinct =
      Distinct-append_one s.chain call h.distinct
        (rw h.same at (not-In_of_has call s.in_flight new));
  same = ap (λ (l : List Text). l ++ call ∷ []) h.same;
}

finish-IsOrderly :
    (now : ℕ) (call : Text) (rest : List Text) (s : Broker)
    → s.chain ≡ call ∷ rest
    → IsOrderly s
    → IsOrderly (finish now call rest s)
unfolding finish
finish-IsOrderly now call rest s e h =
    let d : Distinct (call ∷ rest) = rw e at h.distinct in
    record { distinct = d.1; same = ap (delete call) (h.same ∙ e) ∙ delete-first call rest d.0 }

module _ {has_client : Bool} {between_ms : ℕ} where
  Step-IsOrderly : {s t : Broker} → Step has_client between_ms s t → IsOrderly s → IsOrderly t
  unfolding settle_record settle_failure start_request set_paused
  Step-IsOrderly (asked now call s) h = elim (get_call-cases has_client now call s) [
    | inl e ↦ rw e h
    | inr (inl e) ↦ rw e (record { distinct = h.distinct; same = h.same })
    | inr (inr (new, running, e)) ↦ rw e (launch-IsOrderly call s new h)
  ]
  Step-IsOrderly (started now call rest s e a l) h = record { distinct = h.distinct; same = h.same }
  Step-IsOrderly (fetched saved now stamp call rest rec s e a) h =
      let k = finish-IsOrderly now call rest s e h in
      record { distinct = k.distinct; same = k.same }
  Step-IsOrderly (broke now call rest s e a) h =
      let k = finish-IsOrderly now call rest s e h in
      record { distinct = k.distinct; same = k.same }
  Step-IsOrderly (switched value s) h = record { distinct = h.distinct; same = h.same }

  -- In every state that a broker can reach, whatever is asked and answered in whatever order, no
  -- call has two upstream requests at a time, and `in_flight` holds exactly the calls that are
  -- waiting or running.
  pub Reach-IsOrderly :
      (cache : JsMap Text CacheRow) (stored_paused : Bool) {t : Broker}
      → Reach has_client between_ms (new_broker cache stored_paused) t
      → IsOrderly t
  unfolding new_broker
  Reach-IsOrderly cache stored_paused here = record { distinct = tt; same = refl }
  Reach-IsOrderly cache stored_paused (next r st) =
      Step-IsOrderly st (Reach-IsOrderly cache stored_paused r)

-- A paused broker takes on no request, and still answers what its cache holds fresh.
pub get_call-paused :
    (has_client : Bool) (now : ℕ) (call : Text) (s : Broker)
    → s.paused ≡ true
    → ((get_call has_client now call s).1.chain ≡ s.chain)
      × ((rec : CallRecord)
          → cached_record now call s ≡ some rec
          → (get_call has_client now call s).0 ≡ answer rec)
unfolding get_call
get_call-paused has_client now call s p = (
  elim (get_call-cases has_client now call s) [
    | inl e ↦ ap (λ (t : Broker). t.chain) e
    | inr (inl e) ↦ ap (λ (t : Broker). t.chain) e
    | inr (inr (new, running, e)) ↦ absurd (ground arith)
  ],
  λ rec e. rw (e, get_call) refl,
)
