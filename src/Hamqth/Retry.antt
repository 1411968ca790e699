-- ===== src/Hamqth/Retry.antt =====
-- How many requests a lookup of src/lookup/hamqth.js sends, and with which session.
use mathlib.Core.List.{append_assoc, append-nil}
use contestscore.Hamqth.{
  Request, auth, query, Response, empty_call, fetch_failed, http_failed, unrecognised, auth_failed,
  session_died, search_failed, Result, ok, err, Answer, Client, send, accept, authenticate,
  is_current, ensure_session, query_once, query_with, retry, query_ensured, lookup,
}
use contestscore.Prelude.{
  ℕ, ◌+◌, ◌≤◌, ◌≡◌, ◌∙◌, refl, sym, ap, inl, inr, true, false, List, [], ◌∷◌, ◌++◌, some, arith,
  length, length-append, Bool-cases, Option-cases,
}
use contestscore.Prelude.Text.{Text, is_empty, to_upper_case, trim}

-- At most `n` requests went out between the two.
abbrev pub Sends : Client → ℕ → Client → Type 0
Sends c n d = (extra : List Request) × (d.sent ≡ c.sent ++ extra) × (length extra ≤ n)

Sends-trans : (a b c : Client) (m n : ℕ) → Sends a m b → Sends b n c → Sends a (m + n) c
Sends-trans a b c m n (p, ep, lp) (q, eq, lq) = (
  p ++ q,
  eq ∙ ap (λ (l : List Request). l ++ q) ep ∙ append_assoc a.sent p q,
  omega (arith, length-append p q),
)

Sends-weaken : (a b : Client) (m n : ℕ) → m ≤ n → Sends a m b → Sends a n b
Sends-weaken a b m n h (p, e, l) = (p, e, omega arith)

Sends-refl : (a : Client) (n : ℕ) → Sends a n a
Sends-refl a n = ([], sym (append-nil a.sent), omega arith)

-- An answer comes from the last request, a query with the session that the client has.
abbrev pub Answered : Text → Result Answer × Client → Type 0
Answered cs (err e, c) = Unit
Answered cs (ok a, c) =
    (id : Text) × (before : List Request) × (c.session_id ≡ some id)
    × (c.sent ≡ before ++ query id cs ∷ [])

-- A session id that is at hand is the one that the client keeps.
abbrev HasSession : Result Text × Client → Type 0
HasSession (err e, c) = Unit
HasSession (ok id, c) = c.session_id ≡ some id

module _ (reply : ℕ → Request → Response) (clock : ℕ → ℕ) where
  accept-sends : (r : Result Text) (c : Client) → (accept reply clock r c).1.sent ≡ c.sent
  unfolding accept
  accept-sends (err e) c = refl
  accept-sends (ok id) c = refl

  accept-HasSession : (r : Result Text) (c : Client) → HasSession (accept reply clock r c)
  unfolding accept
  accept-HasSession (err e) c = tt
  accept-HasSession (ok id) c = refl

  authenticate-Sends : (c : Client) → Sends c 1 (authenticate reply clock c).1
  unfolding authenticate send
  authenticate-Sends c = (auth ∷ [], accept-sends _ _, omega arith)

  authenticate-HasSession : (c : Client) → HasSession (authenticate reply clock c)
  unfolding authenticate
  authenticate-HasSession c = accept-HasSession _ _

  ensure_session-cases :
      (c : Client)
      → Sends c 1 (ensure_session reply clock c).1 × HasSession (ensure_session reply clock c)
  unfolding ensure_session
  ensure_session-cases c = elim (Option-cases c.session_id) [
    | inl e ↦ rw (e, ensure_session) (authenticate-Sends c, authenticate-HasSession c)
    | inr (id, e) ↦ elim (Bool-cases (is_current reply clock c)) [
      | inl now ↦ rw (e, ensure_session) (rw now (Sends-refl c 1, e))
      | inr late ↦
          rw (e, ensure_session) (rw late (authenticate-Sends c, authenticate-HasSession c))
    ]
  ]

  Answered-of :
      (cs id : Text) (before : List Request) (r : Result Answer) (c : Client)
      → c.session_id ≡ some id
      → c.sent ≡ before ++ query id cs ∷ []
      → Answered cs (r, c)
  Answered-of cs id before (err e) c h k = tt
  Answered-of cs id before (ok a) c h k = (id, before, h, k)

  query_once_lem :
      (id cs : Text) (c : Client)
      → c.session_id ≡ some id
      → Sends c 1 (query_once reply clock id cs c).1 × Answered cs (query_once reply clock id cs c)
  unfolding query_once send
  query_once_lem id cs c h = (
    (query id cs ∷ [], refl, omega arith),
    Answered-of cs id c.sent (query_once reply clock id cs c).0 _ h refl,
  )

  query_with_lem :
      (cs : Text) (r : Result Text × Client)
      → HasSession r
      → Sends r.1 1 (query_with reply clock cs r).1 × Answered cs (query_with reply clock cs r)
  unfolding query_with
  query_with_lem cs (err e, c) h = (Sends-refl c 1, tt)
  query_with_lem cs (ok id, c) h = query_once_lem id cs c h

  retry_lem :
      (cs : Text) (r : Result Answer × Client)
      → Answered cs r
      → Sends r.1 2 (retry reply clock cs r).1 × Answered cs (retry reply clock cs r)
  unfolding retry
  retry_lem cs (err session_died, c) h =
      let (sends, answered) =
        query_with_lem cs (authenticate reply clock c) (authenticate-HasSession c) in
      (
        Sends-trans c (authenticate reply clock c).1
            (query_with reply clock cs (authenticate reply clock c)).1 1 1 (authenticate-Sends c)
            sends,
        answered,
      )
  retry_lem cs (err empty_call, c) h = (Sends-refl c 2, h)
  retry_lem cs (err fetch_failed, c) h = (Sends-refl c 2, h)
  retry_lem cs (err http_failed, c) h = (Sends-refl c 2, h)
  retry_lem cs (err unrecognised, c) h = (Sends-refl c 2, h)
  retry_lem cs (err auth_failed, c) h = (Sends-refl c 2, h)
  retry_lem cs (err search_failed, c) h = (Sends-refl c 2, h)
  retry_lem cs (ok a, c) h = (Sends-refl c 2, h)

  query_ensured_lem :
      (cs : Text) (r : Result Text × Client)
      → HasSession r
      → Sends r.1 3 (query_ensured reply clock cs r).1
        × Answered cs (query_ensured reply clock cs r)
  unfolding query_ensured
  query_ensured_lem cs (err e, c) h = (Sends-refl c 3, tt)
  query_ensured_lem cs (ok id, c) h =
      let (sends, answered) = query_once_lem id cs c h in
      let (more, answered') = retry_lem cs (query_once reply clock id cs c) answered in
      (
        Sends-trans c (query_once reply clock id cs c).1
            (retry reply clock cs (query_once reply clock id cs c)).1 1 2 sends more,
        answered',
      )

  -- Whatever the service replies, a lookup ends after at most four requests, and an answer comes from
  -- the last of them: a query for the call with the session id that the client then has.
  pub lookup-Sends :
      (call : Text) (c : Client)
      → Sends c 4 (lookup reply clock call c).1
        × Answered (to_upper_case (trim call)) (lookup reply clock call c)
  unfolding lookup
  lookup-Sends call c = elim (Bool-cases (is_empty (to_upper_case (trim call)))) [
    | inl e ↦ rw (e, lookup) (Sends-refl c 4, tt)
    | inr e ↦
        let cs = to_upper_case (trim call) in
        let (sends, has) = ensure_session-cases c in
        let (more, answered) = query_ensured_lem cs (ensure_session reply clock c) has in
        rw (e, lookup)
          (
            Sends-trans c (ensure_session reply clock c).1
                (query_ensured reply clock cs (ensure_session reply clock c)).1 1 3 sends more,
            answered,
          )
  ]

  ensure_session-current :
      (c : Client) (id : Text)
      → c.session_id ≡ some id
      → is_current reply clock c ≡ true
      → ensure_session reply clock c ≡ (ok id, c)
  unfolding ensure_session
  ensure_session-current c id have current = ground (arith, have, current)

  -- When the service calls a current session dead, the client takes a new one and asks once more, and
  -- that second reply is the result, also when it calls the new session dead.
  pub lookup_retries :
      (call id id' : Text) (c c1 c2 : Client)
      → is_empty (to_upper_case (trim call)) ≡ false
      → c.session_id ≡ some id
      → is_current reply clock c ≡ true
      → query_once reply clock id (to_upper_case (trim call)) c ≡ (err session_died, c1)
      → authenticate reply clock c1 ≡ (ok id', c2)
      → lookup reply clock call c ≡ query_once reply clock id' (to_upper_case (trim call)) c2
  unfolding lookup query_ensured retry query_with
  lookup_retries call id id' c c1 c2 given have current died renewed =
      let cs = to_upper_case (trim call) in
      let ensured : ensure_session reply clock c ≡ (ok id, c) =
        ensure_session-current c id have current in
      rw given (
        ap (query_ensured reply clock cs) ensured
        ∙ ap (retry reply clock cs) died
        ∙ ap (query_with reply clock cs) renewed)
