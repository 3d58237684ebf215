-- ===== src/Ua/AuthTransaction/Rounds.antt =====
-- How many rounds the loop of auth_transaction.cc takes.
use sippet.Base.{
  ℕ, suc, ◌+◌, arith, ◌∷◌, ◌≡◌, refl, ap, ◌∙◌, Bool, true, false, not, Option, some, if◌then◌else◌,
  NetResult, ok, is_ok, is_pending, error, unsupported_auth_scheme, Bool-cases, inl, inr,
}
use sippet.Ua.AuthTransaction.{
  State, none_state, handle_auth_challenge, handle_auth_challenge_complete, get_credentials,
  get_credentials_complete, add_authorization_headers, add_authorization_headers_complete, Answers,
  Transaction, challenged, reset_auth, at, goes_on, round, do_loop,
}

-- The rounds that are left from a state, the last one included.
abbrev pub rounds : State → ℕ
rounds none_state = 1
rounds add_authorization_headers_complete = 1
rounds add_authorization_headers = 2
rounds get_credentials_complete = 3
rounds get_credentials = 4
rounds handle_auth_challenge_complete = 5
rounds handle_auth_challenge = 6

-- The loop ends within `n` rounds: with any fuel from there on it returns the same result, which
-- waits for an answer or leaves the transaction with no next state.
pub Ends : ℕ → Answers → NetResult → Transaction → Type 0
Ends n a rv t =
    (r : NetResult × Transaction) × ((k : ℕ) → do_loop (n + k) a rv t ≡ some r)
    × (goes_on r ≡ false)

module _ (a : Answers) where
  by_round :
      (n k : ℕ) (rv : NetResult) (t : Transaction)
      → let r = round a rv t in
        do_loop (suc n + k) a rv t ≡ (if goes_on r then do_loop (n + k) a r.0 r.1 else some r)
  unfolding do_loop
  by_round n k rv t =
      let more : suc n + k ≡ suc (n + k) = omega arith in ap (λ i. do_loop i a rv t) more

  -- A round that stops the loop.
  stops :
      (n : ℕ) (rv : NetResult) (t : Transaction)
      → goes_on (round a rv t) ≡ false
      → Ends (suc n) a rv t
  unfolding Ends
  stops n rv t h = (round a rv t, (λ k. by_round n k rv t ∙ branch _ h), h)
    where
      branch :
          {b : Bool} (o : Option (NetResult × Transaction))
          → b ≡ false
          → (if b then o else some (round a rv t)) ≡ some (round a rv t)
      branch {b} o e = ap (λ c. if c then o else some (round a rv t)) e

  goes :
      (n : ℕ) (rv : NetResult) (t : Transaction)
      → goes_on (round a rv t) ≡ true
      → Ends n a (round a rv t).0 (round a rv t).1
      → Ends (suc n) a rv t
  unfolding Ends
  goes n rv t h (r, returns, over) = (r, (λ k. by_round n k rv t ∙ branch h ∙ returns k), over)
    where
      branch :
          {b : Bool} {o : Option (NetResult × Transaction)}
          → b ≡ true
          → (if b then o else some (round a rv t)) ≡ o
      branch {b} {o} e = ap (λ c. if c then o else some (round a rv t)) e

  -- A round, and then the rest of the loop.
  one_round :
      (n : ℕ) (rv : NetResult) (t : Transaction)
      → Ends n a (round a rv t).0 (round a rv t).1
      → Ends (suc n) a rv t
  one_round n rv t h = elim (Bool-cases (goes_on (round a rv t))) [
    | inl b ↦ goes n rv t b h
    | inr b ↦ stops n rv t b
  ]

  from_none : (n : ℕ) (rv : NetResult) (t : Transaction) → Ends (suc n) a rv (at none_state t)
  from_none n rv t = stops n rv (at none_state t) refl

  -- After the last state the loop ends, whatever the result.
  from_last :
      (rv : NetResult) (t : Transaction) → Ends 1 a rv (at add_authorization_headers_complete t)
  from_last rv t =
      stops 0 rv (at add_authorization_headers_complete t)
        (elim (Bool-cases (is_pending rv)) [ inl p ↦ rw p refl | inr f ↦ rw f refl ])

  from_add : (rv : NetResult) (t : Transaction) → Ends 2 a rv (at add_authorization_headers t)
  from_add rv t =
      let r = round a rv (at add_authorization_headers t) in
      one_round 1 rv (at add_authorization_headers t) (from_last r.0 r.1)

  from_given : (rv : NetResult) (t : Transaction) → Ends 3 a rv (at get_credentials_complete t)
  from_given rv t = one_round 2 rv (at get_credentials_complete t) (go (is_ok rv))
    where
      next : Bool → NetResult × Transaction
      next b =
          if b
          then (
            ok,
            record (at none_state t) {
              next_state = add_authorization_headers;
              calls = reset_auth ∷ t.calls;
            },
          )
          else (rv, at none_state t)

      go : (b : Bool) → Ends 2 a (next b).0 (next b).1
      go true = from_add ok (record t { calls = reset_auth ∷ t.calls })
      go false = from_none 1 rv t

  from_get : (rv : NetResult) (t : Transaction) → Ends 4 a rv (at get_credentials t)
  from_get rv t =
      let r = round a rv (at get_credentials t) in
      one_round 3 rv (at get_credentials t) (from_given r.0 r.1)

  -- More rounds do no harm.
  more : (m n : ℕ) (rv : NetResult) (t : Transaction) → Ends n a rv t → Ends (n + m) a rv t
  unfolding Ends
  more m n rv t (r, returns, over) =
      (r, (λ k. ap (λ i. do_loop i a rv t) (omega arith) ∙ returns (m + k)), over)

  from_challenged :
      (rv : NetResult) (t : Transaction) → Ends 5 a rv (at handle_auth_challenge_complete t)
  from_challenged rv t =
      one_round 4 rv (at handle_auth_challenge_complete t) (go a.has_handler a.has_auth_info)
    where
      next : Bool → Bool → NetResult × Transaction
      next h i =
          if not h
          then (error unsupported_auth_scheme, at none_state t)
          else (ok, at (if i then get_credentials else add_authorization_headers) (at none_state t))

      go : (h i : Bool) → Ends 4 a (next h i).0 (next h i).1
      go false i = from_none 3 (error unsupported_auth_scheme) t
      go true true = from_get ok t
      go true false = more 2 2 ok (at add_authorization_headers t) (from_add ok t)

-- The loop ends, and needs no more rounds than are left from its state, six at most: whatever the
-- controller and the password handler answer, it returns with that fuel, any more fuel gives the same
-- result, and that result is pending or leaves no next state.
pub do_loop_ends :
    (a : Answers) (rv : NetResult) (t : Transaction)
    → (r : NetResult × Transaction) × ((k : ℕ) → do_loop (rounds t.next_state + k) a rv t ≡ some r)
      × (goes_on r ≡ false)
unfolding Ends
do_loop_ends a rv t = go t.next_state
  where
    go : (st : State) → Ends (rounds st) a rv (at st t)
    go none_state = from_none a 0 rv t
    go add_authorization_headers_complete = from_last a rv t
    go add_authorization_headers = from_add a rv t
    go get_credentials_complete = from_given a rv t
    go get_credentials = from_get a rv t
    go handle_auth_challenge_complete = from_challenged a rv t
    go handle_auth_challenge =
        one_round a 5 rv (at handle_auth_challenge t)
          (from_challenged a a.challenge (record t { calls = challenged ∷ t.calls }))
