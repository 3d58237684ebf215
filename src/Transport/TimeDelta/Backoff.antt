-- ===== src/Transport/TimeDelta/Backoff.antt =====
-- The retry schedule that the providers of time_delta_factory.cc give.
use native.Mathlib.Nat.{pow-suc, mod-eq_of_lt, zero-add}
use sippet.Base.{ℕ, zero, suc, ◌+◌, ◌-◌, ◌*◌, ◌^◌, ◌≤◌, ◌<◌, ◌≡◌, ◌↔◌, refl, ap, ◌∙◌, min, arith}
use sippet.Transport.TimeDelta.{
  Provider, client_non_invite, client_invite, server_invite, backoff, get_next_retry_delay,
  get_timeout_delay, create_client_non_invite, create_client_invite, create_server_invite,
}

-- The provider after `n` calls.
pub after : ℕ → Provider → Provider
after zero p = p
after (suc n) p = after n (get_next_retry_delay p).1

-- The time from the start to the firing of the `n`-th retry.
pub elapsed : ℕ → Provider → ℕ
elapsed zero p = 0
elapsed (suc n) p = (get_next_retry_delay p).0 + elapsed n (get_next_retry_delay p).1

elapsed_mono : (m n : ℕ) (p : Provider) → m ≤ n → elapsed m p ≤ elapsed n p
unfolding elapsed
elapsed_mono zero n p h = omega arith
elapsed_mono (suc m) zero p h = elim h [ ]
elapsed_mono (suc m) (suc n) p h =
    omega (arith, elapsed_mono m n (get_next_retry_delay p).1 (omega arith))

power_pos : (n : ℕ) → 1 ≤ 2 ^ n
power_pos zero = omega arith
power_pos (suc n) = rw (pow-suc 2 n) (omega (arith, power_pos n))

-- `m ≤ m * 2 ^ n`, for the bounds of the doubling counter.
scaled_le : (m n : ℕ) → m ≤ m * 2 ^ n
scaled_le m n = let h = power_pos n in grind arith

doubled : (m n : ℕ) → m * 2 * 2 ^ n ≡ m * 2 ^ suc n
doubled m n = rw (pow-suc 2 n) (omega arith)

-- Below the modulus the counter of ClientInvite doubles with each call.
pub after-client_invite :
    (n m : ℕ) → m * 2 ^ n < 2 ^ 32 → after n (client_invite m) ≡ client_invite (m * 2 ^ n)
unfolding after get_next_retry_delay
after-client_invite zero m h = ap client_invite (omega arith)
after-client_invite (suc n) m h =
    let small : m * 2 < 2 ^ 32 = omega (arith, doubled m n, scaled_le (m * 2) n) in
    rw (mod-eq_of_lt small)
      (after-client_invite n (m * 2) (omega (arith, doubled m n)) ∙ ap client_invite (doubled m n))

elapsed-client_invite :
    (n m : ℕ)
    → 500 * (m * 2 ^ n) < 2 ^ 31
    → elapsed n (client_invite m) + 500 * m ≡ 500 * (m * 2 ^ n)
unfolding elapsed get_next_retry_delay
elapsed-client_invite zero m h = omega arith
elapsed-client_invite (suc n) m h =
    let small : m * 2 < 2 ^ 32 = omega (arith, doubled m n, scaled_le (m * 2) n) in
    let product : m * 500 < 2 ^ 32 = omega (arith, doubled m n, scaled_le (m * 2) n) in
    rw (mod-eq_of_lt small, mod-eq_of_lt product)
      (omega (arith, elapsed-client_invite n (m * 2) (omega (arith, doubled m n)), doubled m n))

-- The INVITE schedule: while the products stay in the range of an int, retry `n` of a new INVITE
-- fires `500 * (2 ^ n - 1)` milliseconds after the start, and the counter is then `2 ^ n`.
pub invite_schedule :
    (n : ℕ)
    → 500 * 2 ^ n < 2 ^ 31
    → (elapsed n create_client_invite ≡ 500 * 2 ^ n - 500)
      × (after n create_client_invite ≡ client_invite (2 ^ n))
invite_schedule n h = (
  omega (arith, elapsed-client_invite n 1 (omega arith)),
  after-client_invite n 1 (omega arith) ∙ ap client_invite (omega arith),
)

backoff-min : (n : ℕ) → backoff n ≡ min (500 * 2 ^ n) 4_000
unfolding backoff
backoff-min zero = refl
backoff-min (suc zero) = refl
backoff-min (suc (suc zero)) = refl
backoff-min (suc (suc (suc n))) =
    rw (pow-suc 2 (suc (suc n)), pow-suc 2 (suc n), pow-suc 2 n) (ground (arith, power_pos n))

after-client_non_invite :
    (n c : ℕ) → c + n < 2 ^ 32 → after n (client_non_invite c) ≡ client_non_invite (c + n)
unfolding after get_next_retry_delay
after-client_non_invite zero c h = ap client_non_invite (omega arith)
after-client_non_invite (suc n) c h =
    let small : c + 1 < 2 ^ 32 = omega arith in
    rw (mod-eq_of_lt small)
      (after-client_non_invite n (c + 1) (omega arith) ∙ ap client_non_invite (omega arith))

after-server_invite : (n c : ℕ) → c + n < 2 ^ 32 → after n (server_invite c) ≡ server_invite (c + n)
unfolding after get_next_retry_delay
after-server_invite zero c h = ap server_invite (omega arith)
after-server_invite (suc n) c h =
    let small : c + 1 < 2 ^ 32 = omega arith in
    rw (mod-eq_of_lt small)
      (after-server_invite n (c + 1) (omega arith) ∙ ap server_invite (omega arith))

abbrev pub nth_delay : ℕ → Provider → ℕ
nth_delay n p = (get_next_retry_delay (after n p)).0

-- The capped backoff: for the first 2 ^ 32 calls, delay `n` (from 0) of a non-INVITE client
-- transaction and of an INVITE server transaction is T1 doubled `n` times, but T2 at most
-- (T1 is 500 ms, T2 is 4 s).
pub capped_backoff :
    (n : ℕ)
    → n < 2 ^ 32
    → (nth_delay n create_client_non_invite ≡ min (500 * 2 ^ n) 4_000)
      × (nth_delay n create_server_invite ≡ min (500 * 2 ^ n) 4_000)
unfolding get_next_retry_delay
capped_backoff n h = (
  rw (after-client_non_invite n 0 (omega arith), nth_delay) (rw zero-add (backoff-min n)),
  rw (after-server_invite n 0 (omega arith), nth_delay) (rw zero-add (backoff-min n)),
)

-- How often a request is sent again before the timeout: retry `n` fires before the timeout exactly
-- when `n ≤ 6` for an INVITE, and exactly when `n ≤ 10` for any other request.
pub retries_before_timeout :
    (n : ℕ)
    → ((elapsed n create_client_invite < get_timeout_delay create_client_invite) ↔ (n ≤ 6))
      × ((elapsed n create_client_non_invite < get_timeout_delay create_client_non_invite)
          ↔ (n ≤ 10))
unfolding elapsed get_next_retry_delay get_timeout_delay
retries_before_timeout n = (
  (
    λ h. ground (arith, elapsed_mono 7 n create_client_invite),
    λ h. omega (arith, elapsed_mono n 6 create_client_invite h),
  ),
  (
    λ h. ground (arith, elapsed_mono 11 n create_client_non_invite),
    λ h. omega (arith, elapsed_mono n 10 create_client_non_invite h),
  ),
)
