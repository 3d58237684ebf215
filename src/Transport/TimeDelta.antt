-- ===== src/Transport/TimeDelta.antt =====
-- sippet/transport/time_delta_factory.cc: the timers' delays, in milliseconds.
-- An int counter is its 32-bit pattern. A product that leaves the range of an int is a negative delay in
-- the code; here it stays the natural number of its pattern.
pub mod Backoff
mod Tests
use sippet.Base.{ℕ, ◌+◌, ◌*◌, ◌%◌, ◌^◌, ◌==◌, if◌then◌else◌}

-- The four subclasses of TimeDeltaProvider, each with its counter.
pub data Provider : Type 0 where
  client_non_invite : ℕ → Provider
  client_invite : ℕ → Provider
  server_non_invite : Provider
  server_invite : ℕ → Provider

-- `switch (count_++)`
pub backoff : ℕ → ℕ
backoff count =
    if count == 0 then 500 else if count == 1 then 1000 else if count == 2 then 2000 else 4000

abbrev int_mod : ℕ
int_mod = 2 ^ 32

-- GetNextRetryDelay: the delay, and the provider with its counter moved on.
unfoldable pub get_next_retry_delay : Provider → ℕ × Provider
unfolding backoff
get_next_retry_delay (client_non_invite count) =
    (backoff count, client_non_invite ((count + 1) % int_mod))
get_next_retry_delay (client_invite multiply) =
    ((multiply * 500) % int_mod, client_invite ((multiply * 2) % int_mod))
get_next_retry_delay server_non_invite = (0, server_non_invite)
get_next_retry_delay (server_invite count) = (backoff count, server_invite ((count + 1) % int_mod))

unfoldable pub get_timeout_delay : Provider → ℕ
get_timeout_delay (client_non_invite _) = 32_000
get_timeout_delay (client_invite _) = 32_000
get_timeout_delay server_non_invite = 0
get_timeout_delay (server_invite _) = 32_000

unfoldable pub get_terminate_delay : Provider → ℕ
get_terminate_delay (client_non_invite _) = 5_000
get_terminate_delay (client_invite _) = 35_000
get_terminate_delay server_non_invite = 32_000
get_terminate_delay (server_invite _) = 5_000

-- DefaultTimeDeltaFactory
abbrev pub create_client_non_invite : Provider
create_client_non_invite = client_non_invite 0

abbrev pub create_client_invite : Provider
create_client_invite = client_invite 1

abbrev pub create_server_non_invite : Provider
create_server_non_invite = server_non_invite

abbrev pub create_server_invite : Provider
create_server_invite = server_invite 0
