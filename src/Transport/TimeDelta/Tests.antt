-- ===== src/Transport/TimeDelta/Tests.antt =====
-- Runs of the providers of time_delta_factory.cc.
use sippet.Base.{◌<◌, ◌≤◌, ◌≡◌, ◌↔◌, arith}
use sippet.Transport.TimeDelta.{
  client_invite, create_client_invite, create_client_non_invite, create_server_invite,
  get_timeout_delay,
}
use sippet.Transport.TimeDelta.Backoff.{
  after, elapsed, nth_delay, invite_schedule, capped_backoff, retries_before_timeout,
}

invite_schedule_example :
    (elapsed 3 create_client_invite ≡ 3_500) × (after 3 create_client_invite ≡ client_invite 8)
invite_schedule_example = invite_schedule 3 (omega arith)

capped_backoff_example :
    (nth_delay 2 create_client_non_invite ≡ 2_000) × (nth_delay 2 create_server_invite ≡ 2_000)
capped_backoff_example = capped_backoff 2 (omega arith)

retries_before_timeout_example :
    ((elapsed 7 create_client_invite < get_timeout_delay create_client_invite) ↔ (7 ≤ 6))
    × ((elapsed 7 create_client_non_invite < get_timeout_delay create_client_non_invite) ↔ (7 ≤ 10))
retries_before_timeout_example = retries_before_timeout 7
