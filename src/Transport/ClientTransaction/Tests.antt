-- ===== src/Transport/ClientTransaction/Tests.antt =====
-- Runs of client_transaction_impl.cc.
use sippet.Base.{◌≡◌, refl, none, some, false, arith, codes, [], ◌∷◌, ◌++◌}
use sippet.Message.Method.{invite}
use sippet.Message.Request.{outgoing}
use sippet.Message.Samples.{sample_request, sample_response}
use sippet.Transport.TimeDelta.{client_invite, get_next_retry_delay, get_timeout_delay}
use sippet.Transport.ClientTransaction.{
  Client, invite_mode, calling, completed, start, handle_incoming_response, incoming_response,
  referring,
}
use sippet.Transport.ClientTransaction.Invariant.{
  Inv, Reach, here, next, respond, settle, client-Inv,
}
use sippet.Transport.ClientTransaction.Reports.{Reported, is_final, client-Reported}
use sippet.Transport.ClientTransaction.Handling.{machine_next, ack_output, end_output, handle_open}

-- An INVITE on a datagram channel, and the same, completed.
abbrev calling_client : Client
calling_client = record {
  mode = invite_mode;
  next_state = calling;
  is_stream = false;
  initial_request = sample_request outgoing invite;
  generated_ack = none;
  retry_timer = some 500;
  timed_out_timer = some 32_000;
  terminate_timer = none;
  provider = client_invite 2;
  log = [];
}

abbrev completed_client : Client
completed_client = record calling_client { next_state = completed; terminate_timer = some 35_000 }

calling_client_started : start false (sample_request outgoing invite) ≡ calling_client
unfolding start get_next_retry_delay get_timeout_delay
calling_client_started = refl

answered : Reach (start false (sample_request outgoing invite)) (
    settle (
      handle_incoming_response
        (sample_response 200 invite)
        (codes "g2")
        (start false (sample_request outgoing invite))))
unfolding start
answered = next here (respond _ (sample_response 200 invite) (codes "g2") (λ e. cc))

client-Inv_example : Inv (
    settle (
      handle_incoming_response
        (sample_response 200 invite)
        (codes "g2")
        (start false (sample_request outgoing invite))))
client-Inv_example = client-Inv false (sample_request outgoing invite) answered

client-Reported_example : Reported (
    settle (
      handle_incoming_response
        (sample_response 200 invite)
        (codes "g2")
        (start false (sample_request outgoing invite))))
client-Reported_example = client-Reported false (sample_request outgoing invite) answered

calling_client-Inv : Inv calling_client
calling_client-Inv = ground arith

handle_open_example :
    let response = sample_response 486 invite in
    let t = handle_incoming_response response (codes "g2") calling_client in
    (t.next_state ≡ machine_next calling_client (is_final response))
    × (t.log
        ≡ end_output calling_client (is_final response)
          ++ (incoming_response (referring calling_client response)
              ∷ (ack_output calling_client response (codes "g2") ++ [])))
    × (t.retry_timer ≡ none)
handle_open_example =
    handle_open calling_client (sample_response 486 invite) (codes "g2") calling_client-Inv refl
