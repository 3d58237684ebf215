-- ===== src/Transport/ServerTransaction/Tests.antt =====
-- Runs of server_transaction_impl.cc.
use sippet.Base.{
  ◌/◌, ◌≡◌, refl, none, some, true, false, is_some, arith, [], ◌∷◌, ok, pending, ◌&&◌,
}
use sippet.Message.Method.{invite, ack}
use sippet.Message.Request.{incoming}
use sippet.Message.Samples.{sample_request, sample_response}
use sippet.Transport.TimeDelta.{server_invite}
use sippet.Transport.ServerTransaction.{
  Server, invite_mode, proceed_calling, completed, confirmed, same_state, start, send, sends,
  handle_incoming_request, on_timed_out, on_repeat_response_write_complete,
}
use sippet.Transport.ServerTransaction.Invariant.{Inv, terminations, settle}
use sippet.Transport.ServerTransaction.Sending.{machine_next, send_lem, request_again}

-- An INVITE on a datagram channel, and the same after a final response.
abbrev ringing : Server
ringing = record {
  mode = invite_mode;
  next_state = proceed_calling;
  is_stream = false;
  initial_request = sample_request incoming invite;
  latest_response = none;
  retry_timer = none;
  timed_out_timer = none;
  terminate_timer = none;
  provisional_timer = some 200;
  provider = server_invite 0;
  log = [];
}

abbrev refused : Server
refused = record ringing {
  next_state = completed;
  latest_response = some (sample_response 486 invite);
  retry_timer = some 500;
  timed_out_timer = some 32_000;
  provisional_timer = none;
}

ringing_started : start false (sample_request incoming invite) ≡ ringing
unfolding start
ringing_started = refl

ringing-Inv : Inv ringing 0
ringing-Inv = ground arith

-- A 486, its repetition to a second INVITE that is left pending, the timeout, and then the end of
-- that write.
abbrev answered : Server
unfolding start settle send
answered = send (sample_response 486 invite) ok (start false (sample_request incoming invite))

abbrev repeating : Server
unfolding answered handle_incoming_request
repeating = handle_incoming_request (sample_request incoming invite) pending answered

abbrev gone : Server
gone = settle (on_timed_out repeating)

-- That write reports the end of the transaction a second time.
two_ends :
    terminations (on_repeat_response_write_complete (sample_request incoming invite) ok gone).log
    ≡ 2
unfolding start settle send handle_incoming_request on_timed_out on_repeat_response_write_complete
two_ends = refl

send_lem_example :
    let response = sample_response 486 invite in
    let t = send response ok ringing in
    (t.next_state ≡ machine_next ringing (486 / 100))
    × (t.latest_response ≡ some response)
    × (t.log ≡ sends (some response) ∷ [])
    × (ringing.mode ≡ invite_mode → t.provisional_timer ≡ none)
    × (ringing.mode ≡ invite_mode
        → t.next_state ≡ completed
        → (is_some t.timed_out_timer ≡ true)
          × (ringing.is_stream ≡ false → is_some t.retry_timer ≡ true))
send_lem_example = send_lem ringing (sample_response 486 invite) ok ringing-Inv refl

request_again_example :
    let t = handle_incoming_request (sample_request incoming ack) ok refused in
    (t.next_state ≡ confirmed)
    × (t.log ≡ [])
    × ((same_state refused.next_state completed && true) ≡ true
        → (t.retry_timer ≡ none) × (t.timed_out_timer ≡ none) × (is_some t.terminate_timer ≡ true))
request_again_example = request_again refused (sample_request incoming ack) (λ e. cc)
