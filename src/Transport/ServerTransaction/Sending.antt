-- ===== src/Transport/ServerTransaction/Sending.antt =====
-- Responses sent through server_transaction_impl.cc, against the server state machines.
use sippet.Base.{
  ℕ, ◌/◌, ◌≡◌, ◌≢◌, true, false, ◌&&◌, ◌||◌, not, [], ◌∷◌, none, some, is_some, arith, ◌==◌,
  if◌then◌else◌, Text, NetResult, is_ok, is_pending, ok, pending,
}
use sippet.Message.Method.{ack, is_method}
use sippet.Message.Request.{Request, Response, create_response}
use sippet.Transport.ServerTransaction.{
  State, Server, invite_mode, proceeding, proceed_calling, completed, confirmed, terminated,
  same_state, ignores, is_invite, send, handle_incoming_request, on_send_provisional_response,
  sends, transport_error, transaction_terminated,
}
use sippet.Transport.ServerTransaction.Invariant.{Inv}

-- RFC 3261, figures 7 and 8, on the class of the response: a provisional one leaves the
-- transaction proceeding; a 2xx to an INVITE terminates it; any other final one completes it, and
-- over a reliable transport that ends a non-INVITE transaction.
abbrev pub machine_next : Server → ℕ → State
machine_next s class =
    if is_invite s.mode
    then if class == 1 then proceed_calling else if class == 2 then terminated else completed
    else if class == 1
    then proceeding
    else if s.is_stream
    then terminated
    else completed

-- A response is sent while no final response was: it is kept as the latest one and written once,
-- and the timer for the automatic 100 is off. If its write succeeds at once, the state moves as in
-- the RFC's figures, and the transaction reports its end exactly when it is then terminated; if the
-- write is left pending or fails, the state stays, and only a failure is reported, as a transport
-- error. An INVITE that is then completed runs its timeout, and its retry timer on a datagram
-- channel.
pub send_lem :
    (s : Server) (response : Response) (result : NetResult) {n : ℕ}
    → Inv s n
    → ignores s.next_state ≡ false
    → let moved = machine_next s (response.response_code / 100) in
      let t = send response result s in
      (t.next_state ≡ (if is_ok result then moved else s.next_state))
      × (t.latest_response ≡ some response)
      × (t.log ≡ (
          if is_ok result
          then if same_state moved terminated
            then transaction_terminated ∷ sends (some response) ∷ s.log
            else sends (some response) ∷ s.log
          else if is_pending result
          then sends (some response) ∷ s.log
          else transport_error s.initial_request result ∷ sends (some response) ∷ s.log))
      × (s.mode ≡ invite_mode → t.provisional_timer ≡ none)
      × (s.mode ≡ invite_mode
          → t.next_state ≡ completed
          → (is_some t.timed_out_timer ≡ true)
            × (s.is_stream ≡ false → is_some t.retry_timer ≡ true))
unfolding send
send_lem s response result v unsent = ground arith

-- A write that fails reports the transport error, and the state stays.
pub send_fails :
    (s : Server) (response : Response) (result : NetResult)
    → ignores s.next_state ≡ false
    → is_ok result ≡ false
    → is_pending result ≡ false
    → let t = send response result s in
      (t.next_state ≡ s.next_state)
      × (t.log ≡ transport_error s.initial_request result ∷ sends (some response) ∷ s.log)
unfolding send
send_fails s response result unsent bad done = ground arith

-- While the write of a response is pending, the guard against a second final response does not
-- hold it back: both are written, whatever their codes.
pub two_sends_pending :
    (s : Server) (first second : Response)
    → ignores s.next_state ≡ false
    → (send second pending (send first pending s)).log
      ≡ sends (some second) ∷ sends (some first) ∷ s.log
unfolding send
two_sends_pending s first second unsent = ground arith

-- The automatic 100 (Trying) is reported to the delegate as a transport error whenever its write
-- does not stay pending, a good write included.
pub provisional_reports_error :
    (s : Server) (reason : Text) (delay : ℕ) (result : NetResult)
    → is_pending result ≡ false
    → (on_send_provisional_response reason delay result s).log
      ≡ transport_error s.initial_request result
        ∷ sends (create_response s.initial_request 100 reason delay [])
        ∷ s.log
unfolding on_send_provisional_response
provisional_reports_error s reason delay result done = ground arith

-- A request that comes again: before any response was sent to an INVITE, and while proceeding, the
-- latest response is sent, a null one where there is none yet; a completed transaction sends it
-- again for all but an ACK; the ACK confirms it, stops every timer but the terminate timer, which
-- runs on a datagram channel, and over a stream ends the transaction. All else changes nothing.
pub request_again :
    (s : Server) (request : Request)
    → s.next_state ≢ terminated
    → let t = handle_incoming_request request ok s in
      (t.next_state ≡ (
        if same_state s.next_state completed && is_method ack request.method
        then if s.is_stream then terminated else confirmed
        else s.next_state))
      × (t.log ≡ (
          if same_state s.next_state proceeding || same_state s.next_state proceed_calling
          then sends s.latest_response ∷ s.log
          else if same_state s.next_state completed
          then if is_method ack request.method
            then if s.is_stream then transaction_terminated ∷ s.log else s.log
            else sends s.latest_response ∷ s.log
          else s.log))
      × (same_state s.next_state completed && is_method ack request.method ≡ true
          → (t.retry_timer ≡ none)
            × (t.timed_out_timer ≡ none)
            × (is_some t.terminate_timer ≡ not s.is_stream))
unfolding handle_incoming_request
request_again s request on = ground arith
