-- ===== src/Transport/ClientTransaction/Handling.antt =====
-- HandleIncomingResponse of client_transaction_impl.cc against the client state machines.
use sippet.Base.{
  ◌/◌, ◌≡◌, Bool, true, false, ◌&&◌, ◌||◌, List, [], ◌∷◌, ◌++◌, Option, none, some, is_some, arith,
  leb, if◌then◌else◌, Text, pending, ok,
}
use sippet.Message.Header
use sippet.Message.Headers.{get}
use sippet.Message.Request.{Request, Response, or_empty, tag_of, create_ack}
use sippet.Transport.ClientTransaction.{
  State, Output, Client, calling, proceeding, proceed_calling, completed, terminated, is_invite,
  handle_incoming_response, referring, sends_ack, incoming_response, transaction_terminated,
  on_write, sends_request, on_retransmit,
}
use sippet.Transport.TimeDelta.{get_terminate_delay}
use sippet.Transport.ClientTransaction.Invariant.{Inv}
use sippet.Transport.ClientTransaction.Reports.{is_final, is_open}

-- A provisional response moves an open transaction to "proceeding", any other completes it, and over
-- a reliable transport it is then terminated at once. This is RFC 3261, figures 5 and 6, but for a 2xx
-- to an INVITE on a datagram channel: figure 5 terminates the transaction there, and the code, as its
-- comment says, leaves it open on purpose, so that retransmissions still find their request.
abbrev pub machine_next : Client → Bool → State
machine_next s false = if is_invite s.mode then proceed_calling else proceeding
machine_next s true = if s.is_stream then terminated else completed

-- The ACK for a response: the one that was made before, or else a new one.
abbrev pub ack_for : Client → Response → Text → Option Request
ack_for s response guid = elim s.generated_ack [
  | some a ↦ some a
  | none ↦
      (create_ack s.initial_request (or_empty (tag_of (get Header.as_to response.headers))) guid
        none).1
]

abbrev pub ack_output : Client → Response → Text → List Output
ack_output s response guid =
    if is_invite s.mode && leb 3 (response.response_code / 100)
    then sends_ack (ack_for s response guid) ∷ []
    else []

abbrev pub end_output : Client → Bool → List Output
end_output s final = if final && s.is_stream then transaction_terminated ∷ [] else []

-- An open transaction takes a response in: a provisional one leaves it proceeding, and any other, a 2xx
-- to an INVITE included, completes it, or terminates it over a stream; the delegate
-- gets the response once, referring to the request, after an INVITE's ACK for a code of 300 and
-- above, and before the end over a stream. The retry timer stops unless a non-INVITE request got a
-- provisional response.
pub handle_open :
    (s : Client) (response : Response) (guid : Text)
    → Inv s
    → is_open s.next_state ≡ true
    → let t = handle_incoming_response response guid s in
      (t.next_state ≡ machine_next s (is_final response))
      × (t.log
          ≡ end_output s (is_final response)
            ++ (incoming_response (referring s response) ∷ (ack_output s response guid ++ s.log)))
      × (t.retry_timer ≡ (if is_invite s.mode || is_final response then none else s.retry_timer))
unfolding handle_incoming_response
handle_open s response guid v unanswered = ground arith

-- A completed transaction on a datagram channel stays completed, and its terminate timer goes on:
-- an INVITE acknowledges and reports the response once more, any other request drops it.
pub handle_completed :
    (s : Client) (response : Response) (guid : Text)
    → s.next_state ≡ completed
    → s.is_stream ≡ false
    → let t = handle_incoming_response response guid s in
      (t.next_state ≡ completed)
      × (t.terminate_timer ≡ s.terminate_timer)
      × (t.log ≡ (
          if is_invite s.mode
          then incoming_response (referring s response) ∷ (ack_output s response guid ++ s.log)
          else s.log))
unfolding handle_incoming_response
handle_completed s response guid done datagram = ground arith

-- An INVITE that is answered by a final response at once, on a datagram channel, is completed with
-- its timeout still running beside the terminate timer of 35 s.
pub direct_final_keeps_timeout :
    (s : Client) (response : Response) (guid : Text)
    → s.next_state ≡ calling
    → s.is_stream ≡ false
    → is_final response ≡ true
    → let t = handle_incoming_response response guid s in
      (t.next_state ≡ completed)
      × (t.timed_out_timer ≡ s.timed_out_timer)
      × (t.terminate_timer ≡ some (get_terminate_delay s.provider))
unfolding handle_incoming_response
direct_final_keeps_timeout s response guid fresh datagram final = ground arith

-- A write that ends well after the transaction was completed starts the retry timer again, and
-- when that fires the request is sent again.
pub late_write_resends :
    (s : Client)
    → s.next_state ≡ completed
    → let t = on_write ok s in
      (is_some t.retry_timer ≡ true)
      × (t.next_state ≡ completed)
      × ((on_retransmit pending t).log ≡ sends_request s.initial_request ∷ s.log)
unfolding on_retransmit
late_write_resends s done = ground arith
