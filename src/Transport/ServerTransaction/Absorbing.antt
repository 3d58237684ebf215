-- ===== src/Transport/ServerTransaction/Absorbing.antt =====
-- Retransmissions of a request that was not answered yet.
use sippet.Base.{◌≡◌, refl, Bool, false, List, [], ◌∷◌, none, arith, NetResult}
use sippet.Message.Method.{invite, is_method}
use sippet.Message.Request.{Request}
use sippet.Transport.ServerTransaction.{Server, trying, start, handle_incoming_request}

-- HandleIncomingRequest for a list of requests, each with the result of a write.
pub handle_all : Server → List (Request × NetResult) → Server
handle_all s [] = s
handle_all s ((request, result) ∷ rest) = handle_all (handle_incoming_request request result s) rest

trying_ignores :
    (s : Server) (request : Request) (result : NetResult)
    → s.next_state ≡ trying
    → handle_incoming_request request result s ≡ s
unfolding handle_incoming_request
trying_ignores s request result e = ground arith

handle_all-trying :
    (s : Server) (requests : List (Request × NetResult))
    → s.next_state ≡ trying
    → handle_all s requests ≡ s
unfolding handle_all
handle_all-trying s [] e = refl
handle_all-trying s ((request, result) ∷ rest) e =
    rw (trying_ignores s request result e) (handle_all-trying s rest e)

starts_idle :
    (is_stream : Bool) (request : Request)
    → is_method invite request.method ≡ false
    → let s = start is_stream request in
      (s.next_state ≡ trying)
      × ((s.retry_timer ≡ none)
          × (s.timed_out_timer ≡ none)
          × (s.terminate_timer ≡ none)
          × (s.provisional_timer ≡ none))
unfolding start
starts_idle is_stream request e = ground arith

-- A transaction that another request than an INVITE started takes in any number of further
-- requests with no effect at all until a response is sent: it stays in "trying", and has no timer
-- running, so that it does not end by itself either. This holds for an ACK too, to which no
-- response is ever sent.
pub trying_absorbs :
    (is_stream : Bool) (request : Request) (requests : List (Request × NetResult))
    → is_method invite request.method ≡ false
    → let s = handle_all (start is_stream request) requests in
      (s ≡ start is_stream request)
      × (s.next_state ≡ trying)
      × (s.retry_timer ≡ none)
      × (s.timed_out_timer ≡ none)
      × (s.terminate_timer ≡ none)
      × (s.provisional_timer ≡ none)
trying_absorbs is_stream request requests e =
    let (start_trying, timers) = starts_idle is_stream request e in
    rw (handle_all-trying (start is_stream request) requests start_trying)
      (refl, start_trying, timers.0, timers.1, timers.2, timers.3)
