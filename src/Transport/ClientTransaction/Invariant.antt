-- ===== src/Transport/ClientTransaction/Invariant.antt =====
-- The steps of a client transaction under the network layer, and its timers.
use sippet.Base.{
  ◌≡◌, ◌≢◌, ◌⊎◌, Bool, true, false, none, is_some, arith, if◌then◌else◌, Text, NetResult,
}
use sippet.Message.Request.{Request, Response}
use sippet.Transport.ClientTransaction.{
  Mode, State, Client, normal_mode, invite_mode, calling, trying, proceeding, proceed_calling,
  completed, terminated, same_state, start, handle_incoming_response, close, on_write,
  on_retransmit, on_timed_out, on_terminated,
}

-- The delegate answers OnTransactionTerminated by closing the transaction, before anything else
-- happens (NetworkLayer::DestroyClientTransaction).
unfoldable pub settle : Client → Client
unfolding close
settle s = if same_state s.next_state terminated then close s else s

-- A timer fires only while it runs; a terminated transaction gets no further calls.
pub data Step : Client → Client → Type 0 where
  respond :
      (s : Client) (response : Response) (guid : Text)
      → s.next_state ≢ terminated
      → Step s (settle (handle_incoming_response response guid s))
  retransmit :
      (s : Client) (result : NetResult)
      → is_some s.retry_timer ≡ true
      → Step s (settle (on_retransmit result s))
  time_out : (s : Client) → is_some s.timed_out_timer ≡ true → Step s (settle (on_timed_out s))
  expire : (s : Client) → is_some s.terminate_timer ≡ true → Step s (settle (on_terminated s))
  written :
      (s : Client) (result : NetResult)
      → s.next_state ≢ terminated
      → Step s (settle (on_write result s))

pub data Reach (s : Client) : Client → Type 0 where
  here : Reach s s
  next : {t u : Client} → Reach s t → Step t u → Reach s u

-- The states of each mode.
abbrev pub fits : Mode → State → Bool
fits invite_mode trying = false
fits invite_mode proceeding = false
fits normal_mode calling = false
fits normal_mode proceed_calling = false
fits _ _ = true

pub record Inv (s : Client) : Type 0 where
  pub state_fits : fits s.mode s.next_state ≡ true
  -- nothing runs once the transaction is over
  pub stopped :
      s.next_state ≡ terminated
      → (s.retry_timer ≡ none) × (s.timed_out_timer ≡ none) × (s.terminate_timer ≡ none)
  pub lingers :
      is_some s.terminate_timer ≡ true → (s.next_state ≡ completed) × (s.is_stream ≡ false)
  pub live :
      s.next_state ≢ terminated
      → s.next_state ≢ proceed_calling
      → (is_some s.timed_out_timer ≡ true) ⊎ (is_some s.terminate_timer ≡ true)

pub start-Inv : (is_stream : Bool) (request : Request) → Inv (start is_stream request)
unfolding start
start-Inv is_stream request = ground arith

timed_out-Inv : (s : Client) → Inv s → Inv (settle (on_timed_out s))
unfolding settle on_timed_out
timed_out-Inv s v = ground arith

terminated-Inv : (s : Client) → Inv s → Inv (settle (on_terminated s))
unfolding settle on_terminated
terminated-Inv s v = ground arith

retransmit-Inv :
    (s : Client) (result : NetResult)
    → is_some s.retry_timer ≡ true
    → Inv s
    → Inv (settle (on_retransmit result s))
unfolding settle on_retransmit
retransmit-Inv s result h v = ground arith

respond-Inv :
    (s : Client) (response : Response) (guid : Text)
    → s.next_state ≢ terminated
    → Inv s
    → Inv (settle (handle_incoming_response response guid s))
unfolding settle handle_incoming_response
respond-Inv s response guid h v = ground arith

written-Inv :
    (s : Client) (result : NetResult)
    → s.next_state ≢ terminated
    → Inv s
    → Inv (settle (on_write result s))
unfolding settle on_write
written-Inv s result h v = ground arith

-- One step keeps the invariant.
pub Step-Inv : {s t : Client} → Step s t → Inv s → Inv t
Step-Inv (respond s response guid h) v = respond-Inv s response guid h v
Step-Inv (retransmit s result h) v = retransmit-Inv s result h v
Step-Inv (time_out s h) v = timed_out-Inv s v
Step-Inv (expire s h) v = terminated-Inv s v
Step-Inv (written s result h) v = written-Inv s result h v

Reach-Inv : {s t : Client} → Reach s t → Inv s → Inv t
Reach-Inv here v = v
Reach-Inv (next r st) v = Step-Inv st (Reach-Inv r v)

-- The timers of a client transaction, whatever its peer, its timers and its channel do from the
-- start on: once terminated it has no timer running; the terminate timer runs only while it is
-- completed on a datagram channel; and unless it is terminated, or an INVITE with a provisional
-- response, a timer that ends it is running.
pub client-Inv :
    (is_stream : Bool) (request : Request) {s : Client} → Reach (start is_stream request) s → Inv s
client-Inv is_stream request r = Reach-Inv r (start-Inv is_stream request)
