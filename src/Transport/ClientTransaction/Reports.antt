-- ===== src/Transport/ClientTransaction/Reports.antt =====
-- What a client transaction tells its delegate over its life.
use sippet.Base.{
  ℕ, ◌+◌, ◌/◌, ◌≤◌, ◌≡◌, ◌≢◌, ◌⊎◌, Bool, true, false, not, List, [], ◌∷◌, is_some, arith, ◌==◌,
  if◌then◌else◌, Text, NetResult,
}
use sippet.Message.Request.{Request, Response}
use sippet.Transport.ClientTransaction.{
  State, Output, Client, normal_mode, completed, terminated, same_state, start,
  handle_incoming_response, on_write, on_retransmit, on_timed_out, on_terminated, incoming_response,
  timed_out, transaction_terminated,
}
use sippet.Transport.ClientTransaction.Invariant.{
  settle, Step, respond, retransmit, time_out, expire, written, Reach, here, next, Inv, Step-Inv,
  start-Inv,
}

-- A response that is not provisional.
abbrev pub is_final : Response → Bool
is_final r = not (r.response_code / 100 == 1)

-- How many final responses, timeouts and terminations were reported.
abbrev pub finals : List Output → ℕ
finals [] = 0
finals (incoming_response r ∷ log) = (if is_final r then 1 else 0) + finals log
finals (_ ∷ log) = finals log

abbrev pub timeouts : List Output → ℕ
timeouts [] = 0
timeouts (timed_out _ ∷ log) = 1 + timeouts log
timeouts (_ ∷ log) = timeouts log

abbrev pub terminations : List Output → ℕ
terminations [] = 0
terminations (transaction_terminated ∷ log) = 1 + terminations log
terminations (_ ∷ log) = terminations log

-- No final response was taken in yet.
abbrev pub is_open : State → Bool
is_open completed = false
is_open terminated = false
is_open _ = true

pub record Reported (s : Client) : Type 0 where
  pub open_silent : is_open s.next_state ≡ true → (finals s.log ≡ 0) × (timeouts s.log ≡ 0)
  pub completed_silent : s.next_state ≡ completed → timeouts s.log ≡ 0
  pub one_outcome : (timeouts s.log ≡ 0) ⊎ ((timeouts s.log ≡ 1) × (finals s.log ≡ 0))
  pub one_final : s.mode ≡ normal_mode → finals s.log ≤ 1
  pub ends_once : terminations s.log ≡ (if same_state s.next_state terminated then 1 else 0)

respond-Reported :
    (s : Client) (response : Response) (guid : Text)
    → s.next_state ≢ terminated
    → Inv s
    → Reported s
    → Reported (settle (handle_incoming_response response guid s))
unfolding settle handle_incoming_response
respond-Reported s response guid h v w = ground arith

retransmit-Reported :
    (s : Client) (result : NetResult)
    → is_some s.retry_timer ≡ true
    → Inv s
    → Reported s
    → Reported (settle (on_retransmit result s))
unfolding settle on_retransmit
retransmit-Reported s result h v w = ground arith

timed_out-Reported :
    (s : Client)
    → is_some s.timed_out_timer ≡ true
    → Inv s
    → Reported s
    → Reported (settle (on_timed_out s))
unfolding settle on_timed_out
timed_out-Reported s h v w = ground arith

terminated-Reported :
    (s : Client)
    → is_some s.terminate_timer ≡ true
    → Inv s
    → Reported s
    → Reported (settle (on_terminated s))
unfolding settle on_terminated
terminated-Reported s h v w = ground arith

written-Reported :
    (s : Client) (result : NetResult)
    → s.next_state ≢ terminated
    → Inv s
    → Reported s
    → Reported (settle (on_write result s))
unfolding settle on_write
written-Reported s result h v w = ground arith

Step-Reported : {s t : Client} → Step s t → Inv s → Reported s → Reported t
Step-Reported (respond s response guid h) v w = respond-Reported s response guid h v w
Step-Reported (retransmit s result h) v w = retransmit-Reported s result h v w
Step-Reported (time_out s h) v w = timed_out-Reported s h v w
Step-Reported (expire s h) v w = terminated-Reported s h v w
Step-Reported (written s result h) v w = written-Reported s result h v w

start-Reported : (is_stream : Bool) (request : Request) → Reported (start is_stream request)
unfolding start
start-Reported is_stream request = ground arith

Reach-both :
    (is_stream : Bool) (request : Request) {s : Client}
    → Reach (start is_stream request) s
    → Inv s × Reported s
Reach-both is_stream request here = (start-Inv is_stream request, start-Reported is_stream request)
Reach-both is_stream request (next r st) =
    let (v, w) = Reach-both is_stream request r in (Step-Inv st v, Step-Reported st v w)

-- What the delegate hears of a client transaction over any history from its start: nothing final
-- while it is open; a timeout at most once, and then no final response; one final response at
-- most, unless the request is an INVITE; and one termination exactly when it is terminated.
pub client-Reported :
    (is_stream : Bool) (request : Request) {s : Client}
    → Reach (start is_stream request) s
    → Reported s
client-Reported is_stream request r = (Reach-both is_stream request r).1
