-- ===== src/Transport/ServerTransaction/Invariant.antt =====
-- The steps of a server transaction under the network layer, and its timers.
use sippet.Base.{
  ℕ, suc, ◌+◌, ◌≤◌, ◌≡◌, ◌≢◌, ◌⊎◌, inl, inr, sym, ◌∙◌, Bool-cases, Bool, true, false, List, [], ◌∷◌,
  Option, none, is_some, arith, if◌then◌else◌, Text, NetResult, is_pending, ok,
}
use sippet.Message.Request.{Request, Response}
use sippet.Transport.ServerTransaction.{
  Mode, State, Output, Server, normal_mode, invite_mode, trying, proceeding, proceed_calling,
  completed, confirmed, terminated, same_state, send, on_send_write_complete,
  handle_incoming_request, on_repeat_response_write_complete, close, on_retransmit,
  on_retransmit_write_complete, on_timed_out, on_terminated, on_send_provisional_response,
  on_send_provisional_response_write_complete, timed_out, transaction_terminated, begin_send,
  ignores, repeats, emit, sends,
}

-- The delegate answers OnTransactionTerminated by closing the transaction, before anything else
-- happens (NetworkLayer::DestroyServerTransaction).
unfoldable pub settle : Server → Server
unfolding close
settle s = if same_state s.next_state terminated then close s else s

-- A timer fires only while it runs; a terminated transaction gets no further calls of the layer. A
-- write that was left pending ends with any result and at any later time (`sent`, `repeated`,
-- `resent`, `tried`), so these steps also cover writes that overtake one another.
pub data Step (s : Server) : Server → Type 0 where
  send_step :
      (response : Response) (result : NetResult)
      → s.next_state ≢ terminated
      → Step s (settle (send response result s))
  sent :
      (response : Response) (result : NetResult)
      → s.next_state ≢ terminated
      → Step s (settle (on_send_write_complete response result s))
  request_step :
      (request : Request) (result : NetResult)
      → s.next_state ≢ terminated
      → Step s (settle (handle_incoming_request request result s))
  repeated :
      (request : Request) (result : NetResult)
      → s.next_state ≢ terminated
      → Step s (settle (on_repeat_response_write_complete request result s))
  retransmit :
      (result : NetResult)
      → s.next_state ≢ terminated
      → is_some s.retry_timer ≡ true
      → Step s (settle (on_retransmit result s))
  resent :
      (result : NetResult)
      → s.next_state ≢ terminated
      → Step s (settle (on_retransmit_write_complete result s))
  time_out : is_some s.timed_out_timer ≡ true → Step s (settle (on_timed_out s))
  expire : is_some s.terminate_timer ≡ true → Step s (settle (on_terminated s))
  provisional :
      (reason : Text) (delay : ℕ) (result : NetResult)
      → is_some s.provisional_timer ≡ true
      → Step s (settle (on_send_provisional_response reason delay result s))
  tried :
      (result : NetResult)
      → s.next_state ≢ terminated
      → Step s (settle (on_send_provisional_response_write_complete result s))

-- What still happens to a terminated transaction. The repeat write of HandleIncomingRequest is bound
-- to a reference, so a transaction that has one pending outlives its end, and the weak pointers of
-- the other writes and of the timers stay valid with it. The layer no longer knows the transaction,
-- so nothing closes it again.
pub data Late (s : Server) : Server → Type 0 where
  late_sent :
      (response : Response) (result : NetResult)
      → s.next_state ≡ terminated
      → Late s (on_send_write_complete response result s)
  late_repeated :
      (request : Request) (result : NetResult)
      → s.next_state ≡ terminated
      → Late s (on_repeat_response_write_complete request result s)
  late_retransmit :
      (result : NetResult)
      → s.next_state ≡ terminated
      → is_some s.retry_timer ≡ true
      → Late s (on_retransmit result s)
  late_resent :
      (result : NetResult)
      → s.next_state ≡ terminated
      → Late s (on_retransmit_write_complete result s)
  late_tried :
      (result : NetResult)
      → s.next_state ≡ terminated
      → Late s (on_send_provisional_response_write_complete result s)

-- Histories, with the number of their steps that came after the end.
pub data Reach (s : Server) : ℕ → Server → Type 0 where
  here : Reach s 0 s
  next : {n : ℕ} {t u : Server} → Reach s n t → Step t u → Reach s n u
  late : {n : ℕ} {t u : Server} → Reach s n t → Late t u → Reach s (suc n) u

-- The states of each mode.
abbrev pub fits : Mode → State → Bool
fits invite_mode trying = false
fits invite_mode proceeding = false
fits normal_mode proceed_calling = false
fits _ _ = true

abbrev pub timeouts : List Output → ℕ
timeouts [] = 0
timeouts (timed_out _ ∷ log) = 1 + timeouts log
timeouts (_ ∷ log) = timeouts log

abbrev pub terminations : List Output → ℕ
terminations [] = 0
terminations (transaction_terminated ∷ log) = 1 + terminations log
terminations (_ ∷ log) = terminations log

pub record Inv (s : Server) (after : ℕ) : Type 0 where
  pub state_fits : fits s.mode s.next_state ≡ true
  pub stopped :
      s.next_state ≡ terminated
      → (after ≡ 0 → s.retry_timer ≡ none)
        × (s.timed_out_timer ≡ none)
        × (s.terminate_timer ≡ none)
        × (s.provisional_timer ≡ none)
  pub lingers :
      is_some s.terminate_timer ≡ true
      → ((s.next_state ≡ confirmed) ⊎ ((s.mode ≡ normal_mode) × (s.next_state ≡ completed)))
        × (s.is_stream ≡ false)
  -- an INVITE that waits for its ACK gives up in time
  pub awaits : s.mode ≡ invite_mode → s.next_state ≡ completed → is_some s.timed_out_timer ≡ true
  pub times_out :
      is_some s.timed_out_timer ≡ true → (s.mode ≡ invite_mode) × (s.next_state ≡ completed)
  -- any other completed transaction goes away by itself
  pub leaves :
      (s.next_state ≡ confirmed) ⊎ ((s.mode ≡ normal_mode) × (s.next_state ≡ completed))
      → is_some s.terminate_timer ≡ true
  -- nothing comes late before the end
  pub on_time : s.next_state ≢ terminated → (after ≡ 0) × (terminations s.log ≡ 0)
  -- one end is reported, and at most one more for each late step
  pub ends : s.next_state ≡ terminated → (1 ≤ terminations s.log) × (terminations s.log ≤ 1 + after)
  pub quiet : s.next_state ≢ terminated → timeouts s.log ≡ 0
  pub one_timeout : timeouts s.log ≤ 1

module _ (s : Server) {n : ℕ} (v : Inv s n) where
  sent-Inv :
      (response : Response) (result : NetResult)
      → s.next_state ≢ terminated
      → Inv (settle (on_send_write_complete response result s)) n
  unfolding settle on_send_write_complete
  sent-Inv response result h = ground arith

  repeated-Inv :
      (request : Request) (result : NetResult)
      → s.next_state ≢ terminated
      → Inv (settle (on_repeat_response_write_complete request result s)) n
  unfolding settle on_repeat_response_write_complete
  repeated-Inv request result h = ground arith

  retransmit-Inv :
      (result : NetResult)
      → s.next_state ≢ terminated
      → is_some s.retry_timer ≡ true
      → Inv (settle (on_retransmit result s)) n
  unfolding settle on_retransmit
  retransmit-Inv result h r = ground arith

  resent-Inv :
      (result : NetResult)
      → s.next_state ≢ terminated
      → Inv (settle (on_retransmit_write_complete result s)) n
  unfolding settle on_retransmit_write_complete
  resent-Inv result h = ground arith

  timed_out-Inv : is_some s.timed_out_timer ≡ true → Inv (settle (on_timed_out s)) n
  unfolding settle on_timed_out
  timed_out-Inv h = ground arith

  terminated-Inv : is_some s.terminate_timer ≡ true → Inv (settle (on_terminated s)) n
  unfolding settle on_terminated
  terminated-Inv h = ground arith

  provisional-Inv :
      (reason : Text) (delay : ℕ) (result : NetResult)
      → is_some s.provisional_timer ≡ true
      → Inv (settle (on_send_provisional_response reason delay result s)) n
  unfolding settle on_send_provisional_response
  provisional-Inv reason delay result h = ground arith

  tried-Inv :
      (result : NetResult)
      → s.next_state ≢ terminated
      → Inv (settle (on_send_provisional_response_write_complete result s)) n
  unfolding settle on_send_provisional_response_write_complete
  tried-Inv result h = ground arith

-- A transaction that goes on is not closed.
settled : (s : Server) → s.next_state ≢ terminated → settle s ≡ s
unfolding settle
settled s h = ground arith

begin_send-Inv :
    (s : Server) {n : ℕ} (response : Response) → Inv s n → Inv (begin_send response s) n
unfolding begin_send
begin_send-Inv s response v = ground arith

begin_send_state :
    (s : Server) (response : Response) → (begin_send response s).next_state ≡ s.next_state
unfolding begin_send
begin_send_state s response = ground arith

send-Inv :
    (s : Server) {n : ℕ} (response : Response) (result : NetResult)
    → s.next_state ≢ terminated
    → Inv s n
    → Inv (settle (send response result s)) n
unfolding send
send-Inv s response result h v = elim (Bool-cases (ignores s.next_state)) [
  | inl e ↦ rw e (rw (settled s h) v)
  | inr e ↦ elim (Bool-cases (is_pending result)) [
    | inl p ↦
        rw (e, p)
          (rw (settled (begin_send response s) (λ q. h (sym (begin_send_state s response) ∙ q)))
            (begin_send-Inv s response v))
    | inr p ↦
        rw (e, p)
          (sent-Inv (begin_send response s) (begin_send-Inv s response v) response result
            (λ q. h (sym (begin_send_state s response) ∙ q)))
  ]
]

emit_sends-Inv : (s : Server) {n : ℕ} (r : Option Response) → Inv s n → Inv (emit (sends r) s) n
emit_sends-Inv s r v = ground arith

request-Inv :
    (s : Server) {n : ℕ} (request : Request) (result : NetResult)
    → s.next_state ≢ terminated
    → Inv s n
    → Inv (settle (handle_incoming_request request result s)) n
unfolding handle_incoming_request
request-Inv s request result h v = elim (Bool-cases (repeats s.next_state request)) [
  | inl e ↦ elim (Bool-cases (is_pending result)) [
    | inl p ↦ rw (e, p) (rw (settled (emit (sends s.latest_response) s) h) (emit_sends-Inv s _ v))
    | inr p ↦ rw (e, p) (repeated-Inv _ (emit_sends-Inv s _ v) request result h)
  ]
  | inr e ↦ rw e (repeated-Inv s v request ok h)
]

-- One step keeps the invariant.
pub Step-Inv : {s t : Server} {n : ℕ} → Step s t → Inv s n → Inv t n
Step-Inv {s} (send_step response result h) v = send-Inv s response result h v
Step-Inv {s} (sent response result h) v = sent-Inv s v response result h
Step-Inv {s} (request_step request result h) v = request-Inv s request result h v
Step-Inv {s} (repeated request result h) v = repeated-Inv s v request result h
Step-Inv {s} (retransmit result h r) v = retransmit-Inv s v result h r
Step-Inv {s} (resent result h) v = resent-Inv s v result h
Step-Inv {s} (time_out h) v = timed_out-Inv s v h
Step-Inv {s} (expire h) v = terminated-Inv s v h
Step-Inv {s} (provisional reason delay result h) v = provisional-Inv s v reason delay result h
Step-Inv {s} (tried result h) v = tried-Inv s v result h

module _ (s : Server) {n : ℕ} (v : Inv s n) where
  late_sent-Inv :
      (response : Response) (result : NetResult)
      → s.next_state ≡ terminated
      → Inv (on_send_write_complete response result s) (suc n)
  unfolding on_send_write_complete
  late_sent-Inv response result h = ground arith

  late_repeated-Inv :
      (request : Request) (result : NetResult)
      → s.next_state ≡ terminated
      → Inv (on_repeat_response_write_complete request result s) (suc n)
  unfolding on_repeat_response_write_complete
  late_repeated-Inv request result h = ground arith

  late_retransmit-Inv :
      (result : NetResult) → s.next_state ≡ terminated → Inv (on_retransmit result s) (suc n)
  unfolding on_retransmit
  late_retransmit-Inv result h = ground arith

  late_resent-Inv :
      (result : NetResult)
      → s.next_state ≡ terminated
      → Inv (on_retransmit_write_complete result s) (suc n)
  unfolding on_retransmit_write_complete
  late_resent-Inv result h = ground arith

  late_tried-Inv :
      (result : NetResult)
      → s.next_state ≡ terminated
      → Inv (on_send_provisional_response_write_complete result s) (suc n)
  unfolding on_send_provisional_response_write_complete
  late_tried-Inv result h = ground arith

pub Late-Inv : {s t : Server} {n : ℕ} → Late s t → Inv s n → Inv t (suc n)
Late-Inv {s} (late_sent response result h) v = late_sent-Inv s v response result h
Late-Inv {s} (late_repeated request result h) v = late_repeated-Inv s v request result h
Late-Inv {s} (late_retransmit result h r) v = late_retransmit-Inv s v result h
Late-Inv {s} (late_resent result h) v = late_resent-Inv s v result h
Late-Inv {s} (late_tried result h) v = late_tried-Inv s v result h

pub Reach-Inv : {s t : Server} {n : ℕ} → Reach s n t → Inv s 0 → Inv t n
Reach-Inv here v = v
Reach-Inv (next r st) v = Step-Inv st (Reach-Inv r v)
Reach-Inv (late r st) v = Late-Inv st (Reach-Inv r v)
