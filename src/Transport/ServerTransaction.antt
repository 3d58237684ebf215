-- ===== src/Transport/ServerTransaction.antt =====
-- sippet/transport/server_transaction_impl.h and .cc, as released (without the DCHECKs). The state
-- is the object with its four timers, as in ClientTransaction. `log` holds the calls of the channel
-- and of the delegate, newest first. What Channel::Send returns is an argument.
pub mod Invariant
pub mod Sending
pub mod Absorbing
mod Tests
use sippet.Base.{
  ℕ, ◌/◌, Bool, true, false, ◌&&◌, ◌||◌, not, List, [], ◌∷◌, Option, none, some, ltb, ◌==◌,
  if◌then◌else◌, Text, NetResult, is_ok, is_pending, ok,
}
use sippet.Message.Method.{ack, invite, is_method}
use sippet.Message.Request.{Request, Response, create_response}
use sippet.Transport.TimeDelta.{
  Provider, create_server_invite, create_server_non_invite, get_next_retry_delay, get_timeout_delay,
  get_terminate_delay,
}

pub data Mode : Type 0 where
  normal_mode invite_mode : Mode

pub data State : Type 0 where
  trying proceeding proceed_calling completed confirmed terminated : State

pub data Output : Type 0 where
  -- Channel::Send; a null response where none was kept or created
  sends : Option Response → Output
  -- the delegate's callbacks
  timed_out : Request → Output
  transport_error : Request → NetResult → Output
  transaction_terminated : Output

pub record Server : Type 0 where
  pub mode : Mode
  pub next_state : State
  pub is_stream : Bool
  pub initial_request : Request
  pub latest_response : Option Response
  pub retry_timer : Option ℕ
  pub timed_out_timer : Option ℕ
  pub terminate_timer : Option ℕ
  pub provisional_timer : Option ℕ
  pub provider : Provider
  pub log : List Output

abbrev pub is_invite : Mode → Bool
is_invite normal_mode = false
is_invite invite_mode = true

-- The enum's order, which `Send` compares.
abbrev pub state_index : State → ℕ
state_index trying = 0
state_index proceeding = 1
state_index proceed_calling = 2
state_index completed = 3
state_index confirmed = 4
state_index terminated = 5

abbrev pub same_state : State → State → Bool
same_state a b = state_index a == state_index b

abbrev pub emit : Output → Server → Server
emit o s = record s { log = o ∷ s.log }

-- ScheduleRetry, ScheduleTimeout, ScheduleTerminate, ScheduleProvisionalResponse
pub schedule_retry : Server → Server
schedule_retry s =
    let (delay, provider) = get_next_retry_delay s.provider in
    record s { retry_timer = some delay; provider = provider }

pub schedule_timeout : Server → Server
schedule_timeout s = record s { timed_out_timer = some (get_timeout_delay s.provider) }

pub schedule_terminate : Server → Server
schedule_terminate s = record s { terminate_timer = some (get_terminate_delay s.provider) }

pub schedule_provisional_response : Server → Server
schedule_provisional_response s = record s { provisional_timer = some 200 }

pub stop_timers : Server → Server
stop_timers s = record s {
  retry_timer = none;
  timed_out_timer = none;
  terminate_timer = none;
  provisional_timer = none;
}

-- StopProvisionalResponse
abbrev stop_provisional_response : Server → Server
stop_provisional_response s = record s { provisional_timer = none }

-- Terminate
abbrev terminate : Server → Server
terminate = emit transaction_terminated

-- Start, on a new object with its channel
unfoldable pub start : Bool → Request → Server
unfolding schedule_provisional_response
start is_stream request =
    let invites = is_method invite request.method in
    let fresh : Server = record {
      mode = if invites then invite_mode else normal_mode;
      next_state = if invites then proceed_calling else trying;
      is_stream = is_stream;
      initial_request = request;
      latest_response = none;
      retry_timer = none;
      timed_out_timer = none;
      terminate_timer = none;
      provisional_timer = none;
      provider = if invites then create_server_invite else create_server_non_invite;
      log = [];
    } in
    if invites then schedule_provisional_response fresh else fresh

-- The switch of OnSendWriteComplete. The case of `trying` falls through into that of `proceeding`,
-- which changes nothing for a class 1 and sets `completed` again for any other.
pub state_after_send : State → ℕ → State
state_after_send trying class = if class == 1 then proceeding else completed
state_after_send proceeding class = if class == 1 then proceeding else completed
state_after_send proceed_calling class =
    if class == 1 then proceed_calling else if class == 2 then terminated else completed
state_after_send state class = state

-- What OnSendWriteComplete does on entering the completed state.
pub complete : Server → Server
unfolding schedule_retry schedule_timeout schedule_terminate
complete s =
    if is_invite s.mode
    then schedule_timeout (if s.is_stream then s else schedule_retry s)
    else if s.is_stream
    then record s { next_state = terminated }
    else schedule_terminate s

abbrev pub finish : Server → Server
finish s = if same_state s.next_state terminated then terminate s else s

-- OnSendWriteComplete
unfoldable pub on_send_write_complete : Response → NetResult → Server → Server
unfolding state_after_send complete
on_send_write_complete response result s =
    if not (is_ok result)
    then emit (transport_error s.initial_request result) s
    else let next = state_after_send s.next_state (response.response_code / 100) in
      let moved = record s { next_state = next } in
      finish (
        if same_state next completed && not (same_state next s.next_state)
        then complete moved
        else moved)

-- Whether Send ignores the response: "second final response attempt".
abbrev pub ignores : State → Bool
ignores state = ltb (state_index proceed_calling) (state_index state)

-- Send, up to the call of Channel::Send.
pub begin_send : Response → Server → Server
begin_send response s =
    let quiet =
      if same_state s.next_state proceed_calling then stop_provisional_response s else s in
    emit (sends (some response)) (record quiet { latest_response = some response })

-- Send
unfoldable pub send : Response → NetResult → Server → Server
unfolding begin_send on_send_write_complete
send response result s =
    if ignores s.next_state
    then s
    else if is_pending result
    then begin_send response s
    else on_send_write_complete response result (begin_send response s)

-- Whether OnRepeatResponseWriteComplete takes the request for the ACK of the final response.
abbrev pub confirms : State → Request → Bool
confirms state request = same_state state completed && is_method ack request.method

-- What OnRepeatResponseWriteComplete does on entering the confirmed state.
pub confirm : Server → Server
unfolding stop_timers schedule_terminate
confirm s =
    let stopped = stop_timers (record s { next_state = confirmed }) in
    if s.is_stream then record stopped { next_state = terminated } else schedule_terminate stopped

-- OnRepeatResponseWriteComplete
unfoldable pub on_repeat_response_write_complete : Request → NetResult → Server → Server
unfolding confirm
on_repeat_response_write_complete request result s =
    finish (if confirms s.next_state request then confirm s else s)

-- Whether HandleIncomingRequest sends the latest response again.
pub repeats : State → Request → Bool
repeats proceeding request = true
repeats proceed_calling request = true
repeats completed request = not (is_method ack request.method)
repeats _ request = false

-- HandleIncomingRequest
unfoldable pub handle_incoming_request : Request → NetResult → Server → Server
unfolding repeats on_repeat_response_write_complete
handle_incoming_request request result s =
    let sent = emit (sends s.latest_response) s in
    if repeats s.next_state request
    then if is_pending result then sent else on_repeat_response_write_complete request result sent
    else on_repeat_response_write_complete request ok s

-- Close
unfoldable pub close : Server → Server
unfolding stop_timers
close s = stop_timers s

-- OnRetransmitWriteComplete
unfoldable pub on_retransmit_write_complete : NetResult → Server → Server
unfolding schedule_retry
on_retransmit_write_complete result s =
    if is_ok result
    then schedule_retry s
    else if is_pending result
    then s
    else emit (transport_error s.initial_request result) s

-- OnRetransmit, when the retry timer fires
unfoldable pub on_retransmit : NetResult → Server → Server
unfolding on_retransmit_write_complete
on_retransmit result s =
    let sent = emit (sends s.latest_response) (record s { retry_timer = none }) in
    if is_pending result then sent else on_retransmit_write_complete result sent

-- OnTimedOut, when that timer fires
unfoldable pub on_timed_out : Server → Server
on_timed_out s = terminate (
    emit (timed_out s.initial_request)
      (record s { next_state = terminated; timed_out_timer = none }))

-- OnTerminated, when that timer fires
unfoldable pub on_terminated : Server → Server
on_terminated s = terminate (record s { next_state = terminated; terminate_timer = none })

-- OnSendProvisionalResponseWriteComplete
unfoldable pub on_send_provisional_response_write_complete : NetResult → Server → Server
on_send_provisional_response_write_complete result s =
    if not (is_pending result) then emit (transport_error s.initial_request result) s else s

-- OnSendProvisionalResponse, when the provisional timer fires; the response is 100 (Trying), with
-- the reason phrase that the status code table gives, and the time since the request came.
unfoldable pub on_send_provisional_response : Text → ℕ → NetResult → Server → Server
unfolding on_send_provisional_response_write_complete
on_send_provisional_response reason delay result s =
    let response = create_response s.initial_request 100 reason delay [] in
    let sent = emit (sends response) (record s { provisional_timer = none }) in
    if is_pending result then sent else on_send_provisional_response_write_complete result sent
