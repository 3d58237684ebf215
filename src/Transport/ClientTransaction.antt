-- ===== src/Transport/ClientTransaction.antt =====
-- sippet/transport/client_transaction_impl.h and .cc, as released (without the DCHECKs).
-- The state is the object with its three timers; a timer is `none` while it is stopped, and
-- otherwise holds the delay it was started with. The calls of the channel and of the delegate are
-- written to `log`, newest first. What Channel::Send returns is an argument.
pub mod Invariant
pub mod Handling
pub mod Reports
mod Tests
use sippet.Base.{
  ℕ, ◌/◌, Bool, true, false, ◌&&◌, ◌||◌, not, List, [], ◌∷◌, Option, none, some, leb, ltb, ◌==◌,
  if◌then◌else◌, Text, NetResult, NetError, is_ok, is_pending, pending,
}
use sippet.Message.Header
use sippet.Message.Headers.{get}
use sippet.Message.Method.{invite, is_method}
use sippet.Message.Request.{Request, Response, create_ack, or_empty, tag_of}
use sippet.Transport.TimeDelta.{
  Provider, create_client_invite, create_client_non_invite, get_next_retry_delay, get_timeout_delay,
  get_terminate_delay,
}

pub data Mode : Type 0 where
  normal_mode invite_mode : Mode

pub data State : Type 0 where
  calling trying proceeding proceed_calling completed terminated : State

pub data Output : Type 0 where
  -- Channel::Send of the request, and of the ACK (a null one where CreateAck failed)
  sends_request : Request → Output
  sends_ack : Option Request → Output
  -- the delegate's callbacks
  incoming_response : Response → Output
  timed_out : Request → Output
  transport_error : Request → NetResult → Output
  transaction_terminated : Output

pub record Client : Type 0 where
  pub mode : Mode
  pub next_state : State
  pub is_stream : Bool
  pub initial_request : Request
  pub generated_ack : Option Request
  pub retry_timer : Option ℕ
  pub timed_out_timer : Option ℕ
  pub terminate_timer : Option ℕ
  pub provider : Provider
  pub log : List Output

abbrev pub is_invite : Mode → Bool
is_invite normal_mode = false
is_invite invite_mode = true

abbrev pub state_index : State → ℕ
state_index calling = 0
state_index trying = 1
state_index proceeding = 2
state_index proceed_calling = 3
state_index completed = 4
state_index terminated = 5

abbrev pub same_state : State → State → Bool
same_state a b = state_index a == state_index b

abbrev emit : Output → Client → Client
emit o s = record s { log = o ∷ s.log }

-- ScheduleRetry, ScheduleTimeout, ScheduleTerminate
pub schedule_retry : Client → Client
schedule_retry s =
    let (delay, provider) = get_next_retry_delay s.provider in
    record s { retry_timer = some delay; provider = provider }

pub schedule_timeout : Client → Client
schedule_timeout s = record s { timed_out_timer = some (get_timeout_delay s.provider) }

pub schedule_terminate : Client → Client
schedule_terminate s = record s { terminate_timer = some (get_terminate_delay s.provider) }

pub stop_timers : Client → Client
stop_timers s = record s { retry_timer = none; timed_out_timer = none; terminate_timer = none }

pub stop_retry : Client → Client
stop_retry s = record s { retry_timer = none }

-- Terminate
abbrev terminate : Client → Client
terminate = emit transaction_terminated

-- Start, on a new object with its channel
unfoldable pub start : Bool → Request → Client
unfolding schedule_retry schedule_timeout
start is_stream request =
    let invites = is_method invite request.method in
    let fresh : Client = record {
      mode = if invites then invite_mode else normal_mode;
      next_state = if invites then calling else trying;
      is_stream = is_stream;
      initial_request = request;
      generated_ack = none;
      retry_timer = none;
      timed_out_timer = none;
      terminate_timer = none;
      provider = if invites then create_client_invite else create_client_non_invite;
      log = [];
    } in
    schedule_timeout (if is_stream then fresh else schedule_retry fresh)

-- The switch on the state and the response's class in HandleIncomingResponse; `none` is the
-- default branch, "bad state".
pub state_after : State → ℕ → Option State
state_after trying class = some (if class == 1 then proceeding else completed)
state_after calling class = some (if class == 1 then proceed_calling else completed)
state_after proceeding class = some (if class == 1 then proceeding else completed)
state_after proceed_calling class = some (if class == 1 then proceed_calling else completed)
state_after completed class = some completed
state_after terminated class = none

-- SendAck: the ACK is created once, with the first final response's tag.
pub send_ack : Text → Text → Client → Client
send_ack remote_tag guid s =
    let ack : Option Request = elim s.generated_ack [
      | some ack ↦ some ack
      | none ↦ (create_ack s.initial_request remote_tag guid none).1
    ] in
    emit (sends_ack ack) (record s { generated_ack = ack })

-- Where the retry timer stops.
pub stops_retry : Mode → State → Bool
stops_retry invite_mode state = not (same_state state calling)
stops_retry normal_mode state = same_state state completed

-- `response->set_refer_to(initial_request_)`
abbrev pub referring : Client → Response → Response
referring s response = record response { refer_to = some s.initial_request }

-- The end of HandleIncomingResponse: what a completed transaction does.
pub finish : State → Client → Client
unfolding schedule_terminate
finish state s =
    if same_state s.next_state completed
    then if s.is_stream
      then terminate (record s { next_state = terminated })
      else if same_state s.next_state state
      then s
      else schedule_terminate s
    else if same_state s.next_state terminated
    then terminate s
    else s

pub acknowledge : ℕ → Response → Text → Client → Client
unfolding send_ack
acknowledge class response guid s =
    if is_invite s.mode && leb 3 class
    then send_ack (or_empty (tag_of (get Header.as_to response.headers))) guid s
    else s

pub deliver : State → Response → Client → Client
deliver state response s =
    if is_invite s.mode || not (same_state state completed)
    then emit (incoming_response (referring s response)) s
    else s

pub provisional_stop : State → Client → Client
unfolding stop_timers
provisional_stop state s =
    if same_state state calling && same_state s.next_state proceed_calling then stop_timers s else s

pub retry_stop : Client → Client
unfolding stops_retry stop_retry
retry_stop s = if stops_retry s.mode s.next_state then stop_retry s else s

-- HandleIncomingResponse; the GUID is that of an ACK it may create.
unfoldable pub handle_incoming_response : Response → Text → Client → Client
unfolding state_after finish acknowledge deliver provisional_stop retry_stop
handle_incoming_response response guid s =
    let class = response.response_code / 100 in
    elim (state_after s.next_state class) [
      | none ↦ terminate s
      | some next ↦ finish s.next_state (
          deliver s.next_state response (
            provisional_stop s.next_state
              (acknowledge class response guid (retry_stop (record s { next_state = next })))))
    ]

-- Close
unfoldable pub close : Client → Client
unfolding stop_timers
close s = stop_timers s

-- OnWrite
unfoldable pub on_write : NetResult → Client → Client
unfolding schedule_retry
on_write result s =
    if is_ok result
    then schedule_retry s
    else if is_pending result
    then s
    else emit (transport_error s.initial_request result) s

-- OnRetransmit, when the retry timer fires
unfoldable pub on_retransmit : NetResult → Client → Client
unfolding on_write
on_retransmit result s =
    let sent = emit (sends_request s.initial_request) (record s { retry_timer = none }) in
    if is_pending result then sent else on_write result sent

-- OnTimedOut, when that timer fires
unfoldable pub on_timed_out : Client → Client
on_timed_out s =
    let stopped = record s { next_state = terminated; timed_out_timer = none } in
    terminate (
      if same_state s.next_state completed
      then stopped
      else emit (timed_out s.initial_request) stopped)

-- OnTerminated, when that timer fires
unfoldable pub on_terminated : Client → Client
on_terminated s = terminate (record s { next_state = terminated; terminate_timer = none })
