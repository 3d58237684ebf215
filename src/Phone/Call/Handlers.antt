-- ===== src/Phone/Call/Handlers.antt =====
-- The handlers of call_impl.cc for what comes in, and for the tasks that it posts.
use sippet.Base.{
  ℕ, ◌/◌, Bool, true, false, ◌&&◌, ◌||◌, not, Option, none, some, ◌==◌, if◌then◌else◌, Text,
  NetResult, ok, error, is_ok, timed_out,
}
use sippet.Message.Method.{bye, cancel, invite, is_method}
use sippet.Message.Request.{Request, Response}
use sippet.Phone.CompletionStatus.{status_code_to_completion_status, hangup_not_defined}
use sippet.Ua.Dialog
use sippet.Ua.Dialog.{Uris, Dialog, State, early}
use sippet.Phone.Call.{
  CallState, calling, ringing, established, terminated, response_sent, peer_closed, removed, Call,
  emit, is_ringing, is_early, is_established, is_terminated, is_calling_or_ringing, run_completed,
  run_hangup_completed,
}
use sippet.Phone.Call.Sending.{
  Answers, handle_session_description_answer, send_ack, send_cancel, send_bye,
}

-- The next state of HandleCallingOrRingingResponse.
abbrev pub next_state : ℕ → CallState → CallState
next_state code state =
    if code / 100 == 1
    then if code / 10 == 18 then ringing else state
    else if code / 100 == 2
    then established
    else terminated

abbrev pub is_same : CallState → CallState → Bool
is_same calling calling = true
is_same ringing ringing = true
is_same established established = true
is_same terminated terminated = true
is_same _ _ = false

-- The session description of a response that changes the state.
abbrev pub describe : Answers → Response → CallState → Call → Option Call
describe a s next c =
    if not (is_same c.state next) && (is_ringing next || is_established next)
    then handle_session_description_answer a s c
    else some c

-- The end of HandleCallingOrRingingResponse: the state is set, and the callback is run.
abbrev pub enter : ℕ → CallState → Call → Option Call
enter code ringing c =
    run_completed (status_code_to_completion_status code) (record c { state = ringing })
enter code established c = run_completed ok (record c { state = established })
enter code terminated c =
    elim (run_completed (status_code_to_completion_status code) (record c { state = terminated })) [
      | none ↦ none
      | some c' ↦ some (emit removed c')
    ]
enter code calling c = some (record c { state = calling })

-- HandleCallingOrRingingResponse
unfoldable pub handle_calling_or_ringing_response : Answers → Response → Call → Option Call
unfolding send_ack handle_session_description_answer
handle_calling_or_ringing_response a s c =
    let next = next_state s.response_code c.state in
    elim (if is_established next then send_ack a s c else some c) [
      | none ↦ none
      | some c1 ↦ elim (describe a s next c1) [
        | none ↦ none
        | some c2 ↦ enter s.response_code next c2
      ]
    ]

-- HandleHungupResponse
unfoldable pub handle_hungup_response : Answers → Response → Call → Option Call
unfolding send_bye
handle_hungup_response a s c = elim s.refer_to [
  | none ↦ none
  | some r ↦
      if is_method invite r.method
      then if s.response_code / 100 == 2 then send_bye a c else some c
      else if is_method cancel r.method || is_method bye r.method
      then if s.response_code / 100 == 2 then some (emit removed c) else some c
      else some c
]

-- OnDestroy
abbrev pub on_destroy : Call → Option Call
on_destroy c = if c.has_peer then some (emit peer_closed (record c { has_peer = false })) else none

-- OnPickUp and OnReject do nothing.
abbrev pub on_pick_up : Call → Call
on_pick_up c = c

abbrev pub on_reject : Call → Call
on_reject c = c

-- OnHangup
unfoldable pub on_hangup : Answers → Call → Option Call
unfolding send_cancel send_bye
on_hangup a c = elim c.dialog [
  | none ↦ some (record c { state = terminated })
  | some d ↦
      if is_early d.state
      then send_cancel a (record c { state = terminated })
      else send_bye a (record c { state = terminated })
]

-- OnIncomingRequest, in the dialog that the phone found; `reason` and `delay` are for CreateResponse.
unfoldable pub on_incoming_request : Dialog → Text → ℕ → Request → Call → Option Call
on_incoming_request d reason delay r c =
    if is_method bye r.method
    then elim (on_destroy c) [
      | none ↦ none
      | some c1 ↦ elim (Dialog.create_response d 200 reason r delay) [
        | none ↦ none
        | some s ↦
            elim (run_completed hangup_not_defined
              (record (emit (response_sent s) c1) { state = terminated })) [
                | none ↦ none
                | some c2 ↦ some (emit removed c2)
              ]
      ]
    ]
    else some c

-- OnIncomingResponse
unfoldable pub on_incoming_response : Answers → Response → Option Dialog → Call → Option Call
unfolding handle_calling_or_ringing_response handle_hungup_response
on_incoming_response a s d c =
    let c' : Call = record c { dialog = d } in
    if is_calling_or_ringing c.state
    then handle_calling_or_ringing_response a s c'
    else if is_terminated c.state
    then handle_hungup_response a s c'
    else some c'

-- What OnTimedOut and OnTransportError do.
abbrev pub fail : NetResult → Call → Option Call
fail rv c =
    if is_calling_or_ringing c.state
    then elim (run_completed rv (record c { state = terminated })) [
      | none ↦ none
      | some c' ↦ some (emit removed c')
    ]
    else some c

-- OnTimedOut
abbrev pub on_timed_out : Call → Option Call
on_timed_out c = fail (error timed_out) c

-- OnTransportError
abbrev pub on_transport_error : NetResult → Call → Option Call
on_transport_error err c = fail err c

-- RunIfNotOk, when what Send left pending ends; bound to on_completed_ or to on_hangup_completed_.
abbrev pub on_send_complete : Bool → NetResult → Call → Option Call
on_send_complete hanging_up rv c =
    if is_ok rv
    then some c
    else if hanging_up
    then run_hangup_completed rv c
    else run_completed rv c
