-- ===== src/Phone/Call.antt =====
-- sippet/phone/call_impl.h and call_impl.cc. The phone, the user agent and WebRTC stand behind their
-- interfaces: what they answer is an argument, and what is called on them and on the callbacks is
-- the log. A task that is posted stands in the log too, and runs as a handler of its own.
-- `none` is a fault: a null pointer or a null callback is used.
pub mod Sending
pub mod Handlers
pub mod Order
pub mod Flow
pub mod HungUp
pub mod Steps
pub mod History
mod Tests
use sippet.Base.{
  ℕ, ◌/◌, Bool, true, false, ◌&&◌, ◌||◌, not, List, [], ◌∷◌, ◌++◌, Option, none, some, is_some,
  ◌==◌, if◌then◌else◌, Text, codes, equal, NetResult, NetError, ok, error, count, is_ok, is_pending,
  timed_out,
}
use sippet.Message.Atom.{known}
use sippet.Message.Header
use sippet.Message.Headers.{get}
use sippet.Message.Method.{bye, cancel, invite, is_method}
use sippet.Message.Request.{Request, Response, is_incoming, create_cancel}
use sippet.Phone.CompletionStatus.{status_code_to_completion_status, hangup_not_defined}
use sippet.Ua.Dialog
use sippet.Ua.Dialog.{Uris, Dialog, State, early}
use sippet.Ua.Pointer.{Pointer, fault, null, at}

-- CallDirection
pub data CallDirection : Type 0 where
  incoming_call outgoing_call : CallDirection

-- CallState
pub data CallState : Type 0 where
  calling ringing established terminated : CallState

pub data Task : Type 0 where
  pick_up_task reject_task hang_up_task : Task
  dtmf_task offer_task : Text → Task

-- What a call calls.
pub data Output : Type 0 where
  posted : Task → Output
  offer_asked : Output
  request_sent : Request → Output
  response_sent : Response → Output
  -- on_completed_ and on_hangup_completed_
  completed hangup_completed : NetResult → Output
  -- SetRemoteDescription, with the content
  remote_described : Text → Output
  peer_closed : Output
  -- InsertDtmf
  digits_inserted : Text → Output
  -- RemoveCall
  removed : Output

abbrev pub is_removed : Output → Bool
is_removed removed = true
is_removed _ = false

-- RemoveCall was called.
unfoldable pub was_removed : List Output → Bool
was_removed [] = false
was_removed (o ∷ os) = is_removed o || was_removed os

-- CallImpl
pub record Call : Type 0 where
  pub direction : CallDirection
  pub state : CallState
  pub last_request : Option Request
  pub dialog : Option Dialog
  -- on_completed_ and on_hangup_completed_ are set
  pub has_callback : Bool
  pub has_hangup_callback : Bool
  pub has_peer : Bool
  pub has_dtmf_sender : Bool
  pub log : List Output

abbrev pub emit : Output → Call → Call
emit o c = record c { log = c.log ++ o ∷ [] }

abbrev pub is_ringing : CallState → Bool
is_ringing ringing = true
is_ringing _ = false

abbrev pub is_early : State → Bool
is_early early = true
is_early _ = false

abbrev pub is_established : CallState → Bool
is_established established = true
is_established _ = false

abbrev pub is_terminated : CallState → Bool
is_terminated terminated = true
is_terminated _ = false

abbrev pub is_calling_or_ringing : CallState → Bool
is_calling_or_ringing calling = true
is_calling_or_ringing ringing = true
is_calling_or_ringing _ = false

-- CallImpl(uri, phone, on_completed)
abbrev pub new_outgoing : Call
new_outgoing = record {
  direction = outgoing_call;
  state = calling;
  last_request = none;
  dialog = none;
  has_callback = true;
  has_hangup_callback = false;
  has_peer = false;
  has_dtmf_sender = false;
  log = [];
}

-- CallImpl(invite, phone)
abbrev pub new_incoming : Request → Call
new_incoming request = record {
  direction = incoming_call;
  state = ringing;
  last_request = some request;
  dialog = none;
  has_callback = false;
  has_hangup_callback = false;
  has_peer = false;
  has_dtmf_sender = false;
  log = [];
}

-- on_completed_.Run
abbrev pub run_completed : NetResult → Call → Option Call
run_completed rv c = if c.has_callback then some (emit (completed rv) c) else none

-- on_hangup_completed_.Run
abbrev pub run_hangup_completed : NetResult → Call → Option Call
run_hangup_completed rv c =
    if c.has_hangup_callback then some (emit (hangup_completed rv) c) else none

-- The guard that PickUp and Reject share.
abbrev pub can_answer : Call → Bool
can_answer c = elim c.last_request [
  | none ↦ false
  | some r ↦ is_incoming r.direction && is_ringing c.state
]

-- PickUp
abbrev pub pick_up : Call → Bool × Call
pick_up c =
    if can_answer c
    then (true, emit (posted pick_up_task) (record c { has_callback = true }))
    else (false, c)

-- Reject
abbrev pub reject : Call → Bool × Call
reject c = if can_answer c then (true, emit (posted reject_task) c) else (false, c)

-- The guard that HangUp and SendDtmf share.
abbrev pub can_end : Call → Bool
can_end c = is_some c.last_request && not (is_terminated c.state)

-- HangUp
abbrev pub hang_up : Call → Bool × Call
hang_up c =
    if can_end c
    then (true, emit (posted hang_up_task) (record c { has_hangup_callback = true }))
    else (false, c)

-- SendDtmf
abbrev pub send_dtmf : Text → Call → Call
send_dtmf digits c = if can_end c then emit (posted (dtmf_task digits)) c else c

-- OnMakeCall; whether the factory makes a peer connection.
unfoldable pub on_make_call : Bool → Call → Option Call
on_make_call made c = if made then some (emit offer_asked (record c { has_peer = true })) else none

-- OnIceComplete, with the text of the local description and what the regular expressions leave of it.
unfoldable pub on_ice_complete : (Text → Text) → Text → Call → Option Call
on_ice_complete filtered description c =
    if c.has_peer then some (emit (posted (offer_task (filtered description))) c) else none

-- InsertDtmf, where the sender can insert.
abbrev pub insert_dtmf : Bool → Text → Call → Call
insert_dtmf can_insert digits c = if can_insert then emit (digits_inserted digits) c else c

-- OnSendDtmf; the stream of the call is there as long as its peer connection.
unfoldable pub on_send_dtmf : Bool → Text → Call → Option Call
on_send_dtmf can_insert digits c =
    if c.has_dtmf_sender
    then some (insert_dtmf can_insert digits c)
    else if c.has_peer
    then some (insert_dtmf can_insert digits (record c { has_dtmf_sender = true }))
    else none

abbrev pub has_failed : NetResult → Bool
has_failed rv = not (is_ok rv) && not (is_pending rv)

-- OnCreateOfferCompleted, with the INVITE of UserAgent::CreateRequest and what Send answers.
unfoldable pub on_create_offer_completed : Request → Text → NetResult → Call → Option Call
on_create_offer_completed created offer sent c =
    let request : Request = record created {
      headers = created.headers ++ Header.content_type (codes "application") (codes "sdp") ∷ [];
      content = offer;
    } in
    let c' : Call = emit (request_sent request) (record c { last_request = some request }) in
    if has_failed sent then run_completed sent (record c' { state = terminated }) else some c'
