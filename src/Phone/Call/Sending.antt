-- ===== src/Phone/Call/Sending.antt =====
-- The requests that call_impl.cc sends in a call, and the session description that it takes.
use sippet.Base.{
  ℕ, Bool, ◌&&◌, Option, none, some, if◌then◌else◌, Text, codes, equal, NetResult, is_ok,
}
use sippet.Message.Atom.{known}
use sippet.Message.Header
use sippet.Message.Headers.{get}
use sippet.Message.Method.{bye}
use sippet.Message.Request.{Request, Response, create_cancel}
use sippet.Ua.Dialog
use sippet.Ua.Dialog.{Uris, Dialog, State, early}
use sippet.Ua.Pointer.{Pointer, fault, null, at}
use sippet.Phone.Call.{
  terminated, request_sent, remote_described, Call, emit, run_completed, run_hangup_completed,
  has_failed,
}

-- What stands outside: the tests of URIs, what Send answers, whether WebRTC reads an answer, and
-- what random generators return.
pub record Answers : Type 0 where
  pub uris : Uris
  pub sent : NetResult
  pub is_sdp : Text → Bool
  pub random : ℕ
  pub guid : Text

-- HandleSessionDescriptionAnswer
unfoldable pub handle_session_description_answer : Answers → Response → Call → Option Call
handle_session_description_answer a s c = elim (get Header.as_content_type s.headers) [
  | none ↦ some c
  | some t ↦
      if equal (codes "application") t.0 && equal (codes "sdp") t.1
      then if a.is_sdp s.content
        then if c.has_peer then some (emit (remote_described s.content) c) else none
        else some c
      else some c
]

-- SendAck, of the ACK that CreateAck makes: Send dereferences the message.
abbrev pub send_made_ack : Answers → Pointer Request → Call → Option Call
send_made_ack a fault c = none
send_made_ack a null c = none
send_made_ack a (at r) c =
    let c' : Call = emit (request_sent r) c in
    if has_failed a.sent then run_completed a.sent (record c' { state = terminated }) else some c'

-- SendAck
unfoldable pub send_ack : Answers → Response → Call → Option Call
send_ack a s c = elim c.dialog [
  | none ↦ none
  | some d ↦ elim s.refer_to [
    | none ↦ none
    | some r ↦ send_made_ack a (Dialog.create_ack a.uris d r a.guid) c
  ]
]

-- The end of SendCancel and SendBye.
abbrev pub after_hangup_send : NetResult → Call → Option Call
after_hangup_send sent c = if has_failed sent then run_hangup_completed sent c else some c

-- The CANCEL that CreateCancel makes, if it makes one.
abbrev pub send_made_cancel : Answers → NetResult × Option Request → Call → Option Call
send_made_cancel a (rv, none) c = if is_ok rv then none else some c
send_made_cancel a (rv, some q) c =
    if is_ok rv then after_hangup_send a.sent (emit (request_sent q) c) else some c

-- SendCancel
unfoldable pub send_cancel : Answers → Call → Option Call
send_cancel a c = elim c.last_request [
  | none ↦ none
  | some r ↦ send_made_cancel a (create_cancel r a.guid none) c
]

abbrev pub send_made_bye : Answers → Option Request × Dialog → Call → Option Call
send_made_bye a (none, d) c = none
send_made_bye a (some q, d) c =
    after_hangup_send a.sent
      (emit (request_sent q) (record c { dialog = some d; last_request = some q }))

-- SendBye
unfoldable pub send_bye : Answers → Call → Option Call
send_bye a c = elim c.dialog [
  | none ↦ none
  | some d ↦ send_made_bye a (Dialog.create_request a.uris d (known bye) a.random a.guid) c
]
