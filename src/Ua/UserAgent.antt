-- ===== src/Ua/UserAgent.antt =====
-- sippet/ua/ua_user_agent.h and ua_user_agent.cc. The authentication transaction and the network
-- layer stand behind their interfaces: what they answer is an argument, and what is called on them
-- and on the delegates is the log. The last clone that a context keeps is changed in its
-- place when it is sent again; what the authentication added to it is written there at that time too.
-- `none` is a fault: a null pointer is used.
pub mod Consistency
pub mod Delivery
pub mod Challenges
pub mod Create
pub mod History
pub mod Sequence
mod Tests
use sippet.Base.{
  ℕ, Bool, true, false, ◌||◌, ◌&&◌, not, List, [], ◌∷◌, ◌++◌, map, Option, none, some, is_some, leb,
  ◌==◌, if◌then◌else◌, Text, NetResult, is_ok, is_pending,
}
use sippet.Base.Maps.{find, assign, erase, text_eq}
use sippet.Message.Header.{Header}
use sippet.Message.Header
use sippet.Message.Headers.{Headers, get}
use sippet.Message.Request.{Request, Response, clone_request}
use sippet.Transport.EndPoint.{EndPoint}
use sippet.Ua.Dialog.{Uris, Dialog, id}
use sippet.Ua.DialogStore
use sippet.Ua.DialogStore.{Store}
use sippet.Ua.Pointer.{Pointer, fault, null, at}

-- UserAgent::OutgoingRequestContext
pub record Context : Type 0 where
  pub original_request : Request
  pub outgoing_requests : List Request
  pub last_dialog : Option Dialog
  pub last_response : Response

-- A call of one delegate, by its number.
pub data Call : Type 0 where
  channel_connected : EndPoint → NetResult → Call
  channel_closed : EndPoint → Call
  incoming_request : Request → Option Dialog → Call
  incoming_response : Response → Option Dialog → Call
  timed_out : Request → Option Dialog → Call
  transport_error : Request → NetResult → Option Dialog → Call

-- What the user agent calls.
pub data Output : Type 0 where
  delegate : ℕ → Call → Output
  send_request : Request → Output
  send_response : Response → Output
  authenticate : Request → Response → Output

-- UserAgent
pub record UserAgent : Type 0 where
  pub handlers : List ℕ
  pub dialogs : Store
  pub outgoing_requests : List (Text × Context)
  pub log : List Output

-- AppendHandler
abbrev pub append_handler : ℕ → UserAgent → UserAgent
append_handler handler ua = record ua { handlers = ua.handlers ++ handler ∷ [] }

abbrev pub emit : Output → UserAgent → UserAgent
emit o ua = record ua { log = ua.log ++ o ∷ [] }

-- The loops over the handlers.
abbrev pub tell : Call → UserAgent → UserAgent
tell call ua = record ua { log = ua.log ++ map (λ handler. delegate handler call) ua.handlers }

-- OnChannelConnected
abbrev pub on_channel_connected : EndPoint → NetResult → UserAgent → UserAgent
on_channel_connected d err ua = tell (channel_connected d err) ua

-- OnChannelClosed
abbrev pub on_channel_closed : EndPoint → UserAgent → UserAgent
on_channel_closed d ua = tell (channel_closed d) ua

-- The dialog that a controller's handler leaves; a fault ends the handler.
abbrev pub with_dialogs :
    Pointer Dialog × Store
    → UserAgent
    → (Option Dialog → UserAgent → Option UserAgent)
    → Option UserAgent
with_dialogs (fault, s) ua k = none
with_dialogs (null, s) ua k = k none (record ua { dialogs = s })
with_dialogs (at d, s) ua k = k (some d) (record ua { dialogs = s })

-- OnIncomingRequest
unfoldable pub on_incoming_request : Request → UserAgent → Option UserAgent
on_incoming_request r ua =
    with_dialogs (DialogStore.handle_request r ua.dialogs) ua
      λ dialog ua. some (tell (incoming_request r dialog) ua)

-- OnTimedOut
unfoldable pub on_timed_out : Request → UserAgent → Option UserAgent
on_timed_out r ua =
    with_dialogs (DialogStore.handle_request_error r ua.dialogs) ua
      λ dialog ua. some (tell (timed_out r dialog) ua)

-- OnTransportError
unfoldable pub on_transport_error : Request → NetResult → UserAgent → Option UserAgent
on_transport_error r err ua =
    with_dialogs (DialogStore.handle_request_error r ua.dialogs) ua
      λ dialog ua. some (tell (transport_error r err dialog) ua)

-- Send, of a request
unfoldable pub send : Request → UserAgent → Option UserAgent
send r ua =
    with_dialogs (DialogStore.handle_request r ua.dialogs) ua
      λ dialog ua. some (emit (send_request r) ua)

-- Send, of a response
unfoldable pub respond : Uris → Response → UserAgent → Option UserAgent
respond uris s ua =
    with_dialogs (DialogStore.handle_response uris s ua.dialogs) ua
      λ dialog ua. some (emit (send_response s) ua)

-- OnResendRequestComplete
unfoldable pub on_resend_request_complete : Text → NetResult → UserAgent → UserAgent
on_resend_request_complete key rv ua = elim (find key ua.outgoing_requests) [
  | none ↦ ua
  | some c ↦ if is_ok rv then ua else tell (transport_error c.original_request rv c.last_dialog) ua
]

-- request->erase(find_first<Via>())
pub erase_via : Headers → Headers
erase_via [] = []
erase_via (h ∷ rest) = if is_some (Header.as_via h) then rest else h ∷ erase_via rest

-- The request to send again: what the authentication added stands at its end.
abbrev pub resent : Headers → Request → Request
unfolding erase_via
resent added r = record r { headers = erase_via (r.headers ++ added) }

abbrev pub after_send : Text → NetResult → UserAgent → UserAgent
unfolding on_resend_request_complete
after_send key rv ua = if is_pending rv then ua else on_resend_request_complete key rv ua

-- Changes the last request of a context: that request, and the list with it.
pub with_last : Headers → List Request → Option (Request × List Request)
unfolding resent
with_last added [] = none
with_last added (r ∷ []) = some (resent added r, resent added r ∷ [])
with_last added (r ∷ r' ∷ rs) =
    let rest = with_last added (r' ∷ rs) in
    elim rest [ none ↦ none | some (q, qs) ↦ some (q, r ∷ qs) ]

-- The context gets the list of its requests, and the last one is sent.
abbrev pub sending : Text → Context → Request × List Request → UserAgent → UserAgent
sending key c (q, qs) ua = emit (send_request q) (record ua {
  outgoing_requests = assign key (record c { outgoing_requests = qs }) ua.outgoing_requests;
})

-- Changes the last request of a context, and sends it.
pub send_last : Headers → NetResult → Text → Context → List Request → UserAgent → Option UserAgent
unfolding with_last after_send
send_last added sent key c rs ua = elim (with_last added rs) [
  | none ↦ none
  | some changed ↦ some (after_send key sent (sending key c changed ua))
]

-- OnAuthenticationComplete: the authentication added these headers to the last request, and `sent`
-- is what the network layer answers.
unfoldable pub on_authentication_complete :
    Headers → NetResult → Text → NetResult → UserAgent → Option UserAgent
unfolding send_last
on_authentication_complete added sent key rv ua = elim (find key ua.outgoing_requests) [
  | none ↦ some ua
  | some c ↦
      if is_ok rv
      then send_last added sent key c c.outgoing_requests ua
      else some (tell (incoming_response c.last_response c.last_dialog) ua)
]

abbrev pub is_challenge : ℕ → Bool
is_challenge code = code == 401 || code == 407

-- set_local_sequence, on a dialog that the store may share.
abbrev pub set_local_sequence : ℕ → Dialog → Store → Dialog × Store
set_local_sequence n d s =
    let d' = record d { local_sequence = n } in
    (d', if is_some (find (id d) s) then assign (id d) d' s else s)

-- The dialog follows the sequence of the request that goes out.
abbrev pub follow_sequence : Request → Option Dialog → Store → Option Dialog × Store
follow_sequence r none s = (none, s)
follow_sequence r (some d) s = elim (get Header.as_cseq r.headers) [
  | none ↦ (some d, s)
  | some cseq ↦ let (d', s') = set_local_sequence cseq.0 d s in (some d', s')
]

-- The context for a response to `r`: the one that is there, or a new one.
abbrev pub context_for : Request → Response → Option Context → Context
context_for r s (some c) = c
context_for r s none = record {
  original_request = r;
  outgoing_requests = [];
  last_dialog = none;
  last_response = s;
}

-- HandleChallengeAuthentication, up to the authentication: the context with the clone that goes out.
abbrev pub challenged : Request → Response → Option Dialog → UserAgent → Context × UserAgent
challenged r s dialog ua =
    let c = context_for r s (find r.id ua.outgoing_requests) in
    let outgoing = clone_request c.original_request in
    let (dialog', dialogs') = follow_sequence outgoing dialog ua.dialogs in
    let c' = record c {
      outgoing_requests = c.outgoing_requests ++ outgoing ∷ [];
      last_dialog = dialog';
      last_response = s;
    } in
    (
      c',
      record ua {
        dialogs = dialogs';
        outgoing_requests = assign r.id c' ua.outgoing_requests;
        log = ua.log ++ authenticate outgoing s ∷ [];
      },
    )

-- What an authentication answers at once, with the headers that it added, and the network layer.
pub record Answers : Type 0 where
  pub result : NetResult
  pub added : Headers
  pub sent : NetResult

-- The end of HandleChallengeAuthentication.
pub authenticated : Answers → Context × UserAgent → Option (Bool × Option Dialog × UserAgent)
unfolding on_authentication_complete
authenticated a (c, ua) =
    if is_pending a.result
    then some (true, c.last_dialog, ua)
    else if is_ok a.result
    then elim (on_authentication_complete a.added a.sent c.original_request.id a.result ua) [
      | none ↦ none
      | some ua' ↦ some (true, c.last_dialog, ua')
    ]
    else some (false, c.last_dialog, ua)

-- HandleChallengeAuthentication; with the dialog, whose sequence may have changed.
unfoldable pub handle_challenge_authentication :
    Answers → Response → Option Dialog → UserAgent → Option (Bool × Option Dialog × UserAgent)
unfolding authenticated
handle_challenge_authentication a s dialog ua =
    if not (is_challenge s.response_code) then some (false, dialog, ua) else elim s.refer_to [
      | none ↦ some (false, dialog, ua)
      | some r ↦ authenticated a (challenged r s dialog ua)
    ]

abbrev pub erase_all : List Request → List (Text × Context) → List (Text × Context)
erase_all [] m = m
erase_all (r ∷ rs) m = erase_all rs (erase r.id m)

-- The part of OnIncomingResponse that drops the context of a final response.
unfoldable pub drop_context : Response → List (Text × Context) → List (Text × Context)
drop_context s m =
    if leb 200 s.response_code
    then elim s.refer_to [
      | none ↦ m
      | some r ↦ elim (find r.id m) [
        | none ↦ m
        | some c ↦ erase_all c.outgoing_requests (erase c.original_request.id m)
      ]
    ]
    else m

-- The rest of OnIncomingResponse.
pub deliver : Response → Bool × Option Dialog × UserAgent → UserAgent
unfolding drop_context
deliver s (true, dialog, ua) = ua
deliver s (false, dialog, ua) =
    tell (incoming_response s dialog)
      (record ua { outgoing_requests = drop_context s ua.outgoing_requests })

-- OnIncomingResponse
unfoldable pub on_incoming_response : Uris → Answers → Response → UserAgent → Option UserAgent
unfolding handle_challenge_authentication deliver
on_incoming_response uris a s ua =
    with_dialogs (DialogStore.handle_response uris s ua.dialogs) ua λ dialog ua.
      elim (handle_challenge_authentication a s dialog ua) [
        | none ↦ none
        | some handled ↦ some (deliver s handled)
      ]
