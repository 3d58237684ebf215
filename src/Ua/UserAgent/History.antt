-- ===== src/Ua/UserAgent/History.antt =====
-- The events that the network layer, the authentication and the client give to ua_user_agent.cc.
use sippet.Base.{
  ℕ, ◌≡◌, subst, List, [], ◌∷◌, Option, none, some, Text, NetResult, Option-cases, inl, inr,
}
use mathlib.Core.Option.{some-injective}
use sippet.Message.Headers.{Headers}
use sippet.Message.Request.{Request, Response}
use sippet.Transport.EndPoint.{EndPoint}
use sippet.Ua.Dialog.{Uris}
use sippet.Ua.DialogStore
use sippet.Ua.UserAgent.{
  UserAgent, Answers, append_handler, on_channel_connected, on_channel_closed, on_incoming_request,
  on_timed_out, on_transport_error, send, respond, on_resend_request_complete,
  on_authentication_complete, on_incoming_response,
}
use sippet.Ua.UserAgent.Consistency.{
  IsConsistent, IsConsistentResult, with_dialogs-IsConsistent,
  on_resend_request_complete-IsConsistent, on_authentication_complete-IsConsistent,
  on_incoming_response-IsConsistent,
}

-- A call of the user agent, with what stands outside answers in it.
pub data Event : Type 0 where
  handler_appended : ℕ → Event
  connected : EndPoint → NetResult → Event
  closed : EndPoint → Event
  request_in : Request → Event
  response_in : Uris → Answers → Response → Event
  request_timed_out : Request → Event
  request_failed : Request → NetResult → Event
  request_out : Request → Event
  response_out : Uris → Response → Event
  authenticated : Headers → NetResult → Text → NetResult → Event
  resend_completed : Text → NetResult → Event

abbrev pub handle : Event → UserAgent → Option UserAgent
handle (handler_appended n) ua = some (append_handler n ua)
handle (connected d err) ua = some (on_channel_connected d err ua)
handle (closed d) ua = some (on_channel_closed d ua)
handle (request_in r) ua = on_incoming_request r ua
handle (response_in uris a s) ua = on_incoming_response uris a s ua
handle (request_timed_out r) ua = on_timed_out r ua
handle (request_failed r err) ua = on_transport_error r err ua
handle (request_out r) ua = send r ua
handle (response_out uris s) ua = respond uris s ua
handle (authenticated added sent key rv) ua = on_authentication_complete added sent key rv ua
handle (resend_completed key rv) ua = some (on_resend_request_complete key rv ua)

-- The state after a sequence of events; `none`, where one of them faults.
unfoldable pub run : List Event → UserAgent → Option UserAgent
run [] ua = some ua
run (e ∷ es) ua = elim (handle e ua) [ none ↦ none | some ua' ↦ run es ua' ]

handle-IsConsistent :
    (e : Event) (ua : UserAgent) → IsConsistent ua → IsConsistentResult (handle e ua)
unfolding on_incoming_request on_timed_out on_transport_error send respond
handle-IsConsistent (handler_appended n) ua h = h
handle-IsConsistent (connected d err) ua h = h
handle-IsConsistent (closed d) ua h = h
handle-IsConsistent (request_in r) ua h =
    with_dialogs-IsConsistent (DialogStore.handle_request r ua.dialogs) ua _ λ d s. h
handle-IsConsistent (response_in uris a s) ua h = on_incoming_response-IsConsistent uris a s ua h
handle-IsConsistent (request_timed_out r) ua h =
    with_dialogs-IsConsistent (DialogStore.handle_request_error r ua.dialogs) ua _ λ d s. h
handle-IsConsistent (request_failed r err) ua h =
    with_dialogs-IsConsistent (DialogStore.handle_request_error r ua.dialogs) ua _ λ d s. h
handle-IsConsistent (request_out r) ua h =
    with_dialogs-IsConsistent (DialogStore.handle_request r ua.dialogs) ua _ λ d s. h
handle-IsConsistent (response_out uris s) ua h =
    with_dialogs-IsConsistent (DialogStore.handle_response uris s ua.dialogs) ua _ λ d s. h
handle-IsConsistent (authenticated added sent key rv) ua h =
    let (ua', e, k) = on_authentication_complete-IsConsistent added sent key rv ua h in rw e k
handle-IsConsistent (resend_completed key rv) ua h =
    on_resend_request_complete-IsConsistent key rv ua h

-- Whatever happens, in any order, a context stands under the id of the request that it was made
-- for, every clone of it that the context keeps has that id, and it keeps one at least.
pub run-IsConsistent :
    (es : List Event) (ua : UserAgent) (ua' : UserAgent)
    → IsConsistent ua
    → run es ua ≡ some ua'
    → IsConsistent ua'
unfolding run
run-IsConsistent [] ua ua' h e = subst IsConsistent (some-injective ua ua' e) h
run-IsConsistent (x ∷ es) ua ua' h e = elim (Option-cases (handle x ua)) [
  | inl n ↦ absurd (cc (subst (λ o. rest o ≡ some ua') n e))
  | inr (ua'', n) ↦
      run-IsConsistent es ua'' ua' (subst IsConsistentResult n (handle-IsConsistent x ua h))
        (subst (λ o. rest o ≡ some ua') n e)
]
  where
    rest : Option UserAgent → Option UserAgent
    rest o = elim o [ none ↦ none | some u ↦ run es u ]
