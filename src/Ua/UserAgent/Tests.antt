-- ===== src/Ua/UserAgent/Tests.antt =====
-- Runs of the user agent.
use sippet.Base.{
  codes, ℕ, ◌≡◌, refl, false, true, List, [], ◌∷◌, ◌++◌, map, none, some, leb, ◌&&◌, if◌then◌else◌,
  ok, pending, inl,
}
use sippet.Base.Maps.{text_eq, find, assign}
use sippet.Message.Header.{Header}
use sippet.Message.Header
use sippet.Message.Headers.{get}
use sippet.Message.Method.{invite}
use sippet.Message.Request.{Request, Response, outgoing, clone_request, response_dialog_id}
use sippet.Message.Params.{tag}
use sippet.Message.Samples.{sample_request, sample_response}
use sippet.Ua.Dialog.{Uris}
use sippet.Ua.DialogStore
use sippet.Ua.UserAgent.{
  UserAgent, Answers, delegate, incoming_response, authenticate, send_request, resent, challenged,
  on_incoming_response,
}
use sippet.Ua.UserAgent.Consistency.{IsConsistent}
use sippet.Ua.UserAgent.History.{
  Event, run, run-IsConsistent, handler_appended, response_in, resend_completed,
}
use sippet.Ua.UserAgent.Delivery.{has_id, on_incoming_response_lem}
use sippet.Ua.UserAgent.Create.{SipUri, Fresh}

abbrev no_uris : Uris
no_uris = record { is_sips = λ _. false; has_lr = λ _. true }

abbrev sent_invite : Request
sent_invite = sample_request outgoing invite

abbrev response_to : ℕ → Response
response_to code = record (sample_response code invite) { refer_to = some sent_invite }

abbrev fresh : UserAgent
fresh = record { handlers = 1 ∷ 2 ∷ []; dialogs = []; outgoing_requests = []; log = [] }

-- The authentication has the credentials, and adds a header.
abbrev at_once : Answers
at_once = record { result = ok; added = Header.max_forwards 70 ∷ []; sent = pending }

abbrev challenged_once : UserAgent
challenged_once = record fresh {
  outgoing_requests =
      (
        sent_invite.id,
        record (challenged sent_invite (response_to 401) none fresh).0 {
          outgoing_requests = resent at_once.added (clone_request sent_invite) ∷ [];
        },
      )
      ∷ [];
  log =
      authenticate (clone_request sent_invite) (response_to 401)
      ∷ send_request (resent at_once.added (clone_request sent_invite))
      ∷ [];
}

once_lem : on_incoming_response no_uris at_once (response_to 401) fresh ≡ some challenged_once
unfolding on_incoming_response DialogStore.handle_response get find assign tag response_dialog_id
    resent
once_lem = refl

challenged_once-IsConsistent : IsConsistent challenged_once
unfolding clone_request find resent
challenged_once-IsConsistent =
    (record { original = refl; clones = (refl, tt); has_clone = λ e. cc e }, tt)

fresh-IsConsistent : IsConsistent fresh
fresh-IsConsistent = tt

abbrev events : List Event
events =
    response_in no_uris at_once (response_to 401)
    ∷ resend_completed sent_invite.id ok
    ∷ handler_appended 3
    ∷ []

events_lem : run events fresh ≡ some (record challenged_once { handlers = 1 ∷ 2 ∷ 3 ∷ [] })
unfolding run on_incoming_response DialogStore.handle_response get find assign tag
    response_dialog_id resent
events_lem = refl

run-IsConsistent_example : IsConsistent (record challenged_once { handlers = 1 ∷ 2 ∷ 3 ∷ [] })
run-IsConsistent_example =
    run-IsConsistent events fresh (record challenged_once { handlers = 1 ∷ 2 ∷ 3 ∷ [] })
      fresh-IsConsistent events_lem

on_incoming_response_lem_example :
    (ua' : UserAgent) × (on_incoming_response no_uris at_once (response_to 404) challenged_once
      ≡ some ua')
    × (ua'.log
        ≡ challenged_once.log
          ++ map
              (λ handler. delegate handler (incoming_response (response_to 404) none))
              (1 ∷ 2 ∷ []))
    × (ua'.dialogs
        ≡ (DialogStore.handle_response no_uris (response_to 404) challenged_once.dialogs).1)
    × (ua'.handlers ≡ 1 ∷ 2 ∷ [])
    × (find sent_invite.id ua'.outgoing_requests ≡ (
        if leb 200 404 && has_id sent_invite.id (some sent_invite)
        then none
        else find sent_invite.id challenged_once.outgoing_requests))
unfolding DialogStore.handle_response get tag response_dialog_id find
on_incoming_response_lem_example =
    on_incoming_response_lem no_uris at_once (response_to 404) challenged_once none sent_invite.id
      challenged_once-IsConsistent (inl refl) refl

abbrev sip : SipUri
sip = record { is_valid = λ _. true; has_lr = λ _. false; with_empty_headers = λ u. u }

abbrev random : Fresh
random = record {
  from_tag = codes "at";
  call_id = codes "c1";
  sequence = 0;
  guid = codes "g1";
  instance_id = codes "i1";
}
