-- ===== src/Phone/Call/Tests.antt =====
-- Runs of a call.
use sippet.Base.{
  ℕ, ◌≡◌, refl, ◌&&◌, false, true, not, List, [], ◌∷◌, ◌++◌, none, some, leb, codes, ok, pending,
  error, other_error,
}
use sippet.Message.Header.{Header}
use sippet.Message.Headers.{get, clones}
use sippet.Message.Atom.{known}
use sippet.Message.Method.{ack, invite}
use sippet.Message.Request.{Request, Response, outgoing}
use sippet.Message.Samples.{sample_via, sample_request, sample_response}
use sippet.Phone.Call.{
  on_make_call, on_create_offer_completed, Call, calling, established, terminated, Output,
  completed, request_sent, new_outgoing, is_terminated, was_removed,
}
use sippet.Phone.CompletionStatus.{status_code_to_completion_status}
use sippet.Phone.Call.Sending.{Answers}
use sippet.Phone.Call.Handlers.{on_incoming_response}
use sippet.Phone.Call.History.{Event, making, offered, hanging_up, response_in, run, run-Fine}
use sippet.Phone.Call.HungUp.{IsUnsuccessful, heard, hung_up_is_silent}
use sippet.Phone.Call.Flow.{ack_error, answer_taken, established_lem}
use sippet.Phone.Call.Order.{rank}
use sippet.Ua.Dialog
use sippet.Ua.Dialog.{Dialog, confirmed, create_request_internal}

abbrev sent_invite : Request
sent_invite = sample_request outgoing invite

abbrev response_to : ℕ → Response
response_to code = record (sample_response code invite) {
  headers = Header.content_type (codes "application") (codes "sdp") ∷ [];
  refer_to = some sent_invite;
}

abbrev answers : Answers
answers = record {
  uris = record { is_sips = λ _. false; has_lr = λ _. true };
  sent = pending;
  is_sdp = λ _. true;
  random = 5;
  guid = codes "g2";
}

abbrev sample_dialog : Dialog
sample_dialog = record {
  state = confirmed;
  call_id = codes "c1";
  local_tag = codes "at";
  remote_tag = codes "bt";
  has_local_sequence = true;
  local_sequence = 7;
  has_remote_sequence = false;
  remote_sequence = 0;
  local_uri = codes "sip:alice@a.com";
  remote_uri = codes "sip:bob@b.com";
  remote_target = codes "sip:bob@b.com";
  is_secure = false;
  route_set = [];
}

abbrev offering : Call
offering = record new_outgoing { has_peer = true; last_request = some sent_invite }

pub ack_request : Request
unfolding create_request_internal
ack_request = create_request_internal answers.uris sample_dialog (known ack) 7 (codes "g2")

abbrev the_ack : Request
unfolding ack_request
the_ack = record ack_request { headers = Header.via (sample_via ∷ []) ∷ ack_request.headers }

established_lem_example :
    on_incoming_response answers (response_to 200) (some sample_dialog) offering
    ≡ some (record offering {
      state = established;
      dialog = some sample_dialog;
      log =
          request_sent the_ack
          ∷ (ack_error pending ++ (answer_taken answers (response_to 200) ++ completed ok ∷ []));
    })
unfolding Dialog.create_ack get clones the_ack
established_lem_example =
    established_lem answers (response_to 200) sample_dialog the_ack sent_invite offering refl refl
      refl refl refl refl

abbrev events : List Event
events =
    making true ∷ offered sent_invite [] pending ∷ response_in answers (response_to 486) none ∷ []

abbrev offered_invite : Request
offered_invite = record sent_invite {
  headers = sent_invite.headers ++ Header.content_type (codes "application") (codes "sdp") ∷ [];
}

abbrev refused : Call
refused = record new_outgoing {
  state = terminated;
  has_peer = true;
  last_request = some offered_invite;
  log =
      Output.offer_asked
      ∷ request_sent offered_invite
      ∷ completed (error (other_error 1486))
      ∷ Output.removed
      ∷ [];
}

events_lem : run events new_outgoing ≡ some refused
unfolding run on_incoming_response on_make_call on_create_offer_completed
    status_code_to_completion_status
events_lem = refl

run-Fine_example :
    (leb (rank calling) (rank terminated) ≡ true)
    × ((was_removed refused.log && not (is_terminated terminated)) ≡ false)
unfolding was_removed
run-Fine_example = run-Fine events new_outgoing refused refl events_lem

ringing-IsUnsuccessful : IsUnsuccessful (response_to 180)
ringing-IsUnsuccessful = record {
  request = sent_invite;
  refers = refl;
  of_invite = refl;
  no_success = refl;
}

refused-IsUnsuccessful : IsUnsuccessful (response_to 486)
refused-IsUnsuccessful = record {
  request = sent_invite;
  refers = refl;
  of_invite = refl;
  no_success = refl;
}

hung_up_is_silent_example :
    (c : Call) × (run
        (hanging_up answers
          ∷ heard (
              (answers, response_to 180, some sample_dialog)
              ∷ (answers, response_to 486, none)
              ∷ []))
        offering
      ≡ some c)
    × (c.log ≡ [])
    × (c.state ≡ terminated)
hung_up_is_silent_example =
    hung_up_is_silent answers
      ((answers, response_to 180, some sample_dialog) ∷ (answers, response_to 486, none) ∷ [])
      offering refl (ringing-IsUnsuccessful, (refused-IsUnsuccessful, tt))
