-- ===== src/Ua/DialogStore/Tests.antt =====
-- Runs of the dialog store's handlers.
use sippet.Base.{ℕ, ◌≡◌, refl, false, true, [], ◌∷◌, none, some, codes}
use sippet.Base.Maps.{text_eq, find, insert, assign}
use sippet.Message.Method.{bye, invite}
use sippet.Message.Header.{Header}
use sippet.Message.Request.{Request, Response, outgoing, request_dialog_id, response_dialog_id}
use sippet.Message.Samples.{bob, tagged_bob, sample_request, sample_response, sample_headers}
use sippet.Ua.Dialog.{Uris, Dialog, confirmed, id, create}
use sippet.Message.Headers.{get, filter}
use sippet.Message.Params.{tag}
use sippet.Ua.DialogStore.{Store, handle_request, handle_response}
use sippet.Ua.DialogStore.Invariant.{IsValid, handle_all, handle_all-IsValid, response, request}
use sippet.Ua.DialogStore.Survival.{confirmed_survives, bye_removes}

abbrev sample_uris : Uris
sample_uris = record { is_sips = λ _. false; has_lr = λ _. true }

abbrev answered : ℕ → Response
answered code = record (sample_response code invite) {
  headers = Header.contact false (bob ∷ []) ∷ sample_headers invite tagged_bob;
  refer_to = some (sample_request outgoing invite);
}

abbrev sample_dialog : Dialog
sample_dialog = record {
  state = confirmed;
  call_id = codes "c1";
  local_tag = codes "at";
  remote_tag = codes "bt";
  has_local_sequence = true;
  local_sequence = 7;
  has_remote_sequence = false;
  remote_sequence = 0;
  local_uri = codes "sip:alice@a.com";
  remote_uri = codes "sip:bob@b.com";
  remote_target = codes "sip:bob@b.com";
  is_secure = false;
  route_set = [];
}

abbrev sample_store : Store
sample_store = (id sample_dialog, sample_dialog) ∷ []

sample_store-IsValid : IsValid sample_store
sample_store-IsValid = ((refl, λ e. cc e), tt)

-- An answered INVITE leaves its confirmed dialog in the store.
answered_lem :
    handle_all sample_uris (response (answered 180) ∷ response (answered 200) ∷ []) []
    ≡ sample_store
unfolding handle_response response_dialog_id create get tag insert find assign filter
answered_lem = refl

abbrev bye_request : Request
bye_request = record (sample_request outgoing bye) { headers = sample_headers bye tagged_bob }

handle_all-IsValid_example :
    IsValid
      (handle_all sample_uris (response (answered 180) ∷ request bye_request ∷ []) sample_store)
handle_all-IsValid_example =
    handle_all-IsValid sample_uris (response (answered 180) ∷ request bye_request ∷ []) sample_store
      sample_store-IsValid

confirmed_survives_example :
    find (id sample_dialog) (handle_response sample_uris (answered 486) sample_store).1
    ≡ some sample_dialog
unfolding find
confirmed_survives_example =
    confirmed_survives sample_uris (answered 486) sample_store (id sample_dialog)
      sample_store-IsValid refl refl

bye_removes_example : find (id sample_dialog) (handle_request bye_request sample_store).1 ≡ none
unfolding request_dialog_id get tag
bye_removes_example =
    bye_removes bye_request sample_store (id sample_dialog) (id sample_dialog) refl refl
