-- ===== src/Ua/Dialog/Tests.antt =====
-- Runs of the dialog's operations.
use sippet.Base.{◌≡◌, refl, false, true, [], ◌∷◌, some, codes, if◌then◌else◌, ◌==◌, ◌/◌}
use sippet.Message.Atom.{known}
use sippet.Message.Header.{Header}
use sippet.Message.Header
use sippet.Message.Headers.{get}
use sippet.Message.Params.{tag}
use sippet.Message.Method.{bye, invite}
use sippet.Message.Request.{Request, Response, outgoing, request_dialog_id, response_dialog_id}
use sippet.Message.Samples.{bob, tagged_bob, sample_request, sample_response, sample_headers}
use sippet.Ua.Dialog.{
  Uris, Dialog, early, confirmed, id, create, create_request, create_request_internal,
}
use sippet.Ua.Dialog.Identity.{create_outgoing_lem}
use sippet.Ua.Dialog.Requests.{hops, advanced, create_request_internal-hops, create_request_lem}
use sippet.Ua.Pointer.{at}

abbrev loose_uris : Uris
loose_uris = record { is_sips = λ _. false; has_lr = λ _. true }

abbrev dialog : Dialog
dialog = record {
  state = confirmed;
  call_id = codes "c1";
  local_tag = codes "bt";
  remote_tag = codes "at";
  has_local_sequence = true;
  local_sequence = 4294967295;
  has_remote_sequence = false;
  remote_sequence = 0;
  local_uri = codes "sip:bob@b.com";
  remote_uri = codes "sip:alice@a.com";
  remote_target = codes "sip:a@10.0.0.2";
  is_secure = false;
  route_set = codes "sip:p1;lr" ∷ codes "sip:p2;lr" ∷ [];
}

abbrev invited : Request
invited = sample_request outgoing invite

abbrev ringing : Response
ringing = record (sample_response 180 invite) {
  headers = Header.contact false (bob ∷ []) ∷ sample_headers invite tagged_bob;
  refer_to = some invited;
}

create_outgoing_lem_example :
    (d : Dialog) × (create loose_uris ringing ≡ at d)
    × (response_dialog_id ringing ≡ some (id d))
    × (d.state ≡ (if 180 / 100 == 1 then early else confirmed))
    × (d.has_local_sequence ≡ true)
    × (d.local_sequence ≡ 7)
    × (d.remote_target ≡ codes "sip:bob@b.com")
unfolding get tag
create_outgoing_lem_example =
    create_outgoing_lem loose_uris ringing invited refl refl refl refl refl refl refl refl refl refl
      refl refl refl

create_request_internal-hops_example :
    hops true (create_request_internal loose_uris dialog (known bye) 8 (codes "g"))
    ≡ codes "sip:p1;lr" ∷ codes "sip:p2;lr" ∷ codes "sip:a@10.0.0.2" ∷ []
create_request_internal-hops_example =
    create_request_internal-hops loose_uris dialog (known bye) 8 (codes "g")

create_request_lem_example :
    (r : Request) × (create_request loose_uris dialog (known bye) 5 (codes "g")
      ≡ (some r, advanced 5 dialog))
    × (request_dialog_id r ≡ some (id dialog))
    × (get Header.as_cseq r.headers ≡ some (0, known bye))
create_request_lem_example =
    create_request_lem loose_uris dialog (known bye) 5 (codes "g") refl refl
