-- ===== src/Message/Request/Tests.antt =====
-- Runs of request.cc.
use sippet.Base.{◌≡◌, refl, none, some, arith, codes, [], ◌∷◌, ok}
use sippet.Message.Atom.{known}
use sippet.Message.Header
use sippet.Message.Headers.{get}
use sippet.Message.Method.{ack, invite}
use sippet.Message.Params.{tag}
use sippet.Message.Request.{
  Request, Response, incoming, outgoing, create_ack, create_response, response_dialog_id, dialog_id,
  tagged,
}
use sippet.Message.Request.Create.{create_response-dialog_id}
use sippet.Message.Request.Ack.{create_ack_lem}
use sippet.Message.Samples.{sample_request, sample_via, alice, bob}

create_response-dialog_id_example :
    (s : Response) × (create_response (sample_request incoming invite) 180 [] 0 (codes "new")
      ≡ some s)
    × (response_dialog_id s ≡ some (dialog_id (codes "c1") (codes "new") (codes "at")))
unfolding get tag
create_response-dialog_id_example =
    create_response-dialog_id (sample_request incoming invite) 180 [] 0 (codes "new") (omega arith)
      refl refl refl refl refl

create_ack_lem_example :
    (a : Request) × (create_ack (sample_request outgoing invite) (codes "bt") (codes "g2") none
      ≡ (ok, some a))
    × (a.method ≡ known ack)
    × (a.request_uri ≡ codes "sip:bob@b.com")
    × (get Header.as_via a.headers ≡ some (sample_via ∷ []))
    × (get Header.as_from a.headers ≡ some alice)
    × (get Header.as_to a.headers ≡ some (tagged (codes "bt") bob))
    × (get Header.as_call_id a.headers ≡ some (codes "c1"))
    × (get Header.as_cseq a.headers ≡ some (7, known ack))
unfolding get
create_ack_lem_example =
    create_ack_lem (sample_request outgoing invite) (codes "bt") (codes "g2") none refl refl refl
      refl refl refl
