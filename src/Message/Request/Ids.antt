-- ===== src/Message/Request/Ids.antt =====
-- What GetDialogId of request.cc and response.cc returns where the headers are there.
use sippet.Base.{◌≡◌, some, if◌then◌else◌, Text}
use sippet.Message.Header.{Address}
use sippet.Message.Header
use sippet.Message.Headers.{get}
use sippet.Message.Params.{tag}
use sippet.Message.Request.{
  Request, Response, is_incoming, request_dialog_id, response_dialog_id, dialog_id, or_empty,
  tag_of,
}

pub response_dialog_id_lem :
    (s : Response) {c x y : Text}
    → get Header.as_call_id s.headers ≡ some c
    → tag_of (get Header.as_from s.headers) ≡ some x
    → tag_of (get Header.as_to s.headers) ≡ some y
    → response_dialog_id s
      ≡ some (if is_incoming s.direction then dialog_id c x y else dialog_id c y x)
unfolding response_dialog_id
response_dialog_id_lem s hc hf ht =
    rw (hc, response_dialog_id) (rw (hf, response_dialog_id) (rw (ht, response_dialog_id)))

pub request_dialog_id_lem :
    (r : Request) {c : Text} {f t : Address}
    → get Header.as_call_id r.headers ≡ some c
    → get Header.as_from r.headers ≡ some f
    → get Header.as_to r.headers ≡ some t
    → request_dialog_id r
      ≡ some (
          if is_incoming r.direction
          then dialog_id c (or_empty (tag t.params)) (or_empty (tag f.params))
          else dialog_id c (or_empty (tag f.params)) (or_empty (tag t.params)))
unfolding request_dialog_id
request_dialog_id_lem r hc hf ht =
    rw (hc, request_dialog_id) (rw (hf, request_dialog_id) (rw (ht, request_dialog_id)))
