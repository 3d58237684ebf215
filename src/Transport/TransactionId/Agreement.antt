-- ===== src/Transport/TransactionId/Agreement.antt =====
-- Which ids of network_layer.cc find the transaction again.
use mathlib.Core.List.{append_cancel_left, append_cancel_right}
use mathlib.Core.Option.{some-injective}
use sippet.Base.{
  ℕ, ◌<◌, ◌≡◌, ◌≢◌, refl, sym, ◌∙◌, ap, true, false, List, [], ◌∷◌, Option, none, some, Text, codes,
  starts_with,
}
use sippet.Message.Header.{ViaParam, Address}
use sippet.Message.Header
use sippet.Message.Headers.{Headers, get}
use sippet.Message.Method.{Method, ack, is_method}
use sippet.Message.Params.{branch, tag}
use sippet.Message.Request.{Request, Response, incoming, create_response, or_empty, tag_of}
use sippet.Message.Request.Create.{create_response-Answers, or_fresh}
use sippet.Transport.TransactionId.{
  Printers, magic_cookie, branch_id, client_request_id, client_response_id, server_request_id,
  server_response_id, fallback_text, fallback_id, server_id, magic_branch, ack_as_invite,
}

-- A response with the topmost Via and the CSeq of a request has the request's id.
pub client_ids-agree :
    (r : Request) (s : Response) {v : ViaParam} {vs : List ViaParam} {n : ℕ} {b : Text}
    → get Header.as_via r.headers ≡ some (v ∷ vs)
    → get Header.as_via s.headers ≡ some (v ∷ vs)
    → get Header.as_cseq s.headers ≡ some (n, r.method)
    → branch v.params ≡ some b
    → client_response_id s ≡ client_request_id r
unfolding client_response_id client_request_id
client_ids-agree r s hv hv' hq hb = rw (hv, hv', hq) refl

magic_id :
    (p : Printers) (v : ViaParam) (m : Method) (fallback : Option Text) {b : Text}
    → branch v.params ≡ some b
    → starts_with b magic_cookie ≡ true
    → server_id p (some (some v)) m fallback ≡ some (branch_id p v b m)
magic_id p v m fallback hb magic = rw (hb, server_id, magic_branch) (rw magic refl)

no_magic_id :
    (p : Printers) (v : ViaParam) (m : Method) (fallback : Option Text)
    → branch v.params ≡ none
    → server_id p (some (some v)) m fallback ≡ fallback
no_magic_id p v m fallback hb = rw (hb, server_id, magic_branch) refl

-- A response above 100 to an incoming request other than ACK, whose topmost branch has the magic
-- cookie and whose CSeq names its method, finds the server transaction of the request.
pub server_ids-agree :
    (p : Printers) (r : Request) (code : ℕ) (reason : Text) (delay : ℕ) (fresh : Text)
    {v : ViaParam} {vs : List ViaParam} {n : ℕ} {b : Text}
    → 100 < code
    → r.direction ≡ incoming
    → get Header.as_via r.headers ≡ some (v ∷ vs)
    → get Header.as_cseq r.headers ≡ some (n, r.method)
    → is_method ack r.method ≡ false
    → branch v.params ≡ some b
    → starts_with b magic_cookie ≡ true
    → (s : Response) × (create_response r code reason delay fresh ≡ some s)
      × (server_request_id p r ≡ some (branch_id p v b r.method))
      × (server_response_id p s ≡ some (branch_id p v b r.method))
unfolding server_request_id server_response_id
server_ids-agree p r code reason delay fresh {v} above inc hv hq na hb magic =
    let (s, made, a) = create_response-Answers r code reason delay fresh above inc in
    (
      s,
      made,
      rw hv (magic_id p v (ack_as_invite r.method) _ hb magic ∙ rw na refl),
      rw (a.same_cseq _ hq, server_response_id)
          (rw (a.same_via _ hv) (magic_id p v r.method _ hb magic)),
    )

tag_of-some :
    (o : Option Address) {x : Text}
    → tag_of o ≡ some x
    → (t : Address) × (o ≡ some t) × (tag t.params ≡ some x)
tag_of-some none e = absurd (cc e)
tag_of-some (some t) e = (t, refl, e)

fallback_id_lem :
    (p : Printers) (v : Option ViaParam) (h : Headers) (m : Method) (n : ℕ) (m' : Method)
    {t f : Address} {c : Text}
    → get Header.as_to h ≡ some t
    → get Header.as_from h ≡ some f
    → get Header.as_call_id h ≡ some c
    → fallback_id p v h m (some (n, m'))
      ≡ some (
          fallback_text p v
            (or_empty (tag t.params))
            (or_empty (tag f.params))
            c
            n
            (ack_as_invite m))
unfolding fallback_id
fallback_id_lem p v h m n m' ht hf hc =
    rw (ht, fallback_id) (rw (hf, fallback_id) (rw (hc, fallback_id) refl))

-- An incoming request as an RFC 2543 implementation sends it, whose branch is missing and whose To
-- has no tag yet, has an id that no response above 100 with a fresh tag finds: the tag of the
-- response is a part of its id.
pub fallback_ids-differ :
    (p : Printers) (r : Request) (code : ℕ) (reason : Text) (delay : ℕ) (fresh : Text)
    {v : ViaParam} {vs : List ViaParam} {n : ℕ} {f t : Address} {c : Text}
    → 100 < code
    → r.direction ≡ incoming
    → get Header.as_via r.headers ≡ some (v ∷ vs)
    → get Header.as_cseq r.headers ≡ some (n, r.method)
    → get Header.as_from r.headers ≡ some f
    → get Header.as_to r.headers ≡ some t
    → get Header.as_call_id r.headers ≡ some c
    → branch v.params ≡ none
    → tag t.params ≡ none
    → fresh ≢ []
    → (s : Response) × (create_response r code reason delay fresh ≡ some s)
      × (server_response_id p s ≢ server_request_id p r)
unfolding server_request_id server_response_id fallback_id
fallback_ids-differ p r code reason delay fresh {v} {vs} {n} {f} {t} {c} above inc hv hq hf ht hc hb
      no_tag ne =
    let (s, made, a) = create_response-Answers r code reason delay fresh above inc in
    let (t', to, tagged) =
      tag_of-some _ (a.tagged_to _ ht ∙ ap (λ o. some (or_fresh fresh o)) no_tag) in
    let asked : server_request_id p r
        ≡ some
            (fallback_text p (some v) [] (or_empty (tag f.params)) c n (ack_as_invite r.method)) =
      rw (hv, hq)
        (no_magic_id p v (ack_as_invite r.method) _ hb
          ∙ fallback_id_lem p (some v) r.headers r.method n r.method ht hf hc
          ∙ rw no_tag refl) in
    let answered : server_response_id p s
        ≡ some (
            fallback_text p (some v) fresh (or_empty (tag f.params)) c n (ack_as_invite r.method)) =
      rw (a.same_cseq _ hq, server_response_id)
        (rw (a.same_via _ hv) (
          no_magic_id p v r.method _ hb
          ∙ fallback_id_lem p (some v) s.headers r.method n r.method to (a.same_from _ hf)
              (a.same_call_id _ hc)
          ∙ rw tagged refl)) in
    (
      s,
      made,
      λ e. ne (
          append_cancel_right fresh [] _
            (append_cancel_left (codes "s:") _ _ (some-injective _ _ (sym answered ∙ e ∙ asked)))),
    )
