-- ===== src/Message/Request/Ack.antt =====
-- The ACK that Request::CreateAck builds for the transaction layer, and Request::CloneRequest.
use sippet.Base.{
  ℕ, ◌+◌, ◌%◌, ◌^◌, ◌≡◌, refl, sym, ◌∙◌, true, false, Option, none, some, arith, Text, ok, error,
  NetError, ◌⊎◌, ◌↔◌, List, not_implemented, unexpected,
}
use sippet.Message.Atom.{known}
use sippet.Message.Header.{Header, Address, ViaParam}
use sippet.Message.Header
use sippet.Message.Headers.{get}
use sippet.Message.Headers.Laws.{
  from-IsClass, to-IsClass, call_id-IsClass, cseq-IsClass, get-modify_other, get-modify,
}
use sippet.Message.Method.{Method, ack, invite, is_method}
use sippet.Message.Request.{
  Request, outgoing, request_dialog_id, creation_result, create_ack, new_request, ack_headers,
  tagged, clone_request,
}
use sippet.Message.Request.Ids.{request_dialog_id_lem}
use sippet.Message.Request.Create.{picks}

creation_ok :
    (r : Request) {v : List ViaParam} {f t : Address} {c : Text} {n : ℕ × Method}
    → is_method invite r.method ≡ true
    → get Header.as_via r.headers ≡ some v
    → get Header.as_from r.headers ≡ some f
    → get Header.as_to r.headers ≡ some t
    → get Header.as_call_id r.headers ≡ some c
    → get Header.as_cseq r.headers ≡ some n
    → creation_result r ≡ ok
creation_ok r hm hv hf ht hc hs = rw (hm, hv, hf, ht, hc, hs)

create_ack_succeeds :
    (r : Request) (x guid : Text) (old : Option Request)
    → creation_result r ≡ ok
    → create_ack r x guid old ≡ (
      ok,
      some (record (new_request (known ack) r.request_uri guid) {
        headers = ack_headers x r.headers;
      }),
    )
unfolding create_ack
create_ack_succeeds r x guid old e = rw (e, create_ack)

-- The ACK of a sent INVITE can be built, and goes to the same place in the same transaction: it
-- keeps the request's URI, topmost Via, From and Call-ID, has the sequence number with the method
-- ACK, and the To header with the remote tag, if one is given.
pub create_ack_lem :
    (r : Request) (x guid : Text) (old : Option Request) {v : List ViaParam} {f t : Address}
    {c : Text} {n : ℕ} {m : Method}
    → is_method invite r.method ≡ true
    → get Header.as_via r.headers ≡ some v
    → get Header.as_from r.headers ≡ some f
    → get Header.as_to r.headers ≡ some t
    → get Header.as_call_id r.headers ≡ some c
    → get Header.as_cseq r.headers ≡ some (n, m)
    → (a : Request) × (create_ack r x guid old ≡ (ok, some a))
      × (a.method ≡ known ack)
      × (a.request_uri ≡ r.request_uri)
      × (get Header.as_via a.headers ≡ some v)
      × (get Header.as_from a.headers ≡ some f)
      × (get Header.as_to a.headers ≡ some (tagged x t))
      × (get Header.as_call_id a.headers ≡ some c)
      × (get Header.as_cseq a.headers ≡ some (n, known ack))
unfolding ack_headers get
create_ack_lem r x guid old hm hv hf ht hc hs = (
  record (new_request (known ack) r.request_uri guid) { headers = ack_headers x r.headers },
  create_ack_succeeds r x guid old (creation_ok r hm hv hf ht hc hs),
  refl,
  refl,
  simp (picks, hv),
  simp (picks, hf),
  simp (picks, ht),
  simp (picks, ht, hc),
  simp (picks, ht, hc, hs),
)

-- CreateAck fails on anything but an INVITE with From, To, CSeq, Call-ID and Via, and then leaves
-- the out parameter as it was.
pub create_ack_fails :
    (r : Request) (x guid : Text) (old : Option Request) (e : NetError)
    → (create_ack r x guid old ≡ (error e, old)) ↔ (
        ((is_method invite r.method ≡ false) × (e ≡ not_implemented))
        ⊎ ((is_method invite r.method ≡ true)
            × ((get Header.as_from r.headers ≡ none)
                ⊎ (get Header.as_to r.headers ≡ none)
                ⊎ (get Header.as_cseq r.headers ≡ none)
                ⊎ (get Header.as_call_id r.headers ≡ none)
                ⊎ (get Header.as_via r.headers ≡ none))
            × (e ≡ unexpected)))
unfolding create_ack
create_ack_fails r x guid old e = (ground arith, ground arith)

-- A clone of an outgoing request belongs to the same dialog, with the next sequence number.
pub clone_request_lem :
    (r : Request) {f t : Address} {c : Text} {n : ℕ} {m : Method}
    → r.direction ≡ outgoing
    → get Header.as_from r.headers ≡ some f
    → get Header.as_to r.headers ≡ some t
    → get Header.as_call_id r.headers ≡ some c
    → get Header.as_cseq r.headers ≡ some (n, m)
    → (request_dialog_id (clone_request r) ≡ request_dialog_id r)
      × (get Header.as_cseq (clone_request r).headers ≡ some ((n + 1) % 2 ^ 32, m))
      × ((clone_request r).id ≡ r.id)
unfolding clone_request
clone_request_lem r out hf ht hc hs = (
  request_dialog_id_lem (clone_request r)
        (get-modify_other _ _ 3 4 next call_id-IsClass cseq-IsClass (omega arith) (λ b. refl)
            r.headers
          ∙ hc)
        (get-modify_other _ _ 1 4 next from-IsClass cseq-IsClass (omega arith) (λ b. refl) r.headers
          ∙ hf)
        (get-modify_other _ _ 2 4 next to-IsClass cseq-IsClass (omega arith) (λ b. refl) r.headers
          ∙ ht)
      ∙ sym (simp out at (request_dialog_id_lem r hc hf ht)),
  get-modify Header.as_cseq (λ c. Header.cseq c.0 c.1) (λ c. ((c.0 + 1) % 2 ^ 32, c.1)) (λ a. refl)
        r.headers
      ∙ rw hs,
  refl,
)
  where
    next : ℕ × Method → Header
    next c = Header.cseq ((c.0 + 1) % 2 ^ 32) c.1
