-- ===== src/Transport/Stamp/Return.antt =====
-- A response finds its way back to where the request came from.
use sippet.Base.{
  ℕ, ◌<◌, ◌≡◌, refl, ◌∙◌, ap, List, ◌∷◌, Option, none, some, ◌==◌, ==_iff, Bool-cases, inl, inr,
  Text, codes, equal, equal_iff,
}
use sippet.Message.Header.{Header, ViaParam}
use sippet.Message.Header
use sippet.Message.Headers.{get, modify_first}
use sippet.Message.Headers.Laws.{get-modify}
use sippet.Message.Params.{Params, param_find, param_set, received, set_received, remove_sqb}
use sippet.Message.Params.Laws.{param_find-set}
use sippet.Message.Request.{Request, Response, incoming, create_response}
use sippet.Message.Request.Create.{create_response-Answers}
use sippet.Transport.EndPoint.{EndPoint}
use sippet.Transport.Stamp.{
  stamp_received, stamp_rport, stamp_server_via, host_of, port_in, response_end_point,
}
use sippet.Transport.TransactionId.{Printers}

abbrev received_of : Params → Option Text
received_of = param_find (codes "received")

abbrev rport_of : Params → Option Text
rport_of = param_find (codes "rport")

received_lem :
    (params : Params) (host : Text)
    → remove_sqb host ≡ host
    → received (set_received host params) ≡ some host
unfolding received set_received
received_lem params host e =
    rw (param_find-set (codes "received") (codes "received") (remove_sqb host) params, received)
      (ap (λ h. some (remove_sqb h)) e ∙ ap some e)

without_received : (params : Params) → received_of params ≡ none → received params ≡ none
unfolding received
without_received params e = rw (e, received) refl

received_after_rport :
    (params : Params) (value : Text)
    → received (param_set (codes "rport") value params) ≡ received params
unfolding received
received_after_rport params value =
    rw (param_find-set (codes "rport") (codes "received") value params, received) refl

module _ (p : Printers) (d : EndPoint) (v : ViaParam) where
  abbrev with_received : ViaParam
  with_received = stamp_received d v

  host_received :
      received_of v.params ≡ none → remove_sqb d.host ≡ d.host → host_of with_received ≡ d.host
  host_received absent plain = elim (Bool-cases (equal v.host d.host)) [
    | inl t ↦ rw t (rw (without_received v.params absent, host_of) ((equal_iff v.host d.host).0 t))
    | inr f ↦ rw f (rw (received_lem v.params d.host plain, host_of) refl)
  ]

  host_rport : (w : ViaParam) → host_of (stamp_rport p d w) ≡ host_of w
  host_rport w = elim (Bool-cases (w.port == d.port)) [
    | inl t ↦ rw t refl
    | inr f ↦ rw f (rw (received_after_rport w.params (p.int_string d.port), host_of) refl)
  ]

  port_rport :
      (port_of : Text → ℕ) (w : ViaParam)
      → rport_of w.params ≡ none
      → port_of (p.int_string d.port) ≡ d.port
      → port_in port_of (stamp_rport p d w) ≡ d.port
  port_rport port_of w absent e = elim (Bool-cases (w.port == d.port)) [
    | inl t ↦ rw t (rw (absent, port_in) ((==_iff w.port d.port).0 t))
    | inr f ↦ rw f (
        rw (param_find-set (codes "rport") (codes "rport") (p.int_string d.port) w.params, port_in)
          e)
  ]

  rport_received : rport_of v.params ≡ none → rport_of with_received.params ≡ none
  unfolding set_received
  rport_received absent = elim (Bool-cases (equal v.host d.host)) [
    | inl t ↦ rw t absent
    | inr f ↦
        rw f
          (param_find-set (codes "received") (codes "rport") (remove_sqb d.host) v.params ∙ absent)
  ]

  protocol_stamped : (stamp_rport p d with_received).protocol ≡ v.protocol
  protocol_stamped = elim (Bool-cases (equal v.host d.host)) [
    | inl t ↦ rw t (elim (Bool-cases (v.port == d.port)) [ inl a ↦ rw a refl | inr a ↦ rw a refl ])
    | inr f ↦ rw f (elim (Bool-cases (v.port == d.port)) [ inl a ↦ rw a refl | inr a ↦ rw a refl ])
  ]

-- An incoming request whose topmost Via has neither received nor rport can be stamped, and any
-- response above 100 to the stamped request goes to the host and port that the request came from,
-- with the protocol of that Via, provided that the host is not in brackets and its port is read
-- back as it is printed.
pub response_goes_back :
    (p : Printers) (port_of : Text → ℕ) (d : EndPoint) (r : Request) (code : ℕ) (reason : Text)
    (delay : ℕ) (fresh : Text) {v : ViaParam} {vs : List ViaParam}
    → 100 < code
    → r.direction ≡ incoming
    → get Header.as_via r.headers ≡ some (v ∷ vs)
    → received_of v.params ≡ none
    → rport_of v.params ≡ none
    → remove_sqb d.host ≡ d.host
    → port_of (p.int_string d.port) ≡ d.port
    → (r' : Request) × (s : Response) × (stamp_server_via p d r ≡ some r')
      × (create_response r' code reason delay fresh ≡ some s)
      × (response_end_point port_of s
          ≡ some (record { host = d.host; port = d.port; protocol = v.protocol }))
unfolding stamp_server_via response_end_point
response_goes_back p port_of d r code reason delay fresh {v} {vs} above inc hv no_received no_rport
      plain back =
    let stamped : ViaParam = stamp_rport p d (stamp_received d v) in
    let r' : Request = record r {
      headers = modify_first Header.as_via (λ _. Header.via (stamped ∷ vs)) r.headers;
    } in
    let (s, made, a) = create_response-Answers r' code reason delay fresh above inc in
    let via' : get Header.as_via r'.headers ≡ some (stamped ∷ vs) =
      get-modify Header.as_via Header.via (λ _. stamped ∷ vs) (λ _. refl) r.headers ∙ rw hv refl in
    (
      r',
      s,
      rw (hv, stamp_server_via) refl,
      made,
      rw (a.same_via _ via', response_end_point)
          (λ i. some (record {
            host =
                (host_rport p d v (stamp_received d v) ∙ host_received p d v no_received plain) i;
            port =
                port_rport p d v port_of (stamp_received d v) (rport_received p d v no_rport) back
                  i;
            protocol = protocol_stamped p d v i;
          })),
    )
