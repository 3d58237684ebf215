-- ===== src/Transport/Stamp.antt =====
-- What sippet/transport/network_layer.cc writes into the Via and Contact headers, and where it
-- sends a response. base::StringToInt with the cast to uint16 is the parameter `port_of`.
pub mod Return
mod Tests
use sippet.Base.{
  ℕ, Bool, true, false, ◌||◌, ◌&&◌, not, List, [], ◌∷◌, ◌++◌, map, Option, none, some, is_some,
  ◌==◌, if◌then◌else◌, Text, codes, equal,
}
use sippet.Message.Atom.{known}
use sippet.Message.Header.{Header, Address, ViaParam}
use sippet.Message.Header
use sippet.Message.Headers.{Headers, get, modify_first}
use sippet.Message.Method.{register, is_method}
use sippet.Message.Params.{Params, set_branch, set_received, received, param_find, param_set}
use sippet.Message.Protocol.{Protocol, tcp, tls, ws, wss, is_protocol}
use sippet.Message.Request.{Request, Response}
use sippet.Transport.EndPoint.{EndPoint, Uris, empty, is_empty, from_gurl}
use sippet.Transport.TransactionId.{Printers}

-- ViaParam(protocol, hostport)
abbrev pub new_via : EndPoint → ViaParam
new_via e = record {
  version = (2, 0);
  protocol = e.protocol;
  host = e.host;
  port = e.port;
  params = [];
}

abbrev pub push_front : Header → Request → Request
push_front h r = record r { headers = h ∷ r.headers }

-- StampClientTopmostVia; `none` where its CHECK of the channel's origin fails.
unfoldable pub stamp_client_via : Option EndPoint → Text → Request → Option Request
stamp_client_via none branch r = none
stamp_client_via (some origin) branch r =
    let v = new_via origin in
    some (push_front (Header.via (record v { params = set_branch branch v.params } ∷ [])) r)

-- set_received(destination.host()), where the host that sent is another one
abbrev pub stamp_received : EndPoint → ViaParam → ViaParam
stamp_received d v =
    if equal v.host d.host then v else record v { params = set_received d.host v.params }

-- set_rport(destination.port()), where the port is another one
abbrev pub stamp_rport : Printers → EndPoint → ViaParam → ViaParam
stamp_rport p d v =
    if v.port == d.port
    then v
    else record v { params = param_set (codes "rport") (p.int_string d.port) v.params }

-- StampServerTopmostVia; `none` stands for front() of an empty Via.
unfoldable pub stamp_server_via : Printers → EndPoint → Request → Option Request
stamp_server_via p d r = elim (get Header.as_via r.headers) [
  | none ↦ some (push_front (Header.via (new_via d ∷ [])) r)
  | some [] ↦ none
  | some (v ∷ vs) ↦ some (record r {
    headers =
        modify_first Header.as_via (λ _. Header.via (stamp_rport p d (stamp_received d v) ∷ vs))
          r.headers;
  })
]

abbrev transport_suffix : Protocol → Text
transport_suffix p =
    if is_protocol tcp p
    then codes ";transport=tcp"
    else if is_protocol tls p
    then codes ";transport=tls"
    else if is_protocol ws p
    then codes ";transport=ws"
    else if is_protocol wss p
    then codes ";transport=wss"
    else []

-- The address that replaces "domain.invalid".
abbrev pub contact_address : Printers → EndPoint → Protocol → Request → Text
contact_address p origin protocol r =
    codes "sip:"
    ++ (p.host_port origin.host origin.port
        ++ (transport_suffix protocol ++ (if is_method register r.method then [] else codes ";ob")))

abbrev pub replace_invalid : Uris → Text → Address → Address
replace_invalid uris address a =
    if ((uris a.address).is_sip || (uris a.address).is_sips)
      && equal (codes "domain.invalid") (uris a.address).host
    then record a { address = address }
    else a

-- The loop of StampContact, on the first Contact.
pub replace_contact : (Address → Address) → Headers → Headers
replace_contact change [] = []
replace_contact change (Header.contact all l ∷ h) = Header.contact all (map change l) ∷ h
replace_contact change (x ∷ h) = x ∷ replace_contact change h

-- StampContact; `origin` is empty where the channel has none.
unfoldable pub stamp_contact : Uris → Printers → Option EndPoint → Protocol → Request → Request
unfolding replace_contact
stamp_contact uris p none protocol r = r
stamp_contact uris p (some origin) protocol r = if is_empty origin then r else record r {
  headers = replace_contact (replace_invalid uris (contact_address p origin protocol r)) r.headers;
}

-- GetMessageEndPoint, for a request.
unfoldable pub request_end_point : Uris → Request → EndPoint
request_end_point uris r = elim (get Header.as_route r.headers) [
  | none ↦ from_gurl uris r.request_uri
  | some [] ↦ from_gurl uris r.request_uri
  | some (a ∷ _) ↦ from_gurl uris a.address
]

abbrev pub host_of : ViaParam → Text
host_of v = elim (received v.params) [ none ↦ v.host | some h ↦ h ]

abbrev pub port_in : (Text → ℕ) → ViaParam → ℕ
port_in port_of v = elim (param_find (codes "rport") v.params) [
  | none ↦ v.port
  | some t ↦ port_of t
]

-- GetMessageEndPoint, for a response; `none` stands for front() of an empty Via.
unfoldable pub response_end_point : (Text → ℕ) → Response → Option EndPoint
response_end_point port_of s = elim (get Header.as_via s.headers) [
  | none ↦ some empty
  | some [] ↦ none
  | some (v ∷ _) ↦
      some (record { host = host_of v; port = port_in port_of v; protocol = v.protocol })
]
