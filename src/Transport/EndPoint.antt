-- ===== src/Transport/EndPoint.antt =====
-- sippet/transport/end_point.h and end_point.cc. What SipURI and GURL answer for a URI is the
-- parameter `Uris`.
use sippet.Base.{ℕ, Bool, true, false, ◌&&◌, not, [], Option, none, some, ◌==◌, if◌then◌else◌, Text}
use sippet.Message.Atom.{known, unknown}
use sippet.Message.Protocol.{Protocol, udp, tls, type_index, from_str}

-- EndPoint
pub record EndPoint : Type 0 where
  pub host : Text
  pub port : ℕ
  pub protocol : Protocol

pub record SipUri : Type 0 where
  pub is_sip : Bool
  pub is_sips : Bool
  pub transport : Option Text
  pub host : Text
  pub effective_port : ℕ

abbrev pub Uris : Type 0
Uris = Text → SipUri

-- EndPoint()
abbrev pub empty : EndPoint
empty = record { host = []; port = 0; protocol = unknown [] }

abbrev is_empty_text : Text → Bool
is_empty_text [] = true
is_empty_text _ = false

-- IsEmpty
abbrev pub is_empty : EndPoint → Bool
is_empty e = type_index e.protocol == 8 && (is_empty_text e.host && e.port == 0)

-- EndPointLess tells two endpoints apart by these.
abbrev pub Key : Type 0
Key = ℕ × Text × ℕ

abbrev pub key : EndPoint → Key
key e = (type_index e.protocol, e.host, e.port)

-- FromSipURI
unfoldable pub from_sip_uri : SipUri → EndPoint
from_sip_uri u = elim u.transport [
  | none ↦ record {
    host = u.host;
    port = u.effective_port;
    protocol = if u.is_sips then known tls else known udp;
  }
  | some t ↦
      if u.is_sips
      then empty
      else record { host = u.host; port = u.effective_port; protocol = from_str t }
]

-- FromGURL
unfoldable pub from_gurl : Uris → Text → EndPoint
unfolding from_sip_uri
from_gurl uris url =
    if not (uris url).is_sip && not (uris url).is_sips then empty else from_sip_uri (uris url)
