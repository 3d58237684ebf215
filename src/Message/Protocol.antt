-- ===== src/Message/Protocol.antt =====
-- sippet/message/protocol_list.h and protocol.cc.
use sippet.Base.{ℕ, Bool, false, List, [], ◌∷◌, ◌==◌, Text, codes}
use sippet.Message.Atom.{Atom, known, unknown, set_str}

pub data ProtocolType : Type 0 where
  dccp dtls sctp tcp tls udp ws wss : ProtocolType

abbrev pub Protocol : Type 0
Protocol = Atom ProtocolType

-- The enum's value; `Unknown` comes last.
abbrev pub index : ProtocolType → ℕ
index dccp = 0
index dtls = 1
index sctp = 2
index tcp = 3
index tls = 4
index udp = 5
index ws = 6
index wss = 7

abbrev pub type_index : Protocol → ℕ
type_index (known t) = index t
type_index (unknown _) = 8

abbrev pub string_of : ProtocolType → Text
string_of dccp = codes "DCCP"
string_of dtls = codes "DTLS"
string_of sctp = codes "SCTP"
string_of tcp = codes "TCP"
string_of tls = codes "TLS"
string_of udp = codes "UDP"
string_of ws = codes "WS"
string_of wss = codes "WSS"

abbrev entry : ProtocolType → Text × ProtocolType
entry t = (string_of t, t)

abbrev pub names : List (Text × ProtocolType)
names =
    entry dccp
    ∷ entry dtls
    ∷ entry sctp
    ∷ entry tcp
    ∷ entry tls
    ∷ entry udp
    ∷ entry ws
    ∷ entry wss
    ∷ []

-- Protocol(str)
abbrev pub from_str : Text → Protocol
from_str = set_str names

-- Protocol::str
abbrev pub str : Protocol → Text
str (known t) = string_of t
str (unknown s) = s

-- operator==(Type)
abbrev pub is_protocol : ProtocolType → Protocol → Bool
is_protocol t (known u) = index u == index t
is_protocol t (unknown _) = false
