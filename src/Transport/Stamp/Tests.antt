-- ===== src/Transport/Stamp/Tests.antt =====
-- Runs of the stamps.
use sippet.Base.{arith, ℕ, ◌≡◌, refl, [], ◌∷◌, some, Text, codes}
use sippet.Message.Atom.{known}
use sippet.Message.Headers.{get}
use sippet.Message.Method.{invite}
use sippet.Message.Params.{param_find, remove_sqb}
use sippet.Message.Protocol.{udp}
use sippet.Message.Request.{Request, Response, incoming, create_response}
use sippet.Message.Samples.{sample_request}
use sippet.Transport.EndPoint.{EndPoint}
use sippet.Transport.Stamp.{stamp_server_via, response_end_point}
use sippet.Transport.Stamp.Return.{response_goes_back}
use sippet.Transport.TransactionId.{Printers}

-- The sender stands behind an address translation: neither its host nor its port is that of the Via.
abbrev outside : EndPoint
outside = record { host = codes "192.0.2.7"; port = 40000; protocol = known udp }

abbrev printers : Printers
printers = record { host_port = λ host port. host; int_string = λ n. n ∷ [] }

abbrev port_of : Text → ℕ
port_of [] = 0
port_of (n ∷ t) = n

response_goes_back_example :
    (r' : Request) × (s : Response) × (stamp_server_via printers outside
        (sample_request incoming invite)
      ≡ some r')
    × (create_response r' 180 (codes "Ringing") 0 (codes "bt") ≡ some s)
    × (response_end_point port_of s ≡ some outside)
unfolding get param_find remove_sqb
response_goes_back_example =
    response_goes_back printers port_of outside (sample_request incoming invite) 180
      (codes "Ringing") 0 (codes "bt") (omega arith) refl refl refl refl refl refl
