-- ===== src/Transport/TransactionId/Tests.antt =====
-- Runs of the transaction ids.
use sippet.Base.{arith, ◌≡◌, refl, [], ◌∷◌, ◌++◌, some, codes}
use sippet.Message.Atom.{known}
use sippet.Message.Header.{Header}
use sippet.Message.Headers.{get}
use sippet.Message.Method.{invite}
use sippet.Message.Params.{branch}
use sippet.Message.Request.{Request, Response, incoming, create_response}
use sippet.Message.Samples.{alice, bob, sample_via, sample_request}
use sippet.Transport.TransactionId.{Printers, branch_id, server_request_id, server_response_id}
use sippet.Transport.TransactionId.Agreement.{server_ids-agree}

abbrev printers : Printers
printers = record { host_port = λ host port. host ++ b':' ∷ []; int_string = λ n. n ∷ [] }

abbrev invited : Request
invited = sample_request incoming invite

server_ids-agree_example :
    (s : Response) × (create_response invited 180 (codes "Ringing") 0 (codes "bt") ≡ some s)
    × (server_request_id printers invited
        ≡ some (branch_id printers sample_via (codes "z9hG4bKx") (known invite)))
    × (server_response_id printers s
        ≡ some (branch_id printers sample_via (codes "z9hG4bKx") (known invite)))
unfolding get branch
server_ids-agree_example =
    server_ids-agree printers invited 180 (codes "Ringing") 0 (codes "bt") (omega arith) refl refl
      refl refl refl refl

-- The same request without a branch.
abbrev old_style : Request
old_style = record invited {
  headers =
      Header.via (record sample_via { params = [] } ∷ [])
      ∷ Header.from alice
      ∷ Header.to bob
      ∷ Header.call_id (codes "c1")
      ∷ Header.cseq 7 (known invite)
      ∷ [];
}
