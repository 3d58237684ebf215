-- ===== src/Message/Samples.antt =====
-- Messages for the tests.
use sippet.Base.{ℕ, [], ◌∷◌, none, codes}
use sippet.Message.Atom.{known}
use sippet.Message.Header.{Header, Address, ViaParam}
use sippet.Message.Headers.{Headers}
use sippet.Message.Method.{MethodType}
use sippet.Message.Protocol.{udp}
use sippet.Message.Request.{Direction, Request, Response, incoming}

abbrev pub sample_via : ViaParam
sample_via = record {
  version = (2, 0);
  protocol = known udp;
  host = codes "10.0.0.1";
  port = 5060;
  params = (codes "branch", codes "z9hG4bKx") ∷ [];
}

abbrev pub alice : Address
alice = record {
  address = codes "sip:alice@a.com";
  display_name = [];
  params = (codes "tag", codes "at") ∷ [];
}

abbrev pub bob : Address
bob = record { address = codes "sip:bob@b.com"; display_name = []; params = [] }

abbrev pub tagged_bob : Address
tagged_bob = record bob { params = (codes "tag", codes "bt") ∷ [] }

abbrev pub sample_headers : MethodType → Address → Headers
sample_headers method to =
    Header.via (sample_via ∷ [])
    ∷ Header.from alice
    ∷ Header.to to
    ∷ Header.call_id (codes "c1")
    ∷ Header.cseq 7 (known method)
    ∷ []

abbrev pub sample_request : Direction → MethodType → Request
sample_request direction method = record {
  method = known method;
  id = codes "g1";
  request_uri = codes "sip:bob@b.com";
  version = (2, 0);
  direction = direction;
  headers = sample_headers method bob;
  content = [];
}

abbrev pub sample_response : ℕ → MethodType → Response
sample_response code method = record {
  response_code = code;
  reason_phrase = codes "R";
  version = (2, 0);
  direction = incoming;
  headers = sample_headers method tagged_bob;
  content = [];
  refer_to = none;
}
