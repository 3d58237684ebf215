-- ===== src/Transport/TransactionId.antt =====
-- The transaction ids of sippet/transport/network_layer.cc. HostPortPair::ToString and
-- base::IntToString belong to Chromium: they are the parameter `Printers`. `none` stands for a
-- null pointer that is dereferenced, or a parameter that is read and not there.
pub mod Agreement
mod Tests
use sippet.Base.{
  ℕ, Bool, true, List, [], ◌∷◌, ◌++◌, Option, none, some, if◌then◌else◌, Text, codes, starts_with,
}
use sippet.Message.Atom.{known}
use sippet.Message.Header.{ViaParam}
use sippet.Message.Header
use sippet.Message.Headers.{Headers, get}
use sippet.Message.Method.{Method, ack, invite, is_method, str}
use sippet.Message.Params.{branch, tag}
use sippet.Message.Request.{Request, Response, or_empty}

pub record Printers : Type 0 where
  pub host_port : Text → ℕ → Text
  pub int_string : ℕ → Text

abbrev pub colon : Text
colon = b':' ∷ []

-- kMagicCookie
abbrev pub magic_cookie : Text
magic_cookie = codes "z9hG4bK"

-- The topmost Via's front; `some none` where there is no Via, `none` where a Via is empty.
abbrev pub topmost : Option (List ViaParam) → Option (Option ViaParam)
topmost none = some none
topmost (some []) = none
topmost (some (v ∷ _)) = some (some v)

-- What both ClientTransactionId methods build.
abbrev pub client_id : Option (List ViaParam) → Option Method → Option Text
client_id (some (v ∷ _)) (some m) = elim (branch v.params) [
  | none ↦ none
  | some b ↦ some (codes "c:" ++ (b ++ (colon ++ str m)))
]
client_id _ _ = none

-- ClientTransactionId(request)
unfoldable pub client_request_id : Request → Option Text
client_request_id r = client_id (get Header.as_via r.headers) (some r.method)

abbrev pub cseq_method : Option (ℕ × Method) → Option Method
cseq_method none = none
cseq_method (some (n, m)) = some m

-- ClientTransactionId(response)
unfoldable pub client_response_id : Response → Option Text
client_response_id s =
    client_id (get Header.as_via s.headers) (cseq_method (get Header.as_cseq s.headers))

-- `if (method == Method::ACK) method = Method::INVITE;`
abbrev pub ack_as_invite : Method → Method
ack_as_invite m = if is_method ack m then known invite else m

-- A branch that starts with the magic cookie.
abbrev pub magic_branch : ViaParam → Option Text
magic_branch v = elim (branch v.params) [
  | none ↦ none
  | some b ↦ if starts_with b magic_cookie then some b else none
]

abbrev pub branch_id : Printers → ViaParam → Text → Method → Text
branch_id p v b m = codes "s:" ++ (b ++ (colon ++ (p.host_port v.host v.port ++ (colon ++ str m))))

abbrev pub via_part : Printers → Option ViaParam → Text
via_part p none = []
via_part p (some v) = p.host_port v.host v.port ++ (colon ++ or_empty (branch v.params))

abbrev pub fallback_text : Printers → Option ViaParam → Text → Text → Text → ℕ → Method → Text
fallback_text p v to_tag from_tag call_id sequence m =
    codes "s:"
    ++ (to_tag
        ++ (colon
            ++ (from_tag
                ++ (colon
                    ++ (call_id
                        ++ (colon
                            ++ (p.int_string sequence
                                ++ (colon ++ (str m ++ (colon ++ via_part p v))))))))))

-- The id for what RFC 2543 implementations send.
unfoldable pub fallback_id :
    Printers → Option ViaParam → Headers → Method → Option (ℕ × Method) → Option Text
fallback_id p v h m none = none
fallback_id p v h m (some (sequence, _)) = elim (get Header.as_to h) [
  | none ↦ none
  | some to ↦ elim (get Header.as_from h) [
    | none ↦ none
    | some from ↦ elim (get Header.as_call_id h) [
      | none ↦ none
      | some call_id ↦ some (
          fallback_text p v (or_empty (tag to.params)) (or_empty (tag from.params)) call_id sequence
            (ack_as_invite m))
    ]
  ]
]

-- The first branch of both ServerTransactionId methods, for the method `m`; the fallback else.
abbrev pub server_id : Printers → Option (Option ViaParam) → Method → Option Text → Option Text
server_id p none m fallback = none
server_id p (some none) m fallback = fallback
server_id p (some (some v)) m fallback = elim (magic_branch v) [
  | none ↦ fallback
  | some b ↦ some (branch_id p v b m)
]

abbrev pub the_via : Option (Option ViaParam) → Option ViaParam
the_via none = none
the_via (some v) = v

-- ServerTransactionId(request)
unfoldable pub server_request_id : Printers → Request → Option Text
unfolding fallback_id
server_request_id p r =
    let v = topmost (get Header.as_via r.headers) in
    server_id p v (ack_as_invite r.method)
      (fallback_id p (the_via v) r.headers r.method (get Header.as_cseq r.headers))

abbrev pub method_or : Option (ℕ × Method) → Method → Method
method_or none m = m
method_or (some (_, m)) _ = m

-- ServerTransactionId(response)
unfoldable pub server_response_id : Printers → Response → Option Text
unfolding fallback_id
server_response_id p s = elim (get Header.as_cseq s.headers) [
  | none ↦ none
  | some cseq ↦
      let v = topmost (get Header.as_via s.headers) in
      server_id p v cseq.1 (fallback_id p (the_via v) s.headers cseq.1 (some cseq))
]
