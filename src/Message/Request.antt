-- ===== src/Message/Request.antt =====
-- sippet/message/request.cc, response.cc and the message constructors. What the code draws at
-- random (a GUID, a tag) or reads from the clock is an argument.
pub mod Ids
pub mod Create
pub mod Ack
mod Tests
use sippet.Base.{
  ℕ, ◌+◌, ◌%◌, ◌^◌, Bool, true, false, ◌&&◌, ◌||◌, not, List, [], ◌∷◌, ◌++◌, Option, none, some,
  is_some, ltb, ◌==◌, if◌then◌else◌, Text, codes, NetResult, ok, error, not_implemented, unexpected,
}
use sippet.Message.Atom.{known}
use sippet.Message.Header.{Header}
use sippet.Message.Header
use sippet.Message.Headers.{Headers, get, clones, modify_first, set_to_tag}
use sippet.Message.Method.{Method, ack, cancel, invite, is_method}
use sippet.Message.Params.{tag}

pub data Direction : Type 0 where
  incoming outgoing : Direction

pub record Request : Type 0 where
  pub method : Method
  pub id : Text
  pub request_uri : Text
  pub version : ℕ × ℕ
  pub direction : Direction
  pub headers : Headers
  pub content : Text

pub record Response : Type 0 where
  pub response_code : ℕ
  pub reason_phrase : Text
  pub version : ℕ × ℕ
  pub direction : Direction
  pub headers : Headers
  pub content : Text
  pub refer_to : Option Request

-- Request(method, request_uri)
abbrev pub new_request : Method → Text → Text → Request
new_request method request_uri guid = record {
  method = method;
  id = guid;
  request_uri = request_uri;
  version = (2, 0);
  direction = outgoing;
  headers = [];
  content = [];
}

abbrev pub is_incoming : Direction → Bool
is_incoming incoming = true
is_incoming outgoing = false

-- The tag of a From or a To header; `none` where it has none.
abbrev pub tag_of : Option Header.Address → Option Text
tag_of none = none
tag_of (some a) = tag a.params

abbrev pub or_empty : Option Text → Text
or_empty none = []
or_empty (some t) = t

abbrev pub colon : Text
colon = b':' ∷ []

-- The text that both GetDialogId methods and Dialog::id build.
abbrev pub dialog_id : Text → Text → Text → Text
dialog_id call_id local remote = call_id ++ (colon ++ (local ++ (colon ++ remote)))

-- Request::GetDialogId; `none` where it would dereference a missing Call-ID, From or To.
unfoldable pub request_dialog_id : Request → Option Text
request_dialog_id r = elim (get Header.as_call_id r.headers) [
  | none ↦ none
  | some call_id ↦ elim (get Header.as_from r.headers) [
    | none ↦ none
    | some from ↦ elim (get Header.as_to r.headers) [
      | none ↦ none
      | some to ↦
          let from_tag = or_empty (tag from.params) in
          let to_tag = or_empty (tag to.params) in
          some (
            if is_incoming r.direction
            then dialog_id call_id to_tag from_tag
            else dialog_id call_id from_tag to_tag)
    ]
  ]
]

-- Response::GetDialogId; `none` also where From or To has no tag to read.
unfoldable pub response_dialog_id : Response → Option Text
response_dialog_id r = elim (get Header.as_call_id r.headers) [
  | none ↦ none
  | some call_id ↦ elim (tag_of (get Header.as_from r.headers)) [
    | none ↦ none
    | some from_tag ↦ elim (tag_of (get Header.as_to r.headers)) [
      | none ↦ none
      | some to_tag ↦ some (
          if is_incoming r.direction
          then dialog_id call_id from_tag to_tag
          else dialog_id call_id to_tag from_tag)
    ]
  ]
]

abbrev unsigned_mod : ℕ
unsigned_mod = 2 ^ 32

-- Request::CloneRequest
unfoldable pub clone_request : Request → Request
clone_request r = record {
  method = r.method;
  id = r.id;
  request_uri = r.request_uri;
  version = r.version;
  direction = outgoing;
  headers = modify_first Header.as_cseq (λ c. Header.cseq ((c.0 + 1) % unsigned_mod) c.1) r.headers;
  content = r.content;
}

-- The first header of the class, copied; nothing, where there is none.
abbrev pub first_clone {ℓ} : {A : Type ℓ} → (A → Header) → Option A → Headers
first_clone build none = []
first_clone build (some a) = build a ∷ []

-- The test that CreateAck and CreateCancel share.
abbrev pub creation_result : Request → NetResult
creation_result r =
    if not (is_method invite r.method)
    then error not_implemented
    else if not (is_some (get Header.as_from r.headers))
        || not (is_some (get Header.as_to r.headers))
        || not (is_some (get Header.as_cseq r.headers))
        || not (is_some (get Header.as_call_id r.headers))
    then error unexpected
    else if not (is_some (get Header.as_via r.headers))
    then error unexpected
    else ok

-- `if (to && remote_tag.length() > 0) to->set_tag(remote_tag);`
abbrev pub tagged : Text → Header.Address → Header.Address
tagged [] a = a
tagged (c ∷ rest) a = Header.with_tag (c ∷ rest) a

unfoldable pub ack_headers : Text → Headers → Headers
ack_headers remote_tag h =
    clones Header.as_via h
    ++ (Header.max_forwards 70
        ∷ (clones Header.as_from h
            ++ (first_clone (λ a. Header.to (tagged remote_tag a)) (get Header.as_to h)
                ++ (clones Header.as_call_id h
                    ++ (first_clone (λ c. Header.cseq c.0 (known ack)) (get Header.as_cseq h)
                        ++ clones Header.as_route h)))))

cancel_headers : Headers → Headers
cancel_headers h =
    clones Header.as_via h
    ++ (Header.max_forwards 70
        ∷ (clones Header.as_from h
            ++ (clones Header.as_to h
                ++ (clones Header.as_call_id h
                    ++ (first_clone (λ c. Header.cseq c.0 (known cancel)) (get Header.as_cseq h)
                        ++ clones Header.as_route h)))))

-- Request::CreateAck: the result, and the request that is put in `ack`, which keeps its value on
-- an error.
unfoldable pub create_ack : Request → Text → Text → Option Request → NetResult × Option Request
unfolding ack_headers
create_ack r remote_tag guid old = elim (creation_result r) [
  | NetResult.error e ↦ (NetResult.error e, old)
  | NetResult.count n ↦ (
    ok,
    some (record (new_request (known ack) r.request_uri guid) {
      headers = ack_headers remote_tag r.headers;
    }),
  )
]

-- Request::CreateCancel
unfoldable pub create_cancel : Request → Text → Option Request → NetResult × Option Request
unfolding cancel_headers
create_cancel r guid old = elim (creation_result r) [
  | NetResult.error e ↦ (NetResult.error e, old)
  | NetResult.count n ↦ (
    ok,
    some (record (new_request (known cancel) r.request_uri guid) {
      headers = cancel_headers r.headers;
    }),
  )
]

-- A Timestamp is copied into a 100 response, with the time since the request's creation.
pub trying_timestamp : ℕ → ℕ → Headers → Headers
trying_timestamp code delay h =
    if code == 100
    then first_clone (λ t. Header.timestamp t.0 delay) (get Header.as_timestamp h)
    else []

-- The headers that CreateResponseInternal copies.
abbrev pub response_headers : ℕ → ℕ → Headers → Headers
response_headers code delay h =
    clones Header.as_via h
    ++ (clones Header.as_from h
        ++ (clones Header.as_to h
            ++ (clones Header.as_call_id h
                ++ (clones Header.as_cseq h
                    ++ (trying_timestamp code delay h ++ clones Header.as_record_route h)))))

-- Response(response_code, reason_phrase, Outgoing), with its headers and the request it refers to.
abbrev pub response_to : Request → ℕ → Text → Headers → Response
response_to r code reason headers = record {
  response_code = code;
  reason_phrase = reason;
  version = (2, 0);
  direction = outgoing;
  headers = headers;
  content = [];
  refer_to = some r;
}

-- Request::CreateResponseInternal; `none` is the null response of an outgoing request.
unfoldable pub create_response_internal : Request → ℕ → Text → ℕ → Option Response
unfolding trying_timestamp
create_response_internal r code reason delay =
    if is_incoming r.direction
    then some (response_to r code reason (response_headers code delay r.headers))
    else none

-- The tag that CreateResponse puts into a To header without one.
abbrev pub complete_to : ℕ → Text → Headers → Headers
complete_to code fresh h =
    if ltb 100 code && not (is_some (tag_of (get Header.as_to h))) then set_to_tag fresh h else h

-- Request::CreateResponse(response_code, reason_phrase). The code dereferences a null response:
-- `none` stands for that fault.
unfoldable pub create_response : Request → ℕ → Text → ℕ → Text → Option Response
create_response r code reason delay fresh = elim (create_response_internal r code reason delay) [
  | none ↦ none
  | some s ↦ some (record s { headers = complete_to code fresh s.headers })
]

-- Request::CreateResponse(response_code, reason_phrase, remote_tag), for the dialog.
unfoldable pub create_tagged_response : Request → ℕ → Text → ℕ → Text → Option Response
create_tagged_response r code reason delay remote_tag =
    elim (create_response_internal r code reason delay) [
      | none ↦ none
      | some s ↦ some (record s { headers = set_to_tag remote_tag s.headers })
    ]
