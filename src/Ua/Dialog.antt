-- ===== src/Ua/Dialog.antt =====
-- sippet/ua/dialog.h and dialog.cc. The GURL test for the scheme "sips", and whether a URI has the
-- "lr" parameter (SipURI, from sippet/uri), are the parameters of the model.
pub mod Identity
pub mod Requests
mod Tests
use sippet.Base.{
  ℕ, ◌+◌, ◌/◌, ◌%◌, ◌^◌, Bool, true, false, List, [], ◌∷◌, ◌++◌, map, reverse, Option, none, some,
  ◌==◌, if◌then◌else◌, Text,
}
use sippet.Message.Atom.{known}
use sippet.Message.Header.{Header, Address, address_of, with_tag}
use sippet.Message.Header
use sippet.Message.Headers.{Headers, get, filter, clones}
use sippet.Message.Method.{Method, ack, cancel, invite, is_method}
use sippet.Message.Params.{tag}
use sippet.Message.Request.{
  Request, Response, is_incoming, new_request, or_empty, dialog_id, create_tagged_response,
  first_clone,
}
use sippet.Ua.Pointer.{Pointer, fault, null, at, ◌>>=◌, deref}

pub record Uris : Type 0 where
  -- GURL::SchemeIs("sips")
  pub is_sips : Text → Bool
  -- SipURI(uri).has_parameters() && SipURI(uri).parameter("lr").first
  pub has_lr : Text → Bool

pub data State : Type 0 where
  early confirmed terminated : State

pub record Dialog : Type 0 where
  pub state : State
  pub call_id : Text
  pub local_tag : Text
  pub remote_tag : Text
  pub has_local_sequence : Bool
  pub local_sequence : ℕ
  pub has_remote_sequence : Bool
  pub remote_sequence : ℕ
  pub local_uri : Text
  pub remote_uri : Text
  pub remote_target : Text
  pub is_secure : Bool
  pub route_set : List Text

-- Dialog::id
abbrev pub id : Dialog → Text
id d = dialog_id d.call_id d.local_tag d.remote_tag

-- GetRouteSet
pub get_route_set : List (List Address) → List Text
get_route_set [] = []
get_route_set (routes ∷ rest) = map (λ r. r.address) routes ++ get_route_set rest

abbrev pub front : List Address → Pointer Address
front [] = fault
front (a ∷ _) = at a

abbrev pub initial_state : ℕ → State
initial_state code = if code / 100 == 1 then early else confirmed

-- The branch of Dialog::Create for an outgoing request.
pub create_outgoing : Uris → Request → Response → Pointer Dialog
unfolding get_route_set
create_outgoing uris request response = do
  call_id ← deref (get Header.as_call_id request.headers)
  contacts ← deref (get Header.as_contact response.headers)
  target ← front contacts
  cseq ← deref (get Header.as_cseq request.headers)
  from ← deref (get Header.as_from request.headers)
  local_tag ← deref (tag from.params)
  response_to ← deref (get Header.as_to response.headers)
  to ← deref (get Header.as_to request.headers)
  at (record {
    state = initial_state response.response_code;
    call_id = call_id;
    local_tag = local_tag;
    remote_tag = or_empty (tag response_to.params);
    has_local_sequence = true;
    local_sequence = cseq.0;
    has_remote_sequence = false;
    remote_sequence = 0;
    local_uri = from.address;
    remote_uri = to.address;
    remote_target = target.address;
    is_secure = uris.is_sips request.request_uri;
    route_set = reverse (get_route_set (filter Header.as_record_route response.headers));
  })

-- The branch of Dialog::Create for an incoming request.
pub create_incoming : Uris → Request → Response → Pointer Dialog
unfolding get_route_set
create_incoming uris request response = do
  call_id ← deref (get Header.as_call_id request.headers)
  contacts ← deref (get Header.as_contact request.headers)
  target ← front contacts
  cseq ← deref (get Header.as_cseq request.headers)
  response_to ← deref (get Header.as_to response.headers)
  local_tag ← deref (tag response_to.params)
  from ← deref (get Header.as_from request.headers)
  to ← deref (get Header.as_to request.headers)
  at (record {
    state = initial_state response.response_code;
    call_id = call_id;
    local_tag = local_tag;
    remote_tag = or_empty (tag from.params);
    has_local_sequence = false;
    local_sequence = 0;
    has_remote_sequence = true;
    remote_sequence = cseq.0;
    local_uri = to.address;
    remote_uri = from.address;
    remote_target = target.address;
    is_secure = uris.is_sips request.request_uri;
    route_set = get_route_set (filter Header.as_record_route request.headers);
  })

-- Dialog::Create
unfoldable pub create : Uris → Response → Pointer Dialog
unfolding create_outgoing create_incoming
create uris response = elim response.refer_to [
  | none ↦ null
  | some request ↦
      if is_incoming request.direction
      then create_incoming uris request response
      else create_outgoing uris request response
]

abbrev unsigned_mod : ℕ
unsigned_mod = 2 ^ 32

-- GetNewLocalSequence; `random` is what Create16BitRandomInteger returns.
unfoldable pub get_new_local_sequence : ℕ → Dialog → ℕ × Dialog
get_new_local_sequence random d =
    if d.has_local_sequence
    then (
      (d.local_sequence + 1) % unsigned_mod,
      record d { local_sequence = (d.local_sequence + 1) % unsigned_mod },
    )
    else (random, record d { has_local_sequence = true; local_sequence = random })

-- The Request-URI and the Route header of CreateRequestInternal.
pub target_and_route : Uris → Dialog → Text × Option (List Text)
target_and_route uris d = elim d.route_set [
  | [] ↦ (d.remote_target, none)
  | first ∷ rest ↦
      if uris.has_lr first
      then (d.remote_target, some (first ∷ rest))
      else (first, some (rest ++ d.remote_target ∷ []))
]

-- `if (!remote_tag().empty()) to->set_tag(remote_tag());`
abbrev pub tag_unless_empty : Text → Address → Address
tag_unless_empty [] a = a
tag_unless_empty (c ∷ rest) a = with_tag (c ∷ rest) a

-- CreateRequestInternal
unfoldable pub create_request_internal : Uris → Dialog → Method → ℕ → Text → Request
unfolding target_and_route
create_request_internal uris d method local_sequence guid =
    let (uri, routes) = target_and_route uris d in
    record (new_request method uri guid) {
      headers =
          Header.max_forwards 70
          ∷ Header.from (with_tag d.local_tag (address_of d.local_uri))
          ∷ Header.to (tag_unless_empty d.remote_tag (address_of d.remote_uri))
          ∷ Header.call_id d.call_id
          ∷ Header.cseq local_sequence method
          ∷ first_clone (λ l. Header.route (map address_of l)) routes;
    }

-- CreateRequest: a null pointer for ACK and CANCEL.
unfoldable pub create_request : Uris → Dialog → Method → ℕ → Text → Option Request × Dialog
unfolding get_new_local_sequence create_request_internal
create_request uris d method random guid =
    if is_method ack method
    then (none, d)
    else if is_method cancel method
    then (none, d)
    else let (sequence, d') = get_new_local_sequence random d in
      (some (create_request_internal uris d' method sequence guid), d')

-- CreateResponse(response_code, reason_phrase, request); `none` as in create_tagged_response.
unfoldable pub create_response : Dialog → ℕ → Text → Request → ℕ → Option Response
create_response d code reason request delay =
    create_tagged_response request code reason delay d.remote_tag

-- CreateAck, after the test of the method.
pub acknowledge_invite : Uris → Dialog → Request → Text → Pointer Request
unfolding create_request_internal
acknowledge_invite uris d request guid = do
  cseq ← deref (get Header.as_cseq request.headers)
  let ack_request = create_request_internal uris d (known ack) cseq.0 guid
  at (record ack_request {
    headers =
        (first_clone Header.via (get Header.as_via request.headers) ++ ack_request.headers)
        ++ (clones Header.as_www_authenticate request.headers
            ++ clones Header.as_proxy_authenticate request.headers);
  })

-- CreateAck
unfoldable pub create_ack : Uris → Dialog → Request → Text → Pointer Request
unfolding acknowledge_invite
create_ack uris d request guid =
    if is_method invite request.method then acknowledge_invite uris d request guid else null
