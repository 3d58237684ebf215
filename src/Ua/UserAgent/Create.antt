-- ===== src/Ua/UserAgent/Create.antt =====
-- UserAgent::CreateRequest of ua_user_agent.cc. What the random generators return, the instance id and
-- the tests of a URI are arguments.
pub mod Routes
use sippet.Base.{
  ℕ, Bool, true, false, List, [], ◌∷◌, ◌++◌, map, Option, none, some, ◌==◌, if◌then◌else◌, Text,
  codes,
}
use sippet.Message.Header.{Header, Address, address_of, with_tag}
use sippet.Message.Header
use sippet.Message.Headers.{Headers}
use sippet.Message.Method.{Method, register, is_method}
use sippet.Message.Params.{Params, param_set}
use sippet.Message.Request.{Request, new_request}

-- SipURI, on the first URI of the route set.
pub record SipUri : Type 0 where
  pub is_valid : Text → Bool
  -- parameter("lr").first
  pub has_lr : Text → Bool
  pub with_empty_headers : Text → Text

-- What random generators return, and the id of this instance.
pub record Fresh : Type 0 where
  pub from_tag : Text
  pub call_id : Text
  pub sequence : ℕ
  pub guid : Text
  pub instance_id : Text

-- The sequence number: the given one, or a random one that is not zero.
abbrev pub sequence_from : ℕ → ℕ → ℕ
sequence_from local_sequence random =
    if local_sequence == 0 then if random == 0 then 1 else random else local_sequence

-- The parameters of the Contact.
unfoldable pub contact_params : Method → Text → Params
contact_params method instance_id =
    let params = param_set (codes "+sip.instance") instance_id [] in
    if is_method register method then param_set (codes "reg-id") (codes "1") params else params

-- The Request-URI and the Route header.
unfoldable pub route_from : SipUri → List Text → Text → Text × Headers
route_from sip [] uri = (uri, [])
route_from sip (first ∷ rest) uri =
    if sip.is_valid first
    then if sip.has_lr first
      then (uri, Header.route (map address_of (first ∷ rest)) ∷ [])
      else (sip.with_empty_headers first, Header.route (map address_of (rest ++ uri ∷ [])) ∷ [])
    else (uri, [])

-- CreateRequest(method, request_uri, from_uri, to_uri, local_sequence)
unfoldable pub create_request :
    SipUri → Fresh → List Text → Method → Text → Text → Text → ℕ → Request
unfolding route_from contact_params
create_request sip fresh route_set method request_uri from_uri to_uri local_sequence =
    let (uri, routes) = route_from sip route_set request_uri in
    record (new_request method uri fresh.guid) {
      headers =
          Header.to (address_of to_uri)
          ∷ Header.from (with_tag fresh.from_tag (address_of from_uri))
          ∷ Header.call_id fresh.call_id
          ∷ Header.cseq (sequence_from local_sequence fresh.sequence) method
          ∷ Header.max_forwards 70
          ∷ Header.generic (codes "Supported") (codes "path, outbound")
          ∷ Header.contact false (
              record (address_of (codes "sip:domain.invalid")) {
                params = contact_params method fresh.instance_id;
              }
              ∷ [])
          ∷ routes;
    }
