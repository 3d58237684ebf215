-- ===== src/Transport/NetworkLayer/Sending.antt =====
-- What network_layer.cc does for its user: connecting, and sending requests and responses.
use sippet.Base.{
  ℕ, Bool, false, not, [], ◌∷◌, ◌++◌, Option, none, some, is_some, if◌then◌else◌, Text, NetResult,
  ok, error, pending, is_ok, aborted, socket_not_connected, invalid_argument, address_unreachable,
  connection_closed, unexpected, ◌⊎◌, inl, inr,
}
use sippet.Base.Maps.{find, text_eq}
use sippet.Message.Header
use sippet.Message.Header.{Header}
use sippet.Message.Headers.{get}
use sippet.Message.Method.{ack, is_method}
use sippet.Message.Request.{Request, Response, is_incoming}
use sippet.Transport.EndPoint.{EndPoint, Uris, Key, key, is_empty}
use sippet.Transport.NetworkLayer.{
  Layer, ChannelContext, key_eq, emit, get_channel_context, put_context, create_client,
  destroy_context, connect, send_request, send_response, transaction_send, close_channel,
  channel_closed,
}
use sippet.Transport.Stamp.{stamp_client_via, stamp_contact, request_end_point, response_end_point}
use sippet.Transport.TransactionId.{Printers, client_request_id, server_response_id}

-- The settings, and what Chromium's text functions answer.
pub record Environment : Type 0 where
  pub uris : Uris
  pub printers : Printers
  pub port_of : Text → ℕ
  pub software_name : Text

-- What a channel answers, and what the branch factory draws.
pub record Answers : Type 0 where
  pub is_connected : Bool
  pub origin : Option EndPoint
  pub sent : NetResult
  pub branch : Text

infixl 5 ◌>>=◌
abbrev pub ◌>>=◌ {ℓ κ} : {A : Type ℓ} {B : Type κ} → Option A → (A → Option B) → Option B
none >>= f = none
some a >>= f = f a

-- The Via of a request, stamped if it has none.
abbrev pub with_via : Answers → Request → Option Request
with_via a r =
    if is_some (get Header.as_via r.headers) then some r else stamp_client_via a.origin a.branch r

-- A transaction for every request but ACK.
abbrev pub start_transaction : Request → Key → ChannelContext → Layer → Option Layer
start_transaction r k c l =
    if is_method ack r.method
    then some l
    else elim (client_request_id r) [ none ↦ none | some id ↦ some (create_client id r k c l) ]

-- SendRequestUsingChannelContext, on the context with the key `k`.
unfoldable pub send_using :
    Environment → Answers → Request → Key → ChannelContext → Layer → Option (NetResult × Layer)
send_using env a r k c l =
    if not a.is_connected
    then some (error socket_not_connected, l)
    else with_via a r >>= λ r1.
        let r2 = stamp_contact env.uris env.printers a.origin c.destination.protocol r1 in
        start_transaction r2 k c l >>= λ l'. some (a.sent, emit (send_request c.destination r2) l')

-- CreateChannelContext: `factory` is what the channel factory for the protocol answers, if any.
unfoldable pub create_context :
    EndPoint → Option Request → Option ℕ → Option NetResult → Layer → NetResult × Layer
create_context d request callback none l = (error address_unreachable, l)
create_context d request callback (some result) l = if not (is_ok result) then (result, l) else (
  ok,
  put_context (key d)
      (record {
        destination = d;
        refs = 0;
        timer_running = false;
        initial_request = request;
        initial_callback = callback;
        transactions = [];
      })
      l,
)

-- What follows CreateChannelContext: the channel connects.
abbrev pub connecting : EndPoint → NetResult × Layer → NetResult × Layer
connecting d (result, l) = if not (is_ok result) then (result, l) else (pending, emit (connect d) l)

-- Connect
unfoldable pub connect_to : EndPoint → Option NetResult → Layer → NetResult × Layer
unfolding create_context
connect_to d factory l =
    if is_some (get_channel_context d l)
    then (ok, l)
    else connecting d (create_context d none none factory l)

abbrev pub with_user_agent : Text → Request → Request
with_user_agent name r =
    if is_some (get Header.as_user_agent r.headers)
    then r
    else record r { headers = r.headers ++ Header.user_agent name ∷ [] }

-- SendRequest, after the look-up of the channel.
unfoldable pub send_through :
    Environment
    → Answers
    → Option NetResult
    → Request
    → ℕ
    → EndPoint
    → Option ChannelContext
    → Layer
    → Option (NetResult × Layer)
unfolding send_using create_context
send_through env a factory r callback d (some c) l = send_using env a r (key d) c l
send_through env a factory r callback d none l =
    if is_method ack r.method
    then some (error aborted, l)
    else some (connecting d (create_context d (some r) (some callback) factory l))

-- SendRequest
unfoldable pub send_request_from :
    Environment → Answers → Option NetResult → Request → ℕ → Layer → Option (NetResult × Layer)
unfolding send_through
send_request_from env a factory r callback l =
    let d = request_end_point env.uris r in
    if is_empty d
    then some (error invalid_argument, l)
    else send_through env a factory (with_user_agent env.software_name r) callback d
        (get_channel_context d l) l

abbrev pub with_server : Text → Response → Response
with_server name s =
    if is_some (get Header.as_server s.headers)
    then s
    else record s { headers = s.headers ++ Header.server name ∷ [] }

-- SendResponse without a server transaction.
abbrev pub send_directly : Environment → Response → Layer → Option (NetResult × Layer)
send_directly env s l = response_end_point env.port_of s >>= λ d.
    if is_empty d
    then some (error invalid_argument, l)
    else if is_some (get_channel_context d l)
    then some (ok, emit (send_response d s) l)
    else some (error socket_not_connected, l)

-- SendResponse
unfoldable pub send_response_from : Environment → Response → Layer → Option (NetResult × Layer)
send_response_from env s0 l =
    let s = with_server env.software_name s0 in
    server_response_id env.printers s >>= λ id.
    if is_some (find id l.server_transactions)
    then some (ok, emit (transaction_send id s) l)
    else send_directly env s l

-- DismissLastConnectionAttempt
unfoldable pub dismiss : EndPoint → Layer → Option (NetResult × Layer)
dismiss d l = elim (get_channel_context d l) [
  | none ↦ some (error connection_closed, l)
  | some c ↦
      destroy_context c l >>= λ l'. some (ok, emit (channel_closed d) (emit (close_channel d) l'))
]

-- Send
unfoldable pub send_message :
    Environment
    → Answers
    → Option NetResult
    → Request ⊎ Response
    → ℕ
    → Layer
    → Option (NetResult × Layer)
unfolding send_request_from send_response_from
send_message env a factory (inl r) callback l =
    if is_incoming r.direction
    then some (error unexpected, l)
    else send_request_from env a factory r callback l
send_message env a factory (inr s) callback l =
    if is_incoming s.direction then some (error unexpected, l) else send_response_from env s l

-- GetOriginOf
abbrev pub get_origin_of : Answers → EndPoint → Layer → Option EndPoint
get_origin_of a d l = elim (get_channel_context d l) [ none ↦ none | some c ↦ a.origin ]
