-- ===== src/Transport/NetworkLayer.antt =====
-- sippet/transport/network_layer.h and network_layer.cc. Channels and transactions stand behind
-- their interfaces: what a channel answers to a call is an argument, and what the layer calls on
-- them and on its delegate is the log. A transaction is its id, with the destination of its
-- channel. The order of a std::set is left out. `none` is a fault: a null pointer is used.
pub mod Cascade
pub mod Invariant
pub mod Links
pub mod Leaving
pub mod Sending
pub mod Receiving
pub mod Closing
pub mod Joining
pub mod History
pub mod Arrivals
pub mod Reach
pub mod Teardown
pub mod Certificates
pub mod Registry
mod Tests
use mathlib.Core.Option
use sippet.Base.{
  ℕ, ◌+◌, ◌-◌, ◌%◌, ◌^◌, arith, ◌≡◌, ◌↔◌, equal_iff, Bool, true, false, ◌&&◌, ◌||◌, not, List, [],
  ◌∷◌, Option, none, some, is_some, ◌==◌, if◌then◌else◌, Text, codes, equal, starts_with, NetResult,
  ok, error, pending, is_ok, is_pending, NetError, aborted, socket_not_connected, connection_closed,
  invalid_argument, address_unreachable, unexpected, timed_out,
}
use sippet.Base.Maps.{Eq, find, assign, erase, text_eq}
use sippet.Message.Method.{ack, is_method}
use sippet.Message.Request.{Request, Response}
use sippet.Transport.EndPoint.{EndPoint, Key, key}

abbrev int_mod : ℕ
int_mod = 2 ^ 32

-- NetworkLayer::ChannelContext; `refs` is the 32-bit pattern of refs_.
pub record ChannelContext : Type 0 where
  pub destination : EndPoint
  pub refs : ℕ
  pub timer_running : Bool
  pub initial_request : Option Request
  pub initial_callback : Option ℕ
  pub transactions : List Text

-- What the layer calls on channels, transactions, its delegate and callbacks.
pub data Output : Type 0 where
  connect close_channel reconnect : EndPoint → Output
  reconnect_with : EndPoint → Text → Output
  close_channel_with : EndPoint → NetResult → Output
  send_request : EndPoint → Request → Output
  send_response : EndPoint → Response → Output
  start_client start_server : Text → Request → Output
  close_transaction : Text → Output
  handle_request : Text → Request → Output
  handle_response : Text → Response → Output
  transaction_send : Text → Response → Output
  run_callback : ℕ → NetResult → Output
  channel_connected : EndPoint → NetResult → Output
  channel_closed : EndPoint → Output
  incoming_request : Request → Output

-- NetworkLayer
pub record Layer : Type 0 where
  pub channels : List (Key × ChannelContext)
  pub client_transactions : List (Text × EndPoint)
  pub server_transactions : List (Text × EndPoint)
  pub log : List Output

-- EndPointLess does not tell apart what has one key.
abbrev pub key_beq : Key → Key → Bool
key_beq a b = a.0 == b.0 && (equal a.1 b.1 && a.2 == b.2)

pub key_beq_iff : (a b : Key) → (key_beq a b ≡ true) ↔ (a ≡ b)
key_beq_iff (t, h, p) (t', h', p') = ground (arith, equal_iff h h')

instance abbrev pub key_eq : Eq Key
key_eq = record { beq = key_beq; beq_iff = key_beq_iff }

abbrev pub emit : Output → Layer → Layer
emit o l = record l { log = o ∷ l.log }

-- GetChannelContext
abbrev pub get_channel_context : EndPoint → Layer → Option ChannelContext
get_channel_context d l = find (key d) l.channels

abbrev pub put_context : Key → ChannelContext → Layer → Layer
put_context k c l = record l { channels = assign k c l.channels }

-- RequestChannelInternal
abbrev pub request_internal : ChannelContext → ChannelContext
request_internal c = record c { refs = (c.refs + 1) % int_mod; timer_running = false }

-- ReleaseChannelInternal
abbrev pub release_internal : ChannelContext → ChannelContext
release_internal c =
    let refs : ℕ = (c.refs + (int_mod - 1)) % int_mod in
    record c { refs = refs; timer_running = if refs == 0 then true else c.timer_running }

-- RequestChannel
unfoldable pub request_channel : EndPoint → Layer → Bool × Layer
request_channel d l = elim (get_channel_context d l) [
  | none ↦ (false, l)
  | some c ↦ (true, put_context (key d) (request_internal c) l)
]

-- ReleaseChannel
unfoldable pub release_channel : EndPoint → Layer → Layer
release_channel d l = elim (get_channel_context d l) [
  | none ↦ l
  | some c ↦ put_context (key d) (release_internal c) l
]

abbrev pub member : Text → List Text → Bool
member id [] = false
member id (x ∷ ids) = if equal x id then true else member id ids

abbrev pub insert_id : Text → List Text → List Text
insert_id id ids = if member id ids then ids else id ∷ ids

pub erase_id : Text → List Text → List Text
erase_id id [] = []
erase_id id (x ∷ ids) = if equal x id then erase_id id ids else x ∷ erase_id id ids

abbrev pub using : Text → ChannelContext → ChannelContext
using id c = request_internal (record c { transactions = insert_id id c.transactions })

abbrev pub leaving : Text → ChannelContext → ChannelContext
unfolding erase_id
leaving id c = release_internal (record c { transactions = erase_id id c.transactions })

-- CreateClientTransaction, on the context with the key `k`.
abbrev pub create_client : Text → Request → Key → ChannelContext → Layer → Layer
create_client id r k c l = emit (start_client id r) (
    put_context k (using id c)
      (record l { client_transactions = assign id c.destination l.client_transactions }))

-- CreateServerTransaction
abbrev pub create_server : Text → Request → Key → ChannelContext → Layer → Layer
create_server id r k c l = emit (start_server id r) (
    put_context k (using id c)
      (record l { server_transactions = assign id c.destination l.server_transactions }))

-- The part that DestroyClientTransaction and DestroyServerTransaction share.
pub leave_channel : Text → EndPoint → Layer → Layer
unfolding erase_id
leave_channel id d l = elim (get_channel_context d l) [
  | none ↦ emit (close_transaction id) l
  | some c ↦ emit (close_transaction id) (put_context (key d) (leaving id c) l)
]

-- base::StartsWith(transaction_id, "c:", INSENSITIVE_ASCII)
unfoldable pub is_client_id : Text → Bool
is_client_id id = starts_with id (codes "c:") || starts_with id (codes "C:")

-- GetClientTransaction or GetServerTransaction, as OnTransactionTerminated asks them.
abbrev pub owner : Text → Layer → Option EndPoint
owner id l =
    if is_client_id id then find id l.client_transactions else find id l.server_transactions

abbrev pub forget : Text → Layer → Layer
forget id l =
    if is_client_id id
    then record l { client_transactions = erase id l.client_transactions }
    else record l { server_transactions = erase id l.server_transactions }

-- OnTransactionTerminated, with DestroyClientTransaction and DestroyServerTransaction
unfoldable pub on_transaction_terminated : Text → Layer → Option Layer
unfolding leave_channel
on_transaction_terminated id l = elim (owner id l) [
  | none ↦ none
  | some d ↦ some (leave_channel id d (forget id l))
]

-- The loop of DestroyChannelContext.
pub terminate_all : List Text → Layer → Option Layer
unfolding on_transaction_terminated
terminate_all [] l = some l
terminate_all (id ∷ ids) l = elim (on_transaction_terminated id l) [
  | none ↦ none
  | some l' ↦ terminate_all ids l'
]

-- DestroyChannelContext
unfoldable pub destroy_context : ChannelContext → Layer → Option Layer
unfolding terminate_all
destroy_context c l =
    terminate_all c.transactions (record l { channels = erase (key c.destination) l.channels })
