-- ===== src/Transport/NetworkLayer/Receiving.antt =====
-- What network_layer.cc does for its channels: connections, messages and closes that they report.
use sippet.Base.{
  ℕ, ◌||◌, Option, none, some, is_some, if◌then◌else◌, Text, NetResult, ok, error, is_ok,
  is_pending, timed_out,
}
use sippet.Base.Maps.{find, text_eq}
use sippet.Message.Request.{Request, Response}
use sippet.Transport.EndPoint.{EndPoint, key}
use sippet.Transport.NetworkLayer.{
  Layer, ChannelContext, key_eq, emit, get_channel_context, put_context, create_server,
  destroy_context, close_channel, close_channel_with, run_callback, channel_connected,
  channel_closed, handle_request, handle_response, incoming_request,
}
use sippet.Transport.NetworkLayer.Sending.{Environment, Answers, ◌>>=◌, send_using}
use sippet.Transport.Stamp.{stamp_server_via}
use sippet.Transport.TransactionId.{server_request_id, client_response_id}

-- HandleIncomingRequest
abbrev pub start_server_transaction : Text → Request → EndPoint → Layer → Option Layer
start_server_transaction id r d l = elim (get_channel_context d l) [
  | none ↦ none
  | some c ↦ some (emit (incoming_request r) (create_server id r (key d) c l))
]

-- OnIncomingMessage, for a request from the channel to `d`.
unfoldable pub on_incoming_request : Environment → EndPoint → Request → Layer → Option Layer
on_incoming_request env d r0 l = stamp_server_via env.printers d r0 >>= λ r.
    server_request_id env.printers r >>= λ id.
    if is_some (find id l.server_transactions)
    then some (emit (handle_request id r) l)
    else start_server_transaction id r d l

-- OnIncomingMessage, for a response; one that belongs to no request is dropped.
unfoldable pub on_incoming_response : Response → Layer → Option Layer
on_incoming_response s l = client_response_id s >>= λ id.
    if is_some (find id l.client_transactions) then some (emit (handle_response id s) l) else some l

-- OnChannelClosed
unfoldable pub on_channel_closed : EndPoint → NetResult → Layer → Option Layer
on_channel_closed d err l = get_channel_context d l >>= λ c. destroy_context c l >>= λ l'.
    some (emit (channel_closed d) (emit (close_channel_with d err) l'))

-- OnIdleChannelTimedOut
unfoldable pub on_idle_channel_timed_out : EndPoint → Layer → Option Layer
unfolding on_channel_closed
on_idle_channel_timed_out d l = on_channel_closed d (error timed_out) l

abbrev pub run_if_set : Option ℕ → NetResult → Layer → Layer
run_if_set none result l = l
run_if_set (some callback) result l = emit (run_callback callback result) l

-- The initial request leaves the context, once the channel has it.
abbrev pub clear_initial : EndPoint → Layer → Layer
clear_initial d l = elim (get_channel_context d l) [
  | none ↦ l
  | some c ↦ put_context (key d) (record c { initial_request = none; initial_callback = none }) l
]

-- OnChannelConnected, when the initial request was sent.
abbrev pub initial_sent : EndPoint → Option ℕ → NetResult × Layer → NetResult × Layer
initial_sent d callback (result, l) =
    let l' : Layer = if is_ok result then run_if_set callback ok l else l in
    (result, if is_ok result || is_pending result then clear_initial d l' else l')

abbrev pub send_initial :
    Environment → Answers → EndPoint → ChannelContext → Layer → Option (NetResult × Layer)
send_initial env a d c l = elim c.initial_request [
  | none ↦ some (ok, l)
  | some r ↦
      send_using env a r (key d) c l >>= λ sent. some (initial_sent d c.initial_callback sent)
]

-- The end of OnChannelConnected: a channel that failed goes.
abbrev pub settle_connection :
    NetResult → EndPoint → ChannelContext → NetResult × Layer → Option Layer
settle_connection initial d c (result, l) =
    if is_ok result || is_pending result
    then some l
    else get_channel_context d l >>= λ c'. destroy_context c' l >>= λ l'.
        let l2 : Layer = run_if_set c.initial_callback result (emit (close_channel d) l') in
        some (if is_ok initial then emit (channel_closed d) l2 else l2)

-- OnChannelConnected
unfoldable pub on_channel_connected :
    Environment → Answers → EndPoint → NetResult → Layer → Option Layer
on_channel_connected env a d result l0 = get_channel_context d l0 >>= λ c.
    let l = emit (channel_connected d result) l0 in
    (if is_ok result then send_initial env a d c l else some (result, l))
    >>= settle_connection result d c
