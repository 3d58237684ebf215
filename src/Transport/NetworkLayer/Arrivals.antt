-- ===== src/Transport/NetworkLayer/Arrivals.antt =====
-- The links of the network layer over what its channels report.
use mathlib.Core.Option.{some-injective}
use sippet.Base.{
  ℕ, ◌≡◌, refl, ap, subst, Bool, true, false, ◌||◌, Option, none, some, if◌then◌else◌, Bool-cases,
  Option-cases, inl, inr, NetResult, ok, is_ok, is_pending, is_some,
}
use sippet.Base.Maps.{find, text_eq}
use sippet.Message.Request.{Request, Response}
use sippet.Transport.EndPoint.{EndPoint, key}
use sippet.Transport.NetworkLayer.{
  Layer, ChannelContext, key_eq, emit, get_channel_context, is_client_id, channel_connected,
  channel_closed, close_channel, run_callback, handle_request, handle_response, incoming_request,
}
use sippet.Transport.NetworkLayer.Closing.{Linked-emit, destroyed-Linked}
use sippet.Transport.NetworkLayer.Invariant.{Linked}
use sippet.Transport.NetworkLayer.Joining.{create_server-Linked, server_request_id-server}
use sippet.Transport.NetworkLayer.Receiving.{
  on_incoming_request, on_incoming_response, on_channel_connected, run_if_set, clear_initial,
  initial_sent, send_initial, settle_connection, start_server_transaction,
}
use sippet.Transport.NetworkLayer.Sending.{Environment, Answers, ◌>>=◌, send_using}
use sippet.Transport.Stamp.{stamp_server_via}
use sippet.Transport.TransactionId.{server_request_id, client_response_id}
use sippet.Transport.NetworkLayer.History.{
  bind-some, returned-Linked, HasFreshId, send_using-Linked, changed-Linked,
}

pub on_incoming_request-Linked :
    (env : Environment) (d : EndPoint) (r : Request) (l l' : Layer)
    → Linked l
    → on_incoming_request env d r l ≡ some l'
    → Linked l'
unfolding on_incoming_request
on_incoming_request-Linked env d r0 l l' v e =
    let (r, h, e1) = bind-some (stamp_server_via env.printers d r0) _ e in
    let (id, hid, e2) = bind-some (server_request_id env.printers r) _ e1 in
    let server : is_client_id id ≡ false = server_request_id-server env.printers r id hid in
    elim (Option-cases (find id l.server_transactions)) [
      | inr (x, t) ↦
          subst Linked (some-injective _ l' (rw t at e2)) (Linked-emit (handle_request id r) l v)
      | inl n ↦ elim (Option-cases (get_channel_context d l)) [
        | inl m ↦ absurd (cc (rw (m, start_server_transaction) at (rw n at e2)))
        | inr (c, at) ↦
            subst Linked (some-injective _ l' (rw (at, start_server_transaction) at (rw n at e2))) (
              Linked-emit (incoming_request r) _
                (create_server-Linked id r (key d) c l v (rw server n) at server))
      ]
    ]

pub on_incoming_response-Linked :
    (s : Response) (l l' : Layer) → Linked l → on_incoming_response s l ≡ some l' → Linked l'
unfolding on_incoming_response
on_incoming_response-Linked s l l' v e =
    let (id, h, e1) = bind-some (client_response_id s) _ e in
    elim (Bool-cases (is_some (find id l.client_transactions))) [
      | inl t ↦
          subst Linked (some-injective _ l' (rw t at e1)) (Linked-emit (handle_response id s) l v)
      | inr f ↦ subst Linked (some-injective _ l' (rw f at e1)) v
    ]

run_if_set-Linked :
    (callback : Option ℕ) (result : NetResult) (l : Layer)
    → Linked l
    → Linked (run_if_set callback result l)
run_if_set-Linked none result l v = v
run_if_set-Linked (some callback) result l v = Linked-emit (run_callback callback result) l v

clear_initial-Linked : (d : EndPoint) (l : Layer) → Linked l → Linked (clear_initial d l)
clear_initial-Linked d l v = elim (Option-cases (get_channel_context d l)) [
  | inl n ↦ rw (n, clear_initial) v
  | inr (c, at) ↦
      rw (at, clear_initial)
        (changed-Linked (key d) c (record c { initial_request = none; initial_callback = none }) l v
          at refl refl)
]

if-Linked : (b : Bool) {l l' : Layer} → Linked l → Linked l' → Linked (if b then l else l')
if-Linked true v w = v
if-Linked false v w = w

initial_sent-Linked :
    (d : EndPoint) (callback : Option ℕ) (sent : NetResult × Layer)
    → Linked sent.1
    → Linked (initial_sent d callback sent).1
initial_sent-Linked d callback (result, l) v =
    let l' : Layer = if is_ok result then run_if_set callback ok l else l in
    let w : Linked l' = if-Linked (is_ok result) (run_if_set-Linked callback ok l v) v in
    if-Linked (is_ok result || is_pending result) (clear_initial-Linked d l' w) w

send_initial-Linked :
    (env : Environment) (a : Answers) (d : EndPoint) (c : ChannelContext) (l : Layer)
    (request : Option Request) (result : NetResult) (l' : Layer)
    → c.initial_request ≡ request
    → Linked l
    → find (key d) l.channels ≡ some c
    → ((r : Request) → request ≡ some r → HasFreshId env a r l)
    → send_initial env a d c l ≡ some (result, l')
    → Linked l'
send_initial-Linked env a d c l none result l' q v at fresh e =
    returned-Linked (rw (q, send_initial) at e) v
send_initial-Linked env a d c l (some r) result l' q v at fresh e =
    let ((sent, m), h, e1) =
      bind-some (send_using env a r (key d) c l) _ (rw (q, send_initial) at e) in
    subst Linked (ap (λ p. p.1) (some-injective _ (result, l') e1)) (
      initial_sent-Linked d c.initial_callback (sent, m)
        (send_using-Linked env a r (key d) c l sent m v at (fresh r refl) h))

settle_connection-Linked :
    (initial : NetResult) (d : EndPoint) (c : ChannelContext) (result : NetResult) (l l' : Layer)
    → Linked l
    → settle_connection initial d c (result, l) ≡ some l'
    → Linked l'
settle_connection-Linked initial d c result l l' v e =
    elim (Bool-cases (is_ok result || is_pending result)) [
      | inl t ↦ subst Linked (some-injective l l' (rw t at e)) v
      | inr f ↦
          let (c', at, e1) = bind-some (get_channel_context d l) _ (rw f at e) in
          let (m, done, linked, gone) = destroyed-Linked (key d) c' l v at in
          let w : Linked (run_if_set c.initial_callback result (emit (close_channel d) m)) =
            run_if_set-Linked c.initial_callback result (emit (close_channel d) m)
              (Linked-emit (close_channel d) m linked) in
          subst Linked (some-injective _ l' (rw (done, ◌>>=◌) at e1))
            (if-Linked (is_ok initial) (Linked-emit (channel_closed d) _ w) w)
    ]

pub on_channel_connected-Linked :
    (env : Environment) (a : Answers) (d : EndPoint) (result : NetResult) (l l' : Layer)
    → Linked l
    → ((c : ChannelContext) (r : Request)
        → get_channel_context d l ≡ some c
        → c.initial_request ≡ some r
        → HasFreshId env a r l)
    → on_channel_connected env a d result l ≡ some l'
    → Linked l'
unfolding on_channel_connected
on_channel_connected-Linked env a d result l l' v fresh e =
    let (c, at, e1) = bind-some (get_channel_context d l) _ e in
    let m : Layer = emit (channel_connected d result) l in
    let w : Linked m = Linked-emit (channel_connected d result) l v in
    elim (Bool-cases (is_ok result)) [
      | inr f ↦ settle_connection-Linked result d c result m l' w (rw (f, ◌>>=◌) at e1)
      | inl t ↦
          let ((sent, n), h, e2) = bind-some (send_initial env a d c m) _ (rw t at e1) in
          settle_connection-Linked result d c sent n l'
            (send_initial-Linked env a d c m c.initial_request sent n refl w at (λ r. fresh c r at)
              h)
            e2
    ]
