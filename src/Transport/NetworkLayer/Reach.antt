-- ===== src/Transport/NetworkLayer/Reach.antt =====
-- Any history of the operations of network_layer.cc.
use mathlib.Core.Option.{some-injective}
use sippet.Base.{
  ℕ, ◌≡◌, refl, sym, ◌∙◌, subst, Bool-cases, [], Option, none, some, Option-cases, inl, inr, Text,
  NetResult,
}
use sippet.Base.Maps.{find, text_eq}
use sippet.Message.Request.{Request, Response}
use sippet.Transport.EndPoint.{EndPoint}
use sippet.Transport.NetworkLayer.{
  Layer, ChannelContext, key_eq, owner, get_channel_context, request_channel, release_channel,
  on_transaction_terminated, is_client_id,
}
use sippet.Transport.NetworkLayer.Arrivals.{
  on_incoming_request-Linked, on_incoming_response-Linked, on_channel_connected-Linked,
}
use sippet.Transport.NetworkLayer.Closing.{terminated-Linked, on_channel_closed-Gone}
use sippet.Transport.NetworkLayer.History.{
  HasFreshId, request_channel-Linked, release_channel-Linked, connect_to-Linked,
  send_request_from-Linked, send_response_from-Linked, dismiss-Linked, bind-some,
}
use sippet.Transport.NetworkLayer.Invariant.{Linked}
use sippet.Transport.NetworkLayer.Receiving.{
  on_incoming_request, on_incoming_response, on_channel_closed, on_channel_connected,
  on_idle_channel_timed_out,
}
use sippet.Transport.NetworkLayer.Sending.{
  Environment, Answers, connect_to, with_user_agent, send_request_from, send_response_from, dismiss,
}

-- A layer without channels.
abbrev pub no_channels : Layer
no_channels = record { channels = []; client_transactions = []; server_transactions = []; log = [] }

-- The layers that calls and channel events lead to, where no operation meets a fault. A request
-- that starts a transaction has an id that no transaction has: the branch is drawn afresh.
pub data Reach (env : Environment) : Layer → Type 0 where
  start : Reach env no_channels
  requested : (d : EndPoint) (l : Layer) → Reach env l → Reach env (request_channel d l).1
  released : (d : EndPoint) (l : Layer) → Reach env l → Reach env (release_channel d l)
  connecting_to :
      (d : EndPoint) (factory : Option NetResult) (l : Layer)
      → Reach env l
      → Reach env (connect_to d factory l).1
  request_sent :
      (a : Answers) (factory : Option NetResult) (r : Request) (callback : ℕ) (l : Layer)
      (result : NetResult) (l' : Layer)
      → Reach env l
      → HasFreshId env a (with_user_agent env.software_name r) l
      → send_request_from env a factory r callback l ≡ some (result, l')
      → Reach env l'
  response_sent :
      (s : Response) (l : Layer) (result : NetResult) (l' : Layer)
      → Reach env l
      → send_response_from env s l ≡ some (result, l')
      → Reach env l'
  dismissed :
      (d : EndPoint) (l : Layer) (result : NetResult) (l' : Layer)
      → Reach env l
      → dismiss d l ≡ some (result, l')
      → Reach env l'
  request_arrived :
      (d : EndPoint) (r : Request) (l l' : Layer)
      → Reach env l
      → on_incoming_request env d r l ≡ some l'
      → Reach env l'
  response_arrived :
      (s : Response) (l l' : Layer)
      → Reach env l
      → on_incoming_response s l ≡ some l'
      → Reach env l'
  connected :
      (a : Answers) (d : EndPoint) (result : NetResult) (l l' : Layer)
      → Reach env l
      → ((c : ChannelContext) (r : Request)
          → get_channel_context d l ≡ some c
          → c.initial_request ≡ some r
          → HasFreshId env a r l)
      → on_channel_connected env a d result l ≡ some l'
      → Reach env l'
  closed :
      (d : EndPoint) (err : NetResult) (l l' : Layer)
      → Reach env l
      → on_channel_closed d err l ≡ some l'
      → Reach env l'
  timed_out :
      (d : EndPoint) (l l' : Layer)
      → Reach env l
      → on_idle_channel_timed_out d l ≡ some l'
      → Reach env l'
  terminated :
      (id : Text) (l l' : Layer)
      → Reach env l
      → on_transaction_terminated id l ≡ some l'
      → Reach env l'

on_channel_closed-Linked :
    (d : EndPoint) (err : NetResult) (l l' : Layer)
    → Linked l
    → on_channel_closed d err l ≡ some l'
    → Linked l'
unfolding on_channel_closed
on_channel_closed-Linked d err l l' v e =
    let (c, at, _) = bind-some (get_channel_context d l) _ e in
    let (m, done, linked, _) = on_channel_closed-Gone d err l v at in
    subst Linked (some-injective m l' (sym done ∙ e)) linked

on_transaction_terminated-Linked :
    (id : Text) (l l' : Layer) → Linked l → on_transaction_terminated id l ≡ some l' → Linked l'
unfolding on_transaction_terminated
on_transaction_terminated-Linked id l l' v e = elim (Option-cases (owner id l)) [
  | inl n ↦ absurd (cc (rw (n, on_transaction_terminated) at e))
  | inr (d, own) ↦
      let (m, done, linked) = terminated-Linked id d l v own in
      subst Linked (some-injective m l' (sym done ∙ e)) linked
]

-- Over any history of calls and channel events, each channel context stands under its channel's
-- key and lists exactly the client and server transactions that the layer has on that channel, each
-- once, where the id of each request that starts a transaction is free when it is sent.
pub Reach-Linked : (env : Environment) (l : Layer) → Reach env l → Linked l
unfolding on_idle_channel_timed_out find
Reach-Linked env l start = record {
  keyed = λ k c e. absurd (cc e);
  distinct = λ k c e. absurd (cc e);
  listed = λ k c e. absurd (cc e);
  owned = λ id d e. absurd (cc (nothing id, e));
}
  where
    nothing : (id : Text) → owner id no_channels ≡ none
    nothing id = elim (Bool-cases (is_client_id id)) [ inl t ↦ rw t refl | inr f ↦ rw f refl ]
Reach-Linked env _ (requested d l h) = request_channel-Linked d l (Reach-Linked env l h)
Reach-Linked env _ (released d l h) = release_channel-Linked d l (Reach-Linked env l h)
Reach-Linked env _ (connecting_to d factory l h) =
    connect_to-Linked d factory l (Reach-Linked env l h)
Reach-Linked env _ (request_sent a factory r callback l result l' h fresh e) =
    send_request_from-Linked env a factory r callback l result l' (Reach-Linked env l h) fresh e
Reach-Linked env _ (response_sent s l result l' h e) =
    send_response_from-Linked env s l result l' (Reach-Linked env l h) e
Reach-Linked env _ (dismissed d l result l' h e) =
    dismiss-Linked d l result l' (Reach-Linked env l h) e
Reach-Linked env _ (request_arrived d r l l' h e) =
    on_incoming_request-Linked env d r l l' (Reach-Linked env l h) e
Reach-Linked env _ (response_arrived s l l' h e) =
    on_incoming_response-Linked s l l' (Reach-Linked env l h) e
Reach-Linked env _ (connected a d result l l' h fresh e) =
    on_channel_connected-Linked env a d result l l' (Reach-Linked env l h) fresh e
Reach-Linked env _ (closed d err l l' h e) =
    on_channel_closed-Linked d err l l' (Reach-Linked env l h) e
Reach-Linked env _ (timed_out d l l' h e) =
    on_channel_closed-Linked d _ l l' (Reach-Linked env l h) e
Reach-Linked env _ (terminated id l l' h e) =
    on_transaction_terminated-Linked id l l' (Reach-Linked env l h) e
