-- ===== src/Transport/NetworkLayer/History.antt =====
-- The links of the network layer over what its user asks.
use mathlib.Core.Option.{some-injective}
use sippet.Base.{
  ℕ, ◌≡◌, refl, ap, subst, Option, none, some, Bool-cases, Option-cases, inl, inr, Text, NetResult,
  is_some,
}
use sippet.Base.Maps.{find, text_eq}
use sippet.Message.Method.{ack, is_method}
use sippet.Message.Protocol.{Protocol}
use sippet.Message.Request.{Request, Response}
use sippet.Transport.EndPoint.{EndPoint, Key, key, is_empty}
use sippet.Transport.NetworkLayer.{
  Layer, ChannelContext, key_eq, owner, put_context, get_channel_context, request_channel,
  release_channel, request_internal, release_internal, send_response, transaction_send,
  send_request, channel_closed, close_channel,
}
use sippet.Transport.NetworkLayer.Closing.{Linked-emit, Replaced-put, destroyed-Linked}
use sippet.Transport.NetworkLayer.Invariant.{Linked}
use sippet.Transport.NetworkLayer.Joining.{
  create_client-Linked, client_request_id-client, create_context-Linked,
}
use sippet.Transport.NetworkLayer.Links.{Linked-same}
use sippet.Transport.NetworkLayer.Sending.{
  Environment, Answers, ◌>>=◌, with_via, start_transaction, send_using, connect_to, with_user_agent,
  send_through, send_request_from, with_server, send_directly, send_response_from, dismiss,
}
use sippet.Transport.Stamp.{stamp_contact, request_end_point, response_end_point}
use sippet.Transport.TransactionId.{client_request_id, server_response_id}

pub bind-some {ℓ κ} :
    {A : Type ℓ} {B : Type κ} (m : Option A) (f : A → Option B) {b : B}
    → (m >>= f) ≡ some b
    → (a : A) × (m ≡ some a) × (f a ≡ some b)
bind-some none f e = absurd (cc e)
bind-some (some a) f e = (a, refl, e)

-- A context changes its counters or its initial request.
pub changed-Linked :
    (k : Key) (c c' : ChannelContext) (l : Layer)
    → Linked l
    → find k l.channels ≡ some c
    → c'.destination ≡ c.destination
    → c'.transactions ≡ c.transactions
    → Linked (put_context k c' l)
changed-Linked k c c' l v at d t = Linked-same (Replaced-put k c c' l l at d refl) v t (λ j. refl)

pub request_channel-Linked : (d : EndPoint) (l : Layer) → Linked l → Linked (request_channel d l).1
unfolding request_channel
request_channel-Linked d l v = elim (Option-cases (get_channel_context d l)) [
  | inl n ↦ rw (n, request_channel) v
  | inr (c, at) ↦
      rw (at, request_channel) (changed-Linked (key d) c (request_internal c) l v at refl refl)
]

pub release_channel-Linked : (d : EndPoint) (l : Layer) → Linked l → Linked (release_channel d l)
unfolding release_channel
release_channel-Linked d l v = elim (Option-cases (get_channel_context d l)) [
  | inl n ↦ rw (n, release_channel) v
  | inr (c, at) ↦
      rw (at, release_channel) (changed-Linked (key d) c (release_internal c) l v at refl refl)
]

pub connect_to-Linked :
    (d : EndPoint) (factory : Option NetResult) (l : Layer)
    → Linked l
    → Linked (connect_to d factory l).1
unfolding connect_to
connect_to-Linked d factory l v = elim (Option-cases (get_channel_context d l)) [
  | inl n ↦ rw n (create_context-Linked d none none factory l v n)
  | inr (c, at) ↦ rw at v
]

-- The transaction that sending the request starts has an id that no transaction of the layer has.
abbrev pub HasFreshId : Environment → Answers → Request → Layer → Type 0
HasFreshId env a r l =
    (p : Protocol) (r1 : Request) (id : Text)
    → with_via a r ≡ some r1
    → client_request_id (stamp_contact env.uris env.printers a.origin p r1) ≡ some id
    → owner id l ≡ none

-- An operation returns a result and a layer.
pub returned-Linked :
    {x y : NetResult} {m l' : Layer}
    → ◌≡◌ {A = Option (NetResult × Layer)} (some (x, m)) (some (y, l'))
    → Linked m
    → Linked l'
returned-Linked {x} {y} {m} {l'} e v =
    subst Linked (ap (λ p. p.1) (some-injective (x, m) (y, l') e)) v

start_transaction-Linked :
    (r : Request) (k : Key) (c : ChannelContext) (l l' : Layer)
    → Linked l
    → find k l.channels ≡ some c
    → ((id : Text) → client_request_id r ≡ some id → owner id l ≡ none)
    → start_transaction r k c l ≡ some l'
    → Linked l'
start_transaction-Linked r k c l l' v at fresh e = elim (Bool-cases (is_method ack r.method)) [
  | inl t ↦ subst Linked (some-injective l l' (rw t at e)) v
  | inr f ↦ elim (Option-cases (client_request_id r)) [
    | inl n ↦ absurd (cc (rw (n, start_transaction) at (rw f at e)))
    | inr (id, h) ↦
        subst Linked (some-injective _ l' (rw (h, start_transaction) at (rw f at e)))
          (create_client-Linked id r k c l v (fresh id h) at (client_request_id-client r id h))
  ]
]

pub send_using-Linked :
    (env : Environment) (a : Answers) (r : Request) (k : Key) (c : ChannelContext) (l : Layer)
    (result : NetResult) (l' : Layer)
    → Linked l
    → find k l.channels ≡ some c
    → HasFreshId env a r l
    → send_using env a r k c l ≡ some (result, l')
    → Linked l'
unfolding send_using
send_using-Linked env a r k c l result l' v at fresh e = elim (Bool-cases a.is_connected) [
  | inr f ↦ returned-Linked (rw f at e) v
  | inl t ↦
      let (r1, h1, e1) = bind-some (with_via a r) _ (rw t at e) in
      let r2 = stamp_contact env.uris env.printers a.origin c.destination.protocol r1 in
      let (m, h2, e2) = bind-some (start_transaction r2 k c l) _ e1 in
      returned-Linked e2 (
        Linked-emit (send_request c.destination r2) m (
          start_transaction-Linked r2 k c l m v at (λ id h. fresh c.destination.protocol r1 id h1 h)
            h2))
]

pub send_request_from-Linked :
    (env : Environment) (a : Answers) (factory : Option NetResult) (r : Request) (callback : ℕ)
    (l : Layer) (result : NetResult) (l' : Layer)
    → Linked l
    → HasFreshId env a (with_user_agent env.software_name r) l
    → send_request_from env a factory r callback l ≡ some (result, l')
    → Linked l'
unfolding send_request_from send_through
send_request_from-Linked env a factory r callback l result l' v fresh e =
    let d = request_end_point env.uris r in
    let r' = with_user_agent env.software_name r in
    elim (Bool-cases (is_empty d)) [
      | inl t ↦ returned-Linked (rw t at e) v
      | inr f ↦ through d r' (get_channel_context d l) refl fresh (rw f at e)
    ]
  where
    through :
        (d : EndPoint) (r' : Request) (at : Option ChannelContext)
        → get_channel_context d l ≡ at
        → HasFreshId env a r' l
        → send_through env a factory r' callback d at l ≡ some (result, l')
        → Linked l'
    through d r' (some c) at fresh e = send_using-Linked env a r' (key d) c l result l' v at fresh e
    through d r' none at fresh e = elim (Bool-cases (is_method ack r'.method)) [
      | inl t ↦ returned-Linked (rw t at e) v
      | inr f ↦
          returned-Linked (rw f at e)
            (create_context-Linked d (some r') (some callback) factory l v at)
    ]

send_directly-Linked :
    (env : Environment) (s : Response) (l : Layer) (result : NetResult) (l' : Layer)
    → Linked l
    → send_directly env s l ≡ some (result, l')
    → Linked l'
send_directly-Linked env s l result l' v e =
    let (d, h, e1) = bind-some (response_end_point env.port_of s) _ e in
    elim (Bool-cases (is_empty d)) [
      | inl t ↦ returned-Linked (rw t at e1) v
      | inr f ↦ elim (Bool-cases (is_some (get_channel_context d l))) [
        | inl t ↦ returned-Linked (rw t at (rw f at e1)) (Linked-emit (send_response d s) l v)
        | inr g ↦ returned-Linked (rw g at (rw f at e1)) v
      ]
    ]

pub send_response_from-Linked :
    (env : Environment) (s : Response) (l : Layer) (result : NetResult) (l' : Layer)
    → Linked l
    → send_response_from env s l ≡ some (result, l')
    → Linked l'
unfolding send_response_from
send_response_from-Linked env s0 l result l' v e =
    let s = with_server env.software_name s0 in
    let (id, h, e1) = bind-some (server_response_id env.printers s) _ e in
    elim (Bool-cases (is_some (find id l.server_transactions))) [
      | inl t ↦ returned-Linked (rw t at e1) (Linked-emit (transaction_send id s) l v)
      | inr f ↦ send_directly-Linked env s l result l' v (rw f at e1)
    ]

pub dismiss-Linked :
    (d : EndPoint) (l : Layer) (result : NetResult) (l' : Layer)
    → Linked l
    → dismiss d l ≡ some (result, l')
    → Linked l'
unfolding dismiss
dismiss-Linked d l result l' v e = elim (Option-cases (get_channel_context d l)) [
  | inl n ↦ returned-Linked (rw (n, dismiss) at e) v
  | inr (c, at) ↦
      let (m, done, linked, gone) = destroyed-Linked (key d) c l v at in
      returned-Linked (rw (done, ◌>>=◌) at (rw (at, dismiss) at e))
        (Linked-emit (channel_closed d) _ (Linked-emit (close_channel d) m linked))
]
