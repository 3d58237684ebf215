-- ===== src/Transport/NetworkLayer/Joining.antt =====
-- The links of the network layer when a transaction or a channel is created.
use mathlib.Core.Option.{some-injective}
use sippet.Base.{
  ℕ, ◌≡◌, refl, ap, subst, true, false, List, [], ◌∷◌, Option, none, some, if◌then◌else◌,
  Bool-cases, Option-cases, inl, inr, Text, equal, equal_iff, NetResult, is_ok,
}
use sippet.Base.Maps.{find, assign, text_eq, find-assign}
use sippet.Message.Header.{ViaParam}
use sippet.Message.Header
use sippet.Message.Headers.{get}
use sippet.Message.Method.{Method}
use sippet.Message.Params.{branch}
use sippet.Message.Request.{Request}
use sippet.Transport.EndPoint.{EndPoint, Key, key}
use sippet.Transport.NetworkLayer.{
  Layer, ChannelContext, key_eq, member, owner, using, get_channel_context, create_client,
  create_server, is_client_id, start_client, start_server, connect,
}
use sippet.Transport.NetworkLayer.Cascade.{AllOn-member}
use sippet.Transport.NetworkLayer.Closing.{Linked-emit, Replaced-put}
use sippet.Transport.NetworkLayer.Invariant.{Linked}
use sippet.Transport.NetworkLayer.Leaving.{Linked-open}
use sippet.Transport.NetworkLayer.Links.{Linked-join}
use sippet.Transport.NetworkLayer.Sending.{create_context, connecting}
use sippet.Transport.TransactionId.{
  Printers, client_id, client_request_id, server_request_id, server_id, fallback_id, magic_branch,
  topmost, the_via, ack_as_invite,
}

unlisted :
    (id : Text) (k : Key) (c : ChannelContext) (l : Layer)
    → Linked l
    → owner id l ≡ none
    → find k l.channels ≡ some c
    → member id c.transactions ≡ false
unlisted id k c l v free at = elim (Bool-cases (member id c.transactions)) [
  | inr f ↦ f
  | inl m ↦
      let (d, e, _) = AllOn-member k l id c.transactions (v.listed k c at) m in
      absurd (cc (e, free))
]

using-transactions :
    (id : Text) (c : ChannelContext)
    → member id c.transactions ≡ false
    → (using id c).transactions ≡ id ∷ c.transactions
using-transactions id c f = rw f refl

module _ (id : Text) (r : Request) (k : Key) (c : ChannelContext) (l : Layer) (v : Linked l)
    (free : owner id l ≡ none) (at : find k l.channels ≡ some c) where
  -- A client transaction with a free id joins its channel.
  pub create_client-Linked : is_client_id id ≡ true → Linked (create_client id r k c l)
  create_client-Linked client =
      let l1 : Layer = record l {
        client_transactions = assign id c.destination l.client_transactions;
      } in
      Linked-emit (start_client id r) _ (
        Linked-join (Replaced-put k c (using id c) l l1 at refl refl) v id c.destination
          (v.keyed k c at) (using-transactions id c (unlisted id k c l v free at)) free owners)
    where
      owners :
          (j : Text)
          → owner j
              (record l { client_transactions = assign id c.destination l.client_transactions })
            ≡ (if equal id j then some c.destination else owner j l)
      owners j = elim (Bool-cases (is_client_id j)) [
        | inl t ↦ rw t (find-assign id j c.destination l.client_transactions)
        | inr f ↦ elim (Bool-cases (equal id j)) [
          | inl s ↦ absurd (cc (client, f, ap is_client_id ((equal_iff id j).0 s)))
          | inr s ↦ rw (f, s) refl
        ]
      ]

  -- A server transaction with a free id joins its channel.
  pub create_server-Linked : is_client_id id ≡ false → Linked (create_server id r k c l)
  create_server-Linked server =
      let l1 : Layer = record l {
        server_transactions = assign id c.destination l.server_transactions;
      } in
      Linked-emit (start_server id r) _ (
        Linked-join (Replaced-put k c (using id c) l l1 at refl refl) v id c.destination
          (v.keyed k c at) (using-transactions id c (unlisted id k c l v free at)) free owners)
    where
      owners :
          (j : Text)
          → owner j
              (record l { server_transactions = assign id c.destination l.server_transactions })
            ≡ (if equal id j then some c.destination else owner j l)
      owners j = elim (Bool-cases (is_client_id j)) [
        | inr f ↦ rw f (find-assign id j c.destination l.server_transactions)
        | inl t ↦ elim (Bool-cases (equal id j)) [
          | inl s ↦ absurd (cc (server, t, ap is_client_id ((equal_iff id j).0 s)))
          | inr s ↦ rw (t, s) refl
        ]
      ]

-- The ids of client and of server transactions are told apart by their first byte.
client_id-client :
    (vs : Option (List ViaParam)) (m : Option Method) (id : Text)
    → client_id vs m ≡ some id
    → is_client_id id ≡ true
unfolding is_client_id
client_id-client none m id e = absurd (cc e)
client_id-client (some []) m id e = absurd (cc e)
client_id-client (some (v ∷ vs)) none id e = absurd (cc e)
client_id-client (some (v ∷ vs)) (some m) id e = elim (Option-cases (branch v.params)) [
  | inl n ↦ absurd (cc (rw (n, client_id) at e))
  | inr (b, h) ↦
      subst (λ x. is_client_id x ≡ true) (some-injective _ id (rw (h, client_id) at e)) refl
]

pub client_request_id-client :
    (r : Request) (id : Text) → client_request_id r ≡ some id → is_client_id id ≡ true
unfolding client_request_id
client_request_id-client r id e = client_id-client _ _ id e

fallback_id-server :
    (p : Printers) (v : Option ViaParam) (h : _) (m : Method) (q : Option (ℕ × Method)) (id : Text)
    → fallback_id p v h m q ≡ some id
    → is_client_id id ≡ false
unfolding fallback_id is_client_id
fallback_id-server p v h m none id e = absurd (cc e)
fallback_id-server p v h m (some (n, m')) id e = elim (Option-cases (get Header.as_to h)) [
  | inl x ↦ absurd (cc (rw (x, fallback_id) at e))
  | inr (t, ht) ↦ elim (Option-cases (get Header.as_from h)) [
    | inl x ↦ absurd (cc (rw (x, fallback_id) at (rw (ht, fallback_id) at e)))
    | inr (f, hf) ↦ elim (Option-cases (get Header.as_call_id h)) [
      | inl x ↦
          absurd (cc (rw (x, fallback_id) at (rw (hf, fallback_id) at (rw (ht, fallback_id) at e))))
      | inr (c, hc) ↦
          subst (λ x. is_client_id x ≡ false)
            (some-injective _ id
              (rw (hc, fallback_id) at (rw (hf, fallback_id) at (rw (ht, fallback_id) at e))))
            refl
    ]
  ]
]

server_id-server :
    (p : Printers) (v : Option (Option ViaParam)) (m : Method) (fallback : Option Text) (id : Text)
    → ((x : Text) → fallback ≡ some x → is_client_id x ≡ false)
    → server_id p v m fallback ≡ some id
    → is_client_id id ≡ false
unfolding is_client_id
server_id-server p none m fallback id f e = absurd (cc e)
server_id-server p (some none) m fallback id f e = f id e
server_id-server p (some (some v)) m fallback id f e = elim (Option-cases (magic_branch v)) [
  | inl n ↦ f id (rw (n, server_id) at e)
  | inr (b, h) ↦
      subst (λ x. is_client_id x ≡ false) (some-injective _ id (rw (h, server_id) at e)) refl
]

pub server_request_id-server :
    (p : Printers) (r : Request) (id : Text)
    → server_request_id p r ≡ some id
    → is_client_id id ≡ false
unfolding server_request_id
server_request_id-server p r id e =
    let v = topmost (get Header.as_via r.headers) in
    server_id-server p v (ack_as_invite r.method) _ id
      (fallback_id-server p (the_via v) r.headers r.method (get Header.as_cseq r.headers)) e

-- A channel that was created has no transaction yet.
pub create_context-Linked :
    (d : EndPoint) (request : Option Request) (callback : Option ℕ) (factory : Option NetResult)
    (l : Layer)
    → Linked l
    → get_channel_context d l ≡ none
    → Linked (connecting d (create_context d request callback factory l)).1
unfolding create_context
create_context-Linked d request callback none l v free = v
create_context-Linked d request callback (some result) l v free = elim (Bool-cases (is_ok result)) [
  | inr f ↦ rw (f, connecting) (rw f v)
  | inl t ↦
      rw (t, connecting)
        (Linked-emit (connect d) _ (
          Linked-open (key d) _ l _ v free refl refl (λ j. find-assign (key d) j _ l.channels)
            (λ j. refl)))
]
