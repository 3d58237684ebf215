-- ===== src/Transport/NetworkLayer/Closing.antt =====
-- The ends of transactions and channels in network_layer.cc meet no fault and keep the links.
use sippet.Base.{◌≡◌, refl, ◌∙◌, ap, none, some, if◌then◌else◌, Text, NetResult}
use sippet.Base.Maps.{find, erase, text_eq, find-erase, find-assign}
use sippet.Transport.EndPoint.{EndPoint, Key, key}
use sippet.Transport.NetworkLayer.{
  Layer, ChannelContext, Output, key_eq, key_beq, key_beq_iff, member, owner, emit, forget,
  put_context, leaving, get_channel_context, leave_channel, on_transaction_terminated,
  destroy_context, close_transaction, channel_closed, close_channel_with,
}
use sippet.Transport.NetworkLayer.Cascade.{terminate_all-Ended, owner-forget, channels-forget}
use sippet.Transport.NetworkLayer.Invariant.{Linked, Replaced}
use sippet.Transport.NetworkLayer.Leaving.{Linked-leave, Linked-close}
use sippet.Transport.NetworkLayer.Receiving.{on_channel_closed}
use sippet.Transport.NetworkLayer.Sending.{◌>>=◌}

-- The links do not depend on the log.
pub Linked-emit : (o : Output) (l : Layer) → Linked l → Linked (emit o l)
Linked-emit o l v = record {
  keyed = v.keyed;
  distinct = v.distinct;
  listed = v.listed;
  owned = v.owned;
}

-- A context that was put in its place.
pub Replaced-put :
    (k : Key) (c c' : ChannelContext) (l m : Layer)
    → find k l.channels ≡ some c
    → c'.destination ≡ c.destination
    → m.channels ≡ l.channels
    → Replaced k c c' l (put_context k c' m)
Replaced-put k c c' l m was same e = record {
  was = was;
  same_channel = same;
  now = λ j. find-assign k j c' m.channels ∙ ap (λ x. if key_beq k j then some c' else find j x) e;
}

-- A transaction that the layer has ends without a fault.
pub terminated-Linked :
    (id : Text) (d : EndPoint) (l : Layer)
    → Linked l
    → owner id l ≡ some d
    → (l' : Layer) × (on_transaction_terminated id l ≡ some l') × Linked l'
unfolding on_transaction_terminated leave_channel
terminated-Linked id d l v own =
    let (c, at, m) = v.owned id d own in
    let at' : find (key d) (forget id l).channels ≡ some c =
      ap (λ x. find (key d) x) (channels-forget id l) ∙ at in
    (
      emit (close_transaction id) (put_context (key d) (leaving id c) (forget id l)),
      rw (own, on_transaction_terminated) (rw (at', leave_channel) refl),
      Linked-emit (close_transaction id) _ (
          Linked-leave
            (Replaced-put (key d) c (leaving id c) l (forget id l) at refl (channels-forget id l)) v
            id d refl own refl (λ j. owner-forget id j l)),
    )

-- What a channel takes with it: its context, and the transactions that the context lists.
pub record Gone (k : Key) (c : ChannelContext) (l l' : Layer) : Type 0 where
  pub channels : (j : Key) → find j l'.channels ≡ (if key_beq k j then none else find j l.channels)
  pub owners : (j : Text) → owner j l' ≡ (if member j c.transactions then none else owner j l)

pub destroyed-Linked :
    (k : Key) (c : ChannelContext) (l : Layer)
    → Linked l
    → find k l.channels ≡ some c
    → (l' : Layer) × (destroy_context c l ≡ some l') × Linked l' × Gone k c l l'
unfolding destroy_context
destroyed-Linked k c l v at =
    let l0 : Layer = record l { channels = erase (key c.destination) l.channels } in
    let on : key c.destination ≡ k = v.keyed k c at in
    let erased : (j : Key)
        → find j l0.channels ≡ (if key_beq k j then none else find j l.channels) =
      λ j.
        find-erase (key c.destination) j l.channels
        ∙ ap (λ x. if key_beq x j then none else find j l.channels) on in
    let (l', done, ended) =
      terminate_all-Ended k c.transactions l0 (erased k ∙ rw ((key_beq_iff k k).1 refl) refl)
        (v.distinct k c at) (v.listed k c at) in
    let channels : (j : Key)
        → find j l'.channels ≡ (if key_beq k j then none else find j l.channels) =
      λ j. ap (λ x. find j x) ended.same_channels ∙ erased j in
    (
      l',
      done,
      Linked-close k c l l' v at channels ended.owners,
      record { channels = channels; owners = ended.owners },
    )

-- When the channel of a context reports that it is closed, OnChannelClosed meets no fault: the
-- context and exactly the transactions that it lists are gone, every other context and transaction
-- stays, and the links are whole.
pub on_channel_closed-Gone :
    (d : EndPoint) (err : NetResult) (l : Layer) {c : ChannelContext}
    → Linked l
    → get_channel_context d l ≡ some c
    → (l' : Layer) × (on_channel_closed d err l ≡ some l') × Linked l' × Gone (key d) c l l'
unfolding on_channel_closed
on_channel_closed-Gone d err l {c} v at =
    let (l', done, linked, gone) = destroyed-Linked (key d) c l v at in
    (
      emit (channel_closed d) (emit (close_channel_with d err) l'),
      rw (at, ◌>>=◌) (rw (done, ◌>>=◌) refl),
      Linked-emit (channel_closed d) _ (Linked-emit (close_channel_with d err) l' linked),
      record { channels = gone.channels; owners = gone.owners },
    )
