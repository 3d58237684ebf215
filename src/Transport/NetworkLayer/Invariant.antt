-- ===== src/Transport/NetworkLayer/Invariant.antt =====
-- The links between the channel contexts and the transactions of network_layer.cc.
use mathlib.Core.Option.{some-injective}
use sippet.Base.{
  ◌≡◌, ◌⊎◌, refl, sym, ◌∙◌, ap, Bool, true, false, List, [], ◌∷◌, some, if◌then◌else◌, Bool-cases,
  inl, inr, Text, equal, equal_refl,
}
use sippet.Base.Maps.{find, text_eq}
use sippet.Transport.EndPoint.{EndPoint, Key, key}
use sippet.Transport.NetworkLayer.{
  Layer, ChannelContext, key_eq, key_beq, key_beq_iff, member, owner,
}
use sippet.Transport.NetworkLayer.Cascade.{Distinct, AllOn}

-- Each context stands under the key of its channel; the transactions that it lists are those that
-- the layer has on that channel, each listed once; and each transaction of the layer is listed by
-- the context of its channel.
pub record Linked (l : Layer) : Type 0 where
  pub keyed : (k : Key) (c : ChannelContext) → find k l.channels ≡ some c → key c.destination ≡ k
  pub distinct :
      (k : Key) (c : ChannelContext) → find k l.channels ≡ some c → Distinct c.transactions
  pub listed :
      (k : Key) (c : ChannelContext) → find k l.channels ≡ some c → AllOn k l c.transactions
  pub owned :
      (id : Text) (d : EndPoint)
      → owner id l ≡ some d
      → (c : ChannelContext) × (find (key d) l.channels ≡ some c)
        × (member id c.transactions ≡ true)

-- One context is replaced by one for the same channel.
pub record Replaced (k : Key) (c c' : ChannelContext) (l l' : Layer) : Type 0 where
  pub was : find k l.channels ≡ some c
  pub same_channel : c'.destination ≡ c.destination
  pub now : (j : Key) → find j l'.channels ≡ (if key_beq k j then some c' else find j l.channels)

pub AllOn-same :
    (k : Key) (l l' : Layer) (ids : List Text)
    → ((j : Text) → member j ids ≡ true → owner j l' ≡ owner j l)
    → AllOn k l ids
    → AllOn k l' ids
AllOn-same k l l' [] same a = tt
AllOn-same k l l' (x ∷ ids) same ((d, e, h), a) = (
  (d, same x (rw (equal_refl x) refl) ∙ e, h),
  AllOn-same k l l' ids (λ j m. same j (later (equal x j) m)) a,
)
  where
    later : (b : Bool) {m : Bool} → m ≡ true → (if b then true else m) ≡ true
    later true e = refl
    later false e = e

-- A lookup in the layer with one context replaced finds that context or an old one.
module _ {k : Key} {c c' : ChannelContext} {l l' : Layer} (r : Replaced k c c' l l') where
  pub lookup_replaced :
      (j : Key) (x : ChannelContext)
      → find j l'.channels ≡ some x
      → ((k ≡ j) × (c' ≡ x)) ⊎ ((key_beq k j ≡ false) × (find j l.channels ≡ some x))
  lookup_replaced j x e = elim (Bool-cases (key_beq k j)) [
    | inl t ↦ inl (
      (key_beq_iff k j).0 t,
      some-injective c' x
          (ap (λ b. if b then some c' else find j l.channels) (sym t) ∙ sym (r.now j) ∙ e),
    )
    | inr f ↦
        inr (f, ap (λ b. if b then some c' else find j l.channels) (sym f) ∙ sym (r.now j) ∙ e)
  ]

  pub found_replaced : find k l'.channels ≡ some c'
  found_replaced = r.now k ∙ rw ((key_beq_iff k k).1 refl) refl

  pub found_other : (j : Key) → key_beq k j ≡ false → find j l'.channels ≡ find j l.channels
  found_other j f = r.now j ∙ rw f refl

  pub keyed_replaced :
      Linked l
      → (j : Key) (x : ChannelContext) → find j l'.channels ≡ some x
      → key x.destination ≡ j
  keyed_replaced v j x e = elim (lookup_replaced j x e) [
    | inl (p, q) ↦
        ap (λ y. key y.destination) (sym q) ∙ ap key r.same_channel ∙ v.keyed k c r.was ∙ p
    | inr (f, o) ↦ v.keyed j x o
  ]
