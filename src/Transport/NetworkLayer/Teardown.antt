-- ===== src/Transport/NetworkLayer/Teardown.antt =====
-- The destructor of NetworkLayer, in network_layer.cc, destroys every channel context.
use mathlib.Core.Option.{some-injective}
use sippet.Base.{
  ℕ, zero, suc, ◌≡◌, ◌≤◌, refl, sym, ◌∙◌, ap, subst, List, [], ◌∷◌, length, Option, none, some,
  Bool-cases, Option-cases, inl, inr, Text, arith,
}
use sippet.Base.Maps.{find, erase, text_eq, find-erase}
use sippet.Transport.EndPoint.{Key, key}
use sippet.Transport.NetworkLayer.{
  Layer, ChannelContext, key_eq, key_beq, key_beq_iff, owner, destroy_context,
}
use sippet.Transport.NetworkLayer.Cascade.{terminate_all-Ended}
use sippet.Transport.NetworkLayer.Closing.{destroyed-Linked}
use sippet.Transport.NetworkLayer.Invariant.{Linked}

-- The loop of ~NetworkLayer, in `fuel` rounds at most; `none` where it would go on.
unfoldable pub destroy_all : ℕ → List (Key × ChannelContext) → Layer → Option Layer
unfolding destroy_context
destroy_all fuel [] l = some l
destroy_all zero (_ ∷ _) l = none
destroy_all (suc fuel) ((_, c) ∷ _) l = elim (destroy_context c l) [
  | none ↦ none
  | some l' ↦ destroy_all fuel l'.channels l'
]

-- ~NetworkLayer: there are no more rounds than channels.
unfoldable pub destroy_layer : Layer → Option Layer
unfolding destroy_all
destroy_layer l = destroy_all (length l.channels) l.channels l

erase-length : (k : Key) (m : List (Key × ChannelContext)) → length (erase k m) ≤ length m
unfolding erase
erase-length k [] = omega arith
erase-length k ((j, c) ∷ m) =
    let h = erase-length k m in
    elim (Bool-cases (key_beq j k)) [ inl t ↦ rw t (omega arith) | inr f ↦ rw f (omega arith) ]

destroyed-channels :
    (k : Key) (c : ChannelContext) (l l' : Layer)
    → Linked l
    → find k l.channels ≡ some c
    → destroy_context c l ≡ some l'
    → l'.channels ≡ erase (key c.destination) l.channels
unfolding destroy_context
destroyed-channels k c l l' v at e =
    let l0 : Layer = record l { channels = erase (key c.destination) l.channels } in
    let (m, done, ended) =
      terminate_all-Ended k c.transactions l0
        (find-erase (key c.destination) k l.channels
          ∙ rw ((key_beq_iff (key c.destination) k).1 (v.keyed k c at)) refl)
        (v.distinct k c at) (v.listed k c at) in
    ap (λ x. x.channels) (some-injective l' m (sym e ∙ done)) ∙ ended.same_channels

-- A layer without channels has no transactions.
unowned : (l : Layer) → Linked l → l.channels ≡ [] → (id : Text) → owner id l ≡ none
unfolding find
unowned l v e id = elim (Option-cases (owner id l)) [
  | inl n ↦ n
  | inr (d, own) ↦ let (c, at, _) = v.owned id d own in absurd (cc (ap (λ m. find (key d) m) e, at))
]

destroy_all-Linked :
    (fuel : ℕ) (m : List (Key × ChannelContext)) (l : Layer)
    → l.channels ≡ m
    → length m ≤ fuel
    → Linked l
    → (l' : Layer) × (destroy_all fuel m l ≡ some l') × (l'.channels ≡ []) × Linked l'
unfolding destroy_all find erase
destroy_all-Linked fuel [] l e h v = (l, refl, e, v)
destroy_all-Linked zero (_ ∷ m) l e h v = absurd (omega arith)
destroy_all-Linked (suc fuel) ((k, c) ∷ m) l e h v =
    let here : find k l.channels ≡ some c =
      ap (λ x. find k x) e ∙ rw ((key_beq_iff k k).1 refl) refl in
    let (l1, done, linked, _) = destroyed-Linked k c l v here in
    let shape : l1.channels ≡ erase k m =
      destroyed-channels k c l l1 v here done
      ∙ ap (λ x. erase (key c.destination) x) e
      ∙ ap (λ j. erase j ((k, c) ∷ m)) (v.keyed k c here)
      ∙ rw ((key_beq_iff k k).1 refl) refl in
    let smaller : length l1.channels ≤ fuel =
      subst (λ x. length x ≤ fuel) (sym shape) (let s = erase-length k m in omega arith) in
    let (l', ended, nothing, linked') =
      destroy_all-Linked fuel l1.channels l1 refl smaller linked in
    (l', rw (done, destroy_all) ended, nothing, linked')

-- Where the links are whole the loop of the destructor ends with no fault after at most one round
-- for each channel, and then the layer has no channel and no client or server transaction.
pub destroy_layer_ends :
    (l : Layer)
    → Linked l
    → (l' : Layer) × (destroy_layer l ≡ some l')
      × (l'.channels ≡ [])
      × ((id : Text) → owner id l' ≡ none)
unfolding destroy_layer
destroy_layer_ends l v =
    let (l', done, nothing, linked) =
      destroy_all-Linked (length l.channels) l.channels l refl (omega arith) v in
    (l', done, nothing, unowned l' linked nothing)
