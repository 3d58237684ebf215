-- ===== src/Transport/NetworkLayer/Leaving.antt =====
-- The links of the network layer when a transaction ends, and when a channel comes or goes.
use mathlib.Core.Option.{some-injective}
use sippet.Base.{
  ◌≡◌, ◌⊎◌, refl, sym, ◌∙◌, ap, subst, true, false, List, [], ◌∷◌, none, some, if◌then◌else◌,
  Bool-cases, inl, inr, arith, Text, equal, equal_iff,
}
use sippet.Base.Maps.{find, text_eq}
use sippet.Transport.EndPoint.{EndPoint, Key, key}
use sippet.Transport.NetworkLayer.{
  Layer, ChannelContext, key_eq, key_beq, key_beq_iff, member, erase_id, owner,
}
use sippet.Transport.NetworkLayer.Cascade.{Distinct, AllOn, AllOn-member}
use sippet.Transport.NetworkLayer.Invariant.{
  Linked, Replaced, AllOn-same, lookup_replaced, keyed_replaced,
}
use sippet.Transport.NetworkLayer.Links.{chosen, owned_replaced}

member-erase_id :
    (id j : Text) (ids : List Text)
    → member j (erase_id id ids) ≡ (if equal id j then false else member j ids)
unfolding erase_id
member-erase_id id j [] = ground arith
member-erase_id id j (x ∷ ids) =
    ground (arith, equal_iff x id, equal_iff x j, equal_iff id j, member-erase_id id j ids)

Distinct-erase_id : (id : Text) (ids : List Text) → Distinct ids → Distinct (erase_id id ids)
unfolding erase_id
Distinct-erase_id id [] u = tt
Distinct-erase_id id (x ∷ ids) (f, u) = elim (Bool-cases (equal x id)) [
  | inl t ↦ rw t (Distinct-erase_id id ids u)
  | inr g ↦ rw g (
    member-erase_id id x ids ∙ ground (arith, f, equal_iff id x, equal_iff x id),
    Distinct-erase_id id ids u,
  )
]

AllOn-erase_id :
    (k : Key) (l l' : Layer) (id : Text) (ids : List Text)
    → ((j : Text) → equal id j ≡ false → owner j l' ≡ owner j l)
    → AllOn k l ids
    → AllOn k l' (erase_id id ids)
unfolding erase_id
AllOn-erase_id k l l' id [] same a = tt
AllOn-erase_id k l l' id (x ∷ ids) same ((d, e, h), a) = elim (Bool-cases (equal x id)) [
  | inl t ↦ rw t (AllOn-erase_id k l l' id ids same a)
  | inr g ↦ rw g (
    (d, same x (ground (arith, equal_iff id x, equal_iff x id)) ∙ e, h),
    AllOn-erase_id k l l' id ids same a,
  )
]

module _ {k : Key} {c c' : ChannelContext} {l l' : Layer} (r : Replaced k c c' l l')
    (v : Linked l) where
  -- A transaction leaves its channel.
  pub Linked-leave :
      (id : Text) (d : EndPoint)
      → key d ≡ k
      → owner id l ≡ some d
      → c'.transactions ≡ erase_id id c.transactions
      → ((j : Text) → owner j l' ≡ (if equal id j then none else owner j l))
      → Linked l'
  Linked-leave id d on own t o = record {
    keyed = keyed_replaced r v;
    distinct = λ j x e. elim (lookup_replaced r j x e) [
      | inl (p, q) ↦
          subst (λ y. Distinct y.transactions) q
            (rw t (Distinct-erase_id id c.transactions (v.distinct k c r.was)))
      | inr (f, old) ↦ v.distinct j x old
    ];
    listed = λ j x e. elim (lookup_replaced r j x e) [
      | inl (p, q) ↦
          subst (λ y. AllOn j l' y.transactions) q
            (rw t (
              subst (λ y. AllOn y l' (erase_id id c.transactions)) p
                (AllOn-erase_id k l l' id c.transactions kept (v.listed k c r.was))))
      | inr (f, old) ↦
          AllOn-same j l l' x.transactions (λ i m. kept i (not_here j x f old i m))
            (v.listed j x old)
    ];
    owned = λ j x e. elim (Bool-cases (equal id j)) [
      | inl s ↦ absurd (cc (chosen none (owner j l) s (sym (o j) ∙ e)))
      | inr s ↦
          let (old, f, m) = v.owned j x (chosen none (owner j l) s (sym (o j) ∙ e)) in
          owned_replaced r v j x old f
            (λ _ same.
              ap (λ y. member j y) t
              ∙ member-erase_id id j c.transactions
              ∙ rw s (ap (λ y. member j y.transactions) same ∙ m))
            m
    ];
  }
    where
      kept : (j : Text) → equal id j ≡ false → owner j l' ≡ owner j l
      kept j f = o j ∙ rw f refl

      not_here :
          (j : Key) (x : ChannelContext)
          → key_beq k j ≡ false
          → find j l.channels ≡ some x
          → (i : Text) → member i x.transactions ≡ true
          → equal id i ≡ false
      not_here j x f old i m = elim (Bool-cases (equal id i)) [
        | inr g ↦ g
        | inl s ↦
            let (d', e, at_j) = AllOn-member j l i x.transactions (v.listed j x old) m in
            let same : d ≡ d' =
              some-injective d d' (sym own ∙ ap (λ y. owner y l) ((equal_iff id i).0 s) ∙ e) in
            absurd (cc (f, (key_beq_iff k j).1 (sym on ∙ ap key same ∙ at_j)))
      ]

-- A channel goes, with its transactions.
pub Linked-close :
    (k : Key) (c : ChannelContext) (l l' : Layer)
    → Linked l
    → find k l.channels ≡ some c
    → ((j : Key) → find j l'.channels ≡ (if key_beq k j then none else find j l.channels))
    → ((j : Text) → owner j l' ≡ (if member j c.transactions then none else owner j l))
    → Linked l'
Linked-close k c l l' v was now o = record {
  keyed = λ j x e. v.keyed j x (old j x e).1;
  distinct = λ j x e. v.distinct j x (old j x e).1;
  listed = λ j x e.
      AllOn-same j l l' x.transactions
        (λ i m. o i ∙ rw (elsewhere j x (old j x e).0 (old j x e).1 i m) refl)
        (v.listed j x (old j x e).1);
  owned = λ id d e. elim (Bool-cases (member id c.transactions)) [
    | inl m ↦ absurd (cc (chosen none (owner id l) m (sym (o id) ∙ e)))
    | inr m ↦
        let (x, f, mine) = v.owned id d (chosen none (owner id l) m (sym (o id) ∙ e)) in
        (x, now (key d) ∙ rw (other id d x m f mine) f, mine)
  ];
}
  where
    old :
        (j : Key) (x : ChannelContext)
        → find j l'.channels ≡ some x
        → (key_beq k j ≡ false) × (find j l.channels ≡ some x)
    old j x e = elim (Bool-cases (key_beq k j)) [
      | inl t ↦ absurd (cc (chosen none (find j l.channels) t (sym (now j) ∙ e)))
      | inr f ↦ (f, chosen none (find j l.channels) f (sym (now j) ∙ e))
    ]

    elsewhere :
        (j : Key) (x : ChannelContext)
        → key_beq k j ≡ false
        → find j l.channels ≡ some x
        → (i : Text) → member i x.transactions ≡ true
        → member i c.transactions ≡ false
    elsewhere j x f e i m = elim (Bool-cases (member i c.transactions)) [
      | inr g ↦ g
      | inl s ↦
          let (d, own, at_j) = AllOn-member j l i x.transactions (v.listed j x e) m in
          let (d', own', at_k) = AllOn-member k l i c.transactions (v.listed k c was) s in
          let same : d' ≡ d = some-injective d' d (sym own' ∙ own) in
          absurd (cc (f, (key_beq_iff k j).1 (sym at_k ∙ ap key same ∙ at_j)))
    ]

    other :
        (id : Text) (d : EndPoint) (x : ChannelContext)
        → member id c.transactions ≡ false
        → find (key d) l.channels ≡ some x
        → member id x.transactions ≡ true
        → key_beq k (key d) ≡ false
    other id d x m f mine = elim (Bool-cases (key_beq k (key d))) [
      | inr g ↦ g
      | inl t ↦
          let same : c ≡ x =
            some-injective c x
              (sym was ∙ ap (λ y. find y l.channels) ((key_beq_iff k (key d)).0 t) ∙ f) in
          absurd (cc (m, mine, ap (λ y. member id y.transactions) same))
    ]

-- A channel comes, with no transaction yet.
pub Linked-open :
    (k : Key) (c : ChannelContext) (l l' : Layer)
    → Linked l
    → find k l.channels ≡ none
    → key c.destination ≡ k
    → c.transactions ≡ []
    → ((j : Key) → find j l'.channels ≡ (if key_beq k j then some c else find j l.channels))
    → ((j : Text) → owner j l' ≡ owner j l)
    → Linked l'
Linked-open k c l l' v free on fresh now o = record {
  keyed = λ j x e. elim (old j x e) [
    | inl (p, q) ↦ ap (λ y. key y.destination) (sym q) ∙ on ∙ p
    | inr f ↦ v.keyed j x f
  ];
  distinct = λ j x e. elim (old j x e) [
    | inl (p, q) ↦ subst (λ y. Distinct y.transactions) q (rw fresh tt)
    | inr f ↦ v.distinct j x f
  ];
  listed = λ j x e. elim (old j x e) [
    | inl (p, q) ↦ subst (λ y. AllOn j l' y.transactions) q (rw fresh tt)
    | inr f ↦ AllOn-same j l l' x.transactions (λ i _. o i) (v.listed j x f)
  ];
  owned = λ id d e.
      let (x, f, m) = v.owned id d (sym (o id) ∙ e) in (x, now (key d) ∙ rw (taken d x f) f, m);
}
  where
    old :
        (j : Key) (x : ChannelContext)
        → find j l'.channels ≡ some x
        → ((k ≡ j) × (c ≡ x)) ⊎ (find j l.channels ≡ some x)
    old j x e = elim (Bool-cases (key_beq k j)) [
      | inl t ↦ inl (
        (key_beq_iff k j).0 t,
        some-injective c x (chosen (some c) (find j l.channels) t (sym (now j) ∙ e)),
      )
      | inr f ↦ inr (chosen (some c) (find j l.channels) f (sym (now j) ∙ e))
    ]

    taken :
        (d : EndPoint) (x : ChannelContext)
        → find (key d) l.channels ≡ some x
        → key_beq k (key d) ≡ false
    taken d x f = elim (Bool-cases (key_beq k (key d))) [
      | inr g ↦ g
      | inl t ↦ absurd (cc (free, f, ap (λ y. find y l.channels) ((key_beq_iff k (key d)).0 t)))
    ]
