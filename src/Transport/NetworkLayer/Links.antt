-- ===== src/Transport/NetworkLayer/Links.antt =====
-- The links of the network layer stay whole when one context changes.
use mathlib.Core.Option.{some-injective}
use sippet.Base.{
  ◌≡◌, refl, sym, ◌∙◌, ap, subst, Bool, true, false, ◌∷◌, none, some, if◌then◌else◌, Bool-cases,
  inl, inr, Text, equal, equal_iff, equal_refl,
}
use sippet.Base.Maps.{find, text_eq}
use sippet.Transport.EndPoint.{EndPoint, Key, key}
use sippet.Transport.NetworkLayer.{
  Layer, ChannelContext, key_eq, key_beq, key_beq_iff, member, owner,
}
use sippet.Transport.NetworkLayer.Cascade.{Distinct, AllOn, AllOn-member}
use sippet.Transport.NetworkLayer.Invariant.{
  Linked, Replaced, AllOn-same, lookup_replaced, found_replaced, found_other, keyed_replaced,
}

-- A choice that was made.
pub chosen {ℓ} :
    {A : Type ℓ} {b c : Bool} (x y : A) {z : A}
    → b ≡ c
    → (if b then x else y) ≡ z
    → (if c then x else y) ≡ z
chosen x y {z = z} e h = subst (λ b. (if b then x else y) ≡ z) e h

module _ {k : Key} {c c' : ChannelContext} {l l' : Layer} (r : Replaced k c c' l l')
    (v : Linked l) where
  -- The context under the key of a transaction's channel, before and after.
  pub owned_replaced :
      (id : Text) (d : EndPoint)
      → (old : ChannelContext) → find (key d) l.channels ≡ some old
      → (key_beq k (key d) ≡ true → (c ≡ old) → member id c'.transactions ≡ true)
      → member id old.transactions ≡ true
      → (x : ChannelContext) × (find (key d) l'.channels ≡ some x)
        × (member id x.transactions ≡ true)
  owned_replaced id d old e mine m = elim (Bool-cases (key_beq k (key d))) [
    | inr f ↦ (old, found_other r (key d) f ∙ e, m)
    | inl t ↦
        let same : k ≡ key d = (key_beq_iff k (key d)).0 t in
        (
          c',
          subst (λ y. find y l'.channels ≡ some c') same (found_replaced r),
          mine t (some-injective c old (sym r.was ∙ ap (λ y. find y l.channels) same ∙ e)),
        )
  ]

  -- The transactions stay as they are.
  pub Linked-same :
      c'.transactions ≡ c.transactions → ((j : Text) → owner j l' ≡ owner j l) → Linked l'
  Linked-same t o = record {
    keyed = keyed_replaced r v;
    distinct = λ j x e. elim (lookup_replaced r j x e) [
      | inl (p, q) ↦ subst (λ y. Distinct y.transactions) q (rw t (v.distinct k c r.was))
      | inr (f, old) ↦ v.distinct j x old
    ];
    listed = λ j x e. elim (lookup_replaced r j x e) [
      | inl (p, q) ↦
          subst (λ y. AllOn j l' y.transactions) q
            (rw t (
              subst (λ y. AllOn y l' c.transactions) p
                (AllOn-same k l l' c.transactions (λ i _. o i) (v.listed k c r.was))))
      | inr (f, old) ↦ AllOn-same j l l' x.transactions (λ i _. o i) (v.listed j x old)
    ];
    owned = λ id d e.
        let (old, f, m) = v.owned id d (sym (o id) ∙ e) in
        owned_replaced id d old f
          (λ _ same. ap (λ y. member id y) t ∙ ap (λ y. member id y.transactions) same ∙ m) m;
  }

  module _ (id : Text) (d : EndPoint) (on : key d ≡ k) where
    -- A transaction joins, whose id was free.
    pub Linked-join :
        c'.transactions ≡ id ∷ c.transactions
        → owner id l ≡ none
        → ((j : Text) → owner j l' ≡ (if equal id j then some d else owner j l))
        → Linked l'
    Linked-join t free o = record {
      keyed = keyed_replaced r v;
      distinct = λ j x e. elim (lookup_replaced r j x e) [
        | inl (p, q) ↦ subst (λ y. Distinct y.transactions) q (rw t (absent, v.distinct k c r.was))
        | inr (f, old) ↦ v.distinct j x old
      ];
      listed = λ j x e. elim (lookup_replaced r j x e) [
        | inl (p, q) ↦
            subst (λ y. AllOn j l' y.transactions) q
              (rw t (
                subst (λ y. AllOn y l' (id ∷ c.transactions)) p
                  ((d, o id ∙ rw (equal_refl id) refl, on), others k c r.was)))
        | inr (f, old) ↦ others j x old
      ];
      owned = λ j x e. elim (Bool-cases (equal id j)) [
        | inl s ↦
            let same : d ≡ x = some-injective d x (chosen (some d) (owner j l) s (sym (o j) ∙ e)) in
            (
              c',
              subst (λ y. find y l'.channels ≡ some c') (sym on ∙ ap key same) (found_replaced r),
              ap (λ y. member j y) t ∙ rw s refl,
            )
        | inr s ↦
            let (old, f, m) = v.owned j x (chosen (some d) (owner j l) s (sym (o j) ∙ e)) in
            owned_replaced j x old f
              (λ _ same. ap (λ y. member j y) t ∙ rw s (ap (λ y. member j y.transactions) same ∙ m))
              m
      ];
    }
      where
        unlisted :
            (j : Key) (x : ChannelContext)
            → find j l.channels ≡ some x
            → member id x.transactions ≡ false
        unlisted j x old = elim (Bool-cases (member id x.transactions)) [
          | inr f ↦ f
          | inl m ↦
              let (y, e, _) = AllOn-member j l id x.transactions (v.listed j x old) m in
              absurd (cc (e, free))
        ]

        absent : member id c.transactions ≡ false
        absent = unlisted k c r.was

        others :
            (j : Key) (x : ChannelContext) → find j l.channels ≡ some x → AllOn j l' x.transactions
        others j x old =
            AllOn-same j l l' x.transactions
              (λ i m. o i ∙ elim (Bool-cases (equal id i)) [
                | inr f ↦ rw f refl
                | inl s ↦ absurd (
                    cc (
                      m,
                      unlisted j x old,
                      ap (λ y. member y x.transactions) ((equal_iff id i).0 s),
                    ))
              ])
              (v.listed j x old)
