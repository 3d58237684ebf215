-- ===== src/Base/Maps.antt =====
-- A std::map, as a list of its entries; keys are compared by a test that decides equality.
use mathlib.Core.Path.{◌≡◌, refl, ap, ◌∙◌, subst}
use mathlib.Core.Logic.{◌↔◌, inl, inr}
use mathlib.Core.Bool.{Bool, true}
use mathlib.Core.List.{List, [], ◌∷◌}
use mathlib.Core.Option.{Option, none, some, some-injective}
use native.Mathlib.Omega.{arith}
use sippet.Base.Bools.{if◌then◌else◌, Bool-cases}
use sippet.Base.Lists.{All}
use sippet.Base.Texts.{Text, equal, equal_iff}

pub record Eq {ℓ} (K : Type ℓ) : Type ℓ where
  pub beq : K → K → Bool
  pub beq_iff : (a b : K) → (beq a b ≡ true) ↔ (a ≡ b)

instance abbrev pub text_eq : Eq Text
text_eq = record { beq = equal; beq_iff = equal_iff }

module _ {ℓ κ} {K : Type ℓ} {V : Type κ} ⦃e : Eq K⦄ where
  unfoldable pub find : K → List (K × V) → Option V
  find k [] = none
  find k ((j, v) ∷ m) = if e.beq j k then some v else find k m

  -- map[k] = v
  unfoldable pub assign : K → V → List (K × V) → List (K × V)
  assign k v [] = (k, v) ∷ []
  assign k v ((j, w) ∷ m) = if e.beq j k then (j, v) ∷ m else (j, w) ∷ assign k v m

  -- map.insert(make_pair(k, v)) keeps an entry that is there.
  unfoldable pub insert : K → V → List (K × V) → List (K × V)
  insert k v [] = (k, v) ∷ []
  insert k v ((j, w) ∷ m) = if e.beq j k then (j, w) ∷ m else (j, w) ∷ insert k v m

  unfoldable pub erase : K → List (K × V) → List (K × V)
  erase k [] = []
  erase k ((j, w) ∷ m) = if e.beq j k then erase k m else (j, w) ∷ erase k m

  pub find-assign :
      (k j : K) (v : V) (m : List (K × V))
      → find j (assign k v m) ≡ (if e.beq k j then some v else find j m)
  unfolding find assign
  find-assign k j v [] = refl
  find-assign k j v ((i, w) ∷ m) =
      ground (arith, e.beq_iff k j, e.beq_iff i k, e.beq_iff i j, find-assign k j v m)

  pub find-insert :
      (k j : K) (v : V) (m : List (K × V))
      → find k m ≡ none
      → find j (insert k v m) ≡ (if e.beq k j then some v else find j m)
  unfolding find insert
  find-insert k j v [] h = refl
  find-insert k j v ((i, w) ∷ m) h =
      ground (arith, e.beq_iff k j, e.beq_iff i k, e.beq_iff i j, find-insert k j v m)

  pub find-erase :
      (k j : K) (m : List (K × V)) → find j (erase k m) ≡ (if e.beq k j then none else find j m)
  unfolding find erase
  find-erase k j [] = ground arith
  find-erase k j ((i, w) ∷ m) =
      ground (arith, e.beq_iff k j, e.beq_iff i k, e.beq_iff i j, find-erase k j m)

  -- An entry that is there stays through an insertion.
  pub find-insert_kept :
      (k j : K) (v : V) (w : V) (m : List (K × V))
      → find k m ≡ some w
      → find k (insert j v m) ≡ some w
  unfolding find insert
  find-insert_kept k j v w [] h = absurd (cc h)
  find-insert_kept k j v w ((i, u) ∷ m) h =
      ground (arith, e.beq_iff k j, e.beq_iff i k, e.beq_iff i j, find-insert_kept k j v w m)

  module _ {μ} (P : K × V → Type μ) where
    pub assign-All :
        (k : K) (v : V) (m : List (K × V))
        → ((j : K) → j ≡ k → P (j, v))
        → All P m
        → All P (assign k v m)
    unfolding assign
    assign-All k v [] h a = (h k refl, tt)
    assign-All k v ((j, w) ∷ m) h (p, a) = elim (Bool-cases (e.beq j k)) [
      | inl t ↦ rw t (h j ((e.beq_iff j k).0 t), a)
      | inr f ↦ rw f (p, assign-All k v m h a)
    ]

    pub insert-All : (k : K) (v : V) (m : List (K × V)) → P (k, v) → All P m → All P (insert k v m)
    unfolding insert
    insert-All k v [] h a = (h, tt)
    insert-All k v ((j, w) ∷ m) h (p, a) = elim (Bool-cases (e.beq j k)) [
      | inl t ↦ rw t (p, a)
      | inr f ↦ rw f (p, insert-All k v m h a)
    ]

    pub erase-All : (k : K) (m : List (K × V)) → All P m → All P (erase k m)
    unfolding erase
    erase-All k [] a = tt
    erase-All k ((j, w) ∷ m) (p, a) = elim (Bool-cases (e.beq j k)) [
      | inl t ↦ rw t (erase-All k m a)
      | inr f ↦ rw f (p, erase-All k m a)
    ]

    -- What is found has the property that every entry has.
    pub find-All : (k : K) (v : V) (m : List (K × V)) → All P m → find k m ≡ some v → P (k, v)
    unfolding find
    find-All k v [] a h = absurd (cc h)
    find-All k v ((j, w) ∷ m) (p, a) h = elim (Bool-cases (e.beq j k)) [
      | inl t ↦
          let same : w ≡ v = some-injective w v (subst (λ b. chosen b) t h) in
          subst P (ap (λ x. (x, w)) ((e.beq_iff j k).0 t) ∙ ap (λ x. (k, x)) same) p
      | inr f ↦ find-All k v m a (subst (λ b. chosen b) f h)
    ]
      where
        chosen : Bool → Type κ
        chosen b = (if b then some w else find k m) ≡ some v
