-- ===== src/Ua/AuthCache/Refinement.antt =====
-- The cache of ua/auth_cache.cc and a map without a bound.
use sippet.Base.{
  suc, ◌-◌, ◌<◌, ◌≤◌, arith, ◌≡◌, ◌⊎◌, refl, sym, ◌∙◌, ap, true, false, [], ◌∷◌, length, none, some,
  is_some, leb, Bool-cases, Option-cases, inl, inr, if◌then◌else◌,
}
use sippet.Base.Maps.{find, assign, find-assign}
use sippet.Ua.AuthCache.{
  Key, key_beq, key_beq_iff, key_eq, Entry, Entries, max_entries, pop_back, evict, put,
}

module _ {C : Type 0} where
  unfoldable pub Distinct : Entries C → Type 0
  Distinct [] = Unit
  Distinct ((k, e) ∷ m) = (find k m ≡ none) × Distinct m

  find-pop_back :
      (k : Key) (m : Entries C) → (find k (pop_back m) ≡ none) ⊎ (find k (pop_back m) ≡ find k m)
  unfolding pop_back find
  find-pop_back k [] = inl refl
  find-pop_back k ((j, e) ∷ []) = inl refl
  find-pop_back k ((j, e) ∷ (i, e') ∷ m) = ground (arith, find-pop_back k ((i, e') ∷ m))

  pop_back-Distinct : (m : Entries C) → Distinct m → Distinct (pop_back m)
  unfolding pop_back Distinct find
  pop_back-Distinct [] d = d
  pop_back-Distinct ((j, e) ∷ []) d = tt
  pop_back-Distinct ((j, e) ∷ (i, e') ∷ m) (f, d) = (
    elim (find-pop_back j ((i, e') ∷ m)) [ inl n ↦ n | inr s ↦ s ∙ f ],
    pop_back-Distinct ((i, e') ∷ m) d,
  )

  pop_back-length : (m : Entries C) → length (pop_back m) ≡ length m - 1
  unfolding pop_back
  pop_back-length [] = omega arith
  pop_back-length (e ∷ []) = omega arith
  pop_back-length (e ∷ e' ∷ m) = let h = pop_back-length (e' ∷ m) in omega arith

  find-evict : (k : Key) (m : Entries C) → (find k (evict m) ≡ none) ⊎ (find k (evict m) ≡ find k m)
  unfolding evict
  find-evict k m = elim (Bool-cases (leb max_entries (length m))) [
    | inl t ↦ rw t (find-pop_back k m)
    | inr f ↦ rw f (inr refl)
  ]

  evict-Distinct : (m : Entries C) → Distinct m → Distinct (evict m)
  unfolding evict
  evict-Distinct m d = elim (Bool-cases (leb max_entries (length m))) [
    | inl t ↦ rw t (pop_back-Distinct m d)
    | inr f ↦ rw f d
  ]

  evict-length : (m : Entries C) → length m ≤ max_entries → length (evict m) < max_entries
  unfolding evict
  evict-length m h = elim (Bool-cases (leb max_entries (length m))) [
    | inl t ↦ rw t (let e = pop_back-length m in omega arith)
    | inr f ↦ rw f (ground arith)
  ]

  pub assign-length :
      (k : Key) (e : Entry C) (m : Entries C)
      → is_some (find k m) ≡ true
      → length (assign k e m) ≡ length m
  unfolding find assign
  assign-length k e [] h = absurd (cc h)
  assign-length k e ((j, x) ∷ m) h = elim (Bool-cases (key_beq j k)) [
    | inl t ↦ rw t refl
    | inr f ↦ rw f (ap suc (assign-length k e m (rw f at h)))
  ]

  pub assign-Distinct :
      (k : Key) (e : Entry C) (m : Entries C) → Distinct m → Distinct (assign k e m)
  unfolding Distinct assign find
  assign-Distinct k e [] d = (refl, tt)
  assign-Distinct k e ((j, x) ∷ m) (f, d) = elim (Bool-cases (key_beq j k)) [
    | inl t ↦ rw t (f, d)
    | inr g ↦ rw g (
      find-assign k j e m ∙ elim (Bool-cases (key_beq k j)) [
        | inr h ↦ rw h f
        | inl h ↦ absurd (cc (g, (key_beq_iff j k).1 (sym ((key_beq_iff k j).0 h))))
      ],
      assign-Distinct k e m d,
    )
  ]

  -- What Add finds and leaves.
  pub put-Distinct : (k : Key) (e : Entry C) (m : Entries C) → Distinct m → Distinct (put k e m)
  unfolding put Distinct
  put-Distinct k e m d = elim (Option-cases (find k m)) [
    | inr (x, t) ↦ rw (t, is_some) (assign-Distinct k e m d)
    | inl n ↦
        rw (n, is_some) (elim (find-evict k m) [ inl z ↦ z | inr z ↦ z ∙ n ], evict-Distinct m d)
  ]

  pub put-length :
      (k : Key) (e : Entry C) (m : Entries C)
      → length m ≤ max_entries
      → length (put k e m) ≤ max_entries
  unfolding put
  put-length k e m h = elim (Bool-cases (is_some (find k m))) [
    | inl t ↦ rw t (let z = assign-length k e m t in omega arith)
    | inr f ↦ rw f (let z = evict-length m h in omega arith)
  ]

  pub find-put :
      (k j : Key) (e : Entry C) (m : Entries C)
      → (find j (put k e m) ≡ (if key_beq k j then some e else none))
        ⊎ (find j (put k e m) ≡ (if key_beq k j then some e else find j m))
  unfolding put find
  find-put k j e m = elim (Bool-cases (is_some (find k m))) [
    | inl t ↦ rw t (inr (find-assign k j e m))
    | inr f ↦ rw f (elim (Bool-cases (key_beq k j)) [
      | inl h ↦ rw h (inl refl)
      | inr h ↦ rw h (find-evict j m)
    ])
  ]

  pub find-put_room :
      (k j : Key) (e : Entry C) (m : Entries C)
      → length m < max_entries
      → find j (put k e m) ≡ (if key_beq k j then some e else find j m)
  unfolding put find evict
  find-put_room k j e m h = elim (Bool-cases (is_some (find k m))) [
    | inl t ↦ rw t (find-assign k j e m)
    | inr f ↦ let room : leb max_entries (length m) ≡ false = ground arith in rw (f, room) refl
  ]
