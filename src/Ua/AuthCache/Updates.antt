-- ===== src/Ua/AuthCache/Updates.antt =====
-- What Remove, UpdateStaleChallenge and IncrementNonceCount of ua/auth_cache.cc do to a look-up.
use sippet.Base.{
  ℕ, ◌≤◌, arith, ◌≡◌, refl, sym, ◌∙◌, ap, subst, Bool, true, false, [], ◌∷◌, length, Option, none,
  some, Bool-cases, Option-cases, inl, inr, if◌then◌else◌,
}
use sippet.Base.Maps.{find, find-assign}
use sippet.Ua.AuthCache.{Key, key_beq, key_beq_iff, key_eq, Entry, Entries, remove, change}
use sippet.Ua.AuthCache.Refinement.{Distinct, assign-Distinct, assign-length}

module _ {C : Type 0} (same : C → C → Bool) (k : Key) (c : C) where
  -- What Remove leaves of the entry for its key.
  abbrev pub kept : Option (Entry C) → Option (Entry C)
  kept none = none
  kept (some e) = if same c e.credentials then none else some e

  pub find-remove :
      (j : Key) (m : Entries C)
      → Distinct m
      → find j (remove same k c m) ≡ (if key_beq k j then kept (find j m) else find j m)
  unfolding find remove Distinct
  find-remove j [] d = ground arith
  find-remove j ((i, e) ∷ m) (f, d) = elim (Bool-cases (key_beq i k)) [
    | inl t ↦ rw t (elim (Bool-cases (same c e.credentials)) [
      | inr g ↦ rw g (elim (Bool-cases (key_beq k j)) [
        | inr h ↦ rw h refl
        | inl h ↦ rw (h, trans-beq i j t h, kept, g) refl
      ])
      | inl g ↦ rw g (elim (Bool-cases (key_beq k j)) [
        | inl h ↦ rw (h, trans-beq i j t h, kept, g) (ap (λ x. find x m) (sym (first i j t h)) ∙ f)
        | inr h ↦ rw (h, other i j t h) refl
      ])
    ])
    | inr t ↦ rw t (elim (Bool-cases (key_beq i j)) [
      | inr h ↦ rw h (find-remove j m d)
      | inl h ↦ rw h (rw (apart i j t h) refl)
    ])
  ]
    where
      first : (i j : Key) → key_beq i k ≡ true → key_beq k j ≡ true → i ≡ j
      first i j t h = (key_beq_iff i k).0 t ∙ (key_beq_iff k j).0 h

      trans-beq : (i j : Key) → key_beq i k ≡ true → key_beq k j ≡ true → key_beq i j ≡ true
      trans-beq i j t h = (key_beq_iff i j).1 (first i j t h)

      other : (i j : Key) → key_beq i k ≡ true → key_beq k j ≡ false → key_beq i j ≡ false
      other i j t h = subst (λ x. key_beq x j ≡ false) (sym ((key_beq_iff i k).0 t)) h

      apart : (i j : Key) → key_beq i k ≡ false → key_beq i j ≡ true → key_beq k j ≡ false
      apart i j t h = elim (Bool-cases (key_beq k j)) [
        | inr g ↦ g
        | inl g ↦
            absurd
              (cc (t, (key_beq_iff i k).1 ((key_beq_iff i j).0 h ∙ sym ((key_beq_iff k j).0 g))))
      ]

  pub remove-Distinct : (m : Entries C) → Distinct m → Distinct (remove same k c m)
  unfolding remove Distinct
  remove-Distinct [] d = tt
  remove-Distinct ((i, e) ∷ m) (f, d) = elim (Bool-cases (key_beq i k)) [
    | inl t ↦
        rw t (elim (Bool-cases (same c e.credentials)) [ inl g ↦ rw g d | inr g ↦ rw g (f, d) ])
    | inr t ↦ rw t (
      find-remove i m d
          ∙ (elim (Bool-cases (key_beq k i)) [ inr h ↦ rw h f | inl h ↦ rw (h, f) refl ]),
      remove-Distinct m d,
    )
  ]

  pub remove-length : (m : Entries C) → length (remove same k c m) ≤ length m
  unfolding remove
  remove-length [] = omega arith
  remove-length ((i, e) ∷ m) = let h = remove-length m in ground arith

module _ {C : Type 0} (f : ℕ → ℕ) (k : Key) where
  -- The entry of the key, with its nonce count changed.
  abbrev pub changed : Option (Entry C) → Option (Entry C)
  changed none = none
  changed (some e) = some (record e { nonce_count = f e.nonce_count })

  pub find-change :
      (j : Key) (m : Entries C)
      → find j (change f k m) ≡ (if key_beq k j then changed (find j m) else find j m)
  unfolding change
  find-change j m = elim (Option-cases (find k m)) [
    | inl n ↦
        rw (n, change)
          (elim (Bool-cases (key_beq k j)) [
            | inr h ↦ rw h refl
            | inl h ↦
                let gone : find j m ≡ none = ap (λ x. find x m) (sym ((key_beq_iff k j).0 h)) ∙ n in
                rw (h, gone) refl
          ])
    | inr (e, at) ↦
        rw (at, change)
          (find-assign k j (record e { nonce_count = f e.nonce_count }) m
            ∙ (elim (Bool-cases (key_beq k j)) [
              | inr h ↦ rw h refl
              | inl h ↦
                  let there : find j m ≡ some e =
                    ap (λ x. find x m) (sym ((key_beq_iff k j).0 h)) ∙ at in
                  rw (h, there) refl
            ]))
  ]

  pub change-Distinct : (m : Entries C) → Distinct m → Distinct (change f k m)
  unfolding change
  change-Distinct m d = elim (Option-cases (find k m)) [
    | inl n ↦ rw (n, change) d
    | inr (e, at) ↦ rw (at, change) (assign-Distinct k _ m d)
  ]

  pub change-length : (m : Entries C) → length (change f k m) ≡ length m
  unfolding change
  change-length m = elim (Option-cases (find k m)) [
    | inl n ↦ rw (n, change) refl
    | inr (e, at) ↦ rw (at, change) (assign-length k _ m (rw at refl))
  ]
