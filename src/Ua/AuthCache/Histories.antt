-- ===== src/Ua/AuthCache/Histories.antt =====
-- The cache of ua/auth_cache.cc over any history, beside a map without a bound.
use sippet.Base.{
  ℕ, ◌≤◌, ltb, arith, ◌≡◌, ◌⊎◌, refl, sym, ◌∙◌, ap, subst, Bool, true, false, List, [], ◌∷◌, length,
  Option, none, some, Bool-cases, Option-cases, inl, inr, if◌then◌else◌,
}
use sippet.Base.Maps.{find, assign, erase, find-assign, find-erase}
use sippet.Ua.AuthCache.{
  Key, key_beq, key_beq_iff, key_eq, Entry, Entries, max_entries, put, first_use, add, remove,
  change, update_stale_challenge, increment_nonce_count, update_all_from,
}
use sippet.Ua.AuthCache.Refinement.{Distinct, put-Distinct, put-length, find-put, find-put_room}
use sippet.Ua.AuthCache.Updates.{
  kept, changed, find-remove, remove-Distinct, remove-length, find-change, change-Distinct,
  change-length,
}

pub data Operation (C : Type 0) : Type 0 where
  adds : Key → C → Operation C
  removes : Key → C → Operation C
  goes_stale increments : Key → Operation C
  updates_from : Entries C → Operation C

module _ {C : Type 0} (same : C → C → Bool) where
  abbrev pub run : Operation C → Entries C → Entries C
  unfolding add remove change update_all_from
  run (adds k c) m = add k c m
  run (removes k c) m = remove same k c m
  run (goes_stale k) m = update_stale_challenge k m
  run (increments k) m = increment_nonce_count k m
  run (updates_from others) m = update_all_from others m

  abbrev pub run_all : List (Operation C) → Entries C → Entries C
  run_all [] m = m
  run_all (o ∷ os) m = run_all os (run o m)

  -- The same operations on a map that keeps every entry.
  abbrev pub map_remove : Key → C → Entries C → Entries C
  map_remove k c s = elim (find k s) [
    | none ↦ s
    | some e ↦ if same c e.credentials then erase k s else s
  ]

  abbrev pub map_all_from : Entries C → Entries C → Entries C
  map_all_from [] s = s
  map_all_from ((k, e) ∷ others) s = map_all_from others (assign k e s)

  abbrev pub map_run : Operation C → Entries C → Entries C
  unfolding change
  map_run (adds k c) s = assign k (first_use c) s
  map_run (removes k c) s = map_remove k c s
  map_run (goes_stale k) s = update_stale_challenge k s
  map_run (increments k) s = increment_nonce_count k s
  map_run (updates_from others) s = map_all_from others s

  abbrev pub map_run_all : List (Operation C) → Entries C → Entries C
  map_run_all [] s = s
  map_run_all (o ∷ os) s = map_run_all os (map_run o s)

  -- A cache within its bound, with one entry for a key at most, that answers a look-up as the map
  -- does, where it has an entry.
  pub record Implements (m s : Entries C) : Type 0 where
    pub distinct : Distinct m
    pub bounded : length m ≤ max_entries
    pub agrees : (j : Key) → (find j m ≡ none) ⊎ (find j m ≡ find j s)

  -- Changing both look-ups alike keeps their agreement.
  transfer :
      (b : Bool) (g : Option (Entry C) → Option (Entry C)) {p q x y : Option (Entry C)}
      → x ≡ (if b then g p else p)
      → y ≡ (if b then g q else q)
      → g none ≡ none
      → (p ≡ none) ⊎ (p ≡ q)
      → (x ≡ none) ⊎ (x ≡ y)
  transfer true g ex ey z (inl n) = inl (ex ∙ ap g n ∙ z)
  transfer true g ex ey z (inr h) = inr (ex ∙ ap g h ∙ sym ey)
  transfer false g ex ey z (inl n) = inl (ex ∙ n)
  transfer false g ex ey z (inr h) = inr (ex ∙ h ∙ sym ey)

  -- The new entry, or the old agreement.
  transfer_new :
      (b : Bool) (e : Option (Entry C)) {p q x y : Option (Entry C)}
      → (x ≡ (if b then e else none)) ⊎ (x ≡ (if b then e else p))
      → y ≡ (if b then e else q)
      → (p ≡ none) ⊎ (p ≡ q)
      → (x ≡ none) ⊎ (x ≡ y)
  transfer_new true e (inl ex) ey a = inr (ex ∙ sym ey)
  transfer_new true e (inr ex) ey a = inr (ex ∙ sym ey)
  transfer_new false e (inl ex) ey a = inl ex
  transfer_new false e (inr ex) ey (inl n) = inl (ex ∙ n)
  transfer_new false e (inr ex) ey (inr h) = inr (ex ∙ h ∙ sym ey)

  find-map_remove :
      (k j : Key) (c : C) (s : Entries C)
      → find j (map_remove k c s) ≡ (if key_beq k j then kept same k c (find j s) else find j s)
  find-map_remove k j c s = elim (Bool-cases (key_beq k j)) [
    | inl h ↦
        let at : find j s ≡ find k s = ap (λ x. find x s) (sym ((key_beq_iff k j).0 h)) in
        rw (h, at)
          (elim (Option-cases (find k s)) [
            | inl n ↦ rw (n, map_remove, kept) (at ∙ n)
            | inr (e, t) ↦
                rw (t, map_remove, kept)
                  (elim (Bool-cases (same c e.credentials)) [
                    | inl g ↦ rw g (find-erase k j s ∙ rw h refl)
                    | inr g ↦ rw g (at ∙ t)
                  ])
          ])
    | inr h ↦ rw h (elim (Option-cases (find k s)) [
      | inl n ↦ rw (n, map_remove) refl
      | inr (e, t) ↦
          rw (t, map_remove)
            (elim (Bool-cases (same c e.credentials)) [
              | inl g ↦ rw g (find-erase k j s ∙ rw h refl)
              | inr g ↦ rw g refl
            ])
    ])
  ]

  put-Implements :
      (k : Key) (e : Entry C) (m s : Entries C)
      → Implements m s
      → Implements (put k e m) (assign k e s)
  put-Implements k e m s v = record {
    distinct = put-Distinct k e m v.distinct;
    bounded = put-length k e m v.bounded;
    agrees = λ j.
        transfer_new (key_beq k j) (some e) (find-put k j e m) (find-assign k j e s) (v.agrees j);
  }

  remove-Implements :
      (k : Key) (c : C) (m s : Entries C)
      → Implements m s
      → Implements (remove same k c m) (map_remove k c s)
  remove-Implements k c m s v = record {
    distinct = remove-Distinct same k c m v.distinct;
    bounded = let h = remove-length same k c m in let b = v.bounded in omega arith;
    agrees = λ j.
        transfer (key_beq k j) (kept same k c) (find-remove same k c j m v.distinct)
          (find-map_remove k j c s) refl (v.agrees j);
  }

  change-Implements :
      (f : ℕ → ℕ) (k : Key) (m s : Entries C)
      → Implements m s
      → Implements (change f k m) (change f k s)
  change-Implements f k m s v = record {
    distinct = change-Distinct f k m v.distinct;
    bounded = subst (λ n. n ≤ max_entries) (sym (change-length f k m)) v.bounded;
    agrees = λ j.
        transfer (key_beq k j) (changed f k) (find-change f k j m) (find-change f k j s) refl
          (v.agrees j);
  }

  all_from-Implements :
      (others m s : Entries C)
      → Implements m s
      → Implements (update_all_from others m) (map_all_from others s)
  unfolding update_all_from
  all_from-Implements [] m s v = v
  all_from-Implements ((k, e) ∷ others) m s v =
      all_from-Implements others (put k e m) (assign k e s) (put-Implements k e m s v)

  run-Implements :
      (o : Operation C) (m s : Entries C) → Implements m s → Implements (run o m) (map_run o s)
  unfolding run map_run add
  run-Implements (adds k c) m s v = put-Implements k (first_use c) m s v
  run-Implements (removes k c) m s v = remove-Implements k c m s v
  run-Implements (goes_stale k) m s v = change-Implements _ k m s v
  run-Implements (increments k) m s v = change-Implements _ k m s v
  run-Implements (updates_from others) m s v = all_from-Implements others m s v

  runs-Implements :
      (os : List (Operation C)) (m s : Entries C)
      → Implements m s
      → Implements (run_all os m) (map_run_all os s)
  runs-Implements [] m s v = v
  runs-Implements (o ∷ os) m s v =
      runs-Implements os (run o m) (map_run o s) (run-Implements o m s v)

  -- Over any history of Add, Remove, UpdateStaleChallenge, IncrementNonceCount and UpdateAllFrom the
  -- cache has ten entries at most and one for a realm and scheme at most, and a look-up in it finds
  -- nothing or what it finds in a map with the same history that keeps every entry. An Add is then
  -- found, with a nonce count of 1, and while there are fewer than ten entries it loses no other.
  pub cache-Implements :
      (os : List (Operation C))
      → let m = run_all os [] in
        Implements m (map_run_all os [])
        × ((k : Key) (c : C) → find k (add k c m) ≡ some (first_use c))
        × ((k j : Key) (c : C)
            → (max_entries ≤ length m)
              ⊎ (find j (add k c m) ≡ (if key_beq k j then some (first_use c) else find j m)))
  unfolding find Distinct add
  cache-Implements os =
      let m = run_all os [] in
      (
        runs-Implements os [] []
            (record { distinct = tt; bounded = omega arith; agrees = λ j. inl refl }),
        λ k c. (elim (find-put k k (first_use c) m) [
          | inl h ↦ h ∙ rw ((key_beq_iff k k).1 refl) refl
          | inr h ↦ h ∙ rw ((key_beq_iff k k).1 refl) refl
        ]),
        λ k j c. elim (Bool-cases (ltb (length m) max_entries)) [
          | inl t ↦ inr (find-put_room k j (first_use c) m (ground arith))
          | inr f ↦ inl (ground arith)
        ],
      )
