-- ===== src/Ua/AuthCache.antt =====
-- sippet/ua/auth_cache.h and auth_cache.cc. The credentials are Chromium's: their type, and Equals,
-- are parameters. A scheme stands by its number.
pub mod Refinement
pub mod Updates
pub mod Histories
mod Tests
use sippet.Base.{
  ℕ, suc, ◌+◌, ◌%◌, ◌^◌, arith, ◌↔◌, ◌≡◌, Bool, true, false, ◌&&◌, List, [], ◌∷◌, length, Option,
  none, some, is_some, leb, ◌==◌, equal, equal_iff, if◌then◌else◌, Text,
}
use sippet.Base.Maps.{Eq, find, assign}

-- The realm and the scheme.
abbrev pub Key : Type 0
Key = Text × ℕ

abbrev pub key_beq : Key → Key → Bool
key_beq a b = equal a.0 b.0 && a.1 == b.1

pub key_beq_iff : (a b : Key) → (key_beq a b ≡ true) ↔ (a ≡ b)
key_beq_iff (r, s) (r', s') = ground (arith, equal_iff r r')

instance abbrev pub key_eq : Eq Key
key_eq = record { beq = key_beq; beq_iff = key_beq_iff }

-- AuthCache::Entry, but for its realm and scheme; the nonce count is a 32-bit pattern.
pub record Entry (C : Type 0) : Type 0 where
  pub credentials : C
  pub nonce_count : ℕ

abbrev pub Entries : Type 0 → Type 0
Entries C = List (Key × Entry C)

-- kMaxNumRealmEntries
abbrev pub max_entries : ℕ
max_entries = 10

module _ {C : Type 0} where
  -- pop_back
  unfoldable pub pop_back : Entries C → Entries C
  pop_back [] = []
  pop_back (e ∷ []) = []
  pop_back (e ∷ e' ∷ m) = e ∷ pop_back (e' ∷ m)

  abbrev pub evict : Entries C → Entries C
  unfolding pop_back
  evict m = if leb max_entries (length m) then pop_back m else m

  -- The entry for a key becomes `e`: the one that is there, or a new one at the front.
  unfoldable pub put : Key → Entry C → Entries C → Entries C
  unfolding evict pop_back
  put k e m = if is_some (find k m) then assign k e m else (k, e) ∷ evict m

  abbrev pub first_use : C → Entry C
  first_use c = record { credentials = c; nonce_count = 1 }

  -- Add
  unfoldable pub add : Key → C → Entries C → Entries C
  unfolding put
  add k c m = put k (first_use c) m

  -- The loop of Remove; `same` is AuthCredentials::Equals.
  unfoldable pub remove : (C → C → Bool) → Key → C → Entries C → Entries C
  remove same k c [] = []
  remove same k c ((j, e) ∷ m) =
      if key_beq j k
      then if same c e.credentials then m else (j, e) ∷ m
      else (j, e) ∷ remove same k c m

  -- What UpdateStaleChallenge and IncrementNonceCount do to the entry that Lookup finds.
  unfoldable pub change : (ℕ → ℕ) → Key → Entries C → Entries C
  change f k m = elim (find k m) [
    | none ↦ m
    | some e ↦ assign k (record e { nonce_count = f e.nonce_count }) m
  ]

  -- UpdateStaleChallenge
  abbrev pub update_stale_challenge : Key → Entries C → Entries C
  unfolding change
  update_stale_challenge k m = change (λ _. 1) k m

  -- IncrementNonceCount, on the entry of a key
  abbrev pub increment_nonce_count : Key → Entries C → Entries C
  unfolding change
  increment_nonce_count k m = change (λ n. (n + 1) % 2 ^ 32) k m

  -- UpdateAllFrom: Add, and then the nonce count of the other entry.
  unfoldable pub update_all_from : Entries C → Entries C → Entries C
  unfolding put
  update_all_from [] m = m
  update_all_from ((k, e) ∷ others) m = update_all_from others (put k e m)
