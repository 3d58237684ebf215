-- ===== src/Ua/AuthCache/Tests.antt =====
-- A run of the credentials' cache.
use sippet.Base.{◌≡◌, ◌≤◌, ◌⊎◌, List, [], ◌∷◌, length, some, equal, if◌then◌else◌, Text, codes}
use sippet.Base.Maps.{find}
use sippet.Ua.AuthCache.{Key, key_eq, key_beq, first_use, add, max_entries}
use sippet.Ua.AuthCache.Histories.{
  Operation, adds, removes, goes_stale, increments, updates_from, run_all, map_run_all, Implements,
  cache-Implements,
}

abbrev steps : List (Operation Text)
steps =
    adds (codes "a", 1) (codes "secret")
    ∷ increments (codes "a", 1)
    ∷ adds (codes "b", 1) (codes "other")
    ∷ removes (codes "b", 1) (codes "wrong")
    ∷ goes_stale (codes "a", 1)
    ∷ updates_from (((codes "c", 2), first_use (codes "third")) ∷ [])
    ∷ []

cache-Implements_example :
    Implements equal (run_all equal steps []) (map_run_all equal steps [])
    × ((k : Key) (c : Text) → find k (add k c (run_all equal steps [])) ≡ some (first_use c))
    × ((k j : Key) (c : Text)
        → (max_entries ≤ length (run_all equal steps []))
          ⊎ (find j (add k c (run_all equal steps []))
              ≡ (if key_beq k j then some (first_use c) else find j (run_all equal steps []))))
cache-Implements_example = cache-Implements equal steps
