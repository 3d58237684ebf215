-- ===== src/Message/Atom/Lookup.antt =====
-- The lookup of atom.h's coerce in a table of names.
use sippet.Base.{◌∷◌, [], List, ◌≡◌, refl, some, arith, Text, equal_iff, Bool-cases, inl, inr}
use sippet.Message.Atom.{lower, string_less, lower_bound, accept, coerce}

module _ {ℓ} {T : Type ℓ} where
  -- The search looks at the lower-case form only.
  lower_bound-lower :
      (table : List (Text × T)) (s u : Text)
      → lower s ≡ lower u
      → lower_bound table s ≡ lower_bound table u
  unfolding lower_bound string_less
  lower_bound-lower [] s u h = refl
  lower_bound-lower ((name, t) ∷ rest) s u h = rw (h, lower_bound-lower rest s u h)

  accept-lower :
      (table : List (Text × T)) (s u : Text) → lower s ≡ lower u → accept table s ≡ accept table u
  unfolding accept
  accept-lower [] s u h = refl
  accept-lower ((name, t) ∷ rest) s u h = rw h

  pub coerce-lower :
      (table : List (Text × T)) (s u : Text) → lower s ≡ lower u → coerce table s ≡ coerce table u
  unfolding coerce
  coerce-lower table s u h =
      rw (lower_bound-lower table s u h) (accept-lower (lower_bound table u) s u h)

  -- A table in which each name is the one that `string_of` gives.
  abbrev pub IsTable : (T → Text) → List (Text × T) → Type 0
  IsTable string_of [] = Unit {0}
  IsTable string_of ((name, t) ∷ rest) = (name ≡ string_of t) × IsTable string_of rest

  lower_bound-IsTable :
      (string_of : T → Text) (table : List (Text × T)) (s : Text)
      → IsTable string_of table
      → IsTable string_of (lower_bound table s)
  unfolding lower_bound
  lower_bound-IsTable string_of [] s h = h
  lower_bound-IsTable string_of ((name, t) ∷ rest) s h = elim (Bool-cases (string_less name s)) [
    | inl e ↦ rw e (lower_bound-IsTable string_of rest s h.1)
    | inr e ↦ rw e h
  ]

  accept-IsTable :
      (string_of : T → Text) (table : List (Text × T)) (s : Text) (t : T)
      → IsTable string_of table
      → accept table s ≡ some t
      → lower (string_of t) ≡ lower s
  unfolding accept
  accept-IsTable string_of [] s t v h = cc
  accept-IsTable string_of ((name, u) ∷ rest) s t v h =
      ground (arith, equal_iff (lower name) (lower s))

  pub coerce-eq_some :
      (string_of : T → Text) (table : List (Text × T)) (s : Text) (t : T)
      → IsTable string_of table
      → coerce table s ≡ some t
      → lower (string_of t) ≡ lower s
  unfolding coerce
  coerce-eq_some string_of table s t v h =
      accept-IsTable string_of (lower_bound table s) s t (lower_bound-IsTable string_of table s v) h
