-- ===== src/Message/Atom.antt =====
-- sippet/message/atom.h, and the tables behind its AtomTraits (method.cc, protocol.cc).
pub mod Lookup
use sippet.Base.{
  ℕ, ◌+◌, Bool, true, false, ◌&&◌, ◌||◌, List, [], ◌∷◌, map, Option, none, some, ltb, leb, ◌==◌,
  if◌then◌else◌, Text, equal,
}

-- A known atom, or one with a text of its own; the null atom is `unknown []`.
pub data Atom {ℓ} (T : Type ℓ) : Type ℓ where
  known : T → Atom T
  unknown : Text → Atom T

-- base::strcasecmp compares the lower-case bytes.
pub to_lower : ℕ → ℕ
to_lower c = if leb b'A' c && leb c b'Z' then c + 32 else c

pub lower : Text → Text
unfolding to_lower
lower = map to_lower

abbrev less : Text → Text → Bool
less [] [] = false
less [] (y ∷ ys) = true
less (x ∷ xs) [] = false
less (x ∷ xs) (y ∷ ys) = ltb x y || (x == y && less xs ys)

pub string_less : Text → Text → Bool
unfolding lower
string_less a b = less (lower a) (lower b)

module _ {ℓ} {T : Type ℓ} where
  -- std::lower_bound on the table: what stands from the first entry on that is not less.
  pub lower_bound : List (Text × T) → Text → List (Text × T)
  unfolding string_less
  lower_bound [] str = []
  lower_bound ((name, t) ∷ rest) str =
      if string_less name str then lower_bound rest str else (name, t) ∷ rest

  pub accept : List (Text × T) → Text → Option T
  unfolding lower
  accept [] str = none
  accept ((name, t) ∷ rest) str = if equal (lower name) (lower str) then some t else none

  -- AtomTraits<T>::coerce
  unfoldable pub coerce : List (Text × T) → Text → Option T
  unfolding lower_bound accept
  coerce names str = accept (lower_bound names str) str

  -- Atom::set_str
  unfoldable pub set_str : List (Text × T) → Text → Atom T
  unfolding coerce
  set_str names str = elim (coerce names str) [ some t ↦ known t | none ↦ unknown str ]

  -- Atom::type, `none` for Traits::unknown_type
  abbrev pub atom_type : Atom T → Option T
  atom_type (known t) = some t
  atom_type (unknown _) = none
