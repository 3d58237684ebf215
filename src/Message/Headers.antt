-- ===== src/Message/Headers.antt =====
-- The header list of sippet/message/message.h: find_first, get, filter, CloneTo and the templates
-- that change the first header of a class in place. A class is named by its dyn_cast.
pub mod Laws
use sippet.Base.{ℕ, Bool, List, [], ◌∷◌, ◌++◌, Option, none, some, is_some, if◌then◌else◌, Text}
use sippet.Message.Header.{Header, Address}
use sippet.Message.Header

abbrev pub Headers : Type 0
Headers = List Header

module _ {ℓ} {A : Type ℓ} where
  -- get<HeaderType>(), and *find_first<HeaderType>()
  unfoldable pub get : (Header → Option A) → Headers → Option A
  get cast [] = none
  get cast (h ∷ rest) = elim (cast h) [ some a ↦ some a | none ↦ get cast rest ]

  -- filter<HeaderType>()
  unfoldable pub filter : (Header → Option A) → Headers → List A
  filter cast [] = []
  filter cast (h ∷ rest) = elim (cast h) [ some a ↦ a ∷ filter cast rest | none ↦ filter cast rest ]

  -- What CloneTo<HeaderType>() appends to the other message.
  unfoldable pub clones : (Header → Option A) → Headers → Headers
  clones cast [] = []
  clones cast (h ∷ rest) = if is_some (cast h) then h ∷ clones cast rest else clones cast rest

-- Changes the first header of the class; nothing, where there is none.
module _ {ℓ} {A : Type ℓ} where
  unfoldable pub modify_first : (Header → Option A) → (A → Header) → Headers → Headers
  modify_first cast change [] = []
  modify_first cast change (h ∷ rest) = elim (cast h) [
    | some a ↦ change a ∷ rest
    | none ↦ h ∷ modify_first cast change rest
  ]

-- `To *to = get<To>(); if (to) to->set_tag(tag);`
unfoldable pub set_to_tag : Text → Headers → Headers
set_to_tag tag = modify_first Header.as_to (λ a. Header.to (Header.with_tag tag a))
