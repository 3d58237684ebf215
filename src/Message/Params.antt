-- ===== src/Message/Params.antt =====
-- sippet/message/headers/bits/has_parameters.h, and the has_tag, has_branch, has_received and
-- has_rport templates of param_setters.h. A parameter list keeps its order.
pub mod Laws
use sippet.Base.{
  ℕ, ◌-◌, Bool, true, false, ◌&&◌, List, [], ◌∷◌, ◌++◌, Option, none, some, is_some, ◌==◌,
  if◌then◌else◌, Text, codes, equal,
}

abbrev pub Params : Type 0
Params = List (Text × Text)

-- param_find: the value of the first parameter of that name.
unfoldable pub param_find : Text → Params → Option Text
param_find key [] = none
param_find key ((name, value) ∷ rest) = if equal name key then some value else param_find key rest

-- param_set
unfoldable pub param_set : Text → Text → Params → Params
param_set key value [] = (key, value) ∷ []
param_set key value ((name, old) ∷ rest) =
    if equal name key then (name, value) ∷ rest else (name, old) ∷ param_set key value rest

-- HasTag and tag: `none` where there is no parameter of that name.
unfoldable pub tag : Params → Option Text
unfolding param_find
tag = param_find (codes "tag")

unfoldable pub set_tag : Text → Params → Params
unfolding param_set
set_tag = param_set (codes "tag")

unfoldable pub branch : Params → Option Text
unfolding param_find
branch = param_find (codes "branch")

unfoldable pub set_branch : Text → Params → Params
unfolding param_set
set_branch = param_set (codes "branch")

-- `*input.rbegin()` of a text that starts with `c`.
last_byte : ℕ → Text → ℕ
last_byte c [] = c
last_byte c (d ∷ rest) = last_byte d rest

drop_last : Text → Text
drop_last [] = []
drop_last (c ∷ []) = []
drop_last (c ∷ d ∷ rest) = c ∷ drop_last (d ∷ rest)

-- has_received::remove_sqb. On the one byte `[` the test fails, since it is its own last byte.
unfoldable pub remove_sqb : Text → Text
unfolding last_byte drop_last
remove_sqb [] = []
remove_sqb (c ∷ rest) = if c == b'[' && last_byte c rest == b']' then drop_last rest else c ∷ rest

unfoldable pub received : Params → Option Text
unfolding param_find remove_sqb
received params = elim (param_find (codes "received") params) [
  | none ↦ none
  | some value ↦ some (remove_sqb value)
]

unfoldable pub set_received : Text → Params → Params
unfolding param_set remove_sqb
set_received value = param_set (codes "received") (remove_sqb value)
