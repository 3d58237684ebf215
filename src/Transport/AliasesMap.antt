-- ===== src/Transport/AliasesMap.antt =====
-- sippet/transport/aliases_map.h and aliases_map.cc.
pub mod Laws
mod Tests
use sippet.Base.{List, [], ◌∷◌, ◌++◌, Option, none, some}
use sippet.Base.Maps.{Eq, find, assign, erase}
use sippet.Transport.EndPoint.{EndPoint, Key, key, empty}
use sippet.Transport.NetworkLayer.{key_eq}

-- AliasesMap
pub record AliasesMap : Type 0 where
  pub reverse_map : List (Key × EndPoint)
  pub forward_map : List (Key × List EndPoint)

abbrev pub or_nil : Option (List EndPoint) → List EndPoint
or_nil none = []
or_nil (some es) = es

-- A missing entry of the forward map is an empty vector, es operator[] makes it.
abbrev pub aliases_of : EndPoint → AliasesMap → List EndPoint
aliases_of target m = or_nil (find (key target) m.forward_map)

-- AddAlias
unfoldable pub add_alias : EndPoint → EndPoint → AliasesMap → AliasesMap
add_alias target alias m = record {
  reverse_map = assign (key alias) target m.reverse_map;
  forward_map = assign (key target) (aliases_of target m ++ alias ∷ []) m.forward_map;
}

abbrev pub or_empty : Option EndPoint → EndPoint
or_empty none = empty
or_empty (some target) = target

-- TargetOf
unfoldable pub target_of : EndPoint → AliasesMap → EndPoint
target_of alias m = or_empty (find (key alias) m.reverse_map)

-- for_each over the aliases, with remove_from.
unfoldable pub remove_each : List EndPoint → List (Key × EndPoint) → List (Key × EndPoint)
remove_each [] reverse = reverse
remove_each (alias ∷ es) reverse = remove_each es (erase (key alias) reverse)

-- RemoveAliases
unfoldable pub remove_aliases : EndPoint → AliasesMap → AliasesMap
unfolding remove_each
remove_aliases target m = elim (find (key target) m.forward_map) [
  | none ↦ m
  | some es ↦ record {
    reverse_map = remove_each es m.reverse_map;
    forward_map = erase (key target) m.forward_map;
  }
]
