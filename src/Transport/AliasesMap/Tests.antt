-- ===== src/Transport/AliasesMap/Tests.antt =====
-- Runs of the aliases map.
use sippet.Base.{ℕ, ◌≡◌, refl, List, [], ◌∷◌, codes}
use sippet.Base.Maps.{find, assign, erase}
use sippet.Message.Atom.{known}
use sippet.Message.Protocol.{udp}
use sippet.Transport.AliasesMap.{add_alias, target_of, remove_each, remove_aliases}
use sippet.Transport.AliasesMap.Laws.{Operation, add, run_all, no_aliases}
use sippet.Transport.EndPoint.{EndPoint}
use sippet.Transport.NetworkLayer.{key_eq}

abbrev at_port : ℕ → EndPoint
at_port port = record { host = codes "h"; port = port; protocol = known udp }

abbrev steps : List Operation
steps = add (at_port 1) (at_port 2) ∷ add (at_port 1) (at_port 3) ∷ add (at_port 4) (at_port 5) ∷ []

still_there :
    target_of (at_port 5) (remove_aliases (at_port 1) (run_all steps no_aliases)) ≡ at_port 4
unfolding target_of remove_aliases add_alias remove_each find assign erase
still_there = refl
