-- ===== src/Ua/UserAgent/Create/Routes.antt =====
-- Where a request of UserAgent::CreateRequest goes, and which dialog it starts.
use sippet.Base.{◌≡◌, Bool, true, List, [], ◌∷◌, if◌then◌else◌, Text}
use sippet.Message.Header.{Header, Address, address_of, with_tag}
use sippet.Message.Header
use sippet.Message.Method.{Method}
use sippet.Ua.UserAgent.Create.{SipUri}

-- A URI that the URI parser accepts, without headers.
abbrev pub IsPlain : SipUri → Text → Type 0
IsPlain sip u = (sip.is_valid u ≡ true) × (sip.with_empty_headers u ≡ u)

abbrev pub is_loose : SipUri → List Text → Bool
is_loose sip [] = true
is_loose sip (first ∷ _) = if sip.is_valid first then sip.has_lr first else true
