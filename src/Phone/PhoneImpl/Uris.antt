-- ===== src/Phone/PhoneImpl/Uris.antt =====
-- The URIs of phone_impl.cc. What SipURI reads in a text is an argument.
use sippet.Base.{
  Bool, false, [], ◌∷◌, ◌++◌, Option, none, some, ◌==◌, ◌||◌, if◌then◌else◌, Text, codes,
}

-- SipURI
pub record SipUri : Type 0 where
  pub is_valid : Text → Bool
  pub scheme : Text → Text
  pub host : Text → Text
  -- has_port and port
  pub port : Text → Option Text
  -- has_parameters and parameters
  pub parameters : Text → Option Text

-- The settings that name URIs; `registrar_server` is none where it is empty.
pub record Account : Type 0 where
  pub uri : Text
  pub registrar_server : Option Text

abbrev pub with_prefix : Text → Option Text → Text
with_prefix prefix none = []
with_prefix prefix (some t) = prefix ++ t

-- The host of a URI with its port and its parameters.
abbrev pub host_part : SipUri → Text → Text
host_part sip uri =
    sip.host uri ++ (with_prefix (codes ":") (sip.port uri) ++ with_prefix [] (sip.parameters uri))

-- GetRegistrarUri
unfoldable pub get_registrar_uri : SipUri → Account → Text
get_registrar_uri sip account = elim account.registrar_server [
  | some server ↦ server
  | none ↦ sip.scheme account.uri ++ (codes ":" ++ host_part sip account.uri)
]

-- GetFromUri
abbrev pub get_from_uri : Account → Text
get_from_uri account = account.uri

-- destination.find('@') != std::string::npos
pub has_at : Text → Bool
has_at [] = false
has_at (c ∷ rest) = c == b'@' || has_at rest

-- GetToUri; `none` where the URI stays empty.
unfoldable pub get_to_uri : SipUri → Account → Text → Option Text
unfolding get_registrar_uri has_at
get_to_uri sip account destination =
    if has_at destination
    then some destination
    else let registrar = get_registrar_uri sip account in
      if sip.is_valid registrar
      then some (
          sip.scheme registrar
          ++ (codes ":" ++ (destination ++ (codes "@" ++ host_part sip registrar))))
      else none

-- The tests of MakeCall on its destination.
unfoldable pub is_callable : SipUri → Account → Text → Bool
unfolding get_to_uri
is_callable sip account [] = false
is_callable sip account (c ∷ rest) = elim (get_to_uri sip account (c ∷ rest)) [
  | none ↦ false
  | some uri ↦ sip.is_valid uri
]
