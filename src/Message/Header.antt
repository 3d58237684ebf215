-- ===== src/Message/Header.antt =====
-- sippet/message/header.h, header_list.h and headers/: the header classes that the modelled code
-- reads or builds. Every other class is `generic`, with its name and its text.
-- A GURL is its text, and a double an opaque number.
use sippet.Base.{ℕ, Bool, List, [], Option, none, some, Text}
use sippet.Message.Method.{Method}
use sippet.Message.Params.{Params, set_tag}
use sippet.Message.Protocol.{Protocol}

-- ContactBase
pub record Address : Type 0 where
  pub address : Text
  pub display_name : Text
  pub params : Params

-- ContactBase(address)
abbrev pub address_of : Text → Address
address_of url = record { address = url; display_name = []; params = [] }

abbrev pub with_tag : Text → Address → Address
with_tag tag a = record a { params = set_tag tag a.params }

pub record ViaParam : Type 0 where
  pub version : ℕ × ℕ
  pub protocol : Protocol
  pub host : Text
  pub port : ℕ
  pub params : Params

pub record Challenge : Type 0 where
  pub scheme : Text
  pub params : Params

pub data Header : Type 0 where
  via : List ViaParam → Header
  from : Address → Header
  to : Address → Header
  call_id : Text → Header
  cseq : ℕ → Method → Header
  contact : Bool → List Address → Header
  route : List Address → Header
  record_route : List Address → Header
  max_forwards : ℕ → Header
  user_agent : Text → Header
  server : Text → Header
  content_length : ℕ → Header
  timestamp : ℕ → ℕ → Header
  www_authenticate : Challenge → Header
  proxy_authenticate : Challenge → Header
  content_type : Text → Text → Header
  expires : ℕ → Header
  generic : Text → Text → Header

-- dyn_cast, one for each class that is asked for.
abbrev pub as_via : Header → Option (List ViaParam)
as_via (via l) = some l
as_via _ = none

abbrev pub as_from : Header → Option Address
as_from (from a) = some a
as_from _ = none

abbrev pub as_to : Header → Option Address
as_to (to a) = some a
as_to _ = none

abbrev pub as_call_id : Header → Option Text
as_call_id (call_id v) = some v
as_call_id _ = none

abbrev pub as_cseq : Header → Option (ℕ × Method)
as_cseq (cseq n m) = some (n, m)
as_cseq _ = none

abbrev pub as_content_type : Header → Option (Text × Text)
as_content_type (content_type t s) = some (t, s)
as_content_type _ = none

abbrev pub as_expires : Header → Option ℕ
as_expires (expires n) = some n
as_expires _ = none

abbrev pub as_contact : Header → Option (List Address)
as_contact (contact _ l) = some l
as_contact _ = none

abbrev pub as_route : Header → Option (List Address)
as_route (route l) = some l
as_route _ = none

abbrev pub as_record_route : Header → Option (List Address)
as_record_route (record_route l) = some l
as_record_route _ = none

abbrev pub as_user_agent : Header → Option Text
as_user_agent (user_agent v) = some v
as_user_agent _ = none

abbrev pub as_server : Header → Option Text
as_server (server v) = some v
as_server _ = none

abbrev pub as_content_length : Header → Option ℕ
as_content_length (content_length n) = some n
as_content_length _ = none

abbrev pub as_timestamp : Header → Option (ℕ × ℕ)
as_timestamp (timestamp t d) = some (t, d)
as_timestamp _ = none

abbrev pub as_www_authenticate : Header → Option Challenge
as_www_authenticate (www_authenticate c) = some c
as_www_authenticate _ = none

abbrev pub as_proxy_authenticate : Header → Option Challenge
as_proxy_authenticate (proxy_authenticate c) = some c
as_proxy_authenticate _ = none
