-- ===== src/Transport/NetworkLayer/Registry.antt =====
-- The channel factories and the aliases of network_layer.cc. A factory stands behind its interface.
use sippet.Base.{Bool, true, false, List, Text, is_some, if◌then◌else◌}
use sippet.Base.Maps.{text_eq, insert}
use sippet.Message.Protocol.{Protocol, str}
use sippet.Transport.AliasesMap.{AliasesMap, add_alias}
use sippet.Transport.EndPoint.{EndPoint}
use sippet.Transport.NetworkLayer.{Layer, get_channel_context}

-- RegisterChannelFactory; ProtocolLess compares names, and the factory that a protocol has stays.
unfoldable pub register_channel_factory {ℓ} :
    {F : Type ℓ} → Protocol → F → List (Text × F) → List (Text × F)
unfolding insert
register_channel_factory protocol factory m = insert (str protocol) factory m

-- AddAlias
unfoldable pub add_alias_to : EndPoint → EndPoint → Layer → AliasesMap → Bool × AliasesMap
unfolding add_alias
add_alias_to destination alias l m =
    if is_some (get_channel_context destination l)
    then (true, add_alias destination alias m)
    else (false, m)
