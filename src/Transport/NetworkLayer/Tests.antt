-- ===== src/Transport/NetworkLayer/Tests.antt =====
-- Runs of the network layer.
use sippet.Base.{
  ◌≡◌, refl, subst, [], ◌∷◌, Option, none, some, Text, codes, ok, error, pending, true, false,
  connection_reset,
}
use sippet.Base.Maps.{find, assign}
use sippet.Message.Atom.{known}
use sippet.Message.Headers.{get, modify_first}
use sippet.Message.Method.{invite}
use sippet.Message.Params.{branch, set_received}
use sippet.Message.Protocol.{udp}
use sippet.Message.Request.{Request, incoming}
use sippet.Message.Samples.{sample_request}
use sippet.Transport.EndPoint.{EndPoint, SipUri, key}
use sippet.Transport.NetworkLayer.{Layer, ChannelContext, key_eq, get_channel_context, owner}
use sippet.Transport.CertError
use sippet.Transport.NetworkLayer.Certificates.{
  on_ssl_certificate_error, Closes, certificate_error-Gone,
}
use sippet.Transport.NetworkLayer.Teardown.{destroy_layer, destroy_layer_ends}
use sippet.Transport.NetworkLayer.Closing.{Gone, on_channel_closed-Gone}
use sippet.Transport.NetworkLayer.Invariant.{Linked}
use sippet.Transport.NetworkLayer.Reach.{
  Reach, no_channels, start, connecting_to, request_arrived, Reach-Linked,
}
use sippet.Transport.NetworkLayer.Receiving.{on_incoming_request, on_channel_closed}
use sippet.Transport.NetworkLayer.Sending.{Environment, connect_to, create_context}
use sippet.Transport.Stamp.{stamp_server_via}
use sippet.Transport.TransactionId.{server_request_id}

abbrev a_uri : SipUri
a_uri = record {
  is_sip = true;
  is_sips = false;
  transport = none;
  host = codes "h";
  effective_port = 5060;
}

abbrev env : Environment
env = record {
  uris = λ t. a_uri;
  printers = record { host_port = λ host port. host; int_string = λ n. n ∷ [] };
  port_of = λ t. 5060;
  software_name = codes "Sippet";
}

abbrev peer : EndPoint
peer = record { host = codes "h"; port = 5060; protocol = known udp }

abbrev invited : Request
invited = sample_request incoming invite

abbrev opened : Layer
unfolding connect_to create_context find assign
opened = (connect_to peer (some ok) no_channels).1

opened_lem : (connect_to peer (some ok) no_channels).1 ≡ opened
unfolding connect_to create_context find assign
opened_lem = refl

abbrev or_else : Option Layer → Layer → Layer
or_else none l = l
or_else (some l) l' = l

abbrev context_or : Option ChannelContext → ChannelContext
context_or (some c) = c
context_or none = record {
  destination = peer;
  refs = 0;
  timer_running = false;
  initial_request = none;
  initial_callback = none;
  transactions = [];
}

abbrev after_request : Layer
unfolding connect_to create_context on_incoming_request stamp_server_via server_request_id get
    branch
after_request = or_else (on_incoming_request env peer invited opened) opened

arrived : on_incoming_request env peer invited opened ≡ some after_request
unfolding connect_to create_context on_incoming_request stamp_server_via server_request_id get
    branch modify_first set_received find assign
arrived = refl

history : Reach env after_request
history =
    request_arrived peer invited opened after_request
      (subst (Reach env) opened_lem (connecting_to peer (some ok) no_channels start)) arrived

Reach-Linked_example : Linked after_request
Reach-Linked_example = Reach-Linked env after_request history

abbrev the_context : Layer → ChannelContext
unfolding find
the_context l = context_or (get_channel_context peer l)

found : get_channel_context peer after_request ≡ some (the_context after_request)
unfolding find after_request modify_first set_received opened
found = refl

-- The transaction that the request started ends with its channel.
on_channel_closed-Gone_example :
    (l' : Layer) × (on_channel_closed peer (error connection_reset) after_request ≡ some l')
    × Linked l'
    × Gone (key peer) (the_context after_request) after_request l'
on_channel_closed-Gone_example =
    on_channel_closed-Gone peer (error connection_reset) after_request
      (Reach-Linked env after_request history) found

destroy_layer_ends_example :
    (l' : Layer) × (destroy_layer after_request ≡ some l')
    × (l'.channels ≡ [])
    × ((id : Text) → owner id l' ≡ none)
destroy_layer_ends_example =
    destroy_layer_ends after_request (Reach-Linked env after_request history)

abbrev approving : CertError.Answers
approving = record { approval_result = ok; accepted = true; cert_result = ok; cert = some [] }

-- The handler would approve of the certificate, but it is not asked.
certificate_error-Gone_example :
    (l' : Layer) × (on_ssl_certificate_error true approving pending peer
        (some [])
        ([], after_request)
      ≡ some ([], l'))
    × Linked l'
    × Gone (key peer) (the_context after_request) after_request l'
    × Closes peer l'
certificate_error-Gone_example =
    certificate_error-Gone true approving pending peer (some []) [] after_request
      (Reach-Linked env after_request history) found
