-- ===== src/Lib.antt =====
-- Verification of the SIP core of sippet (paths are from the repository's root).
--
-- The library speaks SIP for a user agent. A message (sippet/message) is a list of typed headers.
-- The network layer gives each request a transaction (sippet/transport): the client transaction sends
-- a request, repeats it over datagram channels and matches its responses; the server transaction
-- answers a request and absorbs its repetitions. Timers get their delays from the providers of
-- time_delta_factory.cc. The network layer keeps a context for each channel, with the transactions on
-- it, finds the transaction that a message belongs to by its id, and ends the transactions of a channel
-- that closes. A channel reads messages through a reader and writes bytes through a writer
-- (sippet/transport/chrome). Above the transactions, the user agent keeps dialogs (sippet/ua): a
-- response opens one, a BYE ends one, and the requests inside a dialog are built from it; a request
-- that is challenged is cloned, authenticated and sent again. On top of it the phone (sippet/phone)
-- registers at a server and keeps the calls, each a state machine over the responses to its INVITE.
--
-- What models what:
-- Base: lists, texts as lists of bytes, results of net functions, and std::map as a list of entries.
-- Message.Atom, Message.Method, Message.Protocol: sippet/message/atom.h, method.cc, protocol.cc, with
--   the X-macro lists; an atom is a known value or another text.
-- Message.Header, Message.Headers, Message.Params: sippet/message/header.h, message.h and the headers
--   directory, for the header classes that the core reads and builds. The intrusive list of headers is
--   a list; get, filter and the cloning of a class are functions with a cast as an argument, as the
--   templates take a class.
-- Message.Request: sippet/message/request.cc and response.cc. A function that returns a new object
--   returns it as a value; `none` stands for a null pointer that the code goes on to dereference.
--   What a random generator returns (a tag, a branch, a GUID) is an argument.
-- Transport.TimeDelta: sippet/transport/time_delta_factory.cc. A delay is in milliseconds. The int
--   counters are 32-bit patterns, and the products wrap around there.
-- Transport.ClientTransaction, Transport.ServerTransaction: sippet/transport/client_transaction_impl.cc
--   and server_transaction_impl.cc. A transaction is a record with its state, its timers (a timer that
--   runs is its delay) and the log of what it told the delegate and sent through the channel. Each
--   handler is a function of the record; what the channel answers to a write is an argument. The
--   histories are step relations, with the completions of writes in any order; those of a server
--   transaction count the steps that come after its end.
-- Transport.StreamWriter: sippet/transport/chrome/chrome_stream_writer.cc. What the socket answers to
--   the coming writes is a list, on which the loop of Drain recurs; the loop of DidConsume recurs on the
--   queue, so neither needs fuel.
-- Transport.DatagramWriter: sippet/transport/chrome/chrome_datagram_writer.cc, in the same way; a frame
--   counts as sent whole, as in the code.
-- Transport.CertError: sippet/transport/ssl_cert_error_transaction.cc. DoLoop runs on fuel; the states
--   are ordered, so that three rounds are enough from any state.
-- Transport.EndPoint: sippet/transport/end_point.h and end_point.cc. What SipURI and GURL answer for a
--   URI is a parameter.
-- Transport.TransactionId, Transport.Stamp: the transaction ids of sippet/transport/network_layer.cc,
--   and what it writes into Via and Contact. The printing of a host with its port and of numbers is a
--   parameter (net and base are Chromium's).
-- Transport.NetworkLayer: the rest of network_layer.cc. Channels and transactions stand behind their
--   interfaces: what a channel answers, what the channel factory answers and the branch that is drawn
--   are arguments, and what the layer calls on them, on its delegate and on callbacks is a log. A
--   transaction is its id with the destination of its channel; the transactions of a context are a
--   list without an id twice, as the order of the std::set does not matter. A task that is posted
--   counts as run at once. The history is a relation with one constructor for each operation. The
--   loop of the destructor runs on fuel, one round for each channel, which is enough.
--   NetworkLayer.Certificates has the transactions of Transport.CertError beside the layer, and
--   NetworkLayer.Registry the factories and the aliases.
-- Transport.MessageReader: sippet/transport/chrome/message_reader.cc, chrome_stream_reader.cc and
--   chrome_datagram_reader.cc. A buffer is the bytes before data() and the unconsumed bytes. The parser
--   of headers, Message::Parse, is a parameter. The answers of the socket are a list, and a read that
--   is pending ends later with an answer. DoLoop runs on fuel and says so when it is used up; what a
--   theorem says of its end holds for a number of rounds that it names.
-- Transport.AliasesMap: sippet/transport/aliases_map.cc.
-- Ua.Dialog: sippet/ua/dialog.h and dialog.cc. A function that returns a pointer gives null, an object,
--   or a fault where the code dereferences null. The tests of a URI for the scheme "sips" and the
--   parameter "lr" are parameters (GURL is Chromium's).
-- Ua.DialogStore: sippet/ua/dialog_store.cc and dialog_controller.cc. A dialog is shared by the store
--   and its users: a change of its state shows in the store's entry and in what is returned.
-- Ua.AuthCache: sippet/ua/auth_cache.h and auth_cache.cc. An entry stands under its realm and scheme in
--   a list in the order of the std::list; credentials are a parameter (net is Chromium's).
--
-- Ua.UserAgent: sippet/ua/ua_user_agent.h and ua_user_agent.cc. What the authentication and the network
--   layer answer is an argument, and what is called on them and on the delegates is a log; the events
--   of UserAgent.History are the calls of the network layer, of the authentication and of the client.
--   UserAgent.Create is CreateRequest, with the tests of a URI and what is random as arguments.
-- Ua.AuthTransaction: sippet/ua/auth_transaction.h and auth_transaction.cc. It runs on fuel,
--   says so when the fuel is used up, and six rounds are enough from any state.
-- Phone.CompletionStatus: sippet/phone/completion_status.h and completion_status.cc.
-- Phone.Call: sippet/phone/call_impl.h and call_impl.cc. The phone, the user agent and WebRTC stand
--   behind their interfaces; a task that is posted stands in the log, and runs as an event of its own.
--   Call.Sending has the requests that a call sends, Call.Handlers what it does with what comes in. The
--   dialog of a call is its own copy: the store of the user agent is not in the model of a call.
-- Phone.PhoneImpl: sippet/phone/phone_impl.h and phone_impl.cc. PhoneImpl is the registration, with the
--   clock and the value of a text as arguments, and PhoneImpl.Calls the list of calls, which has the
--   calls of Phone.Call; PhoneImpl.Uris makes the URIs, with what SipURI reads as an argument;
--   PhoneImpl.Stray puts the user agent and the phone together.
--
-- What is left out: the DCHECKs, which a release build drops, logging, and callbacks that call the
-- object that runs them again. URIs stand as texts and qvalues as opaque numbers. Not modelled are
-- the parsers of messages and URIs, the printing of headers, the channels with their sockets, the rest
-- of authentication, the calls of WebRTC, and the bindings to JNI and V8.
pub mod Base
pub mod Message
pub mod Transport
pub mod Ua
pub mod Phone
