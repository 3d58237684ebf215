-- ===== src/Phone/PhoneImpl/History.antt =====
-- Any history of the phone of phone_impl.cc and of its calls.
use sippet.Base.{
  ℕ, Bool, true, false, List, [], ◌∷◌, Option, none, some, if◌then◌else◌, Text, NetResult,
}
use sippet.Message.Header
use sippet.Message.Request.{Request, Response}
use sippet.Phone.Call.{Call}
use sippet.Phone.Call.Sending.{Answers}
use sippet.Phone.Call.Handlers
use sippet.Phone.Call.History
use sippet.Phone.PhoneImpl.{
  Phone, Clock, init, register, unregister, unregister_all, start_refresh_register,
  stop_refresh_register, on_register, on_refresh_register, on_start_refresh_register,
  on_stop_refresh_register, on_unregister,
}
use sippet.Phone.PhoneImpl.Calls.{
  with_calls, make_call, on_incoming_request, on_incoming_response, on_timed_out,
  on_transport_error, on_destroy,
}
use sippet.Ua.Dialog.{Dialog}
use sippet.Phone.PhoneImpl.Live.{nth_handled}

-- A call of the client, of the user agent, of a task or of a timer, or an event of one call of the list.
pub data Event : Type 0 where
  initialized : Bool → Bool → Event
  to_register to_unregister to_unregister_all to_start_refresh to_stop_refresh : Event
  registering_now refreshing_now : ℕ → Request → NetResult → Event
  unregistering_now : Bool → Request → NetResult → Event
  starting_refresh : ℕ → Event
  stopping_refresh : Event
  to_call : Bool → Event
  request_in : Text → ℕ → Request → Option Dialog → Event
  response_in : Clock → Answers → Response → Option Dialog → Event
  request_timed_out : Request → Event
  request_failed : Request → NetResult → Event
  in_call : ℕ → History.Event → Event
  destroyed : Event

-- Nothing runs after OnDestroy: the destructor waits for it, and the user agent is gone.
abbrev pub is_last : Event → Bool
is_last destroyed = true
is_last _ = false

abbrev pub handle : Event → Phone → Option Phone
handle (initialized valid starts) p = some (init valid starts p).1
handle to_register p = some (register p)
handle to_unregister p = some (unregister p)
handle to_unregister_all p = some (unregister_all p)
handle to_start_refresh p = some (start_refresh_register p)
handle to_stop_refresh p = some (stop_refresh_register p)
handle (registering_now expiration r sent) p = on_register expiration r sent p
handle (refreshing_now expiration r sent) p = on_refresh_register expiration r sent p
handle (unregistering_now all r sent) p = on_unregister all r sent p
handle (starting_refresh now) p = some (on_start_refresh_register now p)
handle stopping_refresh p = some (on_stop_refresh_register p)
handle (to_call valid) p = some (make_call valid p).1
handle (request_in reason delay r d) p = on_incoming_request reason delay r d p
handle (response_in k a s d) p = on_incoming_response k a s d p
handle (request_timed_out r) p = on_timed_out r p
handle (request_failed r rv) p = on_transport_error r rv p
handle (in_call n e) p = with_calls (nth_handled n (History.handle e) p.calls) p
handle destroyed p = on_destroy p

-- The phone after a sequence of events; `none`, where one of them faults.
unfoldable pub run : List Event → Phone → Option Phone
run [] p = some p
run (e ∷ es) p = elim (handle e p) [
  | none ↦ none
  | some p' ↦ if is_last e then some p' else run es p'
]
