-- ===== src/Phone/PhoneImpl/Calls.antt =====
-- The calls of phone_impl.cc: which one a message goes to, and what the phone does with it.
-- `none` is a fault: a null pointer or a null callback is used.
use sippet.Base.{
  ℕ, Bool, true, false, not, ◌||◌, List, [], ◌∷◌, ◌++◌, Option, none, some, if◌then◌else◌, Text,
  equal, NetResult, error, timed_out,
}
use sippet.Message.Method.{bye, invite, is_method}
use sippet.Message.Method
use sippet.Message.Request.{Request, Response}
use sippet.Phone.Call.{Call, new_outgoing, new_incoming, was_removed}
use sippet.Phone.Call.Handlers
use sippet.Phone.Call.Sending.{Answers}
use sippet.Phone.PhoneImpl.{
  Phone, is_ready, is_registered, make_call_task, posted, call_announced, emit, Clock,
  on_register_response, on_register_failed,
}
use sippet.Ua.Dialog.{Dialog, id}

-- Whether RouteToCall(request) takes this call.
abbrev pub has_request : Text → Call → Option Bool
has_request key c = elim c.last_request [ none ↦ none | some r ↦ some (equal r.id key) ]

-- Whether RouteToCall(dialog) takes this call.
abbrev pub has_dialog : Option Dialog → Call → Option Bool
has_dialog d c = elim c.dialog [
  | none ↦ none
  | some own ↦ elim d [ none ↦ none | some x ↦ some (equal (id own) (id x)) ]
]

abbrev pub keep : Call → List Call × List Call → List Call × List Call
keep c (calls, ended) = (c ∷ calls, ended)

-- The call after its handler; RemoveCall takes it out.
abbrev pub put_back : Call → List Call → List Call × List Call
put_back c calls = if was_removed c.log then (calls, c ∷ []) else (c ∷ calls, [])

-- RouteToCall, and the handler of the call that it finds: the calls that stay, and those that end.
unfoldable pub routed :
    (Call → Option Bool) → (Call → Option Call) → List Call → Option (List Call × List Call)
unfolding was_removed
routed test handler [] = some ([], [])
routed test handler (c ∷ calls) =
    let rest = routed test handler calls in
    elim (test c) [
      | none ↦ none
      | some hit ↦
          if hit
          then elim (handler c) [ none ↦ none | some c' ↦ some (put_back c' calls) ]
          else elim rest [ none ↦ none | some r ↦ some (keep c r) ]
    ]

abbrev pub with_calls : Option (List Call × List Call) → Phone → Option Phone
with_calls none p = none
with_calls (some (calls, ended)) p = some (record p { calls = calls; ended = p.ended ++ ended })

-- MakeCall; whether the destination passes, as Uris.is_callable says.
abbrev pub make_call : Bool → Phone → Bool × Phone
make_call is_valid p =
    if not (is_ready p.state || is_registered p.state)
    then (false, p)
    else if is_valid
    then (true, emit (posted make_call_task) (record p { calls = p.calls ++ new_outgoing ∷ [] }))
    else (false, p)

-- OnIncomingRequest; `reason` and `delay` are for Dialog::CreateResponse.
unfoldable pub on_incoming_request : Text → ℕ → Request → Option Dialog → Phone → Option Phone
unfolding routed
on_incoming_request reason delay r d p =
    if is_method invite r.method
    then some (emit (call_announced r) (record p { calls = p.calls ++ new_incoming r ∷ [] }))
    else with_calls
        (routed (has_dialog d)
          (λ c. elim d [ none ↦ none | some x ↦ Handlers.on_incoming_request x reason delay r c ])
          p.calls)
        p

abbrev pub is_of_call : Request → Bool
is_of_call r = is_method invite r.method || is_method bye r.method

abbrev pub is_of_registration : Request → Bool
is_of_registration r = is_method Method.register r.method

-- OnIncomingResponse
unfoldable pub on_incoming_response :
    Clock → Answers → Response → Option Dialog → Phone → Option Phone
unfolding routed on_register_response
on_incoming_response k a s d p = elim s.refer_to [
  | none ↦ none
  | some r ↦
      if is_of_registration r
      then on_register_response k r s p
      else if is_of_call r
      then with_calls (routed (has_request r.id) (Handlers.on_incoming_response a s d) p.calls) p
      else some p
]

unfoldable pub on_request_failed : NetResult → Request → Phone → Option Phone
unfolding on_register_failed routed
on_request_failed rv r p =
    if is_of_call r
    then with_calls (routed (has_request r.id) (Handlers.fail rv) p.calls) p
    else if is_of_registration r
    then on_register_failed rv p
    else some p

-- OnTimedOut
unfoldable pub on_timed_out : Request → Phone → Option Phone
unfolding on_request_failed
on_timed_out r p = on_request_failed (error timed_out) r p

-- OnTransportError
unfoldable pub on_transport_error : Request → NetResult → Phone → Option Phone
unfolding on_request_failed
on_transport_error r rv p = on_request_failed rv r p

-- The loop of OnDestroy.
unfoldable pub destroy_each : List Call → Option (List Call)
destroy_each [] = some []
destroy_each (c ∷ calls) =
    let rest = destroy_each calls in
    elim (Handlers.on_destroy c) [
      | none ↦ none
      | some c' ↦ elim rest [ none ↦ none | some closed ↦ some (c' ∷ closed) ]
    ]

-- OnDestroy: the calls are closed and let go, and the timer stops.
unfoldable pub on_destroy : Phone → Option Phone
unfolding destroy_each
on_destroy p = elim (destroy_each p.calls) [
  | none ↦ none
  | some closed ↦ some (record p { calls = []; closed = p.closed ++ closed; refresh_timer = none })
]
