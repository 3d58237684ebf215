-- ===== src/Phone/PhoneImpl.antt =====
-- sippet/phone/phone_impl.h and phone_impl.cc: the registration of the phone. The network thread, the
-- user agent and the clock stand behind their interfaces: what they answer is an argument, and what is
-- called on them and on the callbacks is the log. A task that is posted stands in the log too, and
-- runs as a handler of its own. Times are in seconds. `none` is a fault: a null pointer or a null
-- callback is used.
pub mod Calls
pub mod Uris
pub mod Closing
pub mod Stuck
pub mod Stray
pub mod Live
pub mod History
mod Tests
use sippet.Base.{
  ℕ, ◌+◌, ◌-◌, ◌/◌, Bool, true, false, ◌&&◌, ◌||◌, not, List, [], ◌∷◌, ◌++◌, Option, none, some,
  is_some, ◌==◌, if◌then◌else◌, Text, codes, equal, NetResult,
}
use sippet.Message.Header.{Header, Address}
use sippet.Message.Header
use sippet.Message.Headers.{Headers, get, filter, modify_first}
use sippet.Message.Params.{param_find, param_set}
use sippet.Message.Request.{Request, Response}
use sippet.Phone.Call.{Call, has_failed}
use sippet.Phone.CompletionStatus.{status_code_to_completion_status}

-- PhoneState
pub data PhoneState : Type 0 where
  offline ready registering registered unregistering : PhoneState

pub data Task : Type 0 where
  init_task register_task start_refresh_task stop_refresh_task make_call_task : Task
  unregister_task : Bool → Task

-- What the phone calls.
pub data Output : Type 0 where
  posted : Task → Output
  request_sent : Request → Output
  -- on_register_completed_, on_refresh_completed_ and on_unregister_completed_
  register_completed refresh_completed unregister_completed : NetResult → Output
  -- OnIncomingCall of the delegate
  call_announced : Request → Output

-- PhoneImpl; `ended` are the calls that were removed, and `closed` those that OnDestroy let go, which
-- the client may still hold.
pub record Phone : Type 0 where
  pub state : PhoneState
  pub last_state : PhoneState
  pub is_initialized : Bool
  pub calls : List Call
  pub ended : List Call
  pub closed : List Call
  pub last_request : Option Request
  pub register_expires : ℕ
  pub refresh_timer : Option ℕ
  pub has_register_callback : Bool
  pub has_refresh_callback : Bool
  pub has_unregister_callback : Bool
  pub log : List Output

abbrev pub emit : Output → Phone → Phone
emit o p = record p { log = p.log ++ o ∷ [] }

abbrev pub is_ready : PhoneState → Bool
is_ready ready = true
is_ready _ = false

abbrev pub is_registered : PhoneState → Bool
is_registered registered = true
is_registered _ = false

-- Init; whether the settings are valid, and whether the thread starts.
abbrev pub init : Bool → Bool → Phone → Bool × Phone
init is_valid starts p =
    if p.is_initialized
    then (false, p)
    else if not is_valid
    then (false, p)
    else if not starts
    then (false, record p { is_initialized = true })
    else (true, emit (posted init_task) (record p { is_initialized = true; state = ready }))

-- Register
abbrev pub register : Phone → Phone
register p =
    if is_ready p.state
    then emit (posted register_task)
        (record p { state = registering; has_register_callback = true })
    else p

-- StartRefreshRegister
abbrev pub start_refresh_register : Phone → Phone
start_refresh_register p =
    if is_registered p.state
    then emit (posted start_refresh_task) (record p { has_refresh_callback = true })
    else p

-- StopRefreshRegister
abbrev pub stop_refresh_register : Phone → Phone
stop_refresh_register p = if is_registered p.state then emit (posted stop_refresh_task) p else p

abbrev pub start_unregister : Bool → Phone → Phone
start_unregister all p =
    emit (posted (unregister_task all))
      (record p { last_state = p.state; state = unregistering; has_unregister_callback = true })

-- Unregister
abbrev pub unregister : Phone → Phone
unregister p = if is_registered p.state then start_unregister false p else p

-- UnregisterAll
abbrev pub unregister_all : Phone → Phone
unregister_all p = if is_ready p.state || is_registered p.state then start_unregister true p else p

-- Runs one of the callbacks.
abbrev pub run_callback : Bool → Output → Phone → Option Phone
run_callback is_set o p = if is_set then some (emit o p) else none

abbrev pub run_register_completed : NetResult → Phone → Option Phone
run_register_completed rv p = run_callback p.has_register_callback (register_completed rv) p

abbrev pub run_refresh_completed : NetResult → Phone → Option Phone
run_refresh_completed rv p = run_callback p.has_refresh_callback (refresh_completed rv) p

abbrev pub run_unregister_completed : NetResult → Phone → Option Phone
run_unregister_completed rv p = run_callback p.has_unregister_callback (unregister_completed rv) p

-- OnRegister, with the settings' expiration, the REGISTER of UserAgent::CreateRequest and what Send
-- answers.
unfoldable pub on_register : ℕ → Request → NetResult → Phone → Option Phone
on_register expiration created sent p =
    let request : Request = record created {
      headers = created.headers ++ Header.expires expiration ∷ [];
    } in
    let p' : Phone = emit (request_sent request) (record p { last_request = some request }) in
    if has_failed sent then run_register_completed sent p' else some p'

-- OnRefreshRegister
abbrev pub on_refresh_register : ℕ → Request → NetResult → Phone → Option Phone
on_refresh_register expiration created sent p =
    on_register expiration created sent (record p { refresh_timer = none })

-- OnStartRefreshRegister, at a time: 25 seconds before the expiration, or at once.
abbrev pub on_start_refresh_register : ℕ → Phone → Phone
on_start_refresh_register now p = record p { refresh_timer = some (p.register_expires - now - 25) }

-- OnStopRefreshRegister
abbrev pub on_stop_refresh_register : Phone → Phone
on_stop_refresh_register p = record p { refresh_timer = none }

abbrev pub with_no_expiration : List Address → List Address
with_no_expiration [] = []
with_no_expiration (a ∷ rest) =
    record a { params = param_set (codes "expires") (codes "0") a.params } ∷ rest

-- The REGISTER of OnUnregister; `none` where it has no contact to change.
abbrev pub unregistering_headers : Bool → Headers → Option Headers
unregistering_headers all headers = elim (get Header.as_contact headers) [
  | none ↦ none
  | some [] ↦
      if all
      then some (
          modify_first Header.as_contact (λ l. Header.contact true l) headers
          ++ Header.expires 0 ∷ [])
      else none
  | some (a ∷ l) ↦
      if all
      then some (
          modify_first Header.as_contact (λ l. Header.contact true l) headers
          ++ Header.expires 0 ∷ [])
      else some (
          modify_first Header.as_contact (λ l. Header.contact false (with_no_expiration l)) headers)
]

-- OnUnregister
unfoldable pub on_unregister : Bool → Request → NetResult → Phone → Option Phone
on_unregister all created sent p = elim (unregistering_headers all created.headers) [
  | none ↦ none
  | some headers ↦
      let request : Request = record created { headers = headers } in
      let p' : Phone = emit (request_sent request) (record p { last_request = some request }) in
      if has_failed sent then run_unregister_completed sent p' else some p'
]

-- The expiration of the first contact with our address, in GetContactExpiration. `to_unsigned` is
-- the value of a text, 0 where base::StringToInt cannot read it.
pub expiration_of : (Text → ℕ) → ℕ → Text → List Address → Option ℕ
expiration_of to_unsigned header_expires uri [] = none
expiration_of to_unsigned header_expires uri (a ∷ rest) =
    if equal a.address uri
    then elim (param_find (codes "expires") a.params) [
      | some value ↦ some (to_unsigned value)
      | none ↦ if not (header_expires == 0) then some header_expires else some 3600
    ]
    else expiration_of to_unsigned header_expires uri rest

abbrev pub flatten : List (List Address) → List Address
flatten [] = []
flatten (l ∷ ls) = l ++ flatten ls

abbrev pub or_zero : Option ℕ → ℕ
or_zero none = 0
or_zero (some n) = n

-- GetContactExpiration; `none` where the request has no contact.
unfoldable pub get_contact_expiration : (Text → ℕ) → Request → Response → Option ℕ
unfolding expiration_of
get_contact_expiration to_unsigned request s = elim (get Header.as_contact request.headers) [
  | none ↦ none
  | some [] ↦ none
  | some (local ∷ _) ↦
      elim (expiration_of to_unsigned (or_zero (get Header.as_expires s.headers)) local.address
        (flatten (filter Header.as_contact s.headers))) [ none ↦ some 3600 | some n ↦ some n ]
]

-- What stands outside when a response to a REGISTER comes in.
pub record Clock : Type 0 where
  pub now : ℕ
  pub to_unsigned : Text → ℕ

-- The registration expires after what the response says.
abbrev pub expire : Clock → Request → Response → Phone → Option Phone
expire k r s p = elim (get_contact_expiration k.to_unsigned r s) [
  | none ↦ none
  | some n ↦ some (record p { register_expires = k.now + n })
]

-- The branches of OnIncomingResponse for the current REGISTER request, by the state.
abbrev pub response_in_state : Clock → Request → Response → PhoneState → Phone → Option Phone
response_in_state k r s registering p =
    if s.response_code / 100 == 1
    then some p
    else if s.response_code / 100 == 2
    then elim (expire k r s p) [
      | none ↦ none
      | some p' ↦
          run_register_completed (status_code_to_completion_status s.response_code)
            (record p' { state = registered })
    ]
    else run_register_completed (status_code_to_completion_status s.response_code)
        (record p { state = ready })
response_in_state k r s registered p =
    if s.response_code / 100 == 1
    then some p
    else if s.response_code / 100 == 2
    then elim (expire k r s p) [ none ↦ none | some p' ↦ some (on_start_refresh_register k.now p') ]
    else run_refresh_completed (status_code_to_completion_status s.response_code)
        (record p { state = ready })
response_in_state k r s unregistering p =
    if s.response_code / 100 == 1
    then some p
    else if s.response_code / 100 == 2
    then run_unregister_completed (status_code_to_completion_status s.response_code)
        (record p { state = ready })
    else run_unregister_completed (status_code_to_completion_status s.response_code)
        (record p { state = p.last_state })
response_in_state k r s offline p = some p
response_in_state k r s ready p = some p

-- OnIncomingResponse, to a REGISTER
unfoldable pub on_register_response : Clock → Request → Response → Phone → Option Phone
unfolding get_contact_expiration
on_register_response k r s p = elim p.last_request [
  | none ↦ none
  | some last ↦ if equal last.id r.id then response_in_state k r s p.state p else some p
]

-- What OnTimedOut and OnTransportError do for a REGISTER.
unfoldable pub on_register_failed : NetResult → Phone → Option Phone
on_register_failed rv p = elim p.state [
  | registering ↦ run_register_completed rv p
  | registered ↦ run_refresh_completed rv p
  | unregistering ↦ run_unregister_completed rv p
  | offline ↦ some p
  | ready ↦ some p
]
