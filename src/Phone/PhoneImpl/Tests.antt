-- ===== src/Phone/PhoneImpl/Tests.antt =====
-- Runs of the phone.
use sippet.Base.{◌≡◌, refl, false, true, List, [], ◌∷◌, none, some, codes, error, timed_out}
use sippet.Message.Method.{options}
use sippet.Message.Request.{Request, incoming}
use sippet.Message.Samples.{sample_request}
use sippet.Phone.Call.{new_outgoing, terminated, completed, removed, offer_asked, peer_closed}
use sippet.Phone.PhoneImpl.{
  Phone, offline, ready, registering, posted, init_task, register_task, make_call_task,
}
use sippet.Phone.PhoneImpl.Calls
use sippet.Phone.PhoneImpl.Stray.{stray_request_faults}
use sippet.Phone.PhoneImpl.Stuck.{
  to_register, to_unregister_all, failure, attempts, work, registering_is_stuck,
}
use sippet.Phone.PhoneImpl.History.{Event, initialized, to_call, in_call, destroyed}
use sippet.Phone.Call.History.{request_timed_out, making}
use sippet.Ua.UserAgent
use sippet.Ua.UserAgent.{UserAgent, tell, incoming_request}

abbrev fresh : Phone
fresh = record {
  state = offline;
  last_state = offline;
  is_initialized = false;
  calls = [];
  ended = [];
  closed = [];
  last_request = none;
  register_expires = 0;
  refresh_timer = none;
  has_register_callback = false;
  has_refresh_callback = false;
  has_unregister_callback = false;
  log = [];
}

abbrev waiting : Phone
waiting = record fresh {
  state = registering;
  is_initialized = true;
  has_register_callback = true;
  log = posted register_task ∷ [];
}

registering_is_stuck_example :
    (p : Phone) × (attempts
        (failure (error timed_out) ∷ to_register ∷ to_unregister_all ∷ [])
        waiting
      ≡ some p)
    × (p.state ≡ registering)
    × (work p.log ≡ work (posted register_task ∷ []))
registering_is_stuck_example =
    registering_is_stuck (failure (error timed_out) ∷ to_register ∷ to_unregister_all ∷ []) waiting
      refl refl

abbrev calling_phone : Phone
calling_phone = record fresh {
  state = ready;
  is_initialized = true;
  calls = new_outgoing ∷ [];
  log = posted init_task ∷ posted make_call_task ∷ [];
}

abbrev agent : UserAgent
agent = record { handlers = 1 ∷ []; dialogs = []; outgoing_requests = []; log = [] }

abbrev stray : Request
stray = sample_request incoming options

stray_request_faults_example :
    (UserAgent.on_incoming_request stray agent ≡ some (tell (incoming_request stray none) agent))
    × (Calls.on_incoming_request (codes "OK") 0 stray none calling_phone ≡ none)
stray_request_faults_example =
    stray_request_faults stray agent (codes "OK") 0 calling_phone new_outgoing [] refl refl refl

-- Two calls are made; the first times out, and the phone is destroyed with the second, whose peer
-- connection exists.
abbrev events : List Event
events =
    initialized true true
    ∷ to_call true
    ∷ to_call true
    ∷ in_call 0 request_timed_out
    ∷ in_call 0 (making true)
    ∷ destroyed
    ∷ []

abbrev destroyed_phone : Phone
destroyed_phone = record fresh {
  state = ready;
  is_initialized = true;
  ended =
      record new_outgoing { state = terminated; log = completed (error timed_out) ∷ removed ∷ [] }
      ∷ [];
  closed = record new_outgoing { log = offer_asked ∷ peer_closed ∷ [] } ∷ [];
  log = posted init_task ∷ posted make_call_task ∷ posted make_call_task ∷ [];
}
