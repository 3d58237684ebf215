-- ===== src/Phone/Call/HungUp.antt =====
-- A call of call_impl.cc that is hung up before a response opened its dialog.
use sippet.Base.{
  ◌/◌, ◌≡◌, refl, ap, ◌∙◌, true, false, List, [], ◌∷◌, map, All, Option, none, some, ◌==◌, ◌||◌,
  if◌then◌else◌,
}
use sippet.Message.Method.{bye, cancel, invite, is_method}
use sippet.Message.Request.{Request, Response}
use sippet.Ua.Dialog.{Dialog}
use sippet.Phone.Call.{
  CallState, terminated, is_terminated, is_early, emit, removed, is_calling_or_ringing, Call,
}
use sippet.Phone.Call.Sending.{Answers, send_bye, send_cancel}
use sippet.Phone.Call.Handlers.{
  on_hangup, on_incoming_response, handle_calling_or_ringing_response, handle_hungup_response,
}
use sippet.Phone.Call.History.{Event, hanging_up, response_in, run}

-- A response to an INVITE, other than a 2xx.
pub record IsUnsuccessful (s : Response) : Type 0 where
  pub request : Request
  pub refers : s.refer_to ≡ some request
  pub of_invite : is_method invite request.method ≡ true
  pub no_success : (s.response_code / 100 == 2) ≡ false

abbrev pub heard : List (Answers × Response × Option Dialog) → List Event
heard l = map (λ x. response_in x.0 x.1 x.2) l

not_answered :
    (a : Answers) (s : Response) (c : Call)
    → IsUnsuccessful s
    → handle_hungup_response a s c ≡ some c
unfolding handle_hungup_response
not_answered a s c u = ap next u.refers ∙ rw (u.of_invite, u.no_success) refl
  where
    next : Option Request → Option Call
    next o = elim o [
      | none ↦ none
      | some r ↦
          if is_method invite r.method
          then if s.response_code / 100 == 2 then send_bye a c else some c
          else if is_method cancel r.method || is_method bye r.method
          then if s.response_code / 100 == 2 then some (emit removed c) else some c
          else some c
    ]

ignored :
    (a : Answers) (s : Response) (d : Option Dialog) (c : Call)
    → IsUnsuccessful s
    → c.state ≡ terminated
    → on_incoming_response a s d c ≡ some (record c { dialog = d })
unfolding on_incoming_response
ignored a s d c u e = ap next e ∙ not_answered a s (record c { dialog = d }) u
  where
    next : CallState → Option Call
    next st =
        if is_calling_or_ringing st
        then handle_calling_or_ringing_response a s (record c { dialog = d })
        else if is_terminated st
        then handle_hungup_response a s (record c { dialog = d })
        else some (record c { dialog = d })

all_ignored :
    (l : List (Answers × Response × Option Dialog)) (c : Call)
    → All (λ x. IsUnsuccessful x.1) l
    → c.state ≡ terminated
    → (c' : Call) × (run (heard l) c ≡ some c') × (c'.log ≡ c.log) × (c'.state ≡ terminated)
unfolding run
all_ignored [] c u e = (c, refl, refl, e)
all_ignored ((a, s, d) ∷ l) c (u, us) e =
    let c1 : Call = record c { dialog = d } in
    let (c', r, log, state) = all_ignored l c1 us e in
    (
      c',
      ap (λ o. elim o [ none ↦ none | some x ↦ run (heard l) x ]) (ignored a s d c u e) ∙ r,
      log,
      state,
    )

-- A call that is hung up before it has a dialog, where call.h says that HangUp has no effect, is
-- terminated and stays silent: whatever responses to the INVITE come
-- then, provisional ones and final ones other than 2xx, it sends no CANCEL and nothing else, runs no
-- callback, and the phone is not told to drop it.
pub hung_up_is_silent :
    (a : Answers) (l : List (Answers × Response × Option Dialog)) (c : Call)
    → c.dialog ≡ none
    → All (λ x. IsUnsuccessful x.1) l
    → (c' : Call) × (run (hanging_up a ∷ heard l) c ≡ some c')
      × (c'.log ≡ c.log)
      × (c'.state ≡ terminated)
unfolding run on_hangup
hung_up_is_silent a l c n us =
    let c1 : Call = record c { state = terminated } in
    let (c', r, log, state) = all_ignored l c1 us refl in (c', ap next n ∙ r, log, state)
  where
    ended : Option Dialog → Option Call
    ended o = elim o [
      | none ↦ some (record c { state = terminated })
      | some d ↦
          if is_early d.state
          then send_cancel a (record c { state = terminated })
          else send_bye a (record c { state = terminated })
    ]

    next : Option Dialog → Option Call
    next o = elim (ended o) [ none ↦ none | some x ↦ run (heard l) x ]
