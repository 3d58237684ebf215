-- ===== src/Phone/Call/History.antt =====
-- Any history of a call of call_impl.cc.
use sippet.Base.{
  ℕ, ◌≡◌, refl, subst, Bool, true, false, ◌&&◌, not, List, [], ◌∷◌, Option, none, some, leb,
  if◌then◌else◌, Text, NetResult, error, timed_out, is_ok, arith,
}
use sippet.Message.Request.{Request, Response}
use sippet.Ua.Dialog.{Dialog}
use sippet.Phone.Call.{
  Output, was_removed, Call, emit, pick_up, reject, hang_up, send_dtmf, can_answer, can_end,
  on_make_call, on_ice_complete, on_send_dtmf, insert_dtmf, offer_task, on_create_offer_completed,
  is_terminated, Task, posted, pick_up_task, reject_task, hang_up_task, dtmf_task,
}
use sippet.Phone.Call.Sending.{Answers}
use sippet.Phone.Call.Handlers.{
  on_pick_up, on_reject, on_hangup, on_incoming_request, on_incoming_response, on_timed_out,
  on_transport_error, on_send_complete, on_destroy,
}
use sippet.Phone.Call.Order.{
  rank, Fine, Holds, some-Holds, none-Holds, if_Holds, bind_Holds, emit-Fine, run_completed-Fine,
  run_hangup_completed-Fine,
}
use sippet.Phone.Call.Steps.{
  fail-Fine, on_create_offer_completed-Fine, on_destroy-Fine, on_hangup-Fine,
  on_incoming_request-Fine, on_incoming_response-Fine,
}

-- A call of the client, of the phone or of a task, with what stands outside answers in it.
pub data Event : Type 0 where
  picked_up rejected hung_up : Event
  digits_sent : Text → Event
  making : Bool → Event
  offered : Request → Text → NetResult → Event
  picking_up rejecting : Event
  hanging_up : Answers → Event
  request_in : Dialog → Text → ℕ → Request → Event
  response_in : Answers → Response → Option Dialog → Event
  request_timed_out : Event
  request_failed : NetResult → Event
  sending_ended : Bool → NetResult → Event
  destroyed : Event
  ice_completed : (Text → Text) → Text → Event
  sending_digits : Bool → Text → Event

abbrev pub handle : Event → Call → Option Call
handle picked_up c = some (pick_up c).1
handle rejected c = some (reject c).1
handle hung_up c = some (hang_up c).1
handle (digits_sent digits) c = some (send_dtmf digits c)
handle (making made) c = on_make_call made c
handle (offered r offer sent) c = on_create_offer_completed r offer sent c
handle picking_up c = some (on_pick_up c)
handle rejecting c = some (on_reject c)
handle (hanging_up a) c = on_hangup a c
handle (request_in d reason delay r) c = on_incoming_request d reason delay r c
handle (response_in a s d) c = on_incoming_response a s d c
handle request_timed_out c = on_timed_out c
handle (request_failed err) c = on_transport_error err c
handle (sending_ended hanging rv) c = on_send_complete hanging rv c
handle destroyed c = on_destroy c
handle (ice_completed filtered description) c = on_ice_complete filtered description c
handle (sending_digits can_insert digits) c = on_send_dtmf can_insert digits c

-- The call after a sequence of events; `none`, where one of them faults.
unfoldable pub run : List Event → Call → Option Call
run [] c = some c
run (e ∷ es) c = elim (handle e c) [ none ↦ none | some c' ↦ run es c' ]

module _ (n : ℕ) where
  abbrev posted_or : Bool → Task → Call → Call → Bool × Call
  posted_or b t c c' = if b then (true, emit (posted t) c') else (false, c)

  post-Fine :
      (b : Bool) (t : Task) (c c' : Call) → Fine n c → Fine n c' → Fine n (posted_or b t c c').1
  post-Fine true t c c' f f' = emit-Fine n (posted t) c' refl f'
  post-Fine false t c c' f f' = f

  pub handle-Fine : (e : Event) (c : Call) → Fine n c → Holds (Fine n) (handle e c)
  unfolding on_make_call on_ice_complete on_send_dtmf
  handle-Fine picked_up c f = some-Holds (Fine n) _ (
      post-Fine (can_answer c) pick_up_task c (record c { has_callback = true }) f
        (record { order = f.order; dropped = f.dropped }))
  handle-Fine rejected c f = some-Holds (Fine n) _ (post-Fine (can_answer c) reject_task c c f f)
  handle-Fine hung_up c f = some-Holds (Fine n) _ (
      post-Fine (can_end c) hang_up_task c (record c { has_hangup_callback = true }) f
        (record { order = f.order; dropped = f.dropped }))
  handle-Fine (digits_sent digits) c f = some-Holds (Fine n) _ (sent (can_end c))
    where
      sent : (b : Bool) → Fine n (if b then emit (posted (dtmf_task digits)) c else c)
      sent true = emit-Fine n (posted (dtmf_task digits)) c refl f
      sent false = f
  handle-Fine (making made) c f =
      let c' : Call = record c { has_peer = true } in
      if_Holds (Fine n) made (some (emit Output.offer_asked c')) none
        (some-Holds (Fine n) _ (
          emit-Fine n Output.offer_asked c' refl (record { order = f.order; dropped = f.dropped })))
        (none-Holds (Fine n))
  handle-Fine (offered r offer sent) c f = on_create_offer_completed-Fine n r offer sent c f
  handle-Fine picking_up c f = some-Holds (Fine n) c f
  handle-Fine rejecting c f = some-Holds (Fine n) c f
  handle-Fine (hanging_up a) c f = on_hangup-Fine n a c f
  handle-Fine (request_in d reason delay r) c f = on_incoming_request-Fine n d reason delay r c f
  handle-Fine (response_in a s d) c f = on_incoming_response-Fine n a s d c f
  handle-Fine request_timed_out c f = fail-Fine n (error timed_out) c f
  handle-Fine (request_failed err) c f = fail-Fine n err c f
  handle-Fine (sending_ended hanging rv) c f =
      if_Holds (Fine n) (is_ok rv) (some c) _ (some-Holds (Fine n) c f) (
        if_Holds (Fine n) hanging _ _ (run_hangup_completed-Fine n rv c f)
          (run_completed-Fine n rv c f))
  handle-Fine destroyed c f = on_destroy-Fine n c f
  handle-Fine (ice_completed filtered description) c f =
      if_Holds (Fine n) c.has_peer _ none
        (some-Holds (Fine n) _ (emit-Fine n (posted (offer_task (filtered description))) c refl f))
        (none-Holds (Fine n))
  handle-Fine (sending_digits can_insert digits) c f =
      if_Holds (Fine n) c.has_dtmf_sender _ _ (some-Holds (Fine n) _ (inserted can_insert c f)) (
        if_Holds (Fine n) c.has_peer _ none
          (some-Holds (Fine n) _ (
            inserted can_insert (record c { has_dtmf_sender = true })
              (record { order = f.order; dropped = f.dropped })))
          (none-Holds (Fine n)))
    where
      inserted : (b : Bool) (x : Call) → Fine n x → Fine n (insert_dtmf b digits x)
      inserted true x g = emit-Fine n (Output.digits_inserted digits) x refl g
      inserted false x g = g

  runs : (es : List Event) (c : Call) → Fine n c → Holds (Fine n) (run es c)
  unfolding run
  runs [] c f = some-Holds (Fine n) c f
  runs (e ∷ es) c f =
      bind_Holds (Fine n) (Fine n) (handle e c) _ (handle-Fine e c f) λ c' f'. runs es c' f'

-- Whatever happens to a call, in any order: from the state before a whole event to the state after it
-- the call only goes forward, from calling over ringing and established to terminated, and where the
-- phone was told to drop it, it is terminated after the event. Inside one event the state may go back:
-- a 2xx whose ACK cannot be sent sets it to terminated, runs the callback, and then to established.
pub run-Fine :
    (es : List Event) (c c' : Call)
    → (was_removed c.log && not (is_terminated c.state)) ≡ false
    → run es c ≡ some c'
    → (leb (rank c.state) (rank c'.state) ≡ true)
      × ((was_removed c'.log && not (is_terminated c'.state)) ≡ false)
unfolding Holds
run-Fine es c c' h e =
    let f : Fine (rank c.state) c' =
      subst (Holds (Fine (rank c.state))) e
        (runs (rank c.state) es c (record { order = ground arith; dropped = h })) in
    (f.order, f.dropped)
