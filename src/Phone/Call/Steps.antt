-- ===== src/Phone/Call/Steps.antt =====
-- What the handlers of call_impl.cc keep.
use sippet.Base.{
  ℕ, ◌/◌, ◌≡◌, refl, true, false, ◌||◌, [], ◌∷◌, ◌++◌, Option, none, some, leb, ◌==◌, if◌then◌else◌,
  Text, NetResult, ok, arith, codes,
}
use sippet.Message.Header
use sippet.Message.Method.{bye, cancel, invite, is_method}
use sippet.Message.Request.{Request, Response}
use sippet.Ua.Dialog
use sippet.Ua.Dialog.{Dialog}
use sippet.Phone.CompletionStatus.{status_code_to_completion_status, hangup_not_defined}
use sippet.Phone.Call.{
  CallState, calling, ringing, established, terminated, Output, removed, Call, emit,
  on_create_offer_completed, run_completed, has_failed, is_terminated, is_calling_or_ringing,
  is_established, is_early,
}
use sippet.Phone.Call.Sending.{Answers, send_ack}
use sippet.Phone.Call.Handlers.{
  next_state, describe, enter, handle_calling_or_ringing_response, handle_hungup_response,
  on_hangup, on_incoming_request, on_incoming_response, fail, on_destroy,
}
use sippet.Phone.Call.Order.{
  when_Holds, rank, Fine, IsKept, Holds, some-Holds, none-Holds, if_Holds, elim_Holds, bind_Holds,
  send_ack-IsKept, describe-IsKept, emit-Fine, ended-Fine, run_completed-Fine, send_bye-Fine,
  send_cancel-Fine, removal-Fine,
}

next_rank :
    (n code : ℕ) (st : CallState)
    → is_calling_or_ringing st ≡ true
    → leb n (rank st) ≡ true
    → leb n (rank (next_state code st)) ≡ true
next_rank n code calling h k = ground arith
next_rank n code ringing h k = ground arith
next_rank n code established h k = absurd (cc h)
next_rank n code terminated h k = absurd (cc h)

three : (n : ℕ) (st : CallState) → leb n (rank st) ≡ true → leb n 3 ≡ true
three n calling h = ground arith
three n ringing h = ground arith
three n established h = ground arith
three n terminated h = h

live-IsKept : (n : ℕ) (c : Call) → is_calling_or_ringing c.state ≡ true → Fine n c → IsKept c
live-IsKept n c h f = ground (arith, f.dropped, alive c.state h)
  where
    alive : (st : CallState) → is_calling_or_ringing st ≡ true → is_terminated st ≡ false
    alive calling e = refl
    alive ringing e = refl
    alive established e = refl
    alive terminated e = absurd (cc e)

module _ (n : ℕ) where
  end_call-Fine :
      (rv : NetResult) (c : Call)
      → Fine n c
      → Holds (Fine n) (elim (run_completed rv (record c { state = terminated })) [
        | none ↦ none
        | some c' ↦ some (emit removed c')
      ])
  end_call-Fine rv c f =
      removal-Fine n (run_completed rv (record c { state = terminated })) (three n c.state f.order)
        (if_Holds (λ c. is_terminated c.state ≡ true) c.has_callback _ _
          (some-Holds (λ c. is_terminated c.state ≡ true) _ refl)
          (none-Holds (λ c. is_terminated c.state ≡ true)))

  pub fail-Fine : (rv : NetResult) (c : Call) → Fine n c → Holds (Fine n) (fail rv c)
  fail-Fine rv c f =
      if_Holds (Fine n) (is_calling_or_ringing c.state) _ (some c) (end_call-Fine rv c f)
        (some-Holds (Fine n) c f)

  -- A state that is not before the given one, entered by a call that was not dropped.
  enter-Fine :
      (code : ℕ) (next : CallState) (c : Call)
      → leb n (rank next) ≡ true
      → IsKept c
      → Holds (Fine n) (enter code next c)
  enter-Fine code calling c h k = some-Holds (Fine n) _ (record { order = h; dropped = rw k refl })
  enter-Fine code ringing c h k =
      run_completed-Fine n (status_code_to_completion_status code) (record c { state = ringing })
        (record { order = h; dropped = rw k refl })
  enter-Fine code established c h k =
      run_completed-Fine n ok (record c { state = established })
        (record { order = h; dropped = rw k refl })
  enter-Fine code terminated c h k =
      end_call-Fine (status_code_to_completion_status code) (record c { state = terminated })
        (record { order = h; dropped = rw k refl })

  handle_calling_or_ringing_response-Fine :
      (a : Answers) (s : Response) (c : Call)
      → is_calling_or_ringing c.state ≡ true
      → Fine n c
      → Holds (Fine n) (handle_calling_or_ringing_response a s c)
  unfolding handle_calling_or_ringing_response
  handle_calling_or_ringing_response-Fine a s c h f =
      let next : CallState = next_state s.response_code c.state in
      let kept : IsKept c = live-IsKept n c h f in
      bind_Holds IsKept (Fine n) (if is_established next then send_ack a s c else some c) _
        (if_Holds IsKept (is_established next) _ (some c) (send_ack-IsKept a s c kept)
          (some-Holds IsKept c kept))
        λ c1 k1.
          bind_Holds IsKept (Fine n) (describe a s next c1) _ (describe-IsKept a s next c1 k1)
            λ c2 k2.
              enter-Fine s.response_code next c2 (next_rank n s.response_code c.state h f.order) k2

  handle_hungup_response-Fine :
      (a : Answers) (s : Response) (c : Call)
      → is_terminated c.state ≡ true
      → Fine n c
      → Holds (Fine n) (handle_hungup_response a s c)
  unfolding handle_hungup_response
  handle_hungup_response-Fine a s c h f =
      let kept : Holds (Fine n) (some c) = some-Holds (Fine n) c f in
      elim_Holds (Fine n) s.refer_to none _ (none-Holds (Fine n)) λ r.
        if_Holds (Fine n) (is_method invite r.method) _ _
          (if_Holds (Fine n) (s.response_code / 100 == 2) _ (some c) (send_bye-Fine n a c f) kept)
          (if_Holds (Fine n) (is_method cancel r.method || is_method bye r.method) _ (some c)
            (if_Holds (Fine n) (s.response_code / 100 == 2) _ (some c)
              (some-Holds (Fine n) _ (ended-Fine n (emit removed c) (three n c.state f.order) h))
              kept)
            kept)

  pub on_incoming_response-Fine :
      (a : Answers) (s : Response) (d : Option Dialog) (c : Call)
      → Fine n c
      → Holds (Fine n) (on_incoming_response a s d c)
  unfolding on_incoming_response
  on_incoming_response-Fine a s d c f =
      let c' : Call = record c { dialog = d } in
      let f' : Fine n c' = record { order = f.order; dropped = f.dropped } in
      when_Holds (Fine n) (is_calling_or_ringing c.state) _ _
        (λ t. handle_calling_or_ringing_response-Fine a s c' t f')
        λ e.
          when_Holds (Fine n) (is_terminated c.state) _ (some c')
            (λ t. handle_hungup_response-Fine a s c' t f') λ g. some-Holds (Fine n) c' f'

  pub on_hangup-Fine : (a : Answers) (c : Call) → Fine n c → Holds (Fine n) (on_hangup a c)
  unfolding on_hangup
  on_hangup-Fine a c f =
      let c' : Call = record c { state = terminated } in
      let f' : Fine n c' = ended-Fine n c' (three n c.state f.order) refl in
      elim_Holds (Fine n) c.dialog _ _ (some-Holds (Fine n) c' f') λ d.
        if_Holds (Fine n) (is_early d.state) _ _ (send_cancel-Fine n a c' f')
          (send_bye-Fine n a c' f')

  pub on_create_offer_completed-Fine :
      (r : Request) (offer : Text) (sent : NetResult) (c : Call)
      → Fine n c
      → Holds (Fine n) (on_create_offer_completed r offer sent c)
  unfolding on_create_offer_completed
  on_create_offer_completed-Fine r offer sent c f =
      let request : Request = record r {
        headers = r.headers ++ Header.content_type (codes "application") (codes "sdp") ∷ [];
        content = offer;
      } in
      let asked : Call = record c { last_request = some request } in
      let f' : Fine n (emit (Output.request_sent request) asked) =
        emit-Fine n (Output.request_sent request) asked refl
          (record { order = f.order; dropped = f.dropped }) in
      let c' : Call = emit (Output.request_sent request) asked in
      if_Holds (Fine n) (has_failed sent) _ (some c')
        (run_completed-Fine n sent (record c' { state = terminated })
          (ended-Fine n (record c' { state = terminated }) (three n c.state f.order) refl))
        (some-Holds (Fine n) c' f')

  pub on_destroy-Fine : (c : Call) → Fine n c → Holds (Fine n) (on_destroy c)
  on_destroy-Fine c f =
      let c' : Call = record c { has_peer = false } in
      if_Holds (Fine n) c.has_peer (some (emit Output.peer_closed c')) none
        (some-Holds (Fine n) _ (
          emit-Fine n Output.peer_closed c' refl (record { order = f.order; dropped = f.dropped })))
        (none-Holds (Fine n))

  pub on_incoming_request-Fine :
      (d : Dialog) (reason : Text) (delay : ℕ) (r : Request) (c : Call)
      → Fine n c
      → Holds (Fine n) (on_incoming_request d reason delay r c)
  unfolding on_incoming_request
  on_incoming_request-Fine d reason delay r c f =
      if_Holds (Fine n) (is_method bye r.method) _ (some c)
        (bind_Holds (Fine n) (Fine n) (on_destroy c) _ (on_destroy-Fine c f) λ c1 f1.
          elim_Holds (Fine n) (Dialog.create_response d 200 reason r delay) none _
            (none-Holds (Fine n))
            λ s.
              end_call-Fine hangup_not_defined (emit (Output.response_sent s) c1)
                (emit-Fine n (Output.response_sent s) c1 refl f1))
        (some-Holds (Fine n) c f)
