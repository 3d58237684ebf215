-- ===== src/Phone/Call/Flow.antt =====
-- How a call of call_impl.cc is established.
use sippet.Base.{
  ◌/◌, ◌≡◌, refl, ap, ◌∙◌, sym, Bool, true, false, ◌&&◌, not, List, [], ◌∷◌, ◌++◌, Option, none,
  some, ◌==◌, if◌then◌else◌, Bool-cases, inl, inr, Text, codes, equal, NetResult, ok, arith, subst,
}
use sippet.Message.Header
use sippet.Message.Headers.{get}
use sippet.Message.Request.{Request, Response}
use sippet.Ua.Dialog
use sippet.Ua.Dialog.{Dialog}
use sippet.Ua.Pointer.{at}
use sippet.Phone.Call.{
  CallState, calling, ringing, established, terminated, is_terminated, is_calling_or_ringing,
  is_established, Call, Output, has_failed, request_sent, completed, remote_described,
}
use sippet.Phone.Call.Sending.{Answers, send_ack, send_made_ack, handle_session_description_answer}
use sippet.Phone.Call.Handlers.{
  next_state, is_same, describe, enter, handle_calling_or_ringing_response, handle_hungup_response,
  on_incoming_response,
}

-- The response has a session description that WebRTC reads.
abbrev pub has_answer : Answers → Response → Bool
has_answer a s = elim (get Header.as_content_type s.headers) [
  | none ↦ false
  | some t ↦ equal (codes "application") t.0 && equal (codes "sdp") t.1 && a.is_sdp s.content
]

-- What an error of the ACK tells the client.
abbrev pub ack_error : NetResult → List Output
ack_error sent = if has_failed sent then completed sent ∷ [] else []

abbrev pub answer_taken : Answers → Response → List Output
answer_taken a s = if has_answer a s then remote_described s.content ∷ [] else []

append_nil : {A : Type 0} (xs : List A) → xs ≡ xs ++ []
append_nil [] = refl
append_nil (x ∷ xs) = ap (λ ys. x ∷ ys) (append_nil xs)

append_assoc : {A : Type 0} (xs ys zs : List A) → (xs ++ ys) ++ zs ≡ xs ++ (ys ++ zs)
append_assoc [] ys zs = refl
append_assoc (x ∷ xs) ys zs = ap (λ l. x ∷ l) (append_assoc xs ys zs)

-- A call with its callback and its peer connection.
abbrev ready : Call → Call
ready c = record c { has_callback = true; has_peer = true }

module _ (a : Answers) (s : Response) where
  acknowledged :
      (q : Request) (c : Call)
      → send_made_ack a (at q) (ready c)
        ≡ some (record (ready c) {
          state = if has_failed a.sent then terminated else c.state;
          log = c.log ++ request_sent q ∷ ack_error a.sent;
        })
  acknowledged q c = elim (Bool-cases (has_failed a.sent)) [
    | inl t ↦ rw t (
        ap (λ l. some (record (ready c) { state = terminated; log = l }))
          (append_assoc c.log (request_sent q ∷ []) (completed a.sent ∷ [])))
    | inr f ↦ rw f refl
  ]

  described :
      (c : Call)
      → handle_session_description_answer a s (ready c)
        ≡ some (record (ready c) { log = c.log ++ answer_taken a s })
  unfolding handle_session_description_answer
  described c = go (get Header.as_content_type s.headers)
    where
      with_log : List Output → Option Call
      with_log l = some (record (ready c) { log = l })

      same : some (ready c) ≡ with_log (c.log ++ [])
      same = ap with_log (append_nil c.log)

      told :
          (p q r : Bool)
          → (if p && q
              then if r then with_log (c.log ++ remote_described s.content ∷ []) else some (ready c)
              else some (ready c))
            ≡ with_log (c.log ++ (if p && q && r then remote_described s.content ∷ [] else []))
      told true true true = refl
      told true true false = same
      told true false r = same
      told false q r = same

      go :
          (o : Option (Text × Text))
          → Path
              (Option Call)
              (elim o [
                | none ↦ some (ready c)
                | some t ↦
                    if equal (codes "application") t.0 && equal (codes "sdp") t.1
                    then if a.is_sdp s.content
                      then with_log (c.log ++ remote_described s.content ∷ [])
                      else some (ready c)
                    else some (ready c)
              ])
              (with_log (
                c.log
                ++ (if elim o as (λ x. Bool) [
                  | none ↦ false
                  | some t ↦
                      equal (codes "application") t.0
                      && equal (codes "sdp") t.1
                      && a.is_sdp s.content
                ]
                    then remote_described s.content ∷ []
                    else [])))
      go none = same
      go (some t) =
          told (equal (codes "application") t.0) (equal (codes "sdp") t.1) (a.is_sdp s.content)

  established_next :
      (st : CallState)
      → (s.response_code / 100 == 2) ≡ true
      → next_state s.response_code st ≡ established
  established_next st h = ground (arith, h)

  not_yet :
      (b : Bool) (st : CallState)
      → is_calling_or_ringing st ≡ true
      → is_same (if b then terminated else st) established ≡ false
  not_yet true st h = refl
  not_yet false calling h = refl
  not_yet false ringing h = refl
  not_yet false established h = absurd (cc h)
  not_yet false terminated h = absurd (cc h)

  -- The part of the handler after the next state is known.
  abbrev entering : CallState → Option Call → Option Call
  entering next o = elim o [
    | none ↦ none
    | some c1 ↦ elim (describe a s next c1) [
      | none ↦ none
      | some c2 ↦ enter s.response_code next c2
    ]
  ]

  ack_sent :
      (q : Request) (d : Dialog) (r : Request) (c : Call)
      → s.refer_to ≡ some r
      → Dialog.create_ack a.uris d r a.guid ≡ at q
      → send_ack a s (record c { dialog = some d })
        ≡ send_made_ack a (at q) (record c { dialog = some d })
  unfolding send_ack
  ack_sent q d r c e k =
      ap (λ o. next o) e ∙ ap (λ p. send_made_ack a p (record c { dialog = some d })) k
    where
      next : Option Request → Option Call
      next o = elim o [
        | none ↦ none
        | some x ↦
            send_made_ack a (Dialog.create_ack a.uris d x a.guid) (record c { dialog = some d })
      ]

  -- Everything after the ACK was sent.
  entered :
      (d : Dialog) (q : Request) (c : Call)
      → is_calling_or_ringing c.state ≡ true
      → entering established (send_made_ack a (at q) (ready (record c { dialog = some d })))
        ≡ some (record (ready c) {
          state = established;
          dialog = some d;
          log =
              c.log
              ++ request_sent q ∷ (ack_error a.sent ++ (answer_taken a s ++ completed ok ∷ []));
        })
  entered d q c h =
      let c0 : Call = record c { dialog = some d } in
      let c1 : Call = record (ready c0) {
        state = if has_failed a.sent then terminated else c.state;
        log = c.log ++ request_sent q ∷ ack_error a.sent;
      } in
      ap (entering established) (acknowledged q c0)
      ∙ ap
          (λ b.
            finish (if not b && true then handle_session_description_answer a s c1 else some c1))
          (not_yet (has_failed a.sent) c.state h)
      ∙ ap finish (described c1)
      ∙ ap (λ l. some (record (ready c) { state = established; dialog = some d; log = l }))
          (append_assoc (c.log ++ request_sent q ∷ ack_error a.sent) (answer_taken a s)
              (completed ok ∷ [])
            ∙ append_assoc c.log (request_sent q ∷ ack_error a.sent)
                (answer_taken a s ++ completed ok ∷ []))
    where
      finish : Option Call → Option Call
      finish o = elim o [ none ↦ none | some c2 ↦ enter s.response_code established c2 ]

  answered :
      (d : Dialog) (q : Request) (r : Request) (c : Call)
      → is_calling_or_ringing c.state ≡ true
      → (s.response_code / 100 == 2) ≡ true
      → s.refer_to ≡ some r
      → Dialog.create_ack a.uris d r a.guid ≡ at q
      → on_incoming_response a s (some d) (ready c)
        ≡ some (record (ready c) {
          state = established;
          dialog = some d;
          log =
              c.log
              ++ request_sent q ∷ (ack_error a.sent ++ (answer_taken a s ++ completed ok ∷ []));
        })
  unfolding on_incoming_response handle_calling_or_ringing_response
  answered d q r c h t e k =
      let c0 : Call = ready (record c { dialog = some d }) in
      ap choose h
      ∙ ap (λ next. entering next (if is_established next then send_ack a s c0 else some c0))
          (established_next c.state t)
      ∙ ap (entering established) (ack_sent q d r c0 e k)
      ∙ entered d q c h
    where
      choose : Bool → Option Call
      choose b =
          if b
          then handle_calling_or_ringing_response a s (ready (record c { dialog = some d }))
          else if is_terminated c.state
          then handle_hungup_response a s (ready (record c { dialog = some d }))
          else some (ready (record c { dialog = some d }))

-- A 2xx response to the INVITE of a call that is calling or ringing, and that has its callback and its
-- peer connection: the ACK that the dialog makes is sent, the session description of the response is
-- handed on where there is one that is read, the callback gets net::OK, and the call is established.
-- So it is also where the ACK could not be sent: the callback then gets that error before.
pub established_lem :
    (a : Answers) (s : Response) (d : Dialog) (q : Request) (r : Request) (c : Call)
    → is_calling_or_ringing c.state ≡ true
    → c.has_callback ≡ true
    → c.has_peer ≡ true
    → (s.response_code / 100 == 2) ≡ true
    → s.refer_to ≡ some r
    → Dialog.create_ack a.uris d r a.guid ≡ at q
    → on_incoming_response a s (some d) c
      ≡ some (record c {
        state = established;
        dialog = some d;
        log =
            c.log ++ request_sent q ∷ (ack_error a.sent ++ (answer_taken a s ++ completed ok ∷ []));
      })
established_lem a s d q r c h callback peer t e k =
    subst (λ b. Answered (record c { has_peer = b })) (sym peer)
      (subst (λ b. Answered (record c { has_callback = b; has_peer = true })) (sym callback)
        (answered a s d q r c h t e k))
  where
    Answered : Call → Type 0
    Answered x =
        on_incoming_response a s (some d) x
        ≡ some (record x {
          state = established;
          dialog = some d;
          log =
              x.log
              ++ request_sent q ∷ (ack_error a.sent ++ (answer_taken a s ++ completed ok ∷ []));
        })
