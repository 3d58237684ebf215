-- ===== src/Ua/UserAgent/Sequence.antt =====
-- Two challenges to one request, in ua_user_agent.cc: which sequence numbers the retries have.
use mathlib.Core.Option.{some-injective}
use sippet.Base.{
  ℕ, ◌+◌, ◌%◌, ◌^◌, ◌≡◌, refl, sym, ◌∙◌, ap, subst, true, List, [], ◌∷◌, ◌++◌, map, Option, some,
  ◌||◌, Bool-cases, inl, inr, NetResult, ok, is_ok, is_pending,
}
use sippet.Base.Maps.{find, text_eq}
use sippet.Message.Header
use sippet.Message.Headers.{get}
use sippet.Message.Method.{Method}
use sippet.Message.Request.{Request, Response}
use sippet.Ua.Dialog.{Uris, Dialog}
use sippet.Ua.DialogStore
use sippet.Ua.UserAgent.{
  Context, UserAgent, Answers, Output, delegate, authenticate, send_request, transport_error,
  is_challenge, challenged, context_for, on_incoming_response,
}
use sippet.Ua.UserAgent.Consistency.{
  IsConsistent, IsConsistentResult, on_incoming_response-IsConsistent,
}
use sippet.Ua.UserAgent.Delivery.{returned}
use sippet.Ua.UserAgent.Challenges.{complaint, append_nil, snoc_snoc, on_incoming_challenge_lem}

-- The requests that went to the network layer.
pub sent_requests : List Output → List Request
sent_requests [] = []
sent_requests (send_request r ∷ os) = r ∷ sent_requests os
sent_requests (_ ∷ os) = sent_requests os

sent_requests-append :
    (os : List Output) (us : List Output)
    → sent_requests (os ++ us) ≡ sent_requests os ++ sent_requests us
unfolding sent_requests
sent_requests-append [] us = refl
sent_requests-append (send_request r ∷ os) us = ap (λ rs. r ∷ rs) (sent_requests-append os us)
sent_requests-append (delegate n c ∷ os) us = sent_requests-append os us
sent_requests-append (Output.send_response s ∷ os) us = sent_requests-append os us
sent_requests-append (authenticate r s ∷ os) us = sent_requests-append os us

sent_requests-map :
    (c : Context) (sent : NetResult) (handlers : List ℕ)
    → sent_requests (
        map
          (λ handler. delegate handler (transport_error c.original_request sent c.last_dialog))
          handlers)
      ≡ []
unfolding sent_requests
sent_requests-map c sent [] = refl
sent_requests-map c sent (n ∷ ns) = sent_requests-map c sent ns

sent_requests-complaint :
    (sent : NetResult) (c : Context) (handlers : List ℕ)
    → sent_requests (complaint sent c handlers) ≡ []
unfolding complaint sent_requests
sent_requests-complaint sent c handlers = elim (Bool-cases (is_pending sent || is_ok sent)) [
  | inl t ↦ rw t refl
  | inr f ↦ rw f (sent_requests-map c sent handlers)
]

-- A retry adds one request to what was sent.
one_more :
    (before : List Output) (after : List Output) (r : Request) (s : Response) (q : Request)
    (sent : NetResult) (c : Context) (handlers : List ℕ)
    → after ≡ (before ++ authenticate r s ∷ send_request q ∷ []) ++ complaint sent c handlers
    → sent_requests after ≡ sent_requests before ++ q ∷ []
unfolding sent_requests
one_more before after r s q sent c handlers e =
    ap sent_requests e
    ∙ sent_requests-append (before ++ authenticate r s ∷ send_request q ∷ [])
        (complaint sent c handlers)
    ∙ ap (λ rs. sent_requests (before ++ authenticate r s ∷ send_request q ∷ []) ++ rs)
        (sent_requests-complaint sent c handlers)
    ∙ sym (append_nil (sent_requests (before ++ authenticate r s ∷ send_request q ∷ [])))
    ∙ sent_requests-append before (authenticate r s ∷ send_request q ∷ [])

-- Two challenges in a row to one request, both answered at once: the two retries that are sent have
-- the same sequence number, the one after the number of the first request, as both are clones of it.
pub on_incoming_response-cseq_repeats :
    (uris : Uris) (a : Answers) (s : Response) (r : Request) (ua : UserAgent) (d : Option Dialog)
    (n : ℕ) (m : Method) (a' : Answers) (s' : Response) (r' : Request) (ua1 : UserAgent)
    (d' : Option Dialog)
    → IsConsistent ua
    → is_challenge s.response_code ≡ true
    → s.refer_to ≡ some r
    → returned (DialogStore.handle_response uris s ua.dialogs).0 ≡ some d
    → a.result ≡ ok
    → get Header.as_cseq (context_for r s (find r.id ua.outgoing_requests)).original_request.headers
      ≡ some (n, m)
    → on_incoming_response uris a s ua ≡ some ua1
    → is_challenge s'.response_code ≡ true
    → s'.refer_to ≡ some r'
    → r'.id ≡ r.id
    → returned (DialogStore.handle_response uris s' ua1.dialogs).0 ≡ some d'
    → a'.result ≡ ok
    → (ua2 : UserAgent) × (first : Request) × (second : Request) × (on_incoming_response uris a' s'
          ua1
        ≡ some ua2)
      × (sent_requests ua2.log ≡ sent_requests ua.log ++ first ∷ second ∷ [])
      × (get Header.as_cseq first.headers ≡ some ((n + 1) % 2 ^ 32, m))
      × (get Header.as_cseq second.headers ≡ some ((n + 1) % 2 ^ 32, m))
on_incoming_response-cseq_repeats uris a s r ua d n m a' s' r' ua1 d' h t e p g i first t' e' same
      p' g' =
    let asking : UserAgent = record ua {
      dialogs = (DialogStore.handle_response uris s ua.dialogs).1;
    } in
    let c : Context = (challenged r s d asking).0 in
    let (x, q1, ex, log, seq, kept, _) =
      on_incoming_challenge_lem uris a s r ua d n m h t e p g i in
    let is_x : x ≡ ua1 = some-injective x ua1 (sym ex ∙ first) in
    let h1 : IsConsistent ua1 =
      subst IsConsistentResult first (on_incoming_response-IsConsistent uris a s ua h) in
    let found : find r'.id ua1.outgoing_requests
        ≡ some (record c {
          outgoing_requests =
              (context_for r s (find r.id ua.outgoing_requests)).outgoing_requests ++ q1 ∷ [];
        }) =
      ap (λ k. find k ua1.outgoing_requests) same
      ∙ ap (λ u. find r.id u.outgoing_requests) (sym is_x)
      ∙ kept in
    let i' =
      ap (λ o. get Header.as_cseq (context_for r' s' o).original_request.headers) found ∙ i in
    let (ua2, q2, ey, log', seq', _, _) =
      on_incoming_challenge_lem uris a' s' r' ua1 d' n m h1 t' e' p' g' i' in
    (
      ua2,
      q1,
      q2,
      ey,
      one_more ua1.log ua2.log _ s' _ a'.sent _ ua1.handlers log'
          ∙ ap (λ rs. rs ++ q2 ∷ [])
              (ap (λ u. sent_requests u.log) (sym is_x)
                ∙ one_more ua.log x.log _ s _ a.sent c ua.handlers log)
          ∙ snoc_snoc (sent_requests ua.log) _ _,
      seq,
      seq',
    )
