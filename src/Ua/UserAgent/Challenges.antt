-- ===== src/Ua/UserAgent/Challenges.antt =====
-- The retries of ua_user_agent.cc: a challenge that the authentication answers at once.
use sippet.Base.{
  ℕ, ◌+◌, ◌%◌, ◌^◌, ◌≡◌, refl, sym, ◌∙◌, ap, Bool, true, false, not, List, [], ◌∷◌, ◌++◌, map,
  Option, none, some, is_some, ◌||◌, Bool-cases, Option-cases, inl, inr, if◌then◌else◌, Text,
  equal_iff, equal_refl, NetResult, ok, is_ok, is_pending,
}
use sippet.Base.Maps.{find, text_eq, find-assign}
use sippet.Message.Header.{Header}
use sippet.Message.Header
use sippet.Message.Headers.{Headers, get, filter}
use sippet.Message.Headers.Laws.{get-append, get-cons, get-modify}
use sippet.Message.Method.{Method}
use sippet.Message.Request.{Request, Response, clone_request}
use sippet.Ua.Dialog.{Uris, Dialog}
use sippet.Ua.DialogStore
use sippet.Ua.UserAgent.{
  Context, UserAgent, Answers, Output, delegate, authenticate, send_request, transport_error,
  is_challenge, handle_challenge_authentication, erase_via, resent, after_send, send_last,
  with_last, sending, authenticated, on_resend_request_complete, on_authentication_complete,
  challenged, context_for, deliver, on_incoming_response,
}
use sippet.Ua.UserAgent.Consistency.{IsConsistent, context_for_lem}
use sippet.Ua.UserAgent.Delivery.{returned, with_dialogs_lem}

-- What the delegates hear of a request that could not be sent.
unfoldable pub complaint : NetResult → Context → List ℕ → List Output
complaint sent c handlers =
    if is_pending sent || is_ok sent
    then []
    else map (λ handler. delegate handler (transport_error c.original_request sent c.last_dialog))
        handlers

pub append_nil : {A : Type 0} (xs : List A) → xs ≡ xs ++ []
append_nil [] = refl
append_nil (x ∷ xs) = ap (λ ys. x ∷ ys) (append_nil xs)

after_send_lem :
    (key : Text) (sent : NetResult) (c : Context) (ua : UserAgent)
    → find key ua.outgoing_requests ≡ some c
    → ((after_send key sent ua).log ≡ ua.log ++ complaint sent c ua.handlers)
      × ((after_send key sent ua).outgoing_requests ≡ ua.outgoing_requests)
unfolding after_send on_resend_request_complete complaint
after_send_lem key sent c ua e = elim (Bool-cases (is_pending sent)) [
  | inl t ↦ rw t (append_nil ua.log, refl)
  | inr f ↦ elim (Bool-cases (is_ok sent)) [
    | inl t ↦ rw f (rw (e, on_resend_request_complete) (rw t (append_nil ua.log, refl)))
    | inr g ↦ rw f (rw (e, on_resend_request_complete) (rw g (refl, refl)))
  ]
]

with_last-snoc :
    (added : Headers) (xs : List Request) (q : Request)
    → with_last added (xs ++ q ∷ []) ≡ some (resent added q, xs ++ resent added q ∷ [])
unfolding with_last
with_last-snoc added [] q = refl
with_last-snoc added (x ∷ []) q = refl
with_last-snoc added (x ∷ y ∷ xs) q = rw (with_last-snoc added (y ∷ xs) q, with_last) refl

send_last-snoc :
    (added : Headers) (sent : NetResult) (key : Text) (c : Context) (xs : List Request)
    (q : Request) (ua : UserAgent)
    → send_last added sent key c (xs ++ q ∷ []) ua
      ≡ some (after_send key sent (sending key c (resent added q, xs ++ resent added q ∷ []) ua))
unfolding send_last
send_last-snoc added sent key c xs q ua = rw (with_last-snoc added xs q, send_last) refl

via_is_no_cseq : (h : Header) → is_some (Header.as_via h) ≡ true → Header.as_cseq h ≡ none
via_is_no_cseq (Header.via _) e = refl
via_is_no_cseq _ e = cc

get-erase_via : (hs : Headers) → get Header.as_cseq (erase_via hs) ≡ get Header.as_cseq hs
unfolding get erase_via
get-erase_via [] = refl
get-erase_via (h ∷ hs) = elim (Bool-cases (is_some (Header.as_via h))) [
  | inl t ↦ rw t (sym (get-cons Header.as_cseq h hs ∙ rw (via_is_no_cseq h t) refl))
  | inr f ↦ rw f (elim (Option-cases (Header.as_cseq h)) [
    | inl e ↦ rw (e, get) (get-erase_via hs)
    | inr (c, e) ↦ rw (e, get) refl
  ])
]

abbrev pub drop_first : {A : Type 0} → List A → List A
drop_first [] = []
drop_first (x ∷ xs) = xs

-- The headers that are no Via, in their order.
pub without_via : Headers → Headers
without_via [] = []
without_via (h ∷ hs) =
    let rest = without_via hs in if is_some (Header.as_via h) then rest else h ∷ rest

erase_via_vias :
    (hs : Headers) → filter Header.as_via (erase_via hs) ≡ drop_first (filter Header.as_via hs)
unfolding erase_via filter
erase_via_vias [] = refl
erase_via_vias (h ∷ hs) = elim (Option-cases (Header.as_via h)) [
  | inl e ↦ rw (e, filter) (rw (e, filter) (erase_via_vias hs))
  | inr (v, e) ↦ rw (e, filter) refl
]

erase_via_others : (hs : Headers) → without_via (erase_via hs) ≡ without_via hs
unfolding erase_via without_via
erase_via_others [] = refl
erase_via_others (h ∷ hs) = elim (Bool-cases (is_some (Header.as_via h))) [
  | inl t ↦ rw t refl
  | inr f ↦ rw f (rw (f, without_via) (ap (λ rest. h ∷ rest) (erase_via_others hs)))
]

-- What is sent again: the request with the added headers after its own, but without the topmost Via.
pub IsResent : Headers → Request → Request → Type 0
IsResent added q sent =
    (filter Header.as_via sent.headers ≡ drop_first (filter Header.as_via (q.headers ++ added)))
    × (without_via sent.headers ≡ without_via (q.headers ++ added))
    × (record sent { headers = q.headers } ≡ q)

resent-IsResent : (added : Headers) (q : Request) → IsResent added q (resent added q)
unfolding IsResent resent erase_via
resent-IsResent added q =
    (erase_via_vias (q.headers ++ added), erase_via_others (q.headers ++ added), refl)

-- What is sent again has the next sequence number after the request that the context was made for.
resent_lem :
    (added : Headers) (r : Request) (n : ℕ) (m : Method)
    → get Header.as_cseq r.headers ≡ some (n, m)
    → get Header.as_cseq (resent added (clone_request r)).headers ≡ some ((n + 1) % 2 ^ 32, m)
unfolding clone_request resent
resent_lem added r n m h =
    get-erase_via ((clone_request r).headers ++ added)
    ∙ get-append Header.as_cseq (clone_request r).headers added
    ∙ rw
        (
          get-modify Header.as_cseq (λ c. Header.cseq c.0 c.1) (λ c. ((c.0 + 1) % 2 ^ 32, c.1))
              (λ a. refl) r.headers,
          h,
        )
        refl

-- A challenge to a known request goes to the authentication.
asked :
    (a : Answers) (s : Response) (d : Option Dialog) (r : Request) (ua : UserAgent)
    → is_challenge s.response_code ≡ true
    → s.refer_to ≡ some r
    → handle_challenge_authentication a s d ua ≡ authenticated a (challenged r s d ua)
unfolding handle_challenge_authentication
asked a s d r ua t e = ap (λ b. next b s.refer_to) t ∙ ap (next true) e
  where
    next : Bool → Option Request → Option (Bool × Option Dialog × UserAgent)
    next b o =
        if not b
        then some (false, d, ua)
        else elim o [ none ↦ some (false, d, ua) | some q ↦ authenticated a (challenged q s d ua) ]

-- The completion sends the last request of the context.
completed :
    (added : Headers) (sent : NetResult) (key : Text) (c : Context) (xs : List Request)
    (q : Request) (ua : UserAgent)
    → find key ua.outgoing_requests ≡ some c
    → c.outgoing_requests ≡ xs ++ q ∷ []
    → on_authentication_complete added sent key ok ua
      ≡ some (after_send key sent (sending key c (resent added q, xs ++ resent added q ∷ []) ua))
unfolding on_authentication_complete
completed added sent key c xs q ua f e =
    rw (f, on_authentication_complete) (ap (λ rs. send_last added sent key c rs ua) e)
    ∙ send_last-snoc added sent key c xs q ua

authenticated_at_once :
    (a : Answers) (c : Context) (xs : List Request) (q : Request) (ua : UserAgent)
    → a.result ≡ ok
    → find c.original_request.id ua.outgoing_requests ≡ some c
    → c.outgoing_requests ≡ xs ++ q ∷ []
    → authenticated a (c, ua)
      ≡ some (
        true,
        c.last_dialog,
        after_send c.original_request.id a.sent
            (sending c.original_request.id c (resent a.added q, xs ++ resent a.added q ∷ []) ua),
      )
unfolding authenticated
authenticated_at_once a c xs q ua g f e =
    ap next g ∙ ap away (completed a.added a.sent c.original_request.id c xs q ua f e)
  where
    away : Option UserAgent → Option (Bool × Option Dialog × UserAgent)
    away o = elim o [ none ↦ none | some ua' ↦ some (true, c.last_dialog, ua') ]

    next : NetResult → Option (Bool × Option Dialog × UserAgent)
    next rv =
        if is_pending rv
        then some (true, c.last_dialog, ua)
        else if is_ok rv
        then away (on_authentication_complete a.added a.sent c.original_request.id rv ua)
        else some (false, c.last_dialog, ua)

-- The clone as it is sent, and the list of the context with it.
abbrev resent_list : Answers → Context → Request × List Request
resent_list a old =
    let q = resent a.added (clone_request old.original_request) in
    (q, old.outgoing_requests ++ q ∷ [])

-- What a challenge that is answered at once does: the context's original request is cloned and sent.
answered :
    (a : Answers) (s : Response) (d : Option Dialog) (r : Request) (ua : UserAgent)
    → IsConsistent ua
    → is_challenge s.response_code ≡ true
    → s.refer_to ≡ some r
    → a.result ≡ ok
    → (let (c, ua1) = challenged r s d ua in
        handle_challenge_authentication a s d ua
        ≡ some (
          true,
          c.last_dialog,
          after_send c.original_request.id a.sent (
              sending c.original_request.id c
                (resent_list a (context_for r s (find r.id ua.outgoing_requests)))
                ua1),
        ))
answered a s d r ua h t e g =
    let old = context_for r s (find r.id ua.outgoing_requests) in
    let (same, _) = context_for_lem r s ua h in
    let c : Context = (challenged r s d ua).0 in
    asked a s d r ua t e
    ∙ authenticated_at_once a c old.outgoing_requests (clone_request c.original_request)
        (challenged r s d ua).1 g
        (find-assign r.id c.original_request.id c ua.outgoing_requests
          ∙ ap (λ b. if b then some c else find c.original_request.id ua.outgoing_requests)
              ((equal_iff r.id c.original_request.id).1 (sym same)))
        refl

pub snoc_snoc : {A : Type 0} (xs : List A) (x y : A) → (xs ++ x ∷ []) ++ y ∷ [] ≡ xs ++ x ∷ y ∷ []
snoc_snoc [] x y = refl
snoc_snoc (z ∷ xs) x y = ap (λ ys. z ∷ ys) (snoc_snoc xs x y)

pub on_incoming_challenge_lem :
    (uris : Uris) (a : Answers) (s : Response) (r : Request) (ua : UserAgent) (d : Option Dialog)
    (n : ℕ) (m : Method)
    → IsConsistent ua
    → is_challenge s.response_code ≡ true
    → s.refer_to ≡ some r
    → returned (DialogStore.handle_response uris s ua.dialogs).0 ≡ some d
    → a.result ≡ ok
    → get Header.as_cseq (context_for r s (find r.id ua.outgoing_requests)).original_request.headers
      ≡ some (n, m)
    → (let asking = record ua { dialogs = (DialogStore.handle_response uris s ua.dialogs).1 } in
        let c = (challenged r s d asking).0 in
        let q = clone_request (context_for r s (find r.id ua.outgoing_requests)).original_request in
        (ua' : UserAgent) × (sent : Request) × (on_incoming_response uris a s ua ≡ some ua')
        × (ua'.log
            ≡ (ua.log ++ authenticate q s ∷ send_request sent ∷ [])
              ++ complaint a.sent c ua.handlers)
        × (get Header.as_cseq sent.headers ≡ some ((n + 1) % 2 ^ 32, m))
        × (find r.id ua'.outgoing_requests
            ≡ some (record c {
              outgoing_requests =
                  (context_for r s (find r.id ua.outgoing_requests)).outgoing_requests ++ sent ∷ [];
            }))
        × IsResent a.added q sent)
unfolding on_incoming_response deliver complaint
on_incoming_challenge_lem uris a s r ua d n m h t e p g i =
    let asking : UserAgent = record ua {
      dialogs = (DialogStore.handle_response uris s ua.dialogs).1;
    } in
    let c : Context = (challenged r s d asking).0 in
    let q : Request = clone_request c.original_request in
    let (same, _) = context_for_lem r s ua h in
    let old : Context = context_for r s (find r.id ua.outgoing_requests) in
    let c' : Context = record c {
      outgoing_requests = old.outgoing_requests ++ resent a.added q ∷ [];
    } in
    let key : Text = c.original_request.id in
    let away : UserAgent = sending key c (resent_list a old) (challenged r s d asking).1 in
    let at_key : find key away.outgoing_requests ≡ some c' =
      find-assign key key c' (challenged r s d asking).1.outgoing_requests
      ∙ ap (λ b. if b then some c' else find key (challenged r s d asking).1.outgoing_requests)
          (equal_refl key) in
    let (log, kept) = after_send_lem key a.sent c' away at_key in
    (
      after_send key a.sent away,
      resent a.added q,
      with_dialogs_lem (DialogStore.handle_response uris s ua.dialogs) ua _ d p
          ∙ ap (λ o. end o) (answered a s d r asking h t e g),
      log
          ∙ ap (λ os. os ++ complaint a.sent c ua.handlers)
              (snoc_snoc ua.log (authenticate q s) (send_request (resent a.added q))),
      resent_lem a.added (context_for r s (find r.id ua.outgoing_requests)).original_request n m i,
      ap (λ os. find r.id os) kept ∙ ap (λ k. find k away.outgoing_requests) (sym same) ∙ at_key,
      resent-IsResent a.added q,
    )
  where
    end : Option (Bool × Option Dialog × UserAgent) → Option UserAgent
    end o = elim o [ none ↦ none | some handled ↦ some (deliver s handled) ]
