-- ===== src/Ua/UserAgent/Consistency.antt =====
-- The contexts of ua_user_agent.cc stand under the ids of their requests, through any history of the
-- user agent.
use sippet.Base.{
  ◌≡◌, refl, sym, ◌∙◌, subst, Bool, true, false, List, [], ◌∷◌, ◌++◌, All, Option, none, some, leb,
  Bool-cases, Option-cases, inl, inr, Text, NetResult, is_ok, is_pending,
}
use sippet.Base.Maps.{find, erase, text_eq, assign-All, erase-All, find-All}
use sippet.Message.Headers.{Headers}
use sippet.Message.Request.{Request, Response, clone_request}
use sippet.Ua.Dialog.{Uris, Dialog}
use sippet.Ua.DialogStore
use sippet.Ua.DialogStore.{Store}
use sippet.Ua.Pointer.{Pointer, fault, null, at}
use sippet.Ua.UserAgent.{
  Context, UserAgent, Answers, with_dialogs, on_resend_request_complete, send_last, with_last,
  sending, resent, after_send, on_authentication_complete, is_challenge, context_for, challenged,
  authenticated, handle_challenge_authentication, erase_all, drop_context, deliver,
  on_incoming_response,
}

-- The request that a context was made for, and all clones of it that it keeps, to be authenticated and
-- sent, have the id under which it stands, and it keeps one at least. Whether a clone was sent in the
-- end depends on the authentication.
pub record Kept (key : Text) (c : Context) : Type 0 where
  pub original : c.original_request.id ≡ key
  pub clones : All (λ r. r.id ≡ key) c.outgoing_requests
  pub has_clone : ¬ (c.outgoing_requests ≡ [])

abbrev pub Entry : Text × Context → Type 0
Entry (key, c) = Kept key c

abbrev pub IsConsistent : UserAgent → Type 0
IsConsistent ua = All Entry ua.outgoing_requests

abbrev pub IsConsistentResult : Option UserAgent → Type 0
IsConsistentResult none = Unit
IsConsistentResult (some ua) = IsConsistent ua

abbrev IsConsistentAnswer : Option (Bool × Option Dialog × UserAgent) → Type 0
IsConsistentAnswer none = Unit
IsConsistentAnswer (some (b, d, ua)) = IsConsistent ua

pub with_dialogs-IsConsistent :
    (p : Pointer Dialog × Store) (ua : UserAgent) (k : Option Dialog → UserAgent → Option UserAgent)
    → ((d : Option Dialog) (s : Store) → IsConsistentResult (k d (record ua { dialogs = s })))
    → IsConsistentResult (with_dialogs p ua k)
with_dialogs-IsConsistent (fault, s) ua k h = tt
with_dialogs-IsConsistent (null, s) ua k h = h none s
with_dialogs-IsConsistent (at d, s) ua k h = h (some d) s

pub on_resend_request_complete-IsConsistent :
    (key : Text) (rv : NetResult) (ua : UserAgent)
    → IsConsistent ua
    → IsConsistent (on_resend_request_complete key rv ua)
unfolding on_resend_request_complete
on_resend_request_complete-IsConsistent key rv ua h =
    elim (Option-cases (find key ua.outgoing_requests)) [
      | inl e ↦ rw (e, on_resend_request_complete) h
      | inr (c, e) ↦
          rw (e, on_resend_request_complete)
            (elim (Bool-cases (is_ok rv)) [ inl t ↦ rw t h | inr f ↦ rw f h ])
    ]

after_send-IsConsistent :
    (key : Text) (rv : NetResult) (ua : UserAgent)
    → IsConsistent ua
    → IsConsistent (after_send key rv ua)
unfolding after_send
after_send-IsConsistent key rv ua h = elim (Bool-cases (is_pending rv)) [
  | inl t ↦ rw t h
  | inr f ↦ rw f (on_resend_request_complete-IsConsistent key rv ua h)
]

-- The list that is not empty has a last request, and its ids stay when that one is changed.
with_last-Kept :
    (added : Headers) (key : Text) (rs : List Request)
    → ¬ (rs ≡ [])
    → All (λ r. r.id ≡ key) rs
    → (q : Request) × (qs : List Request) × (with_last added rs ≡ some (q, qs))
      × All (λ r. r.id ≡ key) qs
      × ¬ (qs ≡ [])
unfolding with_last resent
with_last-Kept added key [] h a = absurd (h refl)
with_last-Kept added key (r ∷ []) h a = (_, _, refl, a, λ e. cc e)
with_last-Kept added key (r ∷ r' ∷ rs) h (p, a) =
    let (q, qs, e, k, n) = with_last-Kept added key (r' ∷ rs) (λ x. absurd (cc x)) a in
    (q, r ∷ qs, rw (e, with_last) refl, (p, k), λ x. cc x)

-- A list that is not empty is sent.
send_last-IsConsistent :
    (added : Headers) (sent : NetResult) (key : Text) (c : Context) (ua : UserAgent)
    → Kept key c
    → IsConsistent ua
    → (ua' : UserAgent) × (send_last added sent key c c.outgoing_requests ua ≡ some ua')
      × IsConsistent ua'
unfolding send_last
send_last-IsConsistent added sent key c ua k i =
    let (q, qs, e, a, n) = with_last-Kept added key c.outgoing_requests k.has_clone k.clones in
    let c' : Context = record c { outgoing_requests = qs } in
    (
      after_send key sent (sending key c (q, qs) ua),
      rw (e, send_last) refl,
      after_send-IsConsistent key sent (sending key c (q, qs) ua) (
          assign-All Entry key c' ua.outgoing_requests
            (λ j same.
              subst (λ x. Kept x c') (sym same)
                (record { original = k.original; clones = a; has_clone = n }))
            i),
    )

-- The completion of an authentication finds a request to send: it never faults.
pub on_authentication_complete-IsConsistent :
    (added : Headers) (sent : NetResult) (key : Text) (rv : NetResult) (ua : UserAgent)
    → IsConsistent ua
    → (ua' : UserAgent) × (on_authentication_complete added sent key rv ua ≡ some ua')
      × IsConsistent ua'
unfolding on_authentication_complete
on_authentication_complete-IsConsistent added sent key rv ua h =
    elim (Option-cases (find key ua.outgoing_requests)) [
      | inl e ↦ rw (e, on_authentication_complete) (ua, refl, h)
      | inr (c, e) ↦
          rw (e, on_authentication_complete)
            (elim (Bool-cases (is_ok rv)) [
              | inl t ↦ rw t (
                  send_last-IsConsistent added sent key c ua
                    (find-All Entry key c ua.outgoing_requests h e) h)
              | inr f ↦ rw f (_, refl, h)
            ])
    ]

All-snoc :
    {A : Type 0} (P : A → Type 0) (xs : List A) (x : A) → All P xs → P x → All P (xs ++ x ∷ [])
All-snoc P [] x h p = (p, tt)
All-snoc P (y ∷ ys) x (q, h) p = (q, All-snoc P ys x h p)

snoc_nonempty : {A : Type 0} (xs : List A) (x : A) → ¬ (xs ++ x ∷ [] ≡ [])
snoc_nonempty [] x e = absurd (cc e)
snoc_nonempty (y ∷ ys) x e = absurd (cc e)

-- The context for a response belongs to the id of its request.
pub context_for_lem :
    (r : Request) (s : Response) (ua : UserAgent)
    → IsConsistent ua
    → (let c = context_for r s (find r.id ua.outgoing_requests) in
        (c.original_request.id ≡ r.id) × All (λ q. q.id ≡ r.id) c.outgoing_requests)
context_for_lem r s ua h = elim (Option-cases (find r.id ua.outgoing_requests)) [
  | inl e ↦ rw e (refl, tt)
  | inr (c, e) ↦
      let k : Kept r.id c = find-All Entry r.id c ua.outgoing_requests h e in
      rw e (k.original, k.clones)
]

challenged-IsConsistent :
    (r : Request) (s : Response) (d : Option Dialog) (ua : UserAgent)
    → IsConsistent ua
    → IsConsistent (challenged r s d ua).1
unfolding clone_request
challenged-IsConsistent r s d ua h =
    let old = context_for r s (find r.id ua.outgoing_requests) in
    let (same, clones) = context_for_lem r s ua h in
    assign-All Entry r.id (challenged r s d ua).0 ua.outgoing_requests
      (λ j e. record {
        original = same ∙ sym e;
        clones =
            subst (λ key. All (λ q. q.id ≡ key) (challenged r s d ua).0.outgoing_requests) (sym e)
              (All-snoc (λ q. q.id ≡ r.id) old.outgoing_requests
                (clone_request old.original_request) clones same);
        has_clone = snoc_nonempty old.outgoing_requests (clone_request old.original_request);
      })
      h

authenticated-IsConsistent :
    (a : Answers) (c : Context) (ua : UserAgent)
    → IsConsistent ua
    → (b : Bool) × (d : Option Dialog) × (ua' : UserAgent) × (authenticated a (c, ua)
        ≡ some (b, d, ua'))
      × IsConsistent ua'
unfolding authenticated
authenticated-IsConsistent a c ua h = elim (Bool-cases (is_pending a.result)) [
  | inl t ↦ rw t (true, c.last_dialog, ua, refl, h)
  | inr f ↦ rw f (elim (Bool-cases (is_ok a.result)) [
    | inl t ↦
        let (ua', e, k) =
          on_authentication_complete-IsConsistent a.added a.sent c.original_request.id a.result ua
            h in
        rw (t, e) (true, c.last_dialog, ua', refl, k)
    | inr g ↦ rw g (false, c.last_dialog, ua, refl, h)
  ])
]

-- A challenge is handled without a fault.
pub handle_challenge_authentication-IsConsistent :
    (a : Answers) (s : Response) (d : Option Dialog) (ua : UserAgent)
    → IsConsistent ua
    → (b : Bool) × (d' : Option Dialog) × (ua' : UserAgent) × (handle_challenge_authentication a s d
          ua
        ≡ some (b, d', ua'))
      × IsConsistent ua'
unfolding handle_challenge_authentication
handle_challenge_authentication-IsConsistent a s d ua h =
    elim (Bool-cases (is_challenge s.response_code)) [
      | inl t ↦ elim (Option-cases s.refer_to) [
        | inl e ↦ rw (t, e) (false, d, ua, refl, h)
        | inr (r, e) ↦
            rw (t, e)
              (authenticated-IsConsistent a (challenged r s d ua).0 (challenged r s d ua).1
                (challenged-IsConsistent r s d ua h))
      ]
      | inr f ↦ rw f (false, d, ua, refl, h)
    ]

erase_all-All :
    (rs : List Request) (m : List (Text × Context)) → All Entry m → All Entry (erase_all rs m)
erase_all-All [] m h = h
erase_all-All (r ∷ rs) m h = erase_all-All rs (erase r.id m) (erase-All Entry r.id m h)

drop_context-All :
    (s : Response) (m : List (Text × Context)) → All Entry m → All Entry (drop_context s m)
unfolding drop_context
drop_context-All s m h = elim (Bool-cases (leb 200 s.response_code)) [
  | inl t ↦ rw t (elim (Option-cases s.refer_to) [
    | inl e ↦ rw e h
    | inr (r, e) ↦ rw e (elim (Option-cases (find r.id m)) [
      | inl n ↦ rw n h
      | inr (c, n) ↦ rw n (
          erase_all-All c.outgoing_requests (erase c.original_request.id m)
            (erase-All Entry c.original_request.id m h))
    ])
  ])
  | inr f ↦ rw f h
]

deliver-IsConsistent :
    (s : Response) (b : Bool) (d : Option Dialog) (ua : UserAgent)
    → IsConsistent ua
    → IsConsistent (deliver s (b, d, ua))
unfolding deliver
deliver-IsConsistent s true d ua h = h
deliver-IsConsistent s false d ua h = drop_context-All s ua.outgoing_requests h

pub on_incoming_response-IsConsistent :
    (uris : Uris) (a : Answers) (s : Response) (ua : UserAgent)
    → IsConsistent ua
    → IsConsistentResult (on_incoming_response uris a s ua)
unfolding on_incoming_response
on_incoming_response-IsConsistent uris a s ua h =
    with_dialogs-IsConsistent (DialogStore.handle_response uris s ua.dialogs) ua _ λ d store.
      let ua' : UserAgent = record ua { dialogs = store } in
      let (b, d', ua'', e, k) = handle_challenge_authentication-IsConsistent a s d ua' h in
      rw e (deliver-IsConsistent s b d' ua'' k)
