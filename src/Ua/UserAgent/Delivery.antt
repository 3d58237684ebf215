-- ===== src/Ua/UserAgent/Delivery.antt =====
-- What ua_user_agent.cc does with a response that it does not answer itself.
use mathlib.Core.Logic.{◌⊎◌}
use mathlib.Core.Option.{some-injective}
use sippet.Base.{
  ◌≡◌, refl, sym, ◌∙◌, subst, Bool, false, List, [], ◌∷◌, ◌++◌, map, All, Option, none, some, leb,
  Bool-cases, Option-cases, inl, inr, if◌then◌else◌, Text, equal, equal_iff, ap, ◌&&◌,
}
use sippet.Base.Maps.{find, erase, text_eq, find-erase, find-All}
use sippet.Message.Request.{Request, Response}
use sippet.Ua.Dialog.{Uris, Dialog}
use sippet.Ua.DialogStore
use sippet.Ua.DialogStore.{Store}
use sippet.Ua.Pointer.{Pointer, fault, null, at}
use sippet.Ua.UserAgent.{
  Context, UserAgent, Answers, delegate, incoming_response, with_dialogs, is_challenge,
  handle_challenge_authentication, erase_all, drop_context, deliver, on_incoming_response,
}
use sippet.Ua.UserAgent.Consistency.{Kept, Entry, IsConsistent}

-- The dialog that a controller's handler returns, null being none; nothing, where it faults.
abbrev pub returned : Pointer Dialog → Option (Option Dialog)
returned fault = none
returned null = some none
returned (at d) = some (some d)

pub with_dialogs_lem :
    (p : Pointer Dialog × Store) (ua : UserAgent) (k : Option Dialog → UserAgent → Option UserAgent)
    (d : Option Dialog)
    → returned p.0 ≡ some d
    → with_dialogs p ua k ≡ k d (record ua { dialogs = p.1 })
with_dialogs_lem (fault, s) ua k d e = absurd (cc e)
with_dialogs_lem (null, s) ua k d e =
    ap (λ x. k x (record ua { dialogs = s })) (some-injective none d e)
with_dialogs_lem (at x, s) ua k d e =
    ap (λ x. k x (record ua { dialogs = s })) (some-injective (some x) d e)

-- Requests of the id `k` are erased where it has no entry: what `j` has stays.
find-erase_all :
    (k j : Text) (rs : List Request) (m : List (Text × Context))
    → All (λ r. r.id ≡ k) rs
    → (k ≡ j → find j m ≡ none)
    → find j (erase_all rs m) ≡ find j m
find-erase_all k j [] m h n = refl
find-erase_all k j (r ∷ rs) m (p, h) n =
    find-erase_all k j rs (erase r.id m) h (λ e. same ∙ n e) ∙ same
  where
    same : find j (erase r.id m) ≡ find j m
    same = elim (Bool-cases (equal r.id j)) [
      | inl t ↦ rw (find-erase, t) (sym (n (sym p ∙ (equal_iff r.id j).0 t)))
      | inr f ↦ rw (find-erase, f) refl
    ]

-- The request has this id.
abbrev pub has_id : Text → Option Request → Bool
has_id j none = false
has_id j (some r) = equal r.id j

-- A final response leaves no context under its request's id, and the others as they are.
find-drop_context :
    (s : Response) (j : Text) (m : List (Text × Context))
    → All Entry m
    → find j (drop_context s m)
      ≡ (if leb 200 s.response_code && has_id j s.refer_to then none else find j m)
unfolding drop_context
find-drop_context s j m h = elim (Bool-cases (leb 200 s.response_code)) [
  | inr f ↦ rw f refl
  | inl t ↦ elim (Option-cases s.refer_to) [
    | inl e ↦ rw (t, e) refl
    | inr (r, e) ↦ elim (Option-cases (find r.id m)) [
      | inl n ↦
          rw (t, e, n)
            (elim (Bool-cases (equal r.id j)) [
              | inl i ↦ rw i (subst (λ k. find k m ≡ none) ((equal_iff r.id j).0 i) n)
              | inr g ↦ rw g refl
            ])
      | inr (c, n) ↦
          let kept : Kept r.id c = find-All Entry r.id c m h n in
          rw (t, e, n)
            (find-erase_all r.id j c.outgoing_requests (erase c.original_request.id m) kept.clones
                (λ same.
                  find-erase c.original_request.id j m
                  ∙ rw ((equal_iff c.original_request.id j).1 (kept.original ∙ same)) refl)
              ∙ find-erase c.original_request.id j m
              ∙ ap (λ k. if equal k j then none else find j m) kept.original)
    ]
  ]
]

-- Neither a 401 nor a 407, or no request is known that it answers.
unanswered :
    (a : Answers) (s : Response) (d : Option Dialog) (ua : UserAgent)
    → (is_challenge s.response_code ≡ false) ⊎ (s.refer_to ≡ none)
    → handle_challenge_authentication a s d ua ≡ some (false, d, ua)
unfolding handle_challenge_authentication
unanswered a s d ua (inl f) = rw f refl
unanswered a s d ua (inr e) = elim (Bool-cases (is_challenge s.response_code)) [
  | inl t ↦ rw (t, e) refl
  | inr f ↦ rw f refl
]

-- A response that is no challenge, or that answers no known request, goes once to each delegate, in
-- the order in which they were appended, with the dialog of the controller, which also decides what
-- the dialogs are; nothing else is called. From the code 200 on no context is left under the id of
-- the request that it answers; every other context stays as it is.
pub on_incoming_response_lem :
    (uris : Uris) (a : Answers) (s : Response) (ua : UserAgent) (d : Option Dialog) (j : Text)
    → IsConsistent ua
    → (is_challenge s.response_code ≡ false) ⊎ (s.refer_to ≡ none)
    → returned (DialogStore.handle_response uris s ua.dialogs).0 ≡ some d
    → (ua' : UserAgent) × (on_incoming_response uris a s ua ≡ some ua')
      × (ua'.log ≡ ua.log ++ map (λ handler. delegate handler (incoming_response s d)) ua.handlers)
      × (ua'.dialogs ≡ (DialogStore.handle_response uris s ua.dialogs).1)
      × (ua'.handlers ≡ ua.handlers)
      × (find j ua'.outgoing_requests ≡ (
          if leb 200 s.response_code && has_id j s.refer_to
          then none
          else find j ua.outgoing_requests))
unfolding on_incoming_response
on_incoming_response_lem uris a s ua d j h c e =
    let ua' : UserAgent = record ua {
      dialogs = (DialogStore.handle_response uris s ua.dialogs).1;
    } in
    (
      deliver s (false, d, ua'),
      with_dialogs_lem (DialogStore.handle_response uris s ua.dialogs) ua _ d e
          ∙ rw (unanswered a s d ua' c) refl,
      refl,
      refl,
      refl,
      find-drop_context s j ua.outgoing_requests h,
    )
