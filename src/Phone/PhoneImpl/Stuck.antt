-- ===== src/Phone/PhoneImpl/Stuck.antt =====
-- A phone of phone_impl.cc whose REGISTER timed out or could not be sent.
use sippet.Base.{◌≡◌, refl, sym, ◌∙◌, ap, true, List, [], ◌∷◌, ◌++◌, Option, none, some, NetResult}
use sippet.Phone.PhoneImpl.{
  Phone, registering, Output, posted, request_sent, register_completed, emit, register, unregister,
  unregister_all, start_refresh_register, stop_refresh_register, on_register_failed,
}

-- What the client can ask of the phone, and how a REGISTER can fail.
pub data Attempt : Type 0 where
  to_register to_unregister to_unregister_all to_start_refresh to_stop_refresh : Attempt
  failure : NetResult → Attempt

abbrev pub attempt : Attempt → Phone → Option Phone
attempt to_register p = some (register p)
attempt to_unregister p = some (unregister p)
attempt to_unregister_all p = some (unregister_all p)
attempt to_start_refresh p = some (start_refresh_register p)
attempt to_stop_refresh p = some (stop_refresh_register p)
attempt (failure rv) p = on_register_failed rv p

pub attempts : List Attempt → Phone → Option Phone
attempts [] p = some p
attempts (x ∷ l) p = elim (attempt x p) [ none ↦ none | some p' ↦ attempts l p' ]

-- The tasks that were posted and the requests that were sent.
pub work : List Output → List Output
work [] = []
work (posted t ∷ os) = posted t ∷ work os
work (request_sent r ∷ os) = request_sent r ∷ work os
work (_ ∷ os) = work os

work-snoc : (os : List Output) (rv : NetResult) → work (os ++ register_completed rv ∷ []) ≡ work os
unfolding work
work-snoc [] rv = refl
work-snoc (posted t ∷ os) rv = ap (λ l. posted t ∷ l) (work-snoc os rv)
work-snoc (request_sent r ∷ os) rv = ap (λ l. request_sent r ∷ l) (work-snoc os rv)
work-snoc (register_completed x ∷ os) rv = work-snoc os rv
work-snoc (Output.refresh_completed x ∷ os) rv = work-snoc os rv
work-snoc (Output.unregister_completed x ∷ os) rv = work-snoc os rv
work-snoc (Output.call_announced x ∷ os) rv = work-snoc os rv

-- A phone that is registering, with its callback.
abbrev waiting : Phone → Phone
waiting p = record p { state = registering; has_register_callback = true }

one_attempt :
    (x : Attempt) (p : Phone)
    → (p' : Phone) × (attempt x (waiting p) ≡ some (waiting p')) × (work p'.log ≡ work p.log)
unfolding on_register_failed
one_attempt to_register p = (p, refl, refl)
one_attempt to_unregister p = (p, refl, refl)
one_attempt to_unregister_all p = (p, refl, refl)
one_attempt to_start_refresh p = (p, refl, refl)
one_attempt to_stop_refresh p = (p, refl, refl)
one_attempt (failure rv) p = (emit (register_completed rv) p, refl, work-snoc p.log rv)

all_attempts :
    (l : List Attempt) (p : Phone)
    → (p' : Phone) × (attempts l (waiting p) ≡ some (waiting p')) × (work p'.log ≡ work p.log)
unfolding attempts
all_attempts [] p = (p, refl, refl)
all_attempts (x ∷ l) p =
    let (p1, e, w) = one_attempt x p in
    let (p2, es, ws) = all_attempts l p1 in
    (p2, ap (λ o. elim o [ none ↦ none | some q ↦ attempts l q ]) e ∙ es, ws ∙ w)

-- While no response to its REGISTER comes in, a phone that is registering stays so: however often the
-- REGISTER fails and the client asks to register, to unregister or to refresh, no task is posted and no
-- request is sent.
pub registering_is_stuck :
    (l : List Attempt) (p : Phone)
    → p.state ≡ registering
    → p.has_register_callback ≡ true
    → (p' : Phone) × (attempts l p ≡ some p')
      × (p'.state ≡ registering)
      × (work p'.log ≡ work p.log)
registering_is_stuck l p s c =
    let (p', e, w) = all_attempts l p in
    let same : waiting p ≡ p =
      ap (λ b. record p { state = registering; has_register_callback = b }) (sym c)
      ∙ ap (λ st. record p { state = st }) (sym s) in
    (waiting p', ap (attempts l) (sym same) ∙ e, refl, w)
