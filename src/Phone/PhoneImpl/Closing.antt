-- ===== src/Phone/PhoneImpl/Closing.antt =====
-- The end of a phone of phone_impl.cc that has an incoming call.
use sippet.Base.{
  ℕ, ◌≡◌, refl, ap, true, List, [], ◌∷◌, ◌++◌, Option, none, some, Option-cases, inl, inr, Text,
}
use sippet.Message.Method.{invite, is_method}
use sippet.Message.Request.{Request}
use sippet.Phone.Call.{Call, new_incoming}
use sippet.Phone.Call.Handlers
use sippet.Phone.PhoneImpl.{Phone, emit, call_announced}
use sippet.Phone.PhoneImpl.Calls.{destroy_each, on_destroy, on_incoming_request}
use sippet.Ua.Dialog.{Dialog}

-- A call that cannot be closed stops the loop, wherever it stands.
destroy_each_faults :
    (before after : List Call) (c : Call)
    → Handlers.on_destroy c ≡ none
    → destroy_each (before ++ c ∷ after) ≡ none
unfolding destroy_each
destroy_each_faults [] after c h = rw (h, destroy_each) refl
destroy_each_faults (x ∷ before) after c h = elim (Option-cases (Handlers.on_destroy x)) [
  | inl e ↦ rw (e, destroy_each) refl
  | inr (x', e) ↦
      rw (e, destroy_each) (rw (destroy_each_faults before after c h, destroy_each) refl)
]

-- A phone that got an INVITE and is destroyed then uses the null pointer of the call's peer connection.
pub invited_phone_faults :
    (reason : Text) (delay : ℕ) (r : Request) (d : Option Dialog) (p : Phone)
    → is_method invite r.method ≡ true
    → (p' : Phone) × (on_incoming_request reason delay r d p ≡ some p') × (on_destroy p' ≡ none)
unfolding on_incoming_request on_destroy
invited_phone_faults reason delay r d p h =
    let invited : Phone =
      emit (call_announced r) (record p { calls = p.calls ++ new_incoming r ∷ [] }) in
    let closed = destroy_each_faults p.calls [] (new_incoming r) refl in
    rw h (invited, refl, ap (λ o. finish invited o) closed)
  where
    finish : Phone → Option (List Call) → Option Phone
    finish q o = elim o [
      | none ↦ none
      | some closed ↦
          some (record q { calls = []; closed = q.closed ++ closed; refresh_timer = none })
    ]
