-- ===== src/Phone/PhoneImpl/Stray.antt =====
-- A request outside any call: ua_user_agent.cc, dialog_controller.cc and phone_impl.cc together.
use sippet.Base.{ℕ, ◌≡◌, refl, ◌∙◌, ap, Bool, false, List, ◌∷◌, Option, none, some, Text}
use sippet.Message.Method.{bye, invite, is_method}
use sippet.Message.Request.{Request}
use sippet.Phone.Call.{Call}
use sippet.Phone.PhoneImpl.{Phone}
use sippet.Phone.PhoneImpl.Calls
use sippet.Phone.PhoneImpl.Calls.{has_dialog, routed, with_calls, put_back, keep}
use sippet.Ua.Dialog.{Dialog}
use sippet.Ua.DialogStore
use sippet.Ua.UserAgent
use sippet.Ua.UserAgent.{UserAgent, tell, with_dialogs, incoming_request}

no_dialog_faults : (c : Call) → has_dialog none c ≡ none
no_dialog_faults c = go c.dialog
  where
    go : (o : Option Dialog) → Path (Option Bool) (elim o [ none ↦ none | some own ↦ none ]) none
    go none = refl
    go (some own) = refl

first_faults :
    (test : Call → Option Bool) (handler : Call → Option Call) (c : Call) (calls : List Call)
    → test c ≡ none
    → routed test handler (c ∷ calls) ≡ none
unfolding routed
first_faults test handler c calls e = rw (e, routed) refl

-- A request other than INVITE and BYE, such as the ACK of a 2xx response, reaches the delegates of the
-- user agent without a dialog; a phone with a call then uses a null pointer, whatever the call is.
pub stray_request_faults :
    (r : Request) (ua : UserAgent) (reason : Text) (delay : ℕ) (p : Phone) (c : Call)
    (calls : List Call)
    → is_method invite r.method ≡ false
    → is_method bye r.method ≡ false
    → p.calls ≡ c ∷ calls
    → (UserAgent.on_incoming_request r ua ≡ some (tell (incoming_request r none) ua))
      × (Calls.on_incoming_request reason delay r none p ≡ none)
unfolding UserAgent.on_incoming_request DialogStore.handle_request Calls.on_incoming_request
stray_request_faults r ua reason delay p c calls i b e = (
  rw b refl,
  rw i (
      ap (λ l. with_calls (routed (has_dialog none) (λ c. none) l) p) e
      ∙ ap (λ o. with_calls o p)
          (first_faults (has_dialog none) (λ c. none) c calls (no_dialog_faults c))),
)
