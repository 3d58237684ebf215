-- ===== src/Ua/AuthTransaction.antt =====
-- sippet/ua/auth_transaction.h and auth_transaction.cc. The controller and the password handler stand
-- behind their interfaces: what they answer is an argument, and what is called on them is a log.
pub mod Rounds
mod Tests
use sippet.Base.{
  ℕ, zero, suc, Bool, true, false, not, ◌&&◌, List, [], ◌∷◌, Option, none, some, if◌then◌else◌,
  NetResult, ok, error, pending, is_ok, is_pending, unexpected, unsupported_auth_scheme,
}

-- State
pub data State : Type 0 where
  none_state handle_auth_challenge handle_auth_challenge_complete : State
  get_credentials get_credentials_complete : State
  add_authorization_headers add_authorization_headers_complete : State

-- The calls of the controller and of the password handler.
pub data Call : Type 0 where
  challenged asked_credentials reset_auth added_headers : Call

-- How a call that may wait ends: at once or later, with a result.
pub record Ending : Type 0 where
  pub waits : Bool
  pub result : NetResult

pub record Answers : Type 0 where
  pub challenge : NetResult
  pub has_handler : Bool
  pub has_auth_info : Bool
  pub credentials : Ending
  pub headers : Ending

-- AuthTransaction; `reported` are the results that the callback got.
pub record Transaction : Type 0 where
  pub next_state : State
  pub has_callback : Bool
  pub calls : List Call
  pub reported : List NetResult

abbrev pub is_none_state : State → Bool
is_none_state none_state = true
is_none_state _ = false

abbrev pub at : State → Transaction → Transaction
at state t = record t { next_state = state }

abbrev pub returned : Ending → NetResult
returned e = if e.waits then pending else e.result

-- DoHandleAuthChallenge
abbrev pub do_handle_auth_challenge : Answers → Transaction → NetResult × Transaction
do_handle_auth_challenge a t = (
  a.challenge,
  record t { next_state = handle_auth_challenge_complete; calls = challenged ∷ t.calls },
)

-- DoHandleAuthChallengeComplete
abbrev pub do_handle_auth_challenge_complete : Answers → Transaction → NetResult × Transaction
do_handle_auth_challenge_complete a t =
    if not a.has_handler
    then (error unsupported_auth_scheme, t)
    else (ok, at (if a.has_auth_info then get_credentials else add_authorization_headers) t)

-- DoGetCredentials
abbrev pub do_get_credentials : Answers → Transaction → NetResult × Transaction
do_get_credentials a t = (
  returned a.credentials,
  record t { next_state = get_credentials_complete; calls = asked_credentials ∷ t.calls },
)

-- DoGetCredentialsComplete
abbrev pub do_get_credentials_complete : NetResult → Transaction → NetResult × Transaction
do_get_credentials_complete result t =
    if is_ok result
    then (ok, record t { next_state = add_authorization_headers; calls = reset_auth ∷ t.calls })
    else (result, at none_state t)

-- DoAddAuthorizationHeaders
abbrev pub do_add_authorization_headers : Answers → Transaction → NetResult × Transaction
do_add_authorization_headers a t = (
  returned a.headers,
  record t { next_state = add_authorization_headers_complete; calls = added_headers ∷ t.calls },
)

-- The switch of DoLoop; next_state_ was reset before it.
abbrev pub dispatch : Answers → State → NetResult → Transaction → NetResult × Transaction
dispatch a handle_auth_challenge rv t = do_handle_auth_challenge a t
dispatch a handle_auth_challenge_complete rv t = do_handle_auth_challenge_complete a t
dispatch a get_credentials rv t = do_get_credentials a t
dispatch a get_credentials_complete rv t = do_get_credentials_complete rv t
dispatch a add_authorization_headers rv t = do_add_authorization_headers a t
dispatch a add_authorization_headers_complete rv t = (rv, at none_state t)
dispatch a none_state rv t = (error unexpected, t)

-- One round of DoLoop.
abbrev pub round : Answers → NetResult → Transaction → NetResult × Transaction
round a rv t = dispatch a t.next_state rv (at none_state t)

-- Whether the loop goes round again.
abbrev pub goes_on : NetResult × Transaction → Bool
goes_on (rv, t) = not (is_pending rv) && not (is_none_state t.next_state)

-- DoLoop; `none` where it is still running after `fuel` rounds. Six are enough, as no state comes
-- again.
unfoldable pub do_loop : ℕ → Answers → NetResult → Transaction → Option (NetResult × Transaction)
do_loop zero a rv t = none
do_loop (suc fuel) a rv t =
    let r = round a rv t in let rest = do_loop fuel a r.0 r.1 in if goes_on r then rest else some r

-- HandleChallengeAuthentication
unfoldable pub handle_challenge_authentication :
    Answers → Transaction → Option (NetResult × Transaction)
unfolding do_loop
handle_challenge_authentication a t =
    do_loop 6 a ok (record t { has_callback = true; next_state = handle_auth_challenge })

-- RunUserCallback
abbrev pub run_user_callback : NetResult → Transaction → Transaction
run_user_callback status t = record t { has_callback = false; reported = status ∷ t.reported }

abbrev report : NetResult × Transaction → NetResult × Transaction
report (rv, t) = (rv, if is_pending rv then t else run_user_callback rv t)

-- OnIOComplete, with the result of the loop
unfoldable pub on_io_complete : Answers → NetResult → Transaction → Option (NetResult × Transaction)
unfolding do_loop
on_io_complete a result t = elim (do_loop 6 a result t) [ none ↦ none | some r ↦ some (report r) ]
