-- ===== src/Transport/CertError.antt =====
-- sippet/transport/ssl_cert_error_transaction.h and ssl_cert_error_transaction.cc. What the
-- SSLCertErrorHandler answers is a parameter: the results of GetUserApproval and of GetClientCert,
-- with what they write into is_accepted_ and client_cert_.
pub mod Questions
mod Tests
use sippet.Base.{
  ℕ, zero, suc, Bool, true, false, not, ◌&&◌, List, [], ◌∷◌, Option, none, some, is_some,
  if◌then◌else◌, Text, NetResult, ok, is_pending, NetError, unexpected,
}

-- State
pub data State : Type 0 where
  none_state handle_ssl_cert_error handle_ssl_cert_error_complete : State
  get_user_approval get_user_approval_complete : State
  get_client_cert get_client_cert_complete : State

-- A call of the SSLCertErrorHandler.
pub data Question : Type 0 where
  user_approval client_cert : Question

pub record Answers : Type 0 where
  pub approval_result : NetResult
  pub accepted : Bool
  pub cert_result : NetResult
  pub cert : Option Text

-- SSLCertErrorTransaction; `asked` are the calls of the handler, and `reported` the results that
-- the callback got.
pub record Transaction : Type 0 where
  pub next_state : State
  pub has_handler : Bool
  pub server_cert : Option Text
  pub is_accepted : Bool
  pub client_cert : Option Text
  pub has_callback : Bool
  pub asked : List Question
  pub reported : List NetResult

abbrev pub is_none_state : State → Bool
is_none_state none_state = true
is_none_state _ = false

abbrev pub with_next : State → Transaction → Transaction
with_next state t = record t { next_state = state }

-- DoHandleSSLCertError
abbrev pub do_handle_ssl_cert_error : Transaction → NetResult × Transaction
do_handle_ssl_cert_error t = (ok, record t { has_handler = true })

-- DoHandleSSLCertErrorComplete
abbrev pub do_handle_ssl_cert_error_complete : Transaction → NetResult × Transaction
do_handle_ssl_cert_error_complete t =
    (ok, with_next (if is_some t.server_cert then get_user_approval else get_client_cert) t)

-- DoGetUserApproval
abbrev pub do_get_user_approval : Answers → Transaction → NetResult × Transaction
do_get_user_approval a t = (
  a.approval_result,
  record t {
    next_state = get_user_approval_complete;
    is_accepted = a.accepted;
    asked = user_approval ∷ t.asked;
  },
)

-- DoGetClientCert
abbrev pub do_get_client_cert : Answers → Transaction → NetResult × Transaction
do_get_client_cert a t = (
  a.cert_result,
  record t {
    next_state = get_client_cert_complete;
    client_cert = a.cert;
    asked = Question.client_cert ∷ t.asked;
  },
)

-- The switch of DoLoop; next_state_ was reset before it.
abbrev pub dispatch : Answers → State → Transaction → NetResult × Transaction
dispatch a handle_ssl_cert_error t = do_handle_ssl_cert_error t
dispatch a handle_ssl_cert_error_complete t = do_handle_ssl_cert_error_complete t
dispatch a get_user_approval t = do_get_user_approval a t
dispatch a get_user_approval_complete t = (ok, with_next none_state t)
dispatch a get_client_cert t = do_get_client_cert a t
dispatch a get_client_cert_complete t = (ok, with_next none_state t)
dispatch a none_state t = (NetResult.error unexpected, t)

-- DoLoop, in `fuel` rounds at most. Four rounds are enough: the states have an order, and the
-- longest way starts at STATE_HANDLE_SSL_CERT_ERROR_COMPLETE, with three.
unfoldable pub do_loop : ℕ → Answers → Transaction → NetResult × Transaction
do_loop zero a t = (NetResult.error unexpected, t)
do_loop (suc fuel) a t =
    let r = dispatch a t.next_state (with_next none_state t) in
    let rest = do_loop fuel a r.1 in
    if not (is_pending r.0) && not (is_none_state r.1.next_state) then rest else r

-- HandleSSLCertError
unfoldable pub handle_error : ℕ → Answers → Option Text → Transaction → NetResult × Transaction
unfolding do_loop
handle_error fuel a server_cert t = do_loop fuel a (record t {
  server_cert = server_cert;
  has_callback = true;
  next_state = handle_ssl_cert_error;
})

-- RunUserCallback
abbrev pub run_user_callback : NetResult → Transaction → Transaction
run_user_callback status t = record t { has_callback = false; reported = status ∷ t.reported }

-- OnIOComplete; DoLoop overwrites the result that it is given.
unfoldable pub on_io_complete : ℕ → Answers → Transaction → Transaction
unfolding do_loop
on_io_complete fuel a t =
    let r = do_loop fuel a t in if is_pending r.0 then r.1 else run_user_callback r.0 r.1
