-- ===== src/Transport/CertError/Questions.antt =====
-- Which questions ssl_cert_error_transaction.cc asks.
use sippet.Base.{
  ℕ, suc, ◌+◌, ◌≡◌, refl, true, ◌∷◌, Option, is_some, if◌then◌else◌, Text, NetResult, ok,
  is_pending, arith,
}
use sippet.Transport.CertError.{
  Question, Answers, Transaction, none_state, handle_ssl_cert_error_complete, user_approval,
  do_loop, handle_error, on_io_complete, run_user_callback,
}

-- HandleSSLCertError returns net::OK at once, with a handler but with no question asked, whatever
-- the handler would answer: what was accepted stays as it was, and no state is left to go on from.
pub handle_error_lem :
    (fuel : ℕ) (a : Answers) (server_cert : Option Text) (t : Transaction)
    → handle_error (suc fuel) a server_cert t ≡ (
      ok,
      record t {
        server_cert = server_cert;
        has_callback = true;
        next_state = none_state;
        has_handler = true;
      },
    )
unfolding handle_error do_loop
handle_error_lem fuel a server_cert t = refl

abbrev pub question : Transaction → Question
question t = if is_some t.server_cert then user_approval else Question.client_cert

abbrev pub answer : Answers → Transaction → NetResult
answer a t = if is_some t.server_cert then a.approval_result else a.cert_result

-- From STATE_HANDLE_SSL_CERT_ERROR_COMPLETE the loop asks one question, for the user's approval of
-- a server's certificate or for a client's certificate. Whatever the answer is, an error included,
-- the callback gets net::OK, once: at the next OnIOComplete where the answer is ERR_IO_PENDING, and
-- with the result of this loop else.
pub do_loop_asks :
    (fuel : ℕ) (a : Answers) (t : Transaction)
    → t.next_state ≡ handle_ssl_cert_error_complete
    → let r = do_loop (3 + fuel) a t in
      (r.1.asked ≡ question t ∷ t.asked)
      × (r.0 ≡ (if is_pending (answer a t) then answer a t else ok))
      × ((if is_pending r.0
            then on_io_complete (suc fuel) a r.1
            else run_user_callback r.0 r.1).reported
          ≡ ok ∷ t.reported)
unfolding do_loop on_io_complete
do_loop_asks fuel a t e = ground arith
