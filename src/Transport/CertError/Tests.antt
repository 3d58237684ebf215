-- ===== src/Transport/CertError/Tests.antt =====
-- Runs of the certificate error transaction.
use sippet.Base.{◌≡◌, refl, true, false, [], ◌∷◌, none, some, codes, ok, pending}
use sippet.Transport.CertError.{
  Answers, Transaction, none_state, handle_ssl_cert_error_complete, do_loop, on_io_complete,
}

abbrev answers : Answers
answers = record {
  approval_result = pending;
  accepted = true;
  cert_result = ok;
  cert = some (codes "c");
}

abbrev fresh : Transaction
fresh = record {
  next_state = none_state;
  has_handler = false;
  server_cert = some (codes "s");
  is_accepted = false;
  client_cert = none;
  has_callback = false;
  asked = [];
  reported = [];
}

abbrev asking : Transaction
asking = record fresh { next_state = handle_ssl_cert_error_complete }

-- A server's certificate waits for its approval.
approval_waits : (do_loop 4 answers asking).0 ≡ pending
unfolding do_loop
approval_waits = refl

callback_ok : (on_io_complete 2 answers (do_loop 4 answers asking).1).reported ≡ ok ∷ []
unfolding on_io_complete do_loop
callback_ok = refl
