-- ===== src/Ua/AuthTransaction/Tests.antt =====
-- A run of an authentication.
use sippet.Base.{ℕ, ◌+◌, ◌≡◌, true, false, [], some, NetResult, ok, error, aborted}
use sippet.Ua.AuthTransaction.{Answers, Transaction, get_credentials, goes_on, do_loop}
use sippet.Ua.AuthTransaction.Rounds.{rounds, do_loop_ends}

-- The user gives no credentials.
abbrev refused : Answers
refused = record {
  challenge = ok;
  has_handler = true;
  has_auth_info = true;
  credentials = record { waits = false; result = error aborted };
  headers = record { waits = false; result = ok };
}

abbrev asking : Transaction
asking = record { next_state = get_credentials; has_callback = true; calls = []; reported = [] }

do_loop_ends_example :
    (r : NetResult × Transaction) × ((k : ℕ)
      → do_loop (rounds get_credentials + k) refused ok asking ≡ some r)
    × (goes_on r ≡ false)
do_loop_ends_example = do_loop_ends refused ok asking
