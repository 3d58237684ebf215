-- ===== src/Phone/CompletionStatus/Classes.antt =====
-- The three classes of errors of completion_status.cc.
use native.Mathlib.Omega.{arith}
use sippet.Base.{ℕ, ◌≡◌, ◌↔◌, true, false, not, ltb, ◌==◌, ok}
use sippet.Phone.CompletionStatus.{
  status_code_to_completion_status, is_net_error, is_status_code_error, is_hangup_cause,
}

-- The status of a response is net::OK for the code 200 alone. Any other code below 700 gives an error
-- of the class for status codes, and of no other class, that no other code gives: also one of 201 to
-- 299, which are codes of success.
pub status_code_to_completion_status_lem :
    (code other : ℕ)
    → ltb code 700 ≡ true
    → (is_status_code_error (status_code_to_completion_status code) ≡ not (code == 200))
      × (is_net_error (status_code_to_completion_status code) ≡ false)
      × (is_hangup_cause (status_code_to_completion_status code) ≡ false)
      × ((status_code_to_completion_status code ≡ ok) ↔ (code ≡ 200))
      × ((status_code_to_completion_status code ≡ status_code_to_completion_status other)
          ↔ (code ≡ other))
unfolding status_code_to_completion_status
status_code_to_completion_status_lem code other h =
    (ground arith, ground arith, ground arith, ground arith, ground arith)
