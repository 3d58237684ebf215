-- ===== src/Phone/CompletionStatus/Tests.antt =====
-- A completion status.
use sippet.Base.{ℕ, ◌≡◌, refl, error, other_error}
use sippet.Phone.CompletionStatus.{status_code_to_completion_status}

-- 202 (Accepted)
abbrev accepted : ℕ
accepted = 202

accepted_is_error : status_code_to_completion_status accepted ≡ error (other_error 1202)
unfolding status_code_to_completion_status
accepted_is_error = refl
