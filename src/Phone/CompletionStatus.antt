-- ===== src/Phone/CompletionStatus.antt =====
-- sippet/phone/completion_status.h and completion_status.cc: the results that callbacks get. An int
-- below 0 is an error with its absolute value.
pub mod Classes
mod Tests
use sippet.Base.{
  ℕ, ◌+◌, Bool, true, false, ◌&&◌, ltb, leb, if◌then◌else◌, NetResult, NetError, ok, error, count,
  other_error,
}

-- StatusCodeToCompletionStatus
unfoldable pub status_code_to_completion_status : ℕ → NetResult
status_code_to_completion_status status_code =
    if leb 200 status_code && leb status_code 200
    then ok
    else error (other_error (1000 + status_code))

-- IsNetError; the errors with a name are Chromium's.
abbrev pub is_net_error : NetResult → Bool
is_net_error (count n) = false
is_net_error (error (other_error n)) = ltb 0 n && ltb n 1000
is_net_error (error _) = true

-- IsStatusCodeError
abbrev pub is_status_code_error : NetResult → Bool
is_status_code_error (error (other_error n)) = leb 1000 n && ltb n 1700
is_status_code_error _ = false

-- IsHangupCause
abbrev pub is_hangup_cause : NetResult → Bool
is_hangup_cause (error (other_error n)) = leb 1700 n
is_hangup_cause _ = false

-- ERR_HANGUP_NOT_DEFINED
abbrev pub hangup_not_defined : NetResult
hangup_not_defined = error (other_error 1700)
