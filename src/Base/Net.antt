-- ===== src/Base/Net.antt =====
-- The `int` results of Chromium's net functions: a count of bytes, 0 being net::OK, or one of the
-- negative error codes. Only the codes that the modelled code names have a constructor.
use Prim.Native.Nat.{ℕ}
use mathlib.Core.Bool.{Bool, true, false}
use sippet.Base.Bools.{◌==◌}

pub data NetError : Type 0 where
  io_pending aborted invalid_argument unexpected timed_out not_implemented : NetError
  socket_not_connected connection_closed connection_reset : NetError
  address_unreachable msg_too_big invalid_response unsupported_auth_scheme : NetError
  -- any other code, by its absolute value
  other_error : ℕ → NetError

pub data NetResult : Type 0 where
  count : ℕ → NetResult
  error : NetError → NetResult

-- net::OK
abbrev pub ok : NetResult
ok = count 0

-- net::ERR_IO_PENDING
abbrev pub pending : NetResult
pending = error io_pending

abbrev pub is_ok : NetResult → Bool
is_ok (count n) = n == 0
is_ok (error e) = false

abbrev pub is_pending : NetResult → Bool
is_pending (error io_pending) = true
is_pending _ = false

-- result < 0
abbrev pub is_negative : NetResult → Bool
is_negative (count n) = false
is_negative (error e) = true
