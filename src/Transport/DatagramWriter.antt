-- ===== src/Transport/DatagramWriter.antt =====
-- sippet/transport/chrome/chrome_datagram_writer.h and chrome_datagram_writer.cc, as the stream
-- writer is modelled: the answers of the socket are the list `script`, ERR_IO_PENDING when it has
-- run out, `sent` are the frames that the socket took, and `ran` the callbacks that were run.
pub mod Delivery
pub mod History
mod Tests
use sippet.Base.{
  ℕ, zero, suc, Bool, List, [], ◌∷◌, ◌++◌, Option, none, some, if◌then◌else◌, Text, NetError,
  NetResult, ok, pending, is_ok, is_pending, connection_reset,
}

-- ChromeDatagramWriter::PendingFrame
pub record PendingFrame : Type 0 where
  pub buf : Text
  pub callback : ℕ

-- ChromeDatagramWriter
pub record DatagramWriter : Type 0 where
  pub error : NetResult
  pub pending_messages : List PendingFrame
  pub script : List NetResult
  pub sent : List Text
  pub ran : List (ℕ × NetResult)

-- What Drain makes of the socket's answer: a frame counts as sent whole.
abbrev pub drain_result : NetResult → NetResult
drain_result (NetResult.count zero) = NetResult.error connection_reset
drain_result (NetResult.count (suc n)) = ok
drain_result (NetResult.error e) = NetResult.error e

abbrev pub next_answer : List NetResult → NetResult × List NetResult
next_answer [] = (pending, [])
next_answer (r ∷ script) = (r, script)

abbrev pub sent_frame : NetResult → Text → List Text → List Text
sent_frame result buf sent = if is_ok result then sent ++ buf ∷ [] else sent

-- Drain
abbrev pub drain_frame : Text → DatagramWriter → NetResult × DatagramWriter
drain_frame buf w =
    let (answer, script) = next_answer w.script in
    (
      drain_result answer,
      record w { script = script; sent = sent_frame (drain_result answer) buf w.sent },
    )

abbrev pub run_frame_callback : ℕ → NetResult → DatagramWriter → DatagramWriter
run_frame_callback callback result w = record w { ran = w.ran ++ (callback, result) ∷ [] }

-- Pop, for each of the messages.
pub pop_frames : NetResult → List PendingFrame → DatagramWriter → DatagramWriter
pop_frames err [] w = record w { pending_messages = [] }
pop_frames err (f ∷ queue) w = pop_frames err queue (run_frame_callback f.callback err w)

-- CloseWithError
unfoldable pub close_frames : NetResult → DatagramWriter → DatagramWriter
unfolding pop_frames
close_frames err w = pop_frames err w.pending_messages (record w { error = err })

abbrev pub enqueue : Text → ℕ → DatagramWriter → DatagramWriter
enqueue buf callback w = record w {
  pending_messages = w.pending_messages ++ record { buf = buf; callback = callback } ∷ [];
}

-- Write, when the frame was drained.
abbrev pub after_drain_frame : Text → ℕ → NetResult × DatagramWriter → NetResult × DatagramWriter
after_drain_frame buf callback (result, w) =
    if is_pending result
    then (pending, enqueue buf callback w)
    else (result, record w { error = result })

abbrev pub no_frames : List PendingFrame → Bool
no_frames [] = Bool.true
no_frames (_ ∷ _) = Bool.false

-- Write
unfoldable pub write_frame : Text → ℕ → DatagramWriter → NetResult × DatagramWriter
write_frame buf callback w =
    if is_ok w.error
    then if no_frames w.pending_messages
      then after_drain_frame buf callback (drain_frame buf w)
      else (pending, enqueue buf callback w)
    else (w.error, w)

-- The loop of DidConsume, after Drain on the front frame.
abbrev pub after_front :
    PendingFrame
    → List PendingFrame
    → (DatagramWriter → DatagramWriter)
    → NetResult × DatagramWriter
    → DatagramWriter
after_front f queue next (NetResult.count n, w) = next (run_frame_callback f.callback ok w)
after_front f queue next (NetResult.error e, w) =
    let stopped : DatagramWriter = record w { pending_messages = f ∷ queue } in
    if is_pending (NetResult.error e) then stopped else close_frames (NetResult.error e) stopped

-- The loop of DidConsume, behind its Pop: the queue that is left.
pub consume_frames : List PendingFrame → DatagramWriter → DatagramWriter
unfolding close_frames
consume_frames [] w = record w { pending_messages = [] }
consume_frames (f ∷ queue) w =
    let next : DatagramWriter → DatagramWriter = consume_frames queue in
    after_front f queue next (drain_frame f.buf w)

-- DidConsume: the socket has taken the front frame. `none` stands for front() of an empty queue.
pub did_consume_frame : DatagramWriter → List PendingFrame → Option DatagramWriter
unfolding consume_frames
did_consume_frame w [] = none
did_consume_frame w (f ∷ queue) = some (
    consume_frames queue
      (run_frame_callback f.callback ok (record w { sent = w.sent ++ f.buf ∷ [] })))

-- DidWrite
unfoldable pub did_write_frame : NetResult → DatagramWriter → Option DatagramWriter
unfolding did_consume_frame close_frames
did_write_frame (NetResult.count zero) w = some (close_frames (NetResult.error connection_reset) w)
did_write_frame (NetResult.count (suc n)) w = did_consume_frame w w.pending_messages
did_write_frame (NetResult.error e) w = some (close_frames (NetResult.error e) w)
