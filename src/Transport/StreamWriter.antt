-- ===== src/Transport/StreamWriter.antt =====
-- sippet/transport/chrome/chrome_stream_writer.h and chrome_stream_writer.cc. What the wrapped
-- net::Socket answers to the coming calls of Write is the list `script`; when it has run out, the
-- answer is ERR_IO_PENDING. `sent` is what the socket has taken, and `ran` are the callbacks that
-- were run, with their results. A callback that calls the writer again is not modelled.
pub mod Order
pub mod History
mod Tests
use sippet.Base.{
  ℕ, zero, suc, Bool, true, false, List, [], ◌∷◌, ◌++◌, Option, none, some, take, drop,
  if◌then◌else◌, Text, NetError, NetResult, ok, pending, is_ok, is_pending, connection_reset,
}

-- ChromeStreamWriter::PendingBlock: the bytes that its buffer still has, and its callback.
pub record PendingBlock : Type 0 where
  pub io_buffer : Text
  pub callback : ℕ

-- ChromeStreamWriter
pub record Writer : Type 0 where
  pub error : NetResult
  pub pending_messages : List PendingBlock
  pub script : List NetResult
  pub sent : Text
  pub ran : List (ℕ × NetResult)

pub record Drained : Type 0 where
  pub result : NetResult
  pub io_buffer : Text
  pub script : List NetResult
  pub sent : Text

abbrev pub is_empty {ℓ} : {A : Type ℓ} → List A → Bool
is_empty [] = true
is_empty (_ ∷ _) = false

-- Drain
unfoldable pub drain : List NetResult → Text → Text → Drained
drain [] buf sent = record { result = pending; io_buffer = buf; script = []; sent = sent }
drain (NetResult.error e ∷ script) buf sent = record {
  result = NetResult.error e;
  io_buffer = buf;
  script = script;
  sent = sent;
}
drain (NetResult.count zero ∷ script) buf sent = record {
  result = NetResult.error connection_reset;
  io_buffer = buf;
  script = script;
  sent = sent;
}
drain (NetResult.count (suc n) ∷ script) buf sent =
    let buf' = drop (suc n) buf in
    let sent' = sent ++ take (suc n) buf in
    let rest = drain script buf' sent' in
    if is_empty buf'
    then record { result = ok; io_buffer = []; script = script; sent = sent' }
    else rest

abbrev pub with_socket : Drained → Writer → Writer
with_socket r w = record w { script = r.script; sent = r.sent }

abbrev pub run_callback : ℕ → NetResult → Writer → Writer
run_callback callback result w = record w { ran = w.ran ++ (callback, result) ∷ [] }

-- Pop, for each of the messages.
pub pop_all : NetResult → List PendingBlock → Writer → Writer
pop_all err [] w = record w { pending_messages = [] }
pop_all err (b ∷ queue) w = pop_all err queue (run_callback b.callback err w)

-- CloseWithError
unfoldable pub close_with_error : NetResult → Writer → Writer
unfolding pop_all
close_with_error err w = pop_all err w.pending_messages (record w { error = err })

-- Write, when the buffer was drained: the result, and the writer.
abbrev pub after_first_drain : Drained → ℕ → Writer → NetResult × Writer
after_first_drain r callback w =
    if is_pending r.result
    then (
      pending,
      record (with_socket r w) {
        pending_messages = record { io_buffer = r.io_buffer; callback = callback } ∷ [];
      },
    )
    else (r.result, record (with_socket r w) { error = r.result })

abbrev pub push_back : Text → ℕ → Writer → Writer
push_back buf callback w = record w {
  pending_messages = w.pending_messages ++ record { io_buffer = buf; callback = callback } ∷ [];
}

-- Write
unfoldable pub write : Text → ℕ → Writer → NetResult × Writer
unfolding drain
write buf callback w =
    if is_ok w.error
    then if is_empty w.pending_messages
      then after_first_drain (drain w.script buf w.sent) callback w
      else (pending, push_back buf callback w)
    else (w.error, w)

-- The loop of DidConsume, after Drain on the front block. Drain returns net::OK only when nothing
-- of the block remains, which the next round of the loop then pops.
abbrev pub after_drain :
    Drained → PendingBlock → List PendingBlock → (Writer → Writer) → Writer → Writer
after_drain r b queue next w = elim r.result [
  | NetResult.count n ↦ next (run_callback b.callback ok (with_socket r w))
  | NetResult.error e ↦
      let stopped : Writer = record (with_socket r w) {
        pending_messages = record { io_buffer = r.io_buffer; callback = b.callback } ∷ queue;
      } in
      if is_pending (NetResult.error e)
      then stopped
      else close_with_error (NetResult.error e) stopped
]

-- The loop of DidConsume, on the queue.
pub consume_queue : List PendingBlock → Writer → Writer
unfolding drain close_with_error
consume_queue [] w = record w { pending_messages = [] }
consume_queue (b ∷ queue) w =
    let next : Writer → Writer = consume_queue queue in
    if is_empty b.io_buffer
    then next (run_callback b.callback ok w)
    else after_drain (drain w.script b.io_buffer w.sent) b queue next w

-- DidConsume, on the queue; `none` stands for front() of an empty one.
pub consume_front : ℕ → Writer → List PendingBlock → Option Writer
unfolding consume_queue
consume_front n w [] = none
consume_front n w (b ∷ queue) = some (
    consume_queue (record b { io_buffer = drop n b.io_buffer } ∷ queue)
      (record w { sent = w.sent ++ take n b.io_buffer }))

-- DidConsume
pub did_consume : ℕ → Writer → Option Writer
unfolding consume_front
did_consume n w = consume_front n w w.pending_messages

-- DidWrite
unfoldable pub did_write : NetResult → Writer → Option Writer
unfolding did_consume close_with_error
did_write (NetResult.count zero) w = some (close_with_error (NetResult.error connection_reset) w)
did_write (NetResult.count (suc n)) w = did_consume (suc n) w
did_write (NetResult.error e) w = some (close_with_error (NetResult.error e) w)
