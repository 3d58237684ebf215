-- ===== src/Transport/StreamWriter/Tests.antt =====
-- Runs of the stream writer.
use sippet.Base.{◌≡◌, refl, List, [], ◌∷◌, some, codes, NetResult, ok, pending}
use sippet.Transport.StreamWriter.{Writer, drain, write, did_write}
use sippet.Transport.StreamWriter.Order.{Balanced}
use sippet.Transport.StreamWriter.History.{Run, Run-Balanced, started, written, completed}

abbrev script : List NetResult
script = NetResult.count 1 ∷ pending ∷ NetResult.count 5 ∷ []

abbrev empty_writer : Writer
empty_writer = record { error = ok; pending_messages = []; script = script; sent = []; ran = [] }

abbrev after_writes : Writer
after_writes = record {
  error = ok;
  pending_messages =
      record { io_buffer = codes "bc"; callback = 1 }
      ∷ record { io_buffer = codes "de"; callback = 2 }
      ∷ [];
  script = NetResult.count 5 ∷ [];
  sent = codes "a";
  ran = [];
}

abbrev after_completion : Writer
after_completion = record {
  error = ok;
  pending_messages = [];
  script = [];
  sent = codes "abcde";
  ran = (1, ok) ∷ (2, ok) ∷ [];
}

-- A partial write, a frame that waits behind it, and a completion that empties the queue.
write_lem : write (codes "de") 2 (write (codes "abc") 1 empty_writer).1 ≡ (pending, after_writes)
unfolding write drain
write_lem = refl

did_write_lem : did_write (NetResult.count 2) after_writes ≡ some after_completion
unfolding did_write drain
did_write_lem = refl

run_lem : Run (codes "abcde") (1 ∷ 2 ∷ []) after_completion
unfolding write drain did_write
run_lem =
    completed (NetResult.count 2) refl refl
      (written (codes "de") 2 (written (codes "abc") 1 (started script)))

Run-Balanced_example : Balanced (codes "abcde") (1 ∷ 2 ∷ []) after_completion
Run-Balanced_example = Run-Balanced run_lem
