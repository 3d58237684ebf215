-- ===== src/Transport/MessageReader/Readers.antt =====
-- sippet/transport/chrome/chrome_stream_reader.cc and chrome_datagram_reader.cc: what they read from
-- their sockets. A read that returned ERR_IO_PENDING ends later with an answer.
use sippet.Base.{
  ℕ, suc, ◌+◌, ◌≡◌, refl, ◌∙◌, ap, Bool, true, false, ◌&&◌, not, List, [], ◌∷◌, ◌++◌, length,
  Option, none, some, ◌==◌, if◌then◌else◌, Text, NetResult, count, ok, error, pending,
  connection_closed, msg_too_big, invalid_response,
}
use sippet.Transport.MessageReader.{
  Message, Answer, Buffer, Reader, Outcome, IoRead, received, failed, max_size,
  receive_data_complete, none_state, ended, do_loop, on_io_complete, read, did_consume, do_callback,
}
use sippet.Transport.MessageReader.Framing.{
  Frame, IsFrame, headers, complete, with_state, headers_read, content_read, drop-all,
}

abbrev is_nil : Text → Bool
is_nil [] = true
is_nil _ = false

-- The buffer as ChromeStreamReader::DoIORead arranges it: bytes that are left go to its start.
abbrev pub rearrange : Buffer → Buffer
rearrange b = record b { before = b.bytes; bytes = [] }

-- Socket::Read of a stream. The mark of the end of the bytes stays, whatever comes at once.
abbrev pub stream_socket_read : Buffer → NetResult × Buffer
stream_socket_read b = elim b.socket [
  | [] ↦ (pending, b)
  | received t ∷ s ↦ (count (length t), record b { socket = s })
  | failed e ∷ s ↦ (e, record b { socket = s })
]

-- ChromeStreamReader::DoIORead
abbrev pub stream_io_read : IoRead
stream_io_read has_message b =
    if length b.before + length b.bytes == max_size
    then (error msg_too_big, b)
    else stream_socket_read (rearrange b)

-- ChromeStreamReader::ReceiveDataComplete
abbrev pub stream_completed : Answer → Buffer → NetResult × Buffer
stream_completed (failed e) b = (e, b)
stream_completed (received []) b = (error connection_closed, b)
stream_completed (received (c ∷ t)) b = (ok, record b { before = []; bytes = b.before ++ c ∷ t })

-- ChromeDatagramReader::OnReceiveDataComplete, with ReceivedData
abbrev pub datagram_completed : Answer → Buffer → NetResult × Buffer
datagram_completed (failed e) b = (e, b)
datagram_completed (received []) b = (error connection_closed, b)
datagram_completed (received (c ∷ t)) b = (ok, record b { before = []; bytes = c ∷ t })

abbrev pub datagram_socket_read : Buffer → NetResult × Buffer
datagram_socket_read b = elim b.socket [
  | [] ↦ (pending, b)
  | answer ∷ s ↦ datagram_completed answer (record b { socket = s })
]

-- ChromeDatagramReader::DoIORead
abbrev pub datagram_io_read : IoRead
datagram_io_read has_message b =
    if has_message
    then (error invalid_response, b)
    else if not (is_nil b.bytes) && is_nil b.before
    then (error invalid_response, b)
    else datagram_socket_read b

-- The end of a pending read, with what it answers.
abbrev pub io_done :
    (Answer → Buffer → NetResult × Buffer)
    → (Text → Option Message)
    → IoRead
    → ℕ
    → Answer
    → Reader
    → Outcome
unfolding on_io_complete
io_done completed parse io fuel answer r =
    let (result, b) = completed answer r.buffer in
    on_io_complete parse io fuel result (record r { buffer = b })

-- A reader whose read of the socket is pending, with no message and no bytes.
pub record IsWaiting (r : Reader) : Type 0 where
  pub waits : r.next_state ≡ receive_data_complete
  pub no_message : r.current_message ≡ none
  pub nothing_before : r.buffer.before ≡ []

module _ (parse : Text → Option Message) (more : ℕ) where
  abbrev rounds : ℕ
  rounds = suc (suc (suc (suc (suc more))))

  -- What a message's bytes lead to.
  abbrev pub Delivered : Frame → Text → Reader → Outcome → Type 0
  Delivered f rest r o =
      (b : Buffer) × (b.bytes ≡ rest)
      × (o
          ≡ ended ok (record {
            next_state = none_state;
            current_message = some (complete f.message f.content);
            buffer = b;
            has_callback = false;
            reported = ok ∷ r.reported;
          }))

  arrived :
      (io : IoRead) (f : Frame) (before rest : Text) (socket : List Answer) (callback : Bool)
      (reported : List NetResult)
      → IsFrame parse f
      → (b : Buffer) × (b.bytes ≡ rest)
        × (on_io_complete parse io rounds ok (
              with_state parse io callback reported receive_data_complete none (record {
                before = before;
                bytes = headers f ++ (f.content ++ rest);
                socket = socket;
              }))
            ≡ ended ok (record {
              next_state = none_state;
              current_message = some (complete f.message f.content);
              buffer = b;
              has_callback = false;
              reported = ok ∷ reported;
            }))
  unfolding on_io_complete do_loop
  arrived io f before rest socket callback reported v =
      let tail : Text = f.content ++ rest in
      let b : Buffer = record { before = before; bytes = headers f ++ tail; socket = socket } in
      let start =
        headers_read parse io callback reported (suc (suc (suc more))) f before tail socket v in
      let (b', left, finish) =
        content_read parse io callback reported more f.message f.content rest
          (did_consume (length (headers f)) b) (drop-all (headers f) tail) v.sized v.fits in
      (b', left, ap (do_callback parse io) (start ∙ finish))

  -- When the pending read of a stream or of a datagram reader without a message ends with the bytes
  -- of a frame and what follows it, the loop ends in at most five rounds, the callback gets net::OK,
  -- once, the reader has the message with its content, and what follows stays in the buffer.
  pub message_arrives :
      (f : Frame) (rest : Text) (r : Reader)
      → IsFrame parse f
      → IsWaiting r
      → let answer : Answer = received (headers f ++ (f.content ++ rest)) in
        Delivered f rest r (io_done stream_completed parse stream_io_read rounds answer r)
        × Delivered f rest r (io_done datagram_completed parse datagram_io_read rounds answer r)
  unfolding io_done
  message_arrives f rest r v w =
      let bytes : Text = headers f ++ (f.content ++ rest) in
      let (b, left, e) =
        arrived stream_io_read f [] rest r.buffer.socket r.has_callback r.reported v in
      let (b', left', e') =
        arrived datagram_io_read f [] rest r.buffer.socket r.has_callback r.reported v in
      (
        (
          b,
          left,
          (λ i. on_io_complete parse stream_io_read rounds ok (
                with_state parse stream_io_read r.has_callback r.reported (w.waits i)
                  (w.no_message i)
                  (record {
                    before = [];
                    bytes = w.nothing_before i ++ bytes;
                    socket = r.buffer.socket;
                  })))
              ∙ e,
        ),
        (
          b',
          left',
          (λ i. on_io_complete parse datagram_io_read rounds ok (
                with_state parse datagram_io_read r.has_callback r.reported (w.waits i)
                  (w.no_message i)
                  (record { before = []; bytes = bytes; socket = r.buffer.socket })))
              ∙ e',
        ),
      )

  -- Bytes that a stream socket returns at once are lost: the reader reads again, and then waits with
  -- no message and no bytes.
  pub stream_read_at_once_lost :
      (c : ℕ) (t : Text) (reported : List NetResult)
      → read parse stream_io_read rounds (
          with_state parse stream_io_read false reported none_state none
            (record { before = []; bytes = []; socket = received (c ∷ t) ∷ [] }))
        ≡ ended pending (
            with_state parse stream_io_read true reported receive_data_complete none
              (record { before = []; bytes = []; socket = [] }))
  unfolding read do_loop
  stream_read_at_once_lost c t reported = refl
