-- ===== src/Transport/MessageReader/Sequence.antt =====
-- Messages that stand in the buffer of message_reader.cc are read back in their order.
use sippet.Base.{
  ℕ, suc, ◌≡◌, refl, ◌∙◌, ap, List, [], ◌∷◌, ◌++◌, length, All, Option, none, some, Text, ok, true,
}
use sippet.Transport.MessageReader.{
  Message, Buffer, Reader, IoRead, receive_data, none_state, read_headers_complete, did_consume,
  do_loop, read,
}
use sippet.Transport.MessageReader.Framing.{
  Frame, IsFrame, headers, complete, with_state, headers_read, content_read, drop-all, taken,
  read_messages,
}

-- The bytes of the frames, and what follows them.
abbrev pub all_bytes : List Frame → Text → Text
all_bytes [] rest = rest
all_bytes (f ∷ fs) rest = headers f ++ (f.content ++ all_bytes fs rest)

abbrev pub messages_of : List Frame → List Message
messages_of [] = []
messages_of (f ∷ fs) = complete f.message f.content ∷ messages_of fs

-- Six rounds of the loop, and more.
abbrev pub enough : ℕ → ℕ
enough more = suc (suc (suc (suc (suc (suc more)))))

module _ (parse : Text → Option Message) (do_io_read : IoRead) (more : ℕ) where
  -- A reader without a message, whose buffer has these bytes.
  record Holds (bytes : Text) (r : Reader) : Type 0 where
    no_message : r.current_message ≡ none
    holds : r.buffer.bytes ≡ bytes

  frame_read :
      (f : Frame) (rest : Text) (r : Reader)
      → IsFrame parse f
      → Holds (headers f ++ (f.content ++ rest)) r
      → (r' : Reader) × Holds rest r'
        × (taken parse do_io_read (enough more) (read parse do_io_read (enough more) r)
            ≡ some (complete f.message f.content, r'))
  unfolding read
  frame_read f rest r v h =
      let tail : Text = f.content ++ rest in
      let b : Buffer = record r.buffer { bytes = headers f ++ tail } in
      let b1 : Buffer = did_consume (length (headers f)) b in
      let start : do_loop parse do_io_read (enough more) ok
            (record r { has_callback = true; next_state = receive_data })
          ≡ do_loop parse do_io_read (suc (suc (suc more))) ok (
              with_state parse do_io_read true r.reported read_headers_complete (some f.message)
                b1) =
        ap
          (λ m.
            do_loop parse do_io_read (enough more) ok
              (with_state parse do_io_read true r.reported receive_data m r.buffer))
          h.no_message
        ∙ ap
            (λ x. do_loop parse do_io_read (enough more) ok (
              with_state parse do_io_read true r.reported receive_data none
                (record r.buffer { bytes = x })))
            h.holds
        ∙ headers_read parse do_io_read true r.reported (suc (suc (suc more))) f r.buffer.before
            tail r.buffer.socket v in
      let (b', left, finish) =
        content_read parse do_io_read true r.reported more f.message f.content rest b1
          (drop-all (headers f) tail) v.sized v.fits in
      (
        with_state parse do_io_read true r.reported none_state none b',
        record { no_message = refl; holds = left },
        ap (taken parse do_io_read (enough more)) (start ∙ finish),
      )

  -- The messages whose frames follow each other at the start of the buffer of a reader without a
  -- message are read back in their order, each with its content, by as many Reads, each of at most
  -- six rounds of the loop and with no read of the socket; what follows the frames stays in the buffer.
  pub frames_read_back :
      (fs : List Frame) (rest : Text) (r : Reader)
      → All (IsFrame parse) fs
      → r.current_message ≡ none
      → r.buffer.bytes ≡ all_bytes fs rest
      → (r' : Reader) × (read_messages parse do_io_read (enough more) (length fs) r
          ≡ some (messages_of fs, r'))
        × (r'.current_message ≡ none)
        × (r'.buffer.bytes ≡ rest)
  unfolding read_messages
  frames_read_back [] rest r v e h = (r, refl, e, h)
  frames_read_back (f ∷ fs) rest r (v, vs) e h =
      let (r1, holds, one) =
        frame_read f (all_bytes fs rest) r v (record { no_message = e; holds = h }) in
      let (r', others, e', h') = frames_read_back fs rest r1 vs holds.no_message holds.holds in
      (r', rw (one, read_messages) (rw (others, read_messages) refl), e', h')
