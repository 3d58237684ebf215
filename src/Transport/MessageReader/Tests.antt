-- ===== src/Transport/MessageReader/Tests.antt =====
-- Runs of the message reader.
use sippet.Base.{◌≡◌, refl, true, false, [], ◌∷◌, ◌++◌, Option, none, some, inl, Text, codes}
use sippet.Message.Header
use sippet.Message.Headers.{get}
use sippet.Message.Method.{invite}
use sippet.Message.Request.{incoming}
use sippet.Message.Samples.{sample_request}
use sippet.Transport.MessageReader.{
  Message, Reader, received, read, running, none_state, receive_data_complete,
}
use sippet.Transport.MessageReader.Framing.{Frame, IsFrame, headers, read_messages}
use sippet.Transport.MessageReader.Hanging.{read_hangs}
use sippet.Transport.MessageReader.Readers.{
  Delivered, io_done, stream_completed, stream_io_read, datagram_completed, datagram_io_read,
  message_arrives,
}
use sippet.Transport.MessageReader.Sequence.{all_bytes, messages_of, enough, frames_read_back}

-- Every header is read as that of an INVITE with two bytes of content.
abbrev two_bytes : Message
two_bytes = inl (record (sample_request incoming invite) { headers = Header.content_length 2 ∷ [] })

abbrev parse : Text → Option Message
parse t = some two_bytes

abbrev frame : Frame
frame = record {
  first = 73;
  others = 13 ∷ 10 ∷ 13 ∷ 10 ∷ [];
  content = codes "hi";
  message = two_bytes;
}

frame-IsFrame : IsFrame parse frame
unfolding get
frame-IsFrame = record {
  no_blank = refl;
  end = 1;
  end_lem = refl;
  length_lem = refl;
  parsed = refl;
  sized = inl refl;
  fits = refl;
}

abbrev holding : Text → Reader
holding bytes = record {
  next_state = none_state;
  current_message = none;
  buffer = record { before = []; bytes = bytes; socket = [] };
  has_callback = false;
  reported = [];
}

-- A keep-alive and the beginning of a request.
abbrev beginning : Text
beginning = 13 ∷ 10 ∷ codes "INVITE"

read_hangs_example : read parse stream_io_read 1000 (holding beginning) ≡ running
read_hangs_example = read_hangs parse stream_io_read 1000 (holding beginning) (
    inl (
      refl,
      record { first = 73; others = codes "NVITE"; starts = refl; no_end = refl; not_full = refl },
    ))

abbrev two_frames : Text
two_frames = all_bytes (frame ∷ frame ∷ []) (codes "rest")

frames_read_back_example :
    (r' : Reader) × (read_messages parse stream_io_read (enough 0) 2 (holding two_frames)
      ≡ some (messages_of (frame ∷ frame ∷ []), r'))
    × (r'.current_message ≡ none)
    × (r'.buffer.bytes ≡ codes "rest")
frames_read_back_example =
    frames_read_back parse stream_io_read 0 (frame ∷ frame ∷ []) (codes "rest") (holding two_frames)
      (frame-IsFrame, (frame-IsFrame, tt)) refl refl

abbrev waiting : Reader
waiting = record (holding []) { next_state = receive_data_complete; has_callback = true }

message_arrives_example :
    Delivered parse 0 frame [] waiting (
      io_done stream_completed parse stream_io_read 5
        (received (headers frame ++ (frame.content ++ [])))
        waiting)
    × Delivered parse 0 frame [] waiting (
        io_done datagram_completed parse datagram_io_read 5
          (received (headers frame ++ (frame.content ++ [])))
          waiting)
message_arrives_example =
    message_arrives parse 0 frame [] waiting frame-IsFrame
      (record { waits = refl; no_message = refl; nothing_before = refl })
