-- ===== src/Transport/MessageReader.antt =====
-- sippet/transport/chrome/message_reader.h and message_reader.cc. Message::Parse is the parameter
-- `parse`, and what a subclass reads from its socket the parameter `do_io_read`.
pub mod Hanging
pub mod Framing
pub mod Sequence
pub mod Readers
mod Tests
use sippet.Base.{
  ℕ, zero, suc, ◌+◌, Bool, true, false, ◌||◌, List, [], ◌∷◌, ◌++◌, length, take, drop, Option, none,
  some, is_some, ltb, ◌==◌, if◌then◌else◌, ◌⊎◌, inl, inr, Text, codes, starts_with, NetResult, ok,
  error, is_pending, is_negative, msg_too_big, invalid_response,
}
use sippet.Message.Header
use sippet.Message.Headers.{Headers, get}
use sippet.Message.Request.{Request, Response}

abbrev pub Message : Type 0
Message = Request ⊎ Response

abbrev pub headers_of : Message → Headers
headers_of (inl r) = r.headers
headers_of (inr s) = s.headers

-- set_content
abbrev pub set_content : Text → Message → Message
set_content content (inl r) = inl (record r { content = content })
set_content content (inr s) = inr (record s { content = content })

abbrev pub content_length : Message → Option ℕ
content_length m = get Header.as_content_length (headers_of m)

-- What a socket answers to a read.
pub data Answer : Type 0 where
  received : Text → Answer
  failed : NetResult → Answer

-- The read buffer: the bytes before data(), the unconsumed bytes, and what the socket will answer to
-- the coming reads; a socket without an answer returns ERR_IO_PENDING.
pub record Buffer : Type 0 where
  pub before : Text
  pub bytes : Text
  pub socket : List Answer

-- State
pub data State : Type 0 where
  none_state receive_data receive_data_complete : State
  read_headers read_headers_complete read_body read_body_complete : State

-- MessageReader; `reported` are the results that callbacks got.
pub record Reader : Type 0 where
  pub next_state : State
  pub current_message : Option Message
  pub buffer : Buffer
  pub has_callback : Bool
  pub reported : List NetResult

-- kReadBufSize
abbrev pub max_size : ℕ
max_size = 65536

-- DidConsume, of both readers
abbrev pub did_consume : ℕ → Buffer → Buffer
did_consume n b = record b { before = b.before ++ take n b.bytes; bytes = drop n b.bytes }

abbrev pub is_blank : ℕ → Bool
is_blank c = c == 13 || c == 10

-- The loop of DoReadHeaders, for a buffer with these bytes.
abbrev pub skip_blanks : Text → Buffer → Buffer
skip_blanks [] b = b
skip_blanks (c ∷ cs) b = if is_blank c then skip_blanks cs (did_consume 1 b) else b

abbrev pub shift : Option ℕ → Option ℕ
shift none = none
shift (some n) = some (suc n)

-- StringPiece::find
abbrev pub find_text : Text → Text → Option ℕ
find_text pattern [] = if starts_with [] pattern then some 0 else none
find_text pattern (c ∷ s) =
    if starts_with (c ∷ s) pattern then some 0 else shift (find_text pattern s)

abbrev pub crlf_crlf : Text
crlf_crlf = 13 ∷ 10 ∷ 13 ∷ 10 ∷ []

abbrev pub lf_lf : Text
lf_lf = 10 ∷ 10 ∷ []

-- `end + end_size`
abbrev pub header_size : Text → Option ℕ
header_size s = elim (find_text crlf_crlf s) [
  | some n ↦ some (n + 4)
  | none ↦ elim (find_text lf_lf s) [ some n ↦ some (n + 2) | none ↦ none ]
]

abbrev pub at : State → Reader → Reader
at state r = record r { next_state = state }

abbrev pub with_buffer : Buffer → Reader → Reader
with_buffer b r = record r { buffer = b }

-- ReadMore
abbrev pub read_more : Reader → NetResult × Reader
read_more r =
    if length r.buffer.bytes == max_size then (error msg_too_big, r) else (ok, at receive_data r)

-- DoReceiveDataComplete
abbrev pub do_receive_data_complete : NetResult → Reader → NetResult × Reader
do_receive_data_complete result r =
    if is_negative result
    then (result, r)
    else (ok, at (if is_some r.current_message then read_body else read_headers) r)

-- The test of the Content-Length in DoReadHeadersComplete.
abbrev pub expect_content : Option ℕ → Reader → NetResult × Reader
expect_content none r = (ok, at read_body_complete r)
expect_content (some n) r =
    if n == 0
    then (ok, at read_body_complete r)
    else if ltb max_size n
    then (error msg_too_big, r)
    else (ok, at read_body r)

-- DoReadHeadersComplete; `none` is a null pointer.
abbrev pub do_read_headers_complete : Reader → Option (NetResult × Reader)
do_read_headers_complete r = elim r.current_message [
  | none ↦ none
  | some m ↦ some (expect_content (content_length m) r)
]

-- The rest of DoReadBody, for a content of `n` bytes.
abbrev pub take_content : ℕ → Message → Reader → NetResult × Reader
take_content n m r = if ltb (length r.buffer.bytes) n then read_more r else (
  ok,
  record r {
    current_message = some (set_content (take n r.buffer.bytes) m);
    buffer = did_consume n r.buffer;
    next_state = read_body_complete;
  },
)

-- DoReadBody
abbrev pub do_read_body : Reader → Option (NetResult × Reader)
do_read_body r = elim r.current_message [
  | none ↦ none
  | some m ↦ elim (content_length m) [ none ↦ none | some n ↦ some (take_content n m r) ]
]

abbrev pub is_idle : State → Bool
is_idle none_state = true
is_idle _ = false

-- How DoLoop goes: it returns, it still runs when the fuel is used up, or it meets a fault.
pub data Outcome : Type 0 where
  ended : NetResult → Reader → Outcome
  running fault : Outcome

abbrev pub IoRead : Type 0
IoRead = Bool → Buffer → NetResult × Buffer

module _ (parse : Text → Option Message) (do_io_read : IoRead) where
  abbrev after_io : Reader → NetResult × Buffer → NetResult × Reader
  after_io r (result, b) = (result, record r { next_state = receive_data_complete; buffer = b })

  -- DoReceiveData
  abbrev pub do_receive_data : Reader → NetResult × Reader
  do_receive_data r = elim r.buffer.bytes [
    | _ ∷ _ ↦ (ok, at receive_data_complete r)
    | [] ↦ after_io r (do_io_read (is_some r.current_message) r.buffer)
  ]

  -- The end of DoReadHeaders: the headers are `n` bytes long.
  abbrev pub parse_headers : ℕ → Reader → NetResult × Reader
  parse_headers n r =
      let m = parse (take n r.buffer.bytes) in
      let r' = record r { current_message = m; buffer = did_consume n r.buffer } in
      if is_some m then (ok, at read_headers_complete r') else (error invalid_response, r')

  abbrev pub find_headers : Reader → NetResult × Reader
  find_headers r = elim r.buffer.bytes [
    | [] ↦ read_more r
    | _ ∷ _ ↦ elim (header_size r.buffer.bytes) [ none ↦ read_more r | some n ↦ parse_headers n r ]
  ]

  -- DoReadHeaders
  abbrev pub do_read_headers : Reader → NetResult × Reader
  do_read_headers r = find_headers (with_buffer (skip_blanks r.buffer.bytes r.buffer) r)

  -- The switch of DoLoop; next_state_ was reset before it.
  abbrev pub dispatch : State → NetResult → Reader → Option (NetResult × Reader)
  dispatch none_state rv r = some (rv, r)
  dispatch receive_data rv r = some (do_receive_data r)
  dispatch receive_data_complete rv r = some (do_receive_data_complete rv r)
  dispatch read_headers rv r = some (do_read_headers r)
  dispatch read_headers_complete rv r = do_read_headers_complete r
  dispatch read_body rv r = do_read_body r
  dispatch read_body_complete rv r = some (ok, r)

  -- DoLoop, in `fuel` rounds at most.
  unfoldable pub do_loop : ℕ → NetResult → Reader → Outcome
  do_loop zero rv r = running
  do_loop (suc fuel) rv r = elim (dispatch r.next_state rv (at none_state r)) [
    | none ↦ fault
    | some (rv', r') ↦
        let rest = do_loop fuel rv' r' in
        if is_pending rv' || is_idle r'.next_state then ended rv' r' else rest
  ]

  -- Read
  unfoldable pub read : ℕ → Reader → Outcome
  unfolding do_loop
  read fuel r = do_loop fuel ok (record r { has_callback = true; next_state = receive_data })

  -- DoCallback, after DoLoop in OnIOComplete
  abbrev pub do_callback : Outcome → Outcome
  do_callback (ended rv r) =
      if is_pending rv
      then ended rv r
      else ended rv (record r { has_callback = false; reported = rv ∷ r.reported })
  do_callback o = o

  -- OnIOComplete
  unfoldable pub on_io_complete : ℕ → NetResult → Reader → Outcome
  unfolding do_loop
  on_io_complete fuel result r = do_callback (do_loop fuel result r)

-- GetIncomingMessage
abbrev pub get_incoming_message : Reader → Option Message × Reader
get_incoming_message r = (r.current_message, record r { current_message = none })
