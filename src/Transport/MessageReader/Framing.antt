-- ===== src/Transport/MessageReader/Framing.antt =====
-- Messages that follow each other in the buffer of message_reader.cc.
use mathlib.Core.Option.{some-injective}
use sippet.Base.{
  ℕ, zero, suc, ◌+◌, ◌≤◌, ◌≡◌, ◌⊎◌, refl, sym, ◌∙◌, ap, Bool, true, false, List, [], ◌∷◌, ◌++◌,
  length, length-append, take, drop, Option, none, some, is_some, ltb, ◌==◌, Bool-cases,
  if◌then◌else◌, inl, inr, arith, Text, NetResult, ok, is_ok, error, msg_too_big, invalid_response,
  starts_with,
}
use sippet.Transport.MessageReader.{
  Message, Answer, Buffer, State, Reader, Outcome, IoRead, content_length, set_content, skip_blanks,
  header_size, find_text, shift, crlf_crlf, max_size, is_blank, at, read_more, take_content,
  receive_data, none_state, read_body, read_headers_complete, read_body_complete, ended,
  find_headers, parse_headers, expect_content, do_loop, read, did_consume, get_incoming_message,
}
use sippet.Transport.MessageReader.Hanging.{next, after_switch}

starts_with-append : (s r p : Text) → length p ≤ length s → starts_with (s ++ r) p ≡ starts_with s p
starts_with-append [] r [] h = ground arith
starts_with-append (c ∷ s) r [] h = refl
starts_with-append [] r (x ∷ p) h = absurd (omega arith)
starts_with-append (c ∷ s) r (x ∷ p) h = rw (starts_with-append s r p (omega arith)) refl

starts_with-length : (s p : Text) → starts_with s p ≡ true → length p ≤ length s
starts_with-length s [] e = omega arith
starts_with-length [] (x ∷ p) e = absurd (cc e)
starts_with-length (c ∷ s) (x ∷ p) e =
    let h : starts_with s p ≡ true = ground arith in let i = starts_with-length s p h in omega arith

shifted : (o : Option ℕ) (n : ℕ) → shift o ≡ some n → (k : ℕ) × (o ≡ some k) × (n ≡ suc k)
shifted none n e = absurd (cc e)
shifted (some k) n e = (k, refl, sym (some-injective (suc k) n e))

find-length : (p s : Text) (n : ℕ) → find_text p s ≡ some n → n + length p ≤ length s
find-length [] [] n e = let z = some-injective 0 n e in omega arith
find-length (x ∷ p) [] n e = absurd (cc e)
find-length p (c ∷ s) n e = elim (Bool-cases (starts_with (c ∷ s) p)) [
  | inl t ↦
      let z = some-injective 0 n (rw t at e) in
      let h = starts_with-length (c ∷ s) p t in omega arith
  | inr f ↦
      let (k, there, z) = shifted (find_text p s) n (rw f at e) in
      let h = find-length p s k there in omega arith
]

-- What is found in a text is found in a longer one.
pub find-append : (p s r : Text) (n : ℕ) → find_text p s ≡ some n → find_text p (s ++ r) ≡ some n
find-append [] [] [] n e = e
find-append [] [] (y ∷ r) n e = e
find-append (x ∷ p) [] r n e = absurd (cc e)
find-append p (c ∷ s) r n e =
    let h = find-length p (c ∷ s) n e in
    let same = starts_with-append (c ∷ s) r p (omega arith) in
    elim (Bool-cases (starts_with (c ∷ s) p)) [
      | inl t ↦ rw (same, t) (rw t at e)
      | inr f ↦
          let (k, there, z) = shifted (find_text p s) n (rw f at e) in
          rw (same, f, find-append p s r k there) (ap some (sym z))
    ]

take-all : (s r : Text) → take (length s) (s ++ r) ≡ s
take-all [] r = refl
take-all (c ∷ s) r = ap (λ x. c ∷ x) (take-all s r)

pub drop-all : (s r : Text) → drop (length s) (s ++ r) ≡ r
drop-all [] r = refl
drop-all (c ∷ s) r = drop-all s r

-- Headers with the empty line that ends them and no other, and a content, of a message.
pub record Frame : Type 0 where
  pub first : ℕ
  pub others : Text
  pub content : Text
  pub message : Message

abbrev pub headers : Frame → Text
headers f = f.first ∷ f.others

abbrev pub bytes_of : Frame → Text
bytes_of f = headers f ++ f.content

-- The headers start with no blank, end where the first CRLFCRLF ends, and are those of the message,
-- whose Content-Length is that of the content, which fits into the buffer; it may be missing where
-- the content is empty.
pub record IsFrame (parse : Text → Option Message) (f : Frame) : Type 0 where
  pub no_blank : is_blank f.first ≡ false
  pub end : ℕ
  pub end_lem : find_text crlf_crlf (headers f) ≡ some end
  pub length_lem : length (headers f) ≡ end + 4
  pub parsed : parse (headers f) ≡ some f.message
  pub sized :
      (content_length f.message ≡ some (length f.content))
      ⊎ ((content_length f.message ≡ none) × (f.content ≡ []))
  pub fits : ltb max_size (length f.content) ≡ false

-- The message with its content.
abbrev pub complete : Message → Text → Message
complete m [] = m
complete m (c ∷ cs) = set_content (c ∷ cs) m

module _ (parse : Text → Option Message) (do_io_read : IoRead) (has_callback : Bool)
    (reported : List NetResult) where
  abbrev pub with_state : State → Option Message → Buffer → Reader
  with_state state m b = record {
    next_state = state;
    current_message = m;
    buffer = b;
    has_callback = has_callback;
    reported = reported;
  }

  pub headers_read :
      (fuel : ℕ) (f : Frame) (before rest : Text) (socket : List Answer)
      → IsFrame parse f
      → let b : Buffer = record { before = before; bytes = headers f ++ rest; socket = socket } in
        do_loop parse do_io_read (suc (suc (suc fuel))) ok (with_state receive_data none b)
        ≡ do_loop parse do_io_read fuel ok
            (with_state read_headers_complete (some f.message) (did_consume (length (headers f)) b))
  unfolding do_loop
  headers_read fuel f before rest socket v =
      let b : Buffer = record { before = before; bytes = headers f ++ rest; socket = socket } in
      let r : Reader = with_state none_state none b in
      let size : header_size b.bytes ≡ some (length (headers f)) =
        rw (find-append crlf_crlf (headers f) rest v.end v.end_lem, header_size)
          (ap some (sym v.length_lem)) in
      ap
        (λ x. next parse do_io_read fuel (
          find_headers parse do_io_read (
            with_state none_state none
              (if x then skip_blanks (f.others ++ rest) (did_consume 1 b) else b))))
        v.no_blank
      ∙ ap
          (λ x. next parse do_io_read fuel (elim x as (λ _. NetResult × Reader) [
            | none ↦ read_more r
            | some n ↦ parse_headers parse do_io_read n r
          ]))
          size
      ∙ ap
          (λ m. next parse do_io_read fuel (
            let r' = record r {
              current_message = m;
              buffer = did_consume (length (headers f)) b;
            } in
            if is_some m then (ok, at read_headers_complete r') else (error invalid_response, r')))
          (ap parse (take-all (headers f) rest) ∙ v.parsed)

  pub content_read :
      (fuel : ℕ) (m : Message) (content rest : Text) (b : Buffer)
      → b.bytes ≡ content ++ rest
      → (content_length m ≡ some (length content)) ⊎ ((content_length m ≡ none) × (content ≡ []))
      → ltb max_size (length content) ≡ false
      → (b' : Buffer) × (b'.bytes ≡ rest)
        × (do_loop parse do_io_read
              (suc (suc (suc fuel)))
              ok
              (with_state read_headers_complete (some m) b)
            ≡ ended ok (with_state none_state (some (complete m content)) b'))
  unfolding do_loop
  content_read fuel m content rest b e (inr (n, z)) fits = (
    b,
    e ∙ ap (λ c. c ++ rest) z,
    ap
          (λ x.
            next parse do_io_read (suc (suc fuel))
              (expect_content x (with_state none_state (some m) b)))
          n
        ∙ ap (λ c. ended ok (with_state none_state (some (complete m c)) b)) (sym z),
  )
  content_read fuel m [] rest b e (inl n) fits = (
    b,
    e,
    ap
        (λ x.
          next parse do_io_read (suc (suc fuel))
            (expect_content x (with_state none_state (some m) b)))
        n,
  )
  content_read fuel m (c ∷ cs) rest b e (inl n) fits =
      let content : Text = c ∷ cs in
      let r : Reader = with_state none_state (some m) b in
      let positive : (length content == 0) ≡ false = ground arith in
      let enough : ltb (length b.bytes) (length content) ≡ false =
        let h = ap length e ∙ length-append content rest in ground arith in
      (
        did_consume (length content) b,
        ap (drop (length content)) e ∙ drop-all content rest,
        ap (λ x. next parse do_io_read (suc (suc fuel)) (expect_content x r)) n
            ∙ ap
                (λ x. next parse do_io_read (suc (suc fuel)) (
                  if x
                  then (ok, at read_body_complete r)
                  else if ltb max_size (length content)
                  then (error msg_too_big, r)
                  else (ok, at read_body r)))
                positive
            ∙ ap
                (λ x.
                  next parse do_io_read (suc (suc fuel))
                    (if x then (error msg_too_big, r) else (ok, at read_body r)))
                fits
            ∙ ap
                (λ x.
                  after_switch parse do_io_read (suc fuel)
                    (elim x as (λ _. Option (NetResult × Reader)) [
                      | none ↦ none
                      | some k ↦ some (take_content k m r)
                    ]))
                n
            ∙ (ap
                  (λ x. next parse do_io_read (suc fuel) (
                    if x then read_more r else (
                      ok,
                      record r {
                        current_message = some (set_content (take (length content) b.bytes) m);
                        buffer = did_consume (length content) b;
                        next_state = read_body_complete;
                      },
                    )))
                  enough
                ∙ ap
                    (λ t. ended ok (
                      with_state none_state (some (set_content t m))
                        (did_consume (length content) b)))
                    (ap (take (length content)) e ∙ take-all content rest)),
      )

-- The messages of `n` Reads, each taken by GetIncomingMessage; `none` where a Read does not return
-- net::OK with a message in `fuel` rounds.
module _ (parse : Text → Option Message) (do_io_read : IoRead) (fuel : ℕ) where
  abbrev pub taken : Outcome → Option (Message × Reader)
  taken (ended rv r) = elim r.current_message [
    | none ↦ none
    | some m ↦ if is_ok rv then some (m, (get_incoming_message r).1) else none
  ]
  taken _ = none

  unfoldable pub read_messages : ℕ → Reader → Option (List Message × Reader)
  unfolding read
  read_messages zero r = some ([], r)
  read_messages (suc n) r = elim (taken (read parse do_io_read fuel r)) [
    | none ↦ none
    | some (m, r') ↦ elim (read_messages n r') [ none ↦ none | some (ms, r2) ↦ some (m ∷ ms, r2) ]
  ]
