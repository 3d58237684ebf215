-- ===== src/Transport/MessageReader/Hanging.antt =====
-- A reader that has a part of a message: DoLoop of message_reader.cc.
use sippet.Base.{
  ℕ, zero, suc, ◌≡◌, ◌⊎◌, refl, sym, ◌∙◌, ap, subst, Bool, true, false, ◌||◌, List, [], ◌∷◌, length,
  take, Option, none, some, ltb, ◌==◌, Bool-cases, if◌then◌else◌, inl, inr, Text, NetResult, ok,
  error, msg_too_big, is_pending,
}
use sippet.Transport.MessageReader.{
  Message, Answer, Buffer, Reader, Outcome, set_content, read_body_complete, IoRead, content_length,
  skip_blanks, header_size, max_size, is_blank, is_idle, at, read_more, take_content, receive_data,
  none_state, ended, running, fault, find_headers, parse_headers, do_loop, read, did_consume,
  do_read_body,
}

-- The bytes after the blanks at the start.
abbrev pub trim : Text → Text
trim [] = []
trim (c ∷ cs) = if is_blank c then trim cs else c ∷ cs

pub skip_blanks-bytes : (b : Buffer) → (skip_blanks b.bytes b).bytes ≡ trim b.bytes
skip_blanks-bytes b = go b.bytes b refl
  where
    go : (cs : Text) (b : Buffer) → b.bytes ≡ cs → (skip_blanks cs b).bytes ≡ trim cs
    go [] b e = e
    go (c ∷ cs) b e = elim (Bool-cases (is_blank c)) [
      | inr f ↦ rw f e
      | inl t ↦ rw t (go cs (did_consume 1 b) (rw e refl))
    ]

pub trim-trim : (s : Text) → trim (trim s) ≡ trim s
trim-trim [] = refl
trim-trim (c ∷ cs) = elim (Bool-cases (is_blank c)) [
  | inl t ↦ rw t (trim-trim cs)
  | inr f ↦ rw f (rw f refl)
]

-- Some bytes of headers, without their end, and not a full buffer of them.
pub record PartOfHeaders (s : Text) : Type 0 where
  pub first : ℕ
  pub others : Text
  pub starts : trim s ≡ first ∷ others
  pub no_end : header_size (trim s) ≡ none
  pub not_full : (length (trim s) == max_size) ≡ false

trimmed : (s : Text) → PartOfHeaders s → PartOfHeaders (trim s)
trimmed s p = record {
  first = p.first;
  others = p.others;
  starts = trim-trim s ∙ p.starts;
  no_end = ap header_size (trim-trim s) ∙ p.no_end;
  not_full = ap (λ x. length x == max_size) (trim-trim s) ∙ p.not_full;
}

-- Some bytes of the content of a message, but not all, and not a full buffer of them.
pub record PartOfContent (m : Message) (s : Text) : Type 0 where
  pub first : ℕ
  pub others : Text
  pub starts : s ≡ first ∷ others
  pub size : ℕ
  pub size_lem : content_length m ≡ some size
  pub missing : ltb (length s) size ≡ true
  pub not_full : (length s == max_size) ≡ false

module _ (parse : Text → Option Message) (do_io_read : IoRead) where
  abbrev pub next : ℕ → NetResult × Reader → Outcome
  unfolding do_loop
  next fuel (rv, r) =
      if is_pending rv || is_idle r.next_state
      then ended rv r
      else do_loop parse do_io_read fuel rv r

  abbrev pub after_switch : ℕ → Option (NetResult × Reader) → Outcome
  unfolding do_loop
  after_switch fuel none = fault
  after_switch fuel (some p) = next fuel p

  module _ (has_callback : Bool) (reported : List NetResult) where
    abbrev pub with_message : Option Message → Buffer → Reader
    with_message m b = record {
      next_state = receive_data;
      current_message = m;
      buffer = b;
      has_callback = has_callback;
      reported = reported;
    }

    find_headers-more :
        (r : Reader) {c : ℕ} {cs : Text}
        → r.buffer.bytes ≡ c ∷ cs
        → header_size r.buffer.bytes ≡ none
        → (length r.buffer.bytes == max_size) ≡ false
        → find_headers parse do_io_read r ≡ (ok, at receive_data r)
    find_headers-more r {c} {cs} e h f =
        ap
          (λ x. elim x as (λ _. NetResult × Reader) [
            | [] ↦ read_more r
            | _ ∷ _ ↦ elim (header_size r.buffer.bytes) [
              | none ↦ read_more r
              | some n ↦ parse_headers parse do_io_read n r
            ]
          ])
          e
        ∙ ap
            (λ x. elim x as (λ _. NetResult × Reader) [
              | none ↦ read_more r
              | some n ↦ parse_headers parse do_io_read n r
            ])
            h
        ∙ ap (λ b. if b then (error msg_too_big, r) else (ok, at receive_data r)) f

    lap :
        (fuel : ℕ) (before : Text) (c : ℕ) (cs : Text) (socket : List Answer)
        → let b : Buffer = record { before = before; bytes = c ∷ cs; socket = socket } in
          PartOfHeaders (c ∷ cs)
          → do_loop parse do_io_read (suc (suc (suc fuel))) ok (with_message none b)
            ≡ do_loop parse do_io_read fuel ok (with_message none (skip_blanks (c ∷ cs) b))
    unfolding do_loop
    lap fuel before c cs socket p =
        let b : Buffer = record { before = before; bytes = c ∷ cs; socket = socket } in
        let b' : Buffer = skip_blanks (c ∷ cs) b in
        let same : b'.bytes ≡ trim (c ∷ cs) = skip_blanks-bytes b in
        ap (next fuel) (
          find_headers-more (at none_state (with_message none b')) (same ∙ p.starts)
            (ap header_size same ∙ p.no_end) (ap (λ s. length s == max_size) same ∙ p.not_full))

    read_body-more :
        (m : Message) (r : Reader) (p : PartOfContent m r.buffer.bytes)
        → take_content p.size m r ≡ (ok, at receive_data r)
    read_body-more m r p =
        ap (λ b. if b then read_more r else taken) p.missing
        ∙ ap (λ b. if b then (error msg_too_big, r) else (ok, at receive_data r)) p.not_full
      where
        taken : NetResult × Reader
        taken = (
          ok,
          record r {
            current_message = some (set_content (take p.size r.buffer.bytes) m);
            buffer = did_consume p.size r.buffer;
            next_state = read_body_complete;
          },
        )

    content_lap :
        (fuel : ℕ) (m : Message) (before : Text) (c : ℕ) (cs : Text) (socket : List Answer)
        → let r : Reader =
            with_message (some m) (record { before = before; bytes = c ∷ cs; socket = socket }) in
          PartOfContent m (c ∷ cs)
          → do_loop parse do_io_read (suc (suc (suc fuel))) ok r
            ≡ do_loop parse do_io_read fuel ok r
    unfolding do_loop
    content_lap fuel m before c cs socket p =
        let r : Reader =
          at none_state
            (with_message (some m) (record { before = before; bytes = c ∷ cs; socket = socket })) in
        rw (p.size_lem, do_read_body) (ap (next fuel) (read_body-more m r p))

    headers-running :
        (fuel : ℕ) (before bytes : Text) (socket : List Answer)
        → PartOfHeaders bytes
        → do_loop parse do_io_read fuel ok
            (with_message none (record { before = before; bytes = bytes; socket = socket }))
          ≡ running
    unfolding do_loop
    headers-running fuel before [] socket p = absurd (cc p.starts)
    headers-running zero before (c ∷ cs) socket p = refl
    headers-running (suc zero) before (c ∷ cs) socket p = refl
    headers-running (suc (suc zero)) before (c ∷ cs) socket p = refl
    headers-running (suc (suc (suc fuel))) before (c ∷ cs) socket p =
        let b : Buffer =
          skip_blanks (c ∷ cs) (record { before = before; bytes = c ∷ cs; socket = socket }) in
        lap fuel before c cs socket p
        ∙ headers-running fuel b.before b.bytes b.socket (
            subst PartOfHeaders
              (sym
                (skip_blanks-bytes (record { before = before; bytes = c ∷ cs; socket = socket })))
              (trimmed (c ∷ cs) p))

    content-running :
        (fuel : ℕ) (m : Message) (before bytes : Text) (socket : List Answer)
        → PartOfContent m bytes
        → do_loop parse do_io_read fuel ok
            (with_message (some m) (record { before = before; bytes = bytes; socket = socket }))
          ≡ running
    unfolding do_loop
    content-running fuel m before [] socket p = absurd (cc p.starts)
    content-running zero m before (c ∷ cs) socket p = refl
    content-running (suc zero) m before (c ∷ cs) socket p = refl
    content-running (suc (suc zero)) m before (c ∷ cs) socket p = refl
    content-running (suc (suc (suc fuel))) m before (c ∷ cs) socket p =
        content_lap fuel m before c cs socket p ∙ content-running fuel m before (c ∷ cs) socket p

  -- Whatever the socket would answer, a Read does not end, however many rounds its loop runs, while
  -- the buffer holds, after its blanks, some bytes of a header without the header's end, or some
  -- bytes of the content of a message but fewer than its Content-Length says, where the buffer is not
  -- full of them.
  pub read_hangs :
      (fuel : ℕ) (r : Reader)
      → ((r.current_message ≡ none) × PartOfHeaders r.buffer.bytes)
        ⊎ ((m : Message) × (r.current_message ≡ some m) × PartOfContent m r.buffer.bytes)
      → read parse do_io_read fuel r ≡ running
  unfolding read
  read_hangs fuel r (inl (n, p)) =
      ap (λ m. do_loop parse do_io_read fuel ok (with_message true r.reported m r.buffer)) n
      ∙ headers-running true r.reported fuel r.buffer.before r.buffer.bytes r.buffer.socket p
  read_hangs fuel r (inr (m, e, p)) =
      ap (λ m. do_loop parse do_io_read fuel ok (with_message true r.reported m r.buffer)) e
      ∙ content-running true r.reported fuel m r.buffer.before r.buffer.bytes r.buffer.socket p
