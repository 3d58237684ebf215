-- ===== src/Transport/StreamWriter/History.antt =====
-- What Write and DidWrite of chrome_stream_writer.cc do to the bytes and the callbacks.
use mathlib.Core.Option.{some-injective}
use sippet.Base.{
  subst, ℕ, zero, suc, ◌≡◌, inl, inr, refl, sym, ◌∙◌, ap, false, List, [], ◌∷◌, ◌++◌, some, take,
  drop, append_assoc, append-nil, take-append-drop, if◌then◌else◌, Bool-cases, Text, NetError,
  NetResult, ok, pending, is_ok, is_pending, connection_reset,
}
use sippet.Transport.StreamWriter.{
  PendingBlock, Writer, Drained, drain, is_empty, close_with_error, after_first_drain, push_back,
  write, consume_front, did_consume, did_write,
}
use sippet.Transport.StreamWriter.Order.{
  unsent, waiting, called, Balanced, open_writer, closed_writer, drain_moves, drain_ok,
  close-Balanced, consume_queue-Balanced, waiting-append, unsent-append,
}

-- What a Write adds.
abbrev pub added_bytes : Writer → Text → Text
added_bytes w buf = if is_ok w.error then buf else []

abbrev pub added_callbacks : NetResult → ℕ → List ℕ
added_callbacks result callback = if is_pending result then callback ∷ [] else []

first_drain-Balanced :
    (buf : Text) (callback : ℕ) (w : Writer) {bytes : Text} {callbacks : List ℕ}
    → w.error ≡ ok
    → w.pending_messages ≡ []
    → w.sent ≡ bytes
    → called w.ran ≡ callbacks
    → let r = after_first_drain (drain w.script buf w.sent) callback w in
      Balanced (bytes ++ buf) (callbacks ++ added_callbacks r.0 callback) r.1
first_drain-Balanced buf callback w {bytes} {callbacks} e p b c = drained r.result refl
  where
    r : Drained
    r = drain w.script buf w.sent

    moved : r.sent ++ r.io_buffer ≡ bytes ++ buf
    moved = drain_moves w.script buf w.sent ∙ ap (λ l. l ++ buf) b

    drained :
        (result : NetResult)
        → r.result ≡ result
        → Balanced
            (bytes ++ buf)
            (callbacks ++ added_callbacks (after_first_drain r callback w).0 callback)
            (after_first_drain r callback w).1
    drained (NetResult.count n) q =
        let (none_left, o) = drain_ok w.script buf w.sent n q in
        rw o (
          open_writer refl
            (ap (λ l. r.sent ++ unsent l) p ∙ ap (λ l. r.sent ++ l) (sym none_left) ∙ moved)
            (ap (λ l. called w.ran ++ waiting l) p ∙ ap (λ l. l ++ []) c))
    drained (NetResult.error d) q = elim (Bool-cases (is_pending (NetResult.error d))) [
      | inl t ↦
          rw (q, t)
            (open_writer e (ap (λ l. r.sent ++ l) (append-nil _) ∙ moved)
              (ap (λ l. l ++ callback ∷ []) c))
      | inr f ↦ rw (q, f) (closed_writer r.io_buffer refl f p moved (rw f (c ∙ sym (append-nil _))))
    ]

write-Balanced :
    (buf : Text) (callback : ℕ) (w : Writer) {bytes : Text} {callbacks : List ℕ}
    → Balanced bytes callbacks w
    → let r = write buf callback w in
      Balanced (bytes ++ added_bytes w buf) (callbacks ++ added_callbacks r.0 callback) r.1
unfolding write
write-Balanced buf callback w (closed_writer rest e p none_left b c) =
    rw e (rw p (closed_writer rest e p none_left (b ∙ sym (append-nil _)) (c ∙ sym (append-nil _))))
write-Balanced buf callback w {bytes} {callbacks} (open_writer e b c) =
    rw (ap is_ok e) (queued w.pending_messages refl)
  where
    queued :
        (queue : List PendingBlock)
        → w.pending_messages ≡ queue
        → let r =
            if is_empty w.pending_messages
            then after_first_drain (drain w.script buf w.sent) callback w
            else (pending, push_back buf callback w) in
          Balanced (bytes ++ buf) (callbacks ++ added_callbacks r.0 callback) r.1
    queued [] q = rw (ap is_empty q) (
        first_drain-Balanced buf callback w e q
          (sym (append-nil _) ∙ ap (λ l. w.sent ++ unsent l) (sym q) ∙ b)
          (sym (append-nil _) ∙ ap (λ l. called w.ran ++ waiting l) (sym q) ∙ c))
    queued (m ∷ queue) q = rw (ap is_empty q) (
        open_writer e
          (ap (λ l. w.sent ++ l) (unsent-append w.pending_messages _)
            ∙ sym (append_assoc w.sent _ _)
            ∙ ap (λ l. l ++ (buf ++ [])) b
            ∙ ap (λ l. bytes ++ l) (append-nil buf))
          (ap (λ l. called w.ran ++ l) (waiting-append w.pending_messages _)
            ∙ sym (append_assoc (called w.ran) _ _)
            ∙ ap (λ l. l ++ callback ∷ []) c))

-- Closing a writer, open or closed.
closing-Balanced :
    (e : NetError) (w : Writer) {bytes : Text} {callbacks : List ℕ}
    → is_pending (NetResult.error e) ≡ false
    → Balanced bytes callbacks w
    → Balanced bytes callbacks (close_with_error (NetResult.error e) w)
unfolding close_with_error
closing-Balanced e w p (open_writer o b c) = close-Balanced e w p b c
closing-Balanced e w p (closed_writer rest o i none_left b c) =
    rw (none_left, close_with_error) (closed_writer rest refl p refl b c)

consume_front-Balanced :
    (n : ℕ) (w v : Writer) (queue : List PendingBlock) {bytes : Text} {callbacks : List ℕ}
    → consume_front n w queue ≡ some v
    → w.error ≡ ok
    → w.sent ++ unsent queue ≡ bytes
    → called w.ran ++ waiting queue ≡ callbacks
    → Balanced bytes callbacks v
unfolding consume_front
consume_front-Balanced n w v [] d o b c = absurd (cc d)
consume_front-Balanced n w v (m ∷ queue) d o b c = subst (Balanced _ _) (some-injective _ _ d) (
    consume_queue-Balanced (record m { io_buffer = drop n m.io_buffer } ∷ queue) _ o
      (append_assoc w.sent _ _
        ∙ ap (λ l. w.sent ++ l)
            (sym (append_assoc (take n m.io_buffer) _ _)
              ∙ ap (λ l. l ++ unsent queue) (take-append-drop n m.io_buffer))
        ∙ b)
      c)

did_consume-Balanced :
    (n : ℕ) (w v : Writer) {bytes : Text} {callbacks : List ℕ}
    → did_consume n w ≡ some v
    → Balanced bytes callbacks w
    → Balanced bytes callbacks v
unfolding did_consume consume_front
did_consume-Balanced n w v d (open_writer o b c) =
    consume_front-Balanced n w v w.pending_messages d o b c
did_consume-Balanced n w v d (closed_writer rest o i none_left b c) =
    absurd (cc (subst (λ q. consume_front n w q ≡ some v) none_left d))

did_write-Balanced :
    (result : NetResult) (w v : Writer) {bytes : Text} {callbacks : List ℕ}
    → is_pending result ≡ false
    → did_write result w ≡ some v
    → Balanced bytes callbacks w
    → Balanced bytes callbacks v
unfolding did_write did_consume
did_write-Balanced (NetResult.error e) w v p d k =
    subst (Balanced _ _) (some-injective _ _ d) (closing-Balanced e w p k)
did_write-Balanced (NetResult.count zero) w v p d k =
    subst (Balanced _ _) (some-injective _ _ d) (closing-Balanced connection_reset w refl k)
did_write-Balanced (NetResult.count (suc n)) w v p d k = did_consume-Balanced (suc n) w v d k

-- What happens to a writer: Writes, completions that the socket reports, and the end of its channel.
pub data Run : Text → List ℕ → Writer → Type 0 where
  started :
      (script : List NetResult)
      → Run [] []
          (record { error = ok; pending_messages = []; script = script; sent = []; ran = [] })
  written :
      (buf : Text) (callback : ℕ) {bytes : Text} {callbacks : List ℕ} {w : Writer}
      → Run bytes callbacks w
      → Run
          (bytes ++ added_bytes w buf)
          (callbacks ++ added_callbacks (write buf callback w).0 callback)
          (write buf callback w).1
  completed :
      (result : NetResult) {bytes : Text} {callbacks : List ℕ} {w v : Writer}
      → is_pending result ≡ false
      → did_write result w ≡ some v
      → Run bytes callbacks w
      → Run bytes callbacks v
  closed :
      (e : NetError) {bytes : Text} {callbacks : List ℕ} {w : Writer}
      → is_pending (NetResult.error e) ≡ false
      → Run bytes callbacks w
      → Run bytes callbacks (close_with_error (NetResult.error e) w)

-- Over any history of a stream writer, whatever the socket answers, the bytes that the socket took
-- and those that wait are, while there is no error, the frames of all Writes in their order, and
-- after an error what was sent is a beginning of them; the callbacks that ran and those that wait
-- are those of the Writes that returned ERR_IO_PENDING, each one once and in their order, and none
-- waits after an error.
pub Run-Balanced :
    {bytes : Text} {callbacks : List ℕ} {w : Writer}
    → Run bytes callbacks w
    → Balanced bytes callbacks w
Run-Balanced (started script) = open_writer refl refl refl
Run-Balanced (written buf callback {w = w} r) = write-Balanced buf callback w (Run-Balanced r)
Run-Balanced (completed result {w = w} {v = v} p d r) =
    did_write-Balanced result w v p d (Run-Balanced r)
Run-Balanced (closed e {w = w} p r) = closing-Balanced e w p (Run-Balanced r)
