-- ===== src/Transport/DatagramWriter/History.antt =====
-- What the operations of chrome_datagram_writer.cc do to the frames and the callbacks.
use mathlib.Core.Option.{some-injective}
use sippet.Base.{
  subst, ℕ, zero, suc, ◌≡◌, refl, sym, ◌∙◌, ap, false, List, [], ◌∷◌, ◌++◌, some, append_assoc,
  append-nil, if◌then◌else◌, Bool-cases, inl, inr, Text, NetError, NetResult, ok, pending, is_ok,
  is_pending, connection_reset,
}
use sippet.Transport.DatagramWriter.{
  PendingFrame, DatagramWriter, drain_frame, next_answer, drain_result, sent_frame, close_frames,
  enqueue, after_drain_frame, no_frames, write_frame, did_consume_frame, did_write_frame,
}
use sippet.Transport.DatagramWriter.Delivery.{
  frames, callbacks_of, called_back, Delivered, going, ended, called_back-run,
  close_frames-Delivered, consume_frames-Delivered,
}

frames-append : (xs ys : List PendingFrame) → frames (xs ++ ys) ≡ frames xs ++ frames ys
frames-append [] ys = refl
frames-append (f ∷ xs) ys = ap (λ l. f.buf ∷ l) (frames-append xs ys)

callbacks_of-append :
    (xs ys : List PendingFrame) → callbacks_of (xs ++ ys) ≡ callbacks_of xs ++ callbacks_of ys
callbacks_of-append [] ys = refl
callbacks_of-append (f ∷ xs) ys = ap (λ l. f.callback ∷ l) (callbacks_of-append xs ys)

-- What a Write adds.
abbrev pub added_frames : DatagramWriter → Text → List Text
added_frames w buf = if is_ok w.error then buf ∷ [] else []

abbrev pub added : NetResult → ℕ → List ℕ
added result callback = if is_pending result then callback ∷ [] else []

module _ (buf : Text) (callback : ℕ) (w : DatagramWriter) {given : List Text}
    {callbacks : List ℕ} where
  enqueue-Delivered :
      (v : DatagramWriter)
      → v.error ≡ ok
      → v.sent ++ frames v.pending_messages ≡ given
      → called_back v.ran ++ callbacks_of v.pending_messages ≡ callbacks
      → Delivered (given ++ buf ∷ []) (callbacks ++ callback ∷ []) (enqueue buf callback v)
  enqueue-Delivered v e g c =
      going e
        (ap (λ l. v.sent ++ l) (frames-append v.pending_messages _)
          ∙ sym (append_assoc v.sent _ _)
          ∙ ap (λ l. l ++ buf ∷ []) g)
        (ap (λ l. called_back v.ran ++ l) (callbacks_of-append v.pending_messages _)
          ∙ sym (append_assoc (called_back v.ran) _ _)
          ∙ ap (λ l. l ++ callback ∷ []) c)

  first_frame-Delivered :
      (answer : NetResult) (script : List NetResult)
      → w.error ≡ ok
      → w.pending_messages ≡ []
      → w.sent ++ frames w.pending_messages ≡ given
      → called_back w.ran ++ callbacks_of w.pending_messages ≡ callbacks
      → let r = after_drain_frame buf callback (
        drain_result answer,
        record w { script = script; sent = sent_frame (drain_result answer) buf w.sent },
      ) in
        Delivered (given ++ buf ∷ []) (callbacks ++ added r.0 callback) r.1
  first_frame-Delivered (NetResult.count zero) script e p g c =
      ended (buf ∷ []) refl refl p
        (ap (λ l. l ++ buf ∷ []) (sym (append-nil _) ∙ ap (λ l. w.sent ++ frames l) (sym p) ∙ g))
        (sym (append-nil _)
          ∙ ap (λ l. called_back w.ran ++ callbacks_of l) (sym p)
          ∙ c
          ∙ sym (append-nil _))
  first_frame-Delivered (NetResult.count (suc n)) script e p g c =
      going refl
        (ap (λ l. (w.sent ++ buf ∷ []) ++ frames l) p
          ∙ append-nil _
          ∙ ap (λ l. l ++ buf ∷ []) (sym (append-nil _) ∙ ap (λ l. w.sent ++ frames l) (sym p) ∙ g))
        (c ∙ sym (append-nil _))
  first_frame-Delivered (NetResult.error d) script e p g c =
      elim (Bool-cases (is_pending (NetResult.error d))) [
        | inl t ↦ rw t (enqueue-Delivered (record w { script = script }) e g c)
        | inr u ↦ rw u (
            ended (buf ∷ []) refl u p
              (ap (λ l. l ++ buf ∷ [])
                (sym (append-nil _) ∙ ap (λ l. w.sent ++ frames l) (sym p) ∙ g))
              (rw u (
                sym (append-nil _)
                ∙ ap (λ l. called_back w.ran ++ callbacks_of l) (sym p)
                ∙ c
                ∙ sym (append-nil _))))
      ]

write_frame-Delivered :
    (buf : Text) (callback : ℕ) (w : DatagramWriter) {given : List Text} {callbacks : List ℕ}
    → Delivered given callbacks w
    → let r = write_frame buf callback w in
      Delivered (given ++ added_frames w buf) (callbacks ++ added r.0 callback) r.1
unfolding write_frame
write_frame-Delivered buf callback w (ended lost e i p g c) =
    rw e (rw i (ended lost e i p (g ∙ sym (append-nil _)) (c ∙ sym (append-nil _))))
write_frame-Delivered buf callback w {given} {callbacks} (going e g c) =
    rw (ap is_ok e) (queued w.pending_messages refl)
  where
    queued :
        (queue : List PendingFrame)
        → w.pending_messages ≡ queue
        → let r =
            if no_frames w.pending_messages
            then after_drain_frame buf callback (drain_frame buf w)
            else (pending, enqueue buf callback w) in
          Delivered (given ++ buf ∷ []) (callbacks ++ added r.0 callback) r.1
    queued [] q = rw (ap no_frames q) (
        first_frame-Delivered buf callback w (next_answer w.script).0 (next_answer w.script).1 e q g
          c)
    queued (f ∷ queue) q = rw (ap no_frames q) (enqueue-Delivered buf callback w w e g c)

closing-Delivered :
    (e : NetError) (w : DatagramWriter) {given : List Text} {callbacks : List ℕ}
    → is_pending (NetResult.error e) ≡ false
    → Delivered given callbacks w
    → Delivered given callbacks (close_frames (NetResult.error e) w)
unfolding close_frames
closing-Delivered e w p (going o g c) = close_frames-Delivered e w p g c
closing-Delivered e w p (ended lost o i none_left g c) =
    rw (none_left, close_frames) (ended lost refl p refl g c)

did_consume_frame-Delivered :
    (w v : DatagramWriter) (queue : List PendingFrame) {given : List Text} {callbacks : List ℕ}
    → did_consume_frame w queue ≡ some v
    → w.error ≡ ok
    → w.sent ++ frames queue ≡ given
    → called_back w.ran ++ callbacks_of queue ≡ callbacks
    → Delivered given callbacks v
unfolding did_consume_frame
did_consume_frame-Delivered w v [] d o g c = absurd (cc d)
did_consume_frame-Delivered w v (f ∷ queue) d o g c = subst (Delivered _ _) (some-injective _ _ d) (
    consume_frames-Delivered queue _ o (append_assoc w.sent _ _ ∙ g)
      (called_back-run f.callback ok w.ran _ ∙ c))

did_write_frame-Delivered :
    (result : NetResult) (w v : DatagramWriter) {given : List Text} {callbacks : List ℕ}
    → is_pending result ≡ false
    → did_write_frame result w ≡ some v
    → Delivered given callbacks w
    → Delivered given callbacks v
unfolding did_write_frame did_consume_frame
did_write_frame-Delivered (NetResult.error e) w v p d k =
    subst (Delivered _ _) (some-injective _ _ d) (closing-Delivered e w p k)
did_write_frame-Delivered (NetResult.count zero) w v p d k =
    subst (Delivered _ _) (some-injective _ _ d) (closing-Delivered connection_reset w refl k)
did_write_frame-Delivered (NetResult.count (suc n)) w v p d (going o g c) =
    did_consume_frame-Delivered w v w.pending_messages d o g c
did_write_frame-Delivered (NetResult.count (suc n)) w v p d (ended lost o i none_left g c) =
    absurd (cc (subst (λ q. did_consume_frame w q ≡ some v) none_left d))

-- What happens to a writer, as for the stream writer.
pub data FrameRun : List Text → List ℕ → DatagramWriter → Type 0 where
  begun :
      (script : List NetResult)
      → FrameRun [] []
          (record { error = ok; pending_messages = []; script = script; sent = []; ran = [] })
  wrote :
      (buf : Text) (callback : ℕ) {given : List Text} {callbacks : List ℕ} {w : DatagramWriter}
      → FrameRun given callbacks w
      → FrameRun
          (given ++ added_frames w buf)
          (callbacks ++ added (write_frame buf callback w).0 callback)
          (write_frame buf callback w).1
  reported :
      (result : NetResult) {given : List Text} {callbacks : List ℕ} {w v : DatagramWriter}
      → is_pending result ≡ false
      → did_write_frame result w ≡ some v
      → FrameRun given callbacks w
      → FrameRun given callbacks v
  shut :
      (e : NetError) {given : List Text} {callbacks : List ℕ} {w : DatagramWriter}
      → is_pending (NetResult.error e) ≡ false
      → FrameRun given callbacks w
      → FrameRun given callbacks (close_frames (NetResult.error e) w)

-- Over any history of a datagram writer, whatever the socket answers, the frames that the socket
-- took and those that wait are, while there is no error, the frames of all Writes in their order,
-- and after an error those taken are a beginning of them; the callbacks that ran and those that wait
-- are those of the Writes that returned ERR_IO_PENDING, each one once and in their order, and none
-- waits after an error.
pub FrameRun-Delivered :
    {given : List Text} {callbacks : List ℕ} {w : DatagramWriter}
    → FrameRun given callbacks w
    → Delivered given callbacks w
FrameRun-Delivered (begun script) = going refl refl refl
FrameRun-Delivered (wrote buf callback {w = w} r) =
    write_frame-Delivered buf callback w (FrameRun-Delivered r)
FrameRun-Delivered (reported result {w = w} {v = v} p d r) =
    did_write_frame-Delivered result w v p d (FrameRun-Delivered r)
FrameRun-Delivered (shut e {w = w} p r) = closing-Delivered e w p (FrameRun-Delivered r)
