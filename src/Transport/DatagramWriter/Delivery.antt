-- ===== src/Transport/DatagramWriter/Delivery.antt =====
-- The frames and the callbacks of chrome_datagram_writer.cc.
use sippet.Base.{
  ℕ, zero, suc, ◌≡◌, refl, sym, ◌∙◌, ap, false, List, [], ◌∷◌, ◌++◌, append_assoc, append-nil,
  Bool-cases, inl, inr, Text, NetError, NetResult, ok, is_ok, is_pending, connection_reset,
}
use sippet.Transport.DatagramWriter.{
  PendingFrame, DatagramWriter, next_answer, drain_result, sent_frame, run_frame_callback,
  pop_frames, close_frames, after_front, consume_frames,
}

abbrev pub frames : List PendingFrame → List Text
frames [] = []
frames (f ∷ queue) = f.buf ∷ frames queue

abbrev pub callbacks_of : List PendingFrame → List ℕ
callbacks_of [] = []
callbacks_of (f ∷ queue) = f.callback ∷ callbacks_of queue

abbrev pub called_back : List (ℕ × NetResult) → List ℕ
called_back [] = []
called_back ((c, _) ∷ ran) = c ∷ called_back ran

called_back-append :
    (xs ys : List (ℕ × NetResult)) → called_back (xs ++ ys) ≡ called_back xs ++ called_back ys
called_back-append [] ys = refl
called_back-append ((c, _) ∷ xs) ys = ap (λ l. c ∷ l) (called_back-append xs ys)

-- As Balanced of the stream writer, for frames: what the socket took and what waits.
pub data Delivered (given : List Text) (callbacks : List ℕ) (w : DatagramWriter) : Type 0 where
  going :
      w.error ≡ ok
      → w.sent ++ frames w.pending_messages ≡ given
      → called_back w.ran ++ callbacks_of w.pending_messages ≡ callbacks
      → Delivered given callbacks w
  ended :
      (lost : List Text)
      → is_ok w.error ≡ false
      → is_pending w.error ≡ false
      → w.pending_messages ≡ []
      → w.sent ++ lost ≡ given
      → called_back w.ran ≡ callbacks
      → Delivered given callbacks w

pub called_back-run :
    (callback : ℕ) (result : NetResult) (ran : List (ℕ × NetResult)) (l : List ℕ)
    → called_back (ran ++ (callback, result) ∷ []) ++ l ≡ called_back ran ++ callback ∷ l
called_back-run callback result ran l =
    ap (λ x. x ++ l) (called_back-append ran _) ∙ append_assoc (called_back ran) _ _

pop_frames-called :
    (err : NetResult) (queue : List PendingFrame) (w : DatagramWriter)
    → (called_back (pop_frames err queue w).ran ≡ called_back w.ran ++ callbacks_of queue)
      × ((pop_frames err queue w).pending_messages ≡ [])
      × ((pop_frames err queue w).sent ≡ w.sent)
      × ((pop_frames err queue w).error ≡ w.error)
unfolding pop_frames
pop_frames-called err [] w = (sym (append-nil _), refl, refl, refl)
pop_frames-called err (f ∷ queue) w =
    let (c, none_left, kept, same) =
      pop_frames-called err queue (run_frame_callback f.callback err w) in
    (c ∙ called_back-run f.callback err w.ran _, none_left, kept, same)

pub close_frames-Delivered :
    (e : NetError) (w : DatagramWriter) {given : List Text} {callbacks : List ℕ}
    → is_pending (NetResult.error e) ≡ false
    → w.sent ++ frames w.pending_messages ≡ given
    → called_back w.ran ++ callbacks_of w.pending_messages ≡ callbacks
    → Delivered given callbacks (close_frames (NetResult.error e) w)
unfolding close_frames
close_frames-Delivered e w p g c =
    let (calls, none_left, kept, err) =
      pop_frames-called (NetResult.error e) w.pending_messages
        (record w { error = NetResult.error e }) in
    ended (frames w.pending_messages) (ap is_ok err) (ap is_pending err ∙ p) none_left
      (ap (λ t. t ++ frames w.pending_messages) kept ∙ g) (calls ∙ c)

abbrev KeepsFrames :
    List PendingFrame → (DatagramWriter → DatagramWriter) → List Text → List ℕ → Type 0
KeepsFrames queue next given callbacks =
    (w : DatagramWriter)
    → w.error ≡ ok
    → w.sent ++ frames queue ≡ given
    → called_back w.ran ++ callbacks_of queue ≡ callbacks
    → Delivered given callbacks (next w)

-- Whatever the answer, what Drain leaves is the writer with or without its frame.
after_front-Delivered :
    (f : PendingFrame) (queue : List PendingFrame) (next : DatagramWriter → DatagramWriter)
    (result : NetResult) (script : List NetResult) (w : DatagramWriter) {given : List Text}
    {callbacks : List ℕ}
    → KeepsFrames queue next given callbacks
    → w.error ≡ ok
    → w.sent ++ f.buf ∷ frames queue ≡ given
    → called_back w.ran ++ f.callback ∷ callbacks_of queue ≡ callbacks
    → Delivered given callbacks (
        after_front f queue next (
          drain_result result,
          record w { script = script; sent = sent_frame (drain_result result) f.buf w.sent },
        ))
after_front-Delivered f queue next (NetResult.count zero) script w keeps e g c =
    close_frames-Delivered connection_reset _ refl g c
after_front-Delivered f queue next (NetResult.count (suc n)) script w keeps e g c =
    keeps _ e (append_assoc w.sent _ _ ∙ g) (called_back-run f.callback ok w.ran _ ∙ c)
after_front-Delivered f queue next (NetResult.error d) script w keeps e g c =
    elim (Bool-cases (is_pending (NetResult.error d))) [
      | inl t ↦ rw t (going e g c)
      | inr u ↦ rw u (close_frames-Delivered d _ u g c)
    ]

pub consume_frames-Delivered :
    (queue : List PendingFrame) {given : List Text} {callbacks : List ℕ}
    → KeepsFrames queue (consume_frames queue) given callbacks
unfolding consume_frames
consume_frames-Delivered [] w e g c = going e g c
consume_frames-Delivered (f ∷ queue) w e g c =
    after_front-Delivered f queue (consume_frames queue) (next_answer w.script).0
      (next_answer w.script).1 w (consume_frames-Delivered queue) e g c
