-- ===== src/Transport/StreamWriter/Order.antt =====
-- The order of the bytes and of the callbacks of chrome_stream_writer.cc.
use sippet.Base.{
  ℕ, zero, suc, ◌≡◌, inl, inr, refl, sym, ◌∙◌, ap, Bool, true, false, List, [], ◌∷◌, ◌++◌, take,
  drop, append_assoc, append-nil, take-append-drop, if◌then◌else◌, Bool-cases, Text, NetError,
  NetResult, ok, is_ok, is_pending,
}
use sippet.Transport.StreamWriter.{
  PendingBlock, Writer, Drained, drain, is_empty, with_socket, run_callback, pop_all,
  close_with_error, after_drain, consume_queue,
}

-- The bytes that wait, in their order, and the callbacks that wait.
abbrev pub unsent : List PendingBlock → Text
unsent [] = []
unsent (b ∷ queue) = b.io_buffer ++ unsent queue

abbrev pub waiting : List PendingBlock → List ℕ
waiting [] = []
waiting (b ∷ queue) = b.callback ∷ waiting queue

abbrev pub called : List (ℕ × NetResult) → List ℕ
called [] = []
called ((c, _) ∷ ran) = c ∷ called ran

pub called-append : (xs ys : List (ℕ × NetResult)) → called (xs ++ ys) ≡ called xs ++ called ys
called-append [] ys = refl
called-append ((c, _) ∷ xs) ys = ap (λ l. c ∷ l) (called-append xs ys)

pub waiting-append : (xs ys : List PendingBlock) → waiting (xs ++ ys) ≡ waiting xs ++ waiting ys
waiting-append [] ys = refl
waiting-append (b ∷ xs) ys = ap (λ l. b.callback ∷ l) (waiting-append xs ys)

pub unsent-append : (xs ys : List PendingBlock) → unsent (xs ++ ys) ≡ unsent xs ++ unsent ys
unsent-append [] ys = refl
unsent-append (b ∷ xs) ys =
    ap (λ l. b.io_buffer ++ l) (unsent-append xs ys) ∙ sym (append_assoc b.io_buffer _ _)

is_empty-nil {ℓ} : {A : Type ℓ} (xs : List A) → is_empty xs ≡ true → xs ≡ []
is_empty-nil [] t = refl
is_empty-nil (x ∷ xs) t = cc t

-- Drain moves bytes from the buffer to the socket, and returns net::OK only when none remain.
pub drain_moves :
    (script : List NetResult) (buf sent : Text)
    → let r = drain script buf sent in r.sent ++ r.io_buffer ≡ sent ++ buf
unfolding drain
drain_moves [] buf sent = refl
drain_moves (NetResult.error e ∷ script) buf sent = refl
drain_moves (NetResult.count zero ∷ script) buf sent = refl
drain_moves (NetResult.count (suc n) ∷ script) buf sent =
    elim (Bool-cases (is_empty (drop (suc n) buf))) [
      | inl t ↦ rw t (
          append-nil _
          ∙ ap (λ l. sent ++ l)
              (sym (append-nil _)
                ∙ ap (λ l. take (suc n) buf ++ l) (sym (is_empty-nil _ t))
                ∙ take-append-drop (suc n) buf))
      | inr f ↦ rw f (
          drain_moves script (drop (suc n) buf) (sent ++ take (suc n) buf)
          ∙ append_assoc sent _ _
          ∙ ap (λ l. sent ++ l) (take-append-drop (suc n) buf))
    ]

abbrev WhenOk : Drained → NetResult → Type 0
WhenOk r result = r.result ≡ result → (r.io_buffer ≡ []) × (r.result ≡ ok)

either :
    (b : Bool) (whole rest : Drained) {result : NetResult}
    → (whole.io_buffer ≡ []) × (whole.result ≡ ok)
    → WhenOk rest result
    → WhenOk (if b then whole else rest) result
either true whole rest h i e = h
either false whole rest h i e = i e

pub drain_ok :
    (script : List NetResult) (buf sent : Text) (n : ℕ)
    → WhenOk (drain script buf sent) (NetResult.count n)
unfolding drain
drain_ok [] buf sent n e = absurd (cc e)
drain_ok (NetResult.error d ∷ script) buf sent n e = absurd (cc e)
drain_ok (NetResult.count zero ∷ script) buf sent n e = absurd (cc e)
drain_ok (NetResult.count (suc m) ∷ script) buf sent n e =
    either (is_empty (drop (suc m) buf)) _ _ (refl, refl)
      (drain_ok script (drop (suc m) buf) (sent ++ take (suc m) buf) n) e

-- What a writer has taken over: `bytes` from every Write that it did not refuse, and the callbacks
-- of the Writes that returned ERR_IO_PENDING. The bytes that the socket took are their beginning,
-- and the rest waits, unless an error ended the writer; the callbacks that were run and those that
-- wait are those that it was given, each one once and in their order.
pub data Balanced (bytes : Text) (callbacks : List ℕ) (w : Writer) : Type 0 where
  open_writer :
      w.error ≡ ok
      → w.sent ++ unsent w.pending_messages ≡ bytes
      → called w.ran ++ waiting w.pending_messages ≡ callbacks
      → Balanced bytes callbacks w
  closed_writer :
      (rest : Text)
      → is_ok w.error ≡ false
      → is_pending w.error ≡ false
      → w.pending_messages ≡ []
      → w.sent ++ rest ≡ bytes
      → called w.ran ≡ callbacks
      → Balanced bytes callbacks w

pub pop_all-called :
    (err : NetResult) (queue : List PendingBlock) (w : Writer)
    → (called (pop_all err queue w).ran ≡ called w.ran ++ waiting queue)
      × ((pop_all err queue w).pending_messages ≡ [])
      × ((pop_all err queue w).sent ≡ w.sent)
      × ((pop_all err queue w).error ≡ w.error)
unfolding pop_all
pop_all-called err [] w = (sym (append-nil _), refl, refl, refl)
pop_all-called err (b ∷ queue) w =
    let (c, none_left, kept, same) = pop_all-called err queue (run_callback b.callback err w) in
    (
      c ∙ ap (λ l. l ++ waiting queue) (called-append w.ran _) ∙ append_assoc (called w.ran) _ _,
      none_left,
      kept,
      same,
    )

-- Closing runs every callback that waits.
pub close-Balanced :
    (e : NetError) (w : Writer) {bytes : Text} {callbacks : List ℕ}
    → is_pending (NetResult.error e) ≡ false
    → w.sent ++ unsent w.pending_messages ≡ bytes
    → called w.ran ++ waiting w.pending_messages ≡ callbacks
    → Balanced bytes callbacks (close_with_error (NetResult.error e) w)
unfolding close_with_error
close-Balanced e w p b c =
    let (calls, none_left, kept, err) =
      pop_all-called (NetResult.error e) w.pending_messages
        (record w { error = NetResult.error e }) in
    closed_writer (unsent w.pending_messages) (ap is_ok err) (ap is_pending err ∙ p) none_left
      (ap (λ t. t ++ unsent w.pending_messages) kept ∙ b) (calls ∙ c)

pub run_callback-called :
    (callback : ℕ) (result : NetResult) (ran : List (ℕ × NetResult)) (l : List ℕ)
    → called (ran ++ (callback, result) ∷ []) ++ l ≡ called ran ++ callback ∷ l
run_callback-called callback result ran l =
    ap (λ x. x ++ l) (called-append ran _) ∙ append_assoc (called ran) _ _

abbrev Keeps : List PendingBlock → (Writer → Writer) → Text → List ℕ → Type 0
Keeps queue next bytes callbacks =
    (w : Writer)
    → w.error ≡ ok
    → w.sent ++ unsent queue ≡ bytes
    → called w.ran ++ waiting queue ≡ callbacks
    → Balanced bytes callbacks (next w)

after_drain-Balanced :
    (m : PendingBlock) (queue : List PendingBlock) (next : Writer → Writer) (w : Writer)
    {bytes : Text} {callbacks : List ℕ}
    → Keeps queue next bytes callbacks
    → w.error ≡ ok
    → w.sent ++ (m.io_buffer ++ unsent queue) ≡ bytes
    → called w.ran ++ m.callback ∷ waiting queue ≡ callbacks
    → Balanced bytes callbacks (after_drain (drain w.script m.io_buffer w.sent) m queue next w)
after_drain-Balanced m queue next w {bytes} {callbacks} keeps e b c = drained r.result refl
  where
    r : Drained
    r = drain w.script m.io_buffer w.sent

    moved : r.sent ++ (r.io_buffer ++ unsent queue) ≡ bytes
    moved =
        sym (append_assoc r.sent _ _)
        ∙ ap (λ l. l ++ unsent queue) (drain_moves w.script m.io_buffer w.sent)
        ∙ append_assoc w.sent _ _
        ∙ b

    drained :
        (result : NetResult)
        → r.result ≡ result
        → Balanced bytes callbacks (after_drain r m queue next w)
    drained (NetResult.count n) q = rw q (
        keeps (run_callback m.callback ok (with_socket r w)) e
          (ap (λ l. r.sent ++ (l ++ unsent queue))
              (sym (drain_ok w.script m.io_buffer w.sent n q).0)
            ∙ moved)
          (run_callback-called m.callback ok w.ran _ ∙ c))
    drained (NetResult.error d) q = elim (Bool-cases (is_pending (NetResult.error d))) [
      | inl t ↦ rw (q, t) (open_writer e moved c)
      | inr f ↦ rw (q, f) (close-Balanced d _ f moved c)
    ]

pub consume_queue-Balanced :
    (queue : List PendingBlock) {bytes : Text} {callbacks : List ℕ}
    → Keeps queue (consume_queue queue) bytes callbacks
unfolding consume_queue
consume_queue-Balanced [] w e b c = open_writer e b c
consume_queue-Balanced (m ∷ queue) w e b c = elim (Bool-cases (is_empty m.io_buffer)) [
  | inl t ↦ rw t (
      consume_queue-Balanced queue (run_callback m.callback ok w) e
        (ap (λ l. w.sent ++ (l ++ unsent queue)) (sym (is_empty-nil _ t)) ∙ b)
        (run_callback-called m.callback ok w.ran _ ∙ c))
  | inr f ↦
      rw f
        (after_drain-Balanced m queue (consume_queue queue) w (consume_queue-Balanced queue) e b c)
]
