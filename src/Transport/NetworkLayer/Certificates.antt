-- ===== src/Transport/NetworkLayer/Certificates.antt =====
-- What network_layer.cc does when a server's certificate is refused. The transactions of
-- ssl_cert_error_transactions_ stand with their destinations. Whether there is a handler factory,
-- what the handler answers and what a channel answers to a reconnection are arguments.
use sippet.Base.{
  ℕ, zero, suc, ◌≡◌, refl, ap, Bool, true, false, not, List, [], ◌∷◌, ◌++◌, length, Option, none,
  some, is_some, if◌then◌else◌, Text, NetResult, ok, error, is_ok, is_pending, connection_closed,
}
use sippet.Transport.CertError.{Transaction, handle_error, none_state, do_loop}
use sippet.Transport.CertError
use sippet.Transport.EndPoint.{EndPoint, key}
use sippet.Transport.NetworkLayer.{
  Layer, ChannelContext, Output, emit, get_channel_context, reconnect, reconnect_with,
  close_channel, channel_closed,
}
use sippet.Transport.NetworkLayer.Closing.{Gone, Linked-emit, destroyed-Linked}
use sippet.Transport.NetworkLayer.Invariant.{Linked}
use sippet.Transport.NetworkLayer.Sending.{◌>>=◌, dismiss}

-- ReconnectIgnoringLastError
abbrev pub reconnect_ignoring_last_error : NetResult → EndPoint → Layer → NetResult × Layer
reconnect_ignoring_last_error answer d l =
    if is_some (get_channel_context d l)
    then (answer, emit (reconnect d) l)
    else (error connection_closed, l)

-- ReconnectWithCertificate
abbrev pub reconnect_with_certificate : NetResult → EndPoint → Text → Layer → NetResult × Layer
reconnect_with_certificate answer d cert l =
    if is_some (get_channel_context d l)
    then (answer, emit (reconnect_with d cert) l)
    else (error connection_closed, l)

-- The layer with the transactions for certificates.
abbrev pub CertLayer : Type 0
CertLayer = List (EndPoint × Transaction) × Layer

abbrev pub remove_at {ℓ} : {A : Type ℓ} → ℕ → List A → List A
remove_at n [] = []
remove_at zero (x ∷ xs) = xs
remove_at (suc n) (x ∷ xs) = x ∷ remove_at n xs

-- Whether a reconnection is pending.
abbrev pub pending_only : NetResult × Layer → Bool × Layer
pending_only (rv, l) = (is_pending rv, l)

-- The reconnections of OnSSLCertErrorTransactionComplete.
abbrev pub try_again : NetResult → EndPoint → Transaction → NetResult → Layer → Bool × Layer
try_again answer d t rv l = if not (is_ok rv) then (false, l) else elim t.client_cert [
  | some cert ↦ pending_only (reconnect_with_certificate answer d cert l)
  | none ↦
      if t.is_accepted then pending_only (reconnect_ignoring_last_error answer d l) else (false, l)
]

-- The rest of it: transaction `n` goes, unless a reconnection is pending.
abbrev pub give_up : ℕ → EndPoint → Bool × Layer → List (EndPoint × Transaction) → Option CertLayer
give_up n d (waits, l) ts =
    if waits
    then some (ts, l)
    else elim (dismiss d l) [ none ↦ none | some (_, l') ↦ some (remove_at n ts, l') ]

-- OnSSLCertErrorTransactionComplete, for transaction `n`.
unfoldable pub on_transaction_complete :
    NetResult → ℕ → EndPoint → Transaction → NetResult → CertLayer → Option CertLayer
unfolding dismiss
on_transaction_complete answer n d t rv (ts, l) = give_up n d (try_again answer d t rv l) ts

abbrev new_transaction : Transaction
new_transaction = record {
  next_state = none_state;
  has_handler = false;
  server_cert = none;
  is_accepted = false;
  client_cert = none;
  has_callback = false;
  asked = [];
  reported = [];
}

-- OnSSLCertificateError
unfoldable pub on_ssl_certificate_error :
    Bool → CertError.Answers → NetResult → EndPoint → Option Text → CertLayer → Option CertLayer
unfolding handle_error on_transaction_complete dismiss
on_ssl_certificate_error has_factory a answer d cert (ts, l) =
    if not has_factory
    then elim (dismiss d l) [ none ↦ none | some (_, l') ↦ some (ts, l') ]
    else let (rv, t) = handle_error 4 a cert new_transaction in
      let l1 : CertLayer = (ts ++ (d, t) ∷ [], l) in
      if is_ok rv then on_transaction_complete answer (length ts) d t rv l1 else some l1

removed-last {ℓ} : {A : Type ℓ} (xs : List A) (x : A) → remove_at (length xs) (xs ++ x ∷ []) ≡ xs
removed-last [] x = refl
removed-last (y ∷ xs) x = ap (λ z. y ∷ z) (removed-last xs x)

-- The layer's last calls: Close of the channel, and then the report of it to the delegate.
abbrev pub Closes : EndPoint → Layer → Type 0
Closes d l' = (log : List Output) × (l'.log ≡ channel_closed d ∷ close_channel d ∷ log)

dismiss-Gone :
    (d : EndPoint) (l : Layer) {c : ChannelContext}
    → Linked l
    → get_channel_context d l ≡ some c
    → (l' : Layer) × (dismiss d l ≡ some (ok, l')) × Linked l' × Gone (key d) c l l' × Closes d l'
unfolding dismiss
dismiss-Gone d l {c} v at =
    let (m, done, linked, gone) = destroyed-Linked (key d) c l v at in
    (
      emit (channel_closed d) (emit (close_channel d) m),
      rw (at, dismiss) (rw (done, ◌>>=◌) refl),
      Linked-emit (channel_closed d) _ (Linked-emit (close_channel d) m linked),
      record { channels = gone.channels; owners = gone.owners },
      (m.log, refl),
    )

-- A certificate error closes the channel of a context, whether there is a handler or not, and
-- whatever the handler or the channel would answer: the channel is told to close and the delegate is
-- told last that it is closed; the context and exactly the transactions that it lists are gone, the
-- links are whole, and no transaction for the certificate is left.
pub certificate_error-Gone :
    (has_factory : Bool) (a : CertError.Answers) (answer : NetResult) (d : EndPoint)
    (cert : Option Text) (ts : List (EndPoint × Transaction)) (l : Layer) {c : ChannelContext}
    → Linked l
    → get_channel_context d l ≡ some c
    → (l' : Layer) × (on_ssl_certificate_error has_factory a answer d cert (ts, l) ≡ some (ts, l'))
      × Linked l'
      × Gone (key d) c l l'
      × Closes d l'
unfolding on_ssl_certificate_error dismiss handle_error on_transaction_complete do_loop
certificate_error-Gone has_factory a answer d cert ts l {c} v at =
    let (l', done, linked, gone, closes) = dismiss-Gone d l v at in
    (l', ends has_factory done, linked, gone, closes)
  where
    ends :
        (b : Bool) {l' : Layer}
        → dismiss d l ≡ some (ok, l')
        → on_ssl_certificate_error b a answer d cert (ts, l) ≡ some (ts, l')
    ends false done = rw (done, on_ssl_certificate_error) refl
    ends true done =
        rw (done, on_transaction_complete)
          (ap (λ x. some (x, _)) (removed-last ts (d, (handle_error 4 a cert new_transaction).1)))
