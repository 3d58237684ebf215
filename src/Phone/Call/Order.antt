-- ===== src/Phone/Call/Order.antt =====
-- The states of a call in call_impl.cc only go forward, and the phone drops a call at its end.
use sippet.Base.{
  ℕ, ◌≡◌, refl, ◌∙◌, ap, Bool, true, false, ◌&&◌, ◌||◌, not, List, [], ◌∷◌, ◌++◌, Option, none,
  some, leb, if◌then◌else◌, NetResult, is_ok, arith, codes, equal,
}
use sippet.Message.Header
use sippet.Message.Headers.{get}
use sippet.Message.Request.{Request, Response, create_cancel}
use sippet.Ua.Dialog.{Dialog}
use sippet.Ua.Pointer.{Pointer, fault, null, at}
use sippet.Phone.Call.{
  CallState, calling, ringing, established, terminated, Output, removed, is_removed, was_removed,
  Call, emit, run_completed, run_hangup_completed, has_failed, is_ringing, is_terminated,
  is_established,
}
use sippet.Phone.Call.Sending.{
  Answers, send_made_ack, send_ack, handle_session_description_answer, send_cancel,
  send_made_cancel, send_bye, send_made_bye, after_hangup_send,
}
use sippet.Phone.Call.Handlers.{is_same, describe}

abbrev pub rank : CallState → ℕ
rank calling = 0
rank ringing = 1
rank established = 2
rank terminated = 3

-- The state is not before that of rank `n`, and a call that the phone was told to drop is terminated.
pub record Fine (n : ℕ) (c : Call) : Type 0 where
  pub order : leb n (rank c.state) ≡ true
  pub dropped : was_removed c.log && not (is_terminated c.state) ≡ false

-- The phone was not told to drop it.
abbrev pub IsKept : Call → Type 0
IsKept c = was_removed c.log ≡ false

unfoldable pub Holds : (Call → Type 0) → Option Call → Type 0
Holds P none = Unit
Holds P (some c) = P c

pub some-Holds : (P : Call → Type 0) (c : Call) → P c → Holds P (some c)
unfolding Holds
some-Holds P c h = h

pub none-Holds : (P : Call → Type 0) → Holds P none
unfolding Holds
none-Holds P = tt

pub if_Holds :
    (P : Call → Type 0) (b : Bool) (o u : Option Call)
    → Holds P o
    → Holds P u
    → Holds P (if b then o else u)
if_Holds P true o u h k = h
if_Holds P false o u h k = k

-- The same, where the branch knows the test.
pub when_Holds :
    (P : Call → Type 0) (b : Bool) (o u : Option Call)
    → (b ≡ true → Holds P o)
    → (b ≡ false → Holds P u)
    → Holds P (if b then o else u)
when_Holds P true o u h k = h refl
when_Holds P false o u h k = k refl

pub elim_Holds :
    {A : Type 0} (P : Call → Type 0) (a : Option A) (o : Option Call) (k : A → Option Call)
    → Holds P o
    → ((x : A) → Holds P (k x))
    → Holds P (elim a [ none ↦ o | some x ↦ k x ])
elim_Holds P none o k h f = h
elim_Holds P (some x) o k h f = f x

pub bind_Holds :
    (P Q : Call → Type 0) (o : Option Call) (k : Call → Option Call)
    → Holds P o
    → ((c : Call) → P c → Holds Q (k c))
    → Holds Q (elim o [ none ↦ none | some c ↦ k c ])
unfolding Holds
bind_Holds P Q none k h f = tt
bind_Holds P Q (some c) k h f = f c h

pub was_removed-snoc :
    (os : List Output) (o : Output) → was_removed (os ++ o ∷ []) ≡ was_removed os || is_removed o
unfolding was_removed
was_removed-snoc [] o = ground arith
was_removed-snoc (x ∷ os) o = ground (arith, was_removed-snoc os o)

emit-IsKept : (o : Output) (c : Call) → is_removed o ≡ false → IsKept c → IsKept (emit o c)
emit-IsKept o c h f = was_removed-snoc c.log o ∙ rw (f, h) refl

pub run_completed-IsKept :
    (rv : NetResult) (c : Call) → IsKept c → Holds IsKept (run_completed rv c)
run_completed-IsKept rv c f =
    if_Holds IsKept c.has_callback _ _
      (some-Holds IsKept _ (emit-IsKept (Output.completed rv) c refl f)) (none-Holds IsKept)

send_made_ack-IsKept :
    (a : Answers) (p : Pointer Request) (c : Call) → IsKept c → Holds IsKept (send_made_ack a p c)
send_made_ack-IsKept a fault c f = none-Holds IsKept
send_made_ack-IsKept a null c f = none-Holds IsKept
send_made_ack-IsKept a (at r) c f =
    let c' : Call = emit (Output.request_sent r) c in
    let f' : IsKept c' = emit-IsKept (Output.request_sent r) c refl f in
    if_Holds IsKept (has_failed a.sent) _ _
      (run_completed-IsKept a.sent (record c' { state = terminated }) f') (some-Holds IsKept c' f')

pub send_ack-IsKept :
    (a : Answers) (s : Response) (c : Call) → IsKept c → Holds IsKept (send_ack a s c)
unfolding send_ack
send_ack-IsKept a s c f =
    elim_Holds IsKept c.dialog none _ (none-Holds IsKept)
      λ d. elim_Holds IsKept s.refer_to none _ (none-Holds IsKept) λ r. send_made_ack-IsKept a _ c f

pub describe-IsKept :
    (a : Answers) (s : Response) (next : CallState) (c : Call)
    → IsKept c
    → Holds IsKept (describe a s next c)
unfolding handle_session_description_answer
describe-IsKept a s next c f =
    if_Holds IsKept (not (is_same c.state next) && (is_ringing next || is_established next)) _ _
      (elim_Holds IsKept (get Header.as_content_type s.headers) (some c) _ kept λ t.
        if_Holds IsKept (equal (codes "application") t.0 && equal (codes "sdp") t.1) _ _
          (if_Holds IsKept (a.is_sdp s.content) _ (some c)
            (if_Holds IsKept c.has_peer (some told) none (some-Holds IsKept told quiet)
              (none-Holds IsKept))
            kept)
          kept)
      kept
  where
    kept : Holds IsKept (some c)
    kept = some-Holds IsKept c f

    told : Call
    told = emit (Output.remote_described s.content) c

    quiet : IsKept told
    quiet = emit-IsKept (Output.remote_described s.content) c refl f

terminated_rank : (st : CallState) → is_terminated st ≡ true → rank st ≡ 3
terminated_rank terminated h = refl
terminated_rank calling h = absurd (cc h)
terminated_rank ringing h = absurd (cc h)
terminated_rank established h = absurd (cc h)

module _ (n : ℕ) where
  pub emit-Fine : (o : Output) (c : Call) → is_removed o ≡ false → Fine n c → Fine n (emit o c)
  emit-Fine o c h f = record {
    order = f.order;
    dropped =
        ap (λ b. b && not (is_terminated c.state))
          (was_removed-snoc c.log o ∙ rw h (or_false (was_removed c.log)))
        ∙ f.dropped;
  }
    where
      or_false : (b : Bool) → (b || false) ≡ b
      or_false b = ground arith

  pub ended-Fine : (c : Call) → leb n 3 ≡ true → is_terminated c.state ≡ true → Fine n c
  ended-Fine c h t = record {
    order = rw (terminated_rank c.state t) h;
    dropped = rw t (ground arith);
  }

  pub run_completed-Fine :
      (rv : NetResult) (c : Call) → Fine n c → Holds (Fine n) (run_completed rv c)
  run_completed-Fine rv c f =
      if_Holds (Fine n) c.has_callback (some (emit (Output.completed rv) c)) none
        (some-Holds (Fine n) _ (emit-Fine (Output.completed rv) c refl f)) (none-Holds (Fine n))

  pub run_hangup_completed-Fine :
      (rv : NetResult) (c : Call) → Fine n c → Holds (Fine n) (run_hangup_completed rv c)
  run_hangup_completed-Fine rv c f =
      if_Holds (Fine n) c.has_hangup_callback (some (emit (Output.hangup_completed rv) c)) none
        (some-Holds (Fine n) _ (emit-Fine (Output.hangup_completed rv) c refl f))
        (none-Holds (Fine n))

  after_hangup_send-Fine :
      (sent : NetResult) (c : Call) → Fine n c → Holds (Fine n) (after_hangup_send sent c)
  after_hangup_send-Fine sent c f =
      if_Holds (Fine n) (has_failed sent) _ (some c) (run_hangup_completed-Fine sent c f)
        (some-Holds (Fine n) c f)

  send_made_cancel-Fine :
      (a : Answers) (q : NetResult × Option Request) (c : Call)
      → Fine n c
      → Holds (Fine n) (send_made_cancel a q c)
  send_made_cancel-Fine a (rv, none) c f =
      if_Holds (Fine n) (is_ok rv) none (some c) (none-Holds (Fine n)) (some-Holds (Fine n) c f)
  send_made_cancel-Fine a (rv, some q) c f =
      if_Holds (Fine n) (is_ok rv) _ (some c)
        (after_hangup_send-Fine a.sent (emit (Output.request_sent q) c)
          (emit-Fine (Output.request_sent q) c refl f))
        (some-Holds (Fine n) c f)

  send_made_bye-Fine :
      (a : Answers) (q : Option Request × Dialog) (c : Call)
      → Fine n c
      → Holds (Fine n) (send_made_bye a q c)
  send_made_bye-Fine a (none, d) c f = none-Holds (Fine n)
  send_made_bye-Fine a (some q, d) c f =
      let c' : Call = record c { dialog = some d; last_request = some q } in
      let f' : Fine n c' = record { order = f.order; dropped = f.dropped } in
      after_hangup_send-Fine a.sent (emit (Output.request_sent q) c')
        (emit-Fine (Output.request_sent q) c' refl f')

  pub send_bye-Fine : (a : Answers) (c : Call) → Fine n c → Holds (Fine n) (send_bye a c)
  unfolding send_bye
  send_bye-Fine a c f =
      elim_Holds (Fine n) c.dialog none _ (none-Holds (Fine n)) λ d. send_made_bye-Fine a _ c f

  pub send_cancel-Fine : (a : Answers) (c : Call) → Fine n c → Holds (Fine n) (send_cancel a c)
  unfolding send_cancel
  send_cancel-Fine a c f =
      elim_Holds (Fine n) c.last_request none _ (none-Holds (Fine n))
        λ r. send_made_cancel-Fine a (create_cancel r a.guid none) c f

  -- The end of a call that the phone drops.
  pub removal-Fine :
      (o : Option Call)
      → leb n 3 ≡ true
      → Holds (λ c. is_terminated c.state ≡ true) o
      → Holds (Fine n) (elim o [ none ↦ none | some c ↦ some (emit removed c) ])
  removal-Fine o h t =
      bind_Holds (λ c. is_terminated c.state ≡ true) (Fine n) o (λ c. some (emit removed c)) t
        λ c t. some-Holds (Fine n) _ (ended-Fine (emit removed c) h t)
