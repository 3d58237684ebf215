-- ===== src/Ua/Dialog/Identity.antt =====
-- The state and the id of the dialogs that Dialog::Create builds.
use sippet.Base.{
  ℕ, ◌/◌, ◌≡◌, ◌≢◌, refl, sym, ◌∙◌, ap, List, true, false, [], ◌∷◌, some, ◌==◌, if◌then◌else◌,
  reverse, Bool-cases, Option-cases, inl, inr, Text,
}
use sippet.Message.Header.{Address}
use sippet.Message.Header
use sippet.Message.Headers.{get, filter}
use sippet.Message.Method.{Method}
use sippet.Message.Params.{tag}
use sippet.Message.Request.{
  Request, Response, is_incoming, incoming, outgoing, response_dialog_id, tag_of,
}
use sippet.Message.Request.Ids.{response_dialog_id_lem}
use sippet.Ua.Dialog.{
  Uris, Dialog, confirmed, terminated, early, id, create, create_outgoing, create_incoming,
  initial_state, front, get_route_set,
}
use sippet.Ua.Pointer.{Pointer, at, ◌>>=◌, OnObject, OnObject-deref}

early-ne-terminated : early ≢ terminated
early-ne-terminated e = cc e

pub confirmed-ne-terminated : confirmed ≢ terminated
confirmed-ne-terminated e = cc e

initial_state-ne-terminated : (code : ℕ) → initial_state code ≢ terminated
initial_state-ne-terminated code e = elim (Bool-cases (code / 100 == 1)) [
  | inl t ↦ early-ne-terminated (ap (λ b. if b then early else confirmed) (sym t) ∙ e)
  | inr f ↦ confirmed-ne-terminated (ap (λ b. if b then early else confirmed) (sym f) ∙ e)
]

abbrev pub Alive : Dialog → Type 0
Alive d = d.state ≢ terminated

OnObject-front {κ} :
    {B : Type 0} (P : B → Type κ) (l : List Address) (k : Address → Pointer B)
    → ((a : Address) → OnObject P (k a))
    → OnObject P (front l >>= k)
OnObject-front P [] k h = tt
OnObject-front P (a ∷ _) k h = h a

create_outgoing-Alive :
    (uris : Uris) (r : Request) (s : Response) → OnObject Alive (create_outgoing uris r s)
unfolding create_outgoing
create_outgoing-Alive uris r s = OnObject-deref Alive (get Header.as_call_id r.headers) _ λ _.
    OnObject-deref Alive (get Header.as_contact s.headers) _ λ c. OnObject-front Alive c _ λ _.
      OnObject-deref Alive (get Header.as_cseq r.headers) _ λ _.
        OnObject-deref Alive (get Header.as_from r.headers) _ λ f.
          OnObject-deref Alive (tag f.params) _ λ _.
            OnObject-deref Alive (get Header.as_to s.headers) _ λ t.
              OnObject-deref Alive (get Header.as_to r.headers) _
                λ _. initial_state-ne-terminated s.response_code

create_incoming-Alive :
    (uris : Uris) (r : Request) (s : Response) → OnObject Alive (create_incoming uris r s)
unfolding create_incoming
create_incoming-Alive uris r s = OnObject-deref Alive (get Header.as_call_id r.headers) _ λ _.
    OnObject-deref Alive (get Header.as_contact r.headers) _ λ c. OnObject-front Alive c _ λ _.
      OnObject-deref Alive (get Header.as_cseq r.headers) _ λ _.
        OnObject-deref Alive (get Header.as_to s.headers) _ λ t.
          OnObject-deref Alive (tag t.params) _ λ _.
            OnObject-deref Alive (get Header.as_from r.headers) _ λ f.
              OnObject-deref Alive (get Header.as_to r.headers) _
                λ _. initial_state-ne-terminated s.response_code

-- No dialog is created terminated.
pub create-Alive : (uris : Uris) (s : Response) → OnObject Alive (create uris s)
unfolding create
create-Alive uris s = elim (Option-cases s.refer_to) [
  | inl n ↦ rw (n, create) tt
  | inr (r, e) ↦ elim (Bool-cases (is_incoming r.direction)) [
    | inl t ↦ rw (e, create) (rw t (create_incoming-Alive uris r s))
    | inr f ↦ rw (e, create) (rw f (create_outgoing-Alive uris r s))
  ]
]

-- The response to an outgoing request that echoes its Call-ID and From tag and has a To tag and a
-- Contact opens a dialog: it is early after a 1xx and confirmed else, its id is the response's
-- dialog id, and its next request follows the request's CSeq.
pub create_outgoing_lem :
    (uris : Uris) (s : Response) (r : Request) {c x y : Text} {f t u a : Address} {l : List Address}
    {q : ℕ × Method}
    → s.refer_to ≡ some r
    → r.direction ≡ outgoing
    → s.direction ≡ incoming
    → get Header.as_call_id r.headers ≡ some c
    → get Header.as_contact s.headers ≡ some (a ∷ l)
    → get Header.as_cseq r.headers ≡ some q
    → get Header.as_from r.headers ≡ some f
    → tag f.params ≡ some x
    → get Header.as_to s.headers ≡ some t
    → tag t.params ≡ some y
    → get Header.as_to r.headers ≡ some u
    → get Header.as_call_id s.headers ≡ some c
    → tag_of (get Header.as_from s.headers) ≡ some x
    → (d : Dialog) × (create uris s ≡ at d)
      × (response_dialog_id s ≡ some (id d))
      × (d.state ≡ (if s.response_code / 100 == 1 then early else confirmed))
      × (d.has_local_sequence ≡ true)
      × (d.local_sequence ≡ q.0)
      × (d.remote_target ≡ a.address)
unfolding create create_outgoing
create_outgoing_lem uris s r {c} {x} {y} {f} {t} {u} {a} {l} {q} e out inc hc ha hq hf hx ht hy hu
      hc' hx' =
    (
      record {
        state = initial_state s.response_code;
        call_id = c;
        local_tag = x;
        remote_tag = y;
        has_local_sequence = true;
        local_sequence = q.0;
        has_remote_sequence = false;
        remote_sequence = 0;
        local_uri = f.address;
        remote_uri = u.address;
        remote_target = a.address;
        is_secure = uris.is_sips r.request_uri;
        route_set = reverse (get_route_set (filter Header.as_record_route s.headers));
      },
      rw (e, create) (rw out (rw hc (rw ha (rw hq (rw hf (rw hx (rw ht (rw hu (rw hy refl))))))))),
      response_dialog_id_lem s {y = y} hc' hx' (rw ht hy) ∙ rw inc refl,
      refl,
      refl,
      refl,
      refl,
    )
