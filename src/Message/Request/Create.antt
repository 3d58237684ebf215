-- ===== src/Message/Request/Create.antt =====
-- The responses, ACKs and CANCELs that request.cc builds, and what they keep of the request.
use mathlib.Core.Option
use sippet.Base.{
  ℕ, ◌<◌, ◌≡◌, refl, ◌∙◌, ap, Bool, true, false, List, Option, none, some, arith, lt→ltb,
  if◌then◌else◌, Option-cases, inl, inr, Text,
}
use sippet.Message.Header.{Header, Address, ViaParam}
use sippet.Message.Header
use sippet.Message.Headers.{Headers, get, clones, set_to_tag}
use sippet.Message.Headers.Laws.{
  or_else, via-IsClass, from-IsClass, to-IsClass, call_id-IsClass, cseq-IsClass, get-append,
  get-cons, get-clones, get-clones_other, get-modify_other, get-modify,
}
use sippet.Message.Method.{Method}
use sippet.Message.Params.{tag}
use sippet.Message.Params.Laws.{tag-set}
use sippet.Message.Request.Ids.{response_dialog_id_lem}
use sippet.Message.Request.{
  Request, Response, incoming, response_dialog_id, dialog_id, tag_of, create_response,
  create_response_internal, create_tagged_response, complete_to, response_headers, response_to,
}

-- No class is found among the clones of another.
pub from_of_via : (h : Headers) → get Header.as_from (clones Header.as_via h) ≡ none
from_of_via = get-clones_other _ _ 1 0 from-IsClass via-IsClass (omega arith)

pub to_of_via : (h : Headers) → get Header.as_to (clones Header.as_via h) ≡ none
to_of_via = get-clones_other _ _ 2 0 to-IsClass via-IsClass (omega arith)

pub to_of_from : (h : Headers) → get Header.as_to (clones Header.as_from h) ≡ none
to_of_from = get-clones_other _ _ 2 1 to-IsClass from-IsClass (omega arith)

pub call_id_of_via : (h : Headers) → get Header.as_call_id (clones Header.as_via h) ≡ none
call_id_of_via = get-clones_other _ _ 3 0 call_id-IsClass via-IsClass (omega arith)

pub call_id_of_from : (h : Headers) → get Header.as_call_id (clones Header.as_from h) ≡ none
call_id_of_from = get-clones_other _ _ 3 1 call_id-IsClass from-IsClass (omega arith)

pub call_id_of_to : (h : Headers) → get Header.as_call_id (clones Header.as_to h) ≡ none
call_id_of_to = get-clones_other _ _ 3 2 call_id-IsClass to-IsClass (omega arith)

pub cseq_of_via : (h : Headers) → get Header.as_cseq (clones Header.as_via h) ≡ none
cseq_of_via = get-clones_other _ _ 4 0 cseq-IsClass via-IsClass (omega arith)

pub cseq_of_from : (h : Headers) → get Header.as_cseq (clones Header.as_from h) ≡ none
cseq_of_from = get-clones_other _ _ 4 1 cseq-IsClass from-IsClass (omega arith)

pub cseq_of_to : (h : Headers) → get Header.as_cseq (clones Header.as_to h) ≡ none
cseq_of_to = get-clones_other _ _ 4 2 cseq-IsClass to-IsClass (omega arith)

pub cseq_of_call_id : (h : Headers) → get Header.as_cseq (clones Header.as_call_id h) ≡ none
cseq_of_call_id = get-clones_other _ _ 4 3 cseq-IsClass call_id-IsClass (omega arith)

pub ruleset picks = (
  get-append, get-cons, get-clones, from_of_via, to_of_via, to_of_from, call_id_of_via,
  call_id_of_from, call_id_of_to, cseq_of_via, cseq_of_from, cseq_of_to, cseq_of_call_id,
)

-- The headers of a response, before any tag is set.
module _ (code delay : ℕ) (h : Headers) where
  copied_from :
      {f : Address}
      → get Header.as_from h ≡ some f
      → get Header.as_from (response_headers code delay h) ≡ some f
  copied_from e = simp (picks, e)

  copied_to :
      {t : Address}
      → get Header.as_to h ≡ some t
      → get Header.as_to (response_headers code delay h) ≡ some t
  copied_to e = simp (picks, e)

  copied_call_id :
      {c : Text}
      → get Header.as_call_id h ≡ some c
      → get Header.as_call_id (response_headers code delay h) ≡ some c
  copied_call_id e = simp (picks, e)

  copied_via :
      {v : List ViaParam}
      → get Header.as_via h ≡ some v
      → get Header.as_via (response_headers code delay h) ≡ some v
  copied_via e = simp (picks, e)

  copied_cseq :
      {q : ℕ × Method}
      → get Header.as_cseq h ≡ some q
      → get Header.as_cseq (response_headers code delay h) ≡ some q
  copied_cseq e = simp (picks, e)

from_set_to_tag :
    (x : Text) (h : Headers) → get Header.as_from (set_to_tag x h) ≡ get Header.as_from h
unfolding set_to_tag
from_set_to_tag x = get-modify_other _ _ 1 2 _ from-IsClass to-IsClass (omega arith) (λ a. refl)

call_id_set_to_tag :
    (x : Text) (h : Headers) → get Header.as_call_id (set_to_tag x h) ≡ get Header.as_call_id h
unfolding set_to_tag
call_id_set_to_tag x =
    get-modify_other _ _ 3 2 _ call_id-IsClass to-IsClass (omega arith) (λ a. refl)

via_set_to_tag : (x : Text) (h : Headers) → get Header.as_via (set_to_tag x h) ≡ get Header.as_via h
unfolding set_to_tag
via_set_to_tag x = get-modify_other _ _ 0 2 _ via-IsClass to-IsClass (omega arith) (λ a. refl)

cseq_set_to_tag :
    (x : Text) (h : Headers) → get Header.as_cseq (set_to_tag x h) ≡ get Header.as_cseq h
unfolding set_to_tag
cseq_set_to_tag x = get-modify_other _ _ 4 2 _ cseq-IsClass to-IsClass (omega arith) (λ a. refl)

to_set_to_tag :
    (x : Text) (h : Headers)
    → get Header.as_to (set_to_tag x h) ≡ Option.map (Header.with_tag x) (get Header.as_to h)
unfolding set_to_tag
to_set_to_tag x = get-modify Header.as_to Header.to (Header.with_tag x) (λ a. refl)

abbrev pub or_fresh : Text → Option Text → Text
or_fresh fresh none = fresh
or_fresh fresh (some t) = t

-- The To tag that complete_to leaves, where the code is above 100.
completed_tag :
    (code : ℕ) (fresh : Text) {t : Address} (h : Headers)
    → 100 < code
    → get Header.as_to h ≡ some t
    → tag_of (get Header.as_to (complete_to code fresh h)) ≡ some (or_fresh fresh (tag t.params))
completed_tag code fresh {t} h above e = elim (Option-cases (tag t.params)) [
  | inl n ↦
      rw (e, n, lt→ltb 100 code above) (rw (to_set_to_tag fresh h, e) (tag-set fresh t.params))
  | inr (x, s) ↦ rw (e, s, lt→ltb 100 code above) (rw (e, s))
]

-- A choice between two header lists in which the same is found.
get_either {ℓ} :
    {A : Type ℓ} (cast : Header → Option A) (b : Bool) (x y : Headers)
    → get cast x ≡ get cast y
    → get cast (if b then x else y) ≡ get cast y
get_either cast true x y e = e
get_either cast false x y e = refl

completed_from :
    (code : ℕ) (fresh : Text) (h : Headers)
    → get Header.as_from (complete_to code fresh h) ≡ get Header.as_from h
completed_from code fresh h = get_either _ _ _ h (from_set_to_tag fresh h)

completed_call_id :
    (code : ℕ) (fresh : Text) (h : Headers)
    → get Header.as_call_id (complete_to code fresh h) ≡ get Header.as_call_id h
completed_call_id code fresh h = get_either _ _ _ h (call_id_set_to_tag fresh h)

-- A response above 100 to an incoming request whose From has a tag, with a To and a Call-ID, has a
-- dialog id: it is made of the request's Call-ID, the request's To tag as the local one, or, where that
-- has none, the tag that is drawn for this one response, and the From tag as the remote one.
pub create_response-dialog_id :
    (r : Request) (code : ℕ) (reason : Text) (delay : ℕ) (fresh : Text) {f t : Address} {c x : Text}
    → 100 < code
    → r.direction ≡ incoming
    → get Header.as_from r.headers ≡ some f
    → get Header.as_to r.headers ≡ some t
    → get Header.as_call_id r.headers ≡ some c
    → tag f.params ≡ some x
    → (s : Response) × (create_response r code reason delay fresh ≡ some s)
      × (response_dialog_id s ≡ some (dialog_id c (or_fresh fresh (tag t.params)) x))
unfolding create_response create_response_internal
create_response-dialog_id r code reason delay fresh above inc hf ht hc hx =
    let h = response_headers code delay r.headers in
    (
      response_to r code reason (complete_to code fresh h),
      rw inc refl,
      response_dialog_id_lem _
          (completed_call_id code fresh h ∙ copied_call_id code delay r.headers hc)
          (ap tag_of (completed_from code fresh h ∙ copied_from code delay r.headers hf) ∙ hx)
          (completed_tag code fresh h above (copied_to code delay r.headers ht)),
    )

pub create_tagged_response-dialog_id :
    (r : Request) (code : ℕ) (reason : Text) (delay : ℕ) (y : Text) {f t : Address} {c x : Text}
    → r.direction ≡ incoming
    → get Header.as_from r.headers ≡ some f
    → get Header.as_to r.headers ≡ some t
    → get Header.as_call_id r.headers ≡ some c
    → tag f.params ≡ some x
    → (s : Response) × (create_tagged_response r code reason delay y ≡ some s)
      × (response_dialog_id s ≡ some (dialog_id c y x))
unfolding create_tagged_response create_response_internal
create_tagged_response-dialog_id r code reason delay y {f} {t} inc hf ht hc hx =
    let h = response_headers code delay r.headers in
    (
      response_to r code reason (set_to_tag y h),
      rw inc refl,
      response_dialog_id_lem _ (call_id_set_to_tag y h ∙ copied_call_id code delay r.headers hc)
          (ap tag_of (from_set_to_tag y h ∙ copied_from code delay r.headers hf) ∙ hx)
          (ap tag_of (
              to_set_to_tag y h
              ∙ ap (Option.map (Header.with_tag y)) (copied_to code delay r.headers ht))
            ∙ tag-set y t.params),
    )

-- A response above 100 that CreateResponse makes, and what its headers keep of the request.
pub record Answers (code : ℕ) (fresh : Text) (r : Request) (s : Response) : Type 0 where
  pub same_via :
      (v : List ViaParam) (e : get Header.as_via r.headers ≡ some v)
      → get Header.as_via s.headers ≡ some v
  pub same_cseq :
      (q : ℕ × Method) (e : get Header.as_cseq r.headers ≡ some q)
      → get Header.as_cseq s.headers ≡ some q
  pub same_from :
      (f : Address) (e : get Header.as_from r.headers ≡ some f)
      → get Header.as_from s.headers ≡ some f
  pub same_call_id :
      (c : Text) (e : get Header.as_call_id r.headers ≡ some c)
      → get Header.as_call_id s.headers ≡ some c
  pub tagged_to :
      (t : Address) (e : get Header.as_to r.headers ≡ some t)
      → tag_of (get Header.as_to s.headers) ≡ some (or_fresh fresh (tag t.params))

pub create_response-Answers :
    (r : Request) (code : ℕ) (reason : Text) (delay : ℕ) (fresh : Text)
    → 100 < code
    → r.direction ≡ incoming
    → (s : Response) × (create_response r code reason delay fresh ≡ some s) × Answers code fresh r s
unfolding create_response create_response_internal
create_response-Answers r code reason delay fresh above inc =
    let h = response_headers code delay r.headers in
    (
      response_to r code reason (complete_to code fresh h),
      rw inc refl,
      record {
        same_via =
            λ _ e. get_either _ _ _ h (via_set_to_tag fresh h) ∙ copied_via code delay r.headers e;
        same_cseq = λ _ e.
            get_either _ _ _ h (cseq_set_to_tag fresh h) ∙ copied_cseq code delay r.headers e;
        same_from = λ _ e. completed_from code fresh h ∙ copied_from code delay r.headers e;
        same_call_id =
            λ _ e. completed_call_id code fresh h ∙ copied_call_id code delay r.headers e;
        tagged_to = λ _ e. completed_tag code fresh h above (copied_to code delay r.headers e);
      },
    )
