-- ===== src/Ua/Dialog/Requests.antt =====
-- The requests and responses that dialog.cc builds inside a dialog.
use mathlib.Core.List.{append_cancel_left, append_cancel_right}
use mathlib.Core.Option.{some-injective}
use sippet.Base.{
  ◌≢◌, ℕ, ◌+◌, ◌%◌, ◌^◌, ◌≡◌, refl, sym, ◌∙◌, Bool, true, false, List, [], ◌∷◌, ◌++◌, map, none,
  some, if◌then◌else◌, Bool-cases, inl, inr, Text,
}
use sippet.Message.Header.{Header, Address, address_of, with_tag}
use sippet.Message.Header
use sippet.Message.Headers.{get}
use sippet.Message.Method.{Method, ack, cancel, is_method}
use sippet.Message.Params.{tag}
use sippet.Message.Params.Laws.{tag-set, tag_nil}
use sippet.Message.Request.{
  Request, Response, incoming, dialog_id, request_dialog_id, response_dialog_id, or_empty, colon,
}
use sippet.Message.Request.Create.{create_tagged_response-dialog_id}
use sippet.Message.Request.Ids.{request_dialog_id_lem}
use sippet.Ua.Dialog.{
  Uris, Dialog, id, create_request, create_request_internal, create_response, target_and_route,
  tag_unless_empty, get_new_local_sequence,
}

-- The addresses of the Route header.
abbrev pub routes : Request → List Text
routes r = elim (get Header.as_route r.headers) [ none ↦ [] | some l ↦ map (λ a. a.address) l ]

-- The hops that a request takes: a strict router expects its own address in the Request-URI and
-- the target last in the Route header.
abbrev pub hops : Bool → Request → List Text
hops loose r = if loose then routes r ++ r.request_uri ∷ [] else r.request_uri ∷ routes r

-- Whether the first proxy is a loose router.
abbrev pub is_loose : Uris → List Text → Bool
is_loose uris [] = true
is_loose uris (first ∷ _) = uris.has_lr first

pub addresses : (l : List Text) → map (λ a. a.address) (map address_of l) ≡ l
addresses [] = refl
addresses (t ∷ l) = rw (addresses l) refl

tag_unless_empty-tag :
    (t uri : Text) → or_empty (tag (tag_unless_empty t (address_of uri)).params) ≡ t
tag_unless_empty-tag [] uri = rw tag_nil refl
tag_unless_empty-tag (c ∷ rest) uri = rw (tag-set (c ∷ rest) []) refl

-- A request of a dialog goes through the proxies of the route set, in their order, to the remote
-- target, whether the first proxy is a loose or a strict router.
pub create_request_internal-hops :
    (uris : Uris) (d : Dialog) (method : Method) (sequence : ℕ) (guid : Text)
    → hops (is_loose uris d.route_set) (create_request_internal uris d method sequence guid)
      ≡ d.route_set ++ d.remote_target ∷ []
unfolding create_request_internal target_and_route get
create_request_internal-hops uris d method sequence guid = go d.route_set refl
  where
    go :
        (l : List Text)
        → d.route_set ≡ l
        → hops (is_loose uris d.route_set) (create_request_internal uris d method sequence guid)
          ≡ d.route_set ++ d.remote_target ∷ []
    go [] e = rw e refl
    go (first ∷ rest) e = elim (Bool-cases (uris.has_lr first)) [
      | inl t ↦ rw e (rw t (rw (addresses rest) refl))
      | inr f ↦ rw e (rw f (rw (addresses (rest ++ d.remote_target ∷ [])) refl))
    ]

create_request_internal-dialog_id :
    (uris : Uris) (d : Dialog) (method : Method) (sequence : ℕ) (guid : Text)
    → request_dialog_id (create_request_internal uris d method sequence guid) ≡ some (id d)
unfolding create_request_internal get
create_request_internal-dialog_id uris d method sequence guid =
    request_dialog_id_lem (create_request_internal uris d method sequence guid) refl refl refl
    ∙ rw (tag-set d.local_tag [], tag_unless_empty-tag d.remote_tag d.remote_uri) refl

create_request_internal-cseq :
    (uris : Uris) (d : Dialog) (method : Method) (sequence : ℕ) (guid : Text)
    → get Header.as_cseq (create_request_internal uris d method sequence guid).headers
      ≡ some (sequence, method)
unfolding create_request_internal get
create_request_internal-cseq uris d method sequence guid = refl

-- The dialog after a request: the sequence number is used up.
abbrev pub advanced : ℕ → Dialog → Dialog
advanced random d = record d {
  has_local_sequence = true;
  local_sequence = if d.has_local_sequence then (d.local_sequence + 1) % 2 ^ 32 else random;
}

-- For a method other than ACK and CANCEL, CreateRequest makes a request whose dialog id is the
-- dialog's, whose CSeq has the method and the next local sequence number modulo 2^32, the random
-- one in a dialog without any, and leaves that number in the dialog, changing nothing else.
pub create_request_lem :
    (uris : Uris) (d : Dialog) (method : Method) (random : ℕ) (guid : Text)
    → is_method ack method ≡ false
    → is_method cancel method ≡ false
    → (r : Request) × (create_request uris d method random guid ≡ (some r, advanced random d))
      × (request_dialog_id r ≡ some (id d))
      × (get Header.as_cseq r.headers ≡ some ((advanced random d).local_sequence, method))
unfolding create_request get_new_local_sequence
create_request_lem uris d method random guid a c = elim (Bool-cases d.has_local_sequence) [
  | inl t ↦ (
    create_request_internal uris (advanced random d) method _ guid,
    rw (a, c) (rw t refl),
    create_request_internal-dialog_id uris (advanced random d) method _ guid,
    create_request_internal-cseq uris (advanced random d) method _ guid,
  )
  | inr f ↦ (
    create_request_internal uris (advanced random d) method _ guid,
    rw (a, c) (rw f refl),
    create_request_internal-dialog_id uris (advanced random d) method _ guid,
    create_request_internal-cseq uris (advanced random d) method _ guid,
  )
]

-- Dialog::CreateResponse answers a request of the dialog's remote party under another dialog id,
-- where the two tags differ: it passes the remote tag where the To header of the response takes the
-- local one.
pub create_response-other_id :
    (d : Dialog) (code : ℕ) (reason : Text) (r : Request) (delay : ℕ) {f t : Address}
    → r.direction ≡ incoming
    → get Header.as_from r.headers ≡ some f
    → get Header.as_to r.headers ≡ some t
    → get Header.as_call_id r.headers ≡ some d.call_id
    → tag f.params ≡ some d.remote_tag
    → d.local_tag ≢ d.remote_tag
    → (s : Response) × (create_response d code reason r delay ≡ some s)
      × (response_dialog_id s ≢ some (id d))
unfolding create_response
create_response-other_id d code reason r delay inc hf ht hc hx ne =
    let (s, made, key) =
      create_tagged_response-dialog_id r code reason delay d.remote_tag inc hf ht hc hx in
    (
      s,
      made,
      λ e.
          let texts : dialog_id d.call_id d.remote_tag d.remote_tag ≡ id d =
            some-injective _ _ (sym key ∙ e) in
          let tails : d.remote_tag ++ (colon ++ d.remote_tag)
              ≡ d.local_tag ++ (colon ++ d.remote_tag) =
            append_cancel_left colon _ _ (append_cancel_left d.call_id _ _ texts) in
          ne (sym (append_cancel_right _ _ _ tails)),
    )
