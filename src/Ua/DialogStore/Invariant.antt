-- ===== src/Ua/DialogStore/Invariant.antt =====
-- What the handlers of dialog_controller.cc keep in the dialog store.
use sippet.Base.{
  ℕ, ◌/◌, ◌≡◌, ◌≢◌, ◌⊎◌, refl, ◌&&◌, List, [], ◌∷◌, Option, none, some, is_some, ltb, ◌==◌,
  Bool-cases, Option-cases, inl, inr, All, Text,
}
use sippet.Base.Maps.{text_eq, find, assign-All, insert-All, erase-All}
use sippet.Message.Header
use sippet.Message.Headers.{get}
use sippet.Message.Params.{tag}
use sippet.Message.Request.{Request, Response, is_incoming, request_dialog_id, response_dialog_id}
use sippet.Message.Method.{bye, invite, is_method}
use sippet.Ua.Dialog.Identity.{Alive, create-Alive, confirmed-ne-terminated}
use sippet.Ua.Dialog.{Uris, Dialog, terminated, id, create}
use sippet.Ua.DialogStore.{
  Store, generate_dialog, terminate_for_request, terminate_dialog, confirm_dialog, handle_request,
  update_dialog, handle_response, handle_request_error, insert_created, is_confirmed,
}
use sippet.Ua.Pointer.{Pointer, fault, null, at, OnObject}

-- An entry stands under its dialog's id, and its dialog is not terminated.
abbrev pub IsLive : Text × Dialog → Type 0
IsLive (key, d) = (key ≡ id d) × (d.state ≢ terminated)

abbrev pub IsValid : Store → Type 0
IsValid = All IsLive

-- What is created goes in under its own id.
insert_created-IsValid :
    (p : Pointer Dialog) (store : Store)
    → OnObject Alive p
    → IsValid store
    → IsValid (insert_created p store).1
insert_created-IsValid fault store a v = v
insert_created-IsValid null store a v = v
insert_created-IsValid (at d) store a v = insert-All IsLive (id d) d store (refl, a) v

generate_dialog-IsValid :
    (uris : Uris) (s : Response) (store : Store)
    → IsValid store
    → IsValid (generate_dialog uris s store).1
unfolding generate_dialog
generate_dialog-IsValid uris s store v = elim (Option-cases (response_dialog_id s)) [
  | inl n ↦ rw (n, generate_dialog) v
  | inr (key, e) ↦ elim (Option-cases (find key store)) [
    | inl n ↦
        rw (e, generate_dialog)
          (rw n (insert_created-IsValid (create uris s) store (create-Alive uris s) v))
    | inr (d, f) ↦ rw (e, generate_dialog) (rw f v)
  ]
]

terminate_for_request-IsValid :
    (r : Request) (store : Store) → IsValid store → IsValid (terminate_for_request r store).1
unfolding terminate_for_request
terminate_for_request-IsValid r store v = elim (Option-cases (request_dialog_id r)) [
  | inl n ↦ rw (n, terminate_for_request) v
  | inr (key, e) ↦ elim (Option-cases (find key store)) [
    | inl n ↦ rw (e, terminate_for_request) (rw n v)
    | inr (d, f) ↦ rw (e, terminate_for_request) (rw f (erase-All IsLive key store v))
  ]
]

terminate_dialog-IsValid :
    (d : Dialog) (store : Store) → IsValid store → IsValid (terminate_dialog d store).1
unfolding terminate_dialog
terminate_dialog-IsValid d store v = elim (Bool-cases (is_some (find (id d) store))) [
  | inl t ↦ rw t (erase-All IsLive (id d) store v)
  | inr f ↦ rw f v
]

confirm_dialog-IsValid :
    (d : Dialog) (store : Store) → IsValid store → IsValid (confirm_dialog d store).1
unfolding confirm_dialog
confirm_dialog-IsValid d store v =
    assign-All IsLive (id d) _ store (λ j e. (e, λ c. confirmed-ne-terminated c)) v

update_dialog-IsValid :
    (uris : Uris) (s : Response) (class : ℕ) (o : Option Dialog) (store : Store)
    → IsValid store
    → IsValid (update_dialog uris s class o store).1
unfolding update_dialog
update_dialog-IsValid uris s class none store v = elim (Bool-cases (class == 1)) [
  | inl t ↦ rw t (generate_dialog-IsValid uris s store v)
  | inr f ↦ elim (Bool-cases (class == 2)) [
    | inl t ↦ rw (f, t) (generate_dialog-IsValid uris s store v)
    | inr g ↦ rw (f, g) v
  ]
]
update_dialog-IsValid uris s class (some d) store v = elim (Bool-cases (is_confirmed d.state)) [
  | inl t ↦ rw t v
  | inr c ↦ elim (Bool-cases (class == 1)) [
    | inl t ↦ rw (c, t) v
    | inr f ↦ elim (Bool-cases (class == 2)) [
      | inl t ↦ rw (c, f, t) (confirm_dialog-IsValid d store v)
      | inr g ↦ rw (c, f, g) (terminate_dialog-IsValid d store v)
    ]
  ]
]

-- HandleResponse leaves the store, or updates the dialog that it found in it.
pub handle_response-cases :
    (uris : Uris) (s : Response) (store : Store)
    → ((handle_response uris s store).1 ≡ store)
      ⊎ ((key : Text) × (handle_response uris s store
            ≡ update_dialog uris s (s.response_code / 100) (find key store) store))
unfolding handle_response
handle_response-cases uris s store = elim (Option-cases (get Header.as_cseq s.headers)) [
  | inl n ↦ inl (rw (n, handle_response) refl)
  | inr (cseq, e) ↦ elim (Bool-cases (is_method invite cseq.1 && ltb 100 s.response_code)) [
    | inr f ↦ inl (rw (e, handle_response) (rw f refl))
    | inl t ↦ elim (Option-cases (get Header.as_to s.headers)) [
      | inl n ↦ inl (rw (e, handle_response) (rw t (rw n refl)))
      | inr (to, h) ↦ elim (Bool-cases (is_some (tag to.params))) [
        | inr f ↦ inl (rw (e, handle_response) (rw t (rw h (rw f refl))))
        | inl g ↦ elim (Option-cases (response_dialog_id s)) [
          | inl n ↦ inl (rw (e, handle_response) (rw t (rw h (rw g (rw n refl)))))
          | inr (key, i) ↦ inr (key, rw (e, handle_response) (rw t (rw h (rw g (rw i refl)))))
        ]
      ]
    ]
  ]
]

handle_response-IsValid :
    (uris : Uris) (s : Response) (store : Store)
    → IsValid store
    → IsValid (handle_response uris s store).1
handle_response-IsValid uris s store v = elim (handle_response-cases uris s store) [
  | inl same ↦ rw same v
  | inr (key, e) ↦ rw e (update_dialog-IsValid uris s _ (find key store) store v)
]

-- What the user agent hands to the dialog controller.
pub data Event : Type 0 where
  request request_error : Request → Event
  response : Response → Event

abbrev pub handle : Uris → Event → Store → Store
handle uris (request r) store = (handle_request r store).1
handle uris (request_error r) store = (handle_request_error r store).1
handle uris (response s) store = (handle_response uris s store).1

abbrev pub handle_all : Uris → List Event → Store → Store
handle_all uris [] store = store
handle_all uris (e ∷ events) store = handle_all uris events (handle uris e store)

handle-IsValid :
    (uris : Uris) (e : Event) (store : Store) → IsValid store → IsValid (handle uris e store)
unfolding handle_request handle_request_error
handle-IsValid uris (response s) store v = handle_response-IsValid uris s store v
handle-IsValid uris (request r) store v = elim (Bool-cases (is_method bye r.method)) [
  | inl t ↦ rw (t, handle) (terminate_for_request-IsValid r store v)
  | inr f ↦ rw (f, handle) v
]
handle-IsValid uris (request_error r) store v = elim (Bool-cases (is_incoming r.direction)) [
  | inl t ↦ rw (t, handle) v
  | inr f ↦ rw (f, handle) (terminate_for_request-IsValid r store v)
]

-- From a valid store, the handlers of requests, responses and request errors lead, in any order,
-- to a store in which every dialog stands under its own id and none is terminated.
pub handle_all-IsValid :
    (uris : Uris) (events : List Event) (store : Store)
    → IsValid store
    → IsValid (handle_all uris events store)
handle_all-IsValid uris [] store v = v
handle_all-IsValid uris (e ∷ events) store v =
    handle_all-IsValid uris events _ (handle-IsValid uris e store v)
