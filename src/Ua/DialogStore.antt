-- ===== src/Ua/DialogStore.antt =====
-- sippet/ua/dialog_store.cc and dialog_controller.cc. A dialog object is shared by the store and
-- its users: a change of its state shows in the store's entry and in what is returned.
pub mod Invariant
pub mod Survival
mod Tests
use sippet.Base.{
  ℕ, ◌/◌, Bool, true, false, ◌&&◌, List, [], ◌∷◌, Option, none, some, is_some, ltb, ◌==◌,
  if◌then◌else◌, Text,
}
use sippet.Base.Maps.{find, insert, assign, erase, text_eq}
use sippet.Message.Header
use sippet.Message.Headers.{get}
use sippet.Message.Method.{bye, invite, is_method}
use sippet.Message.Params.{tag}
use sippet.Message.Request.{Request, Response, is_incoming, request_dialog_id, response_dialog_id}
use sippet.Ua.Dialog.{Uris, State, Dialog, confirmed, terminated, id, create}
use sippet.Ua.Pointer.{Pointer, fault, null, at, ◌>>=◌, deref}

abbrev pub Store : Type 0
Store = List (Text × Dialog)

abbrev pub with_state : State → Dialog → Dialog
with_state state d = record d { state = state }

abbrev pub found : Option Dialog → Store → Pointer Dialog × Store
found none store = (null, store)
found (some d) store = (at d, store)

-- GenerateDialog, after the look-up.
abbrev pub insert_created : Pointer Dialog → Store → Pointer Dialog × Store
insert_created fault store = (fault, store)
insert_created null store = (null, store)
insert_created (at d) store = (at d, insert (id d) d store)

-- GenerateDialog
unfoldable pub generate_dialog : Uris → Response → Store → Pointer Dialog × Store
generate_dialog uris response store = elim (response_dialog_id response) [
  | none ↦ (fault, store)
  | some key ↦ elim (find key store) [
    | some d ↦ (at d, store)
    | none ↦ insert_created (create uris response) store
  ]
]

-- TerminateDialog(request)
unfoldable pub terminate_for_request : Request → Store → Pointer Dialog × Store
terminate_for_request request store = elim (request_dialog_id request) [
  | none ↦ (fault, store)
  | some key ↦ elim (find key store) [
    | none ↦ (null, store)
    | some d ↦ (at (with_state terminated d), erase key store)
  ]
]

-- TerminateDialog(dialog); the dialog as it is afterwards.
unfoldable pub terminate_dialog : Dialog → Store → Pointer Dialog × Store
terminate_dialog d store =
    if is_some (find (id d) store)
    then (at (with_state terminated d), erase (id d) store)
    else (at d, store)

-- ConfirmDialog, on a dialog of the store.
unfoldable pub confirm_dialog : Dialog → Store → Pointer Dialog × Store
confirm_dialog d store = (at (with_state confirmed d), assign (id d) (with_state confirmed d) store)

abbrev pub is_confirmed : State → Bool
is_confirmed confirmed = true
is_confirmed _ = false

-- HandleRequest
unfoldable pub handle_request : Request → Store → Pointer Dialog × Store
unfolding terminate_for_request
handle_request request store =
    if is_method bye request.method then terminate_for_request request store else (null, store)

-- HandleResponse, where the response's dialog is looked up.
pub update_dialog : Uris → Response → ℕ → Option Dialog → Store → Pointer Dialog × Store
unfolding generate_dialog terminate_dialog confirm_dialog
update_dialog uris response class none store =
    if class == 1
    then generate_dialog uris response store
    else if class == 2
    then generate_dialog uris response store
    else (null, store)
update_dialog uris response class (some d) store =
    if is_confirmed d.state
    then (at d, store)
    else if class == 1
    then (at d, store)
    else if class == 2
    then confirm_dialog d store
    else terminate_dialog d store

-- HandleResponse
unfoldable pub handle_response : Uris → Response → Store → Pointer Dialog × Store
unfolding update_dialog
handle_response uris response store = elim (get Header.as_cseq response.headers) [
  | none ↦ (null, store)
  | some cseq ↦
      if is_method invite cseq.1 && ltb 100 response.response_code
      then elim (get Header.as_to response.headers) [
        | none ↦ (fault, store)
        | some to ↦
            if is_some (tag to.params)
            then elim (response_dialog_id response) [
              | none ↦ (fault, store)
              | some key ↦
                  update_dialog uris response (response.response_code / 100) (find key store) store
            ]
            else (null, store)
      ]
      else (null, store)
]

-- HandleRequestError
unfoldable pub handle_request_error : Request → Store → Pointer Dialog × Store
unfolding terminate_for_request
handle_request_error request store =
    if is_incoming request.direction then (null, store) else terminate_for_request request store
