-- ===== src/Ua/DialogStore/Survival.antt =====
-- Which dialogs the handlers of dialog_controller.cc leave as they are, and which they remove.
use mathlib.Core.Option.{some-injective}
use sippet.Base.{
  ℕ, ◌≡◌, refl, sym, ◌∙◌, ap, true, false, Option, none, some, is_some, ◌==◌, if◌then◌else◌,
  Bool-cases, Option-cases, inl, inr, Text, equal, equal_iff,
}
use sippet.Base.Maps.{text_eq, find, find-All, find-assign, find-erase, find-insert_kept}
use sippet.Message.Method.{bye, is_method}
use sippet.Message.Request.{Request, Response, request_dialog_id, response_dialog_id}
use sippet.Ua.Dialog.{Uris, Dialog, confirmed, id, create}
use sippet.Ua.DialogStore.{
  Store, generate_dialog, terminate_for_request, terminate_dialog, confirm_dialog, handle_request,
  update_dialog, handle_response, insert_created, is_confirmed, with_state,
}
use sippet.Ua.DialogStore.Invariant.{IsLive, IsValid, handle_response-cases}
use sippet.Ua.Pointer.{Pointer, fault, null, at}

module _ (k : Text) {d : Dialog} where
  insert_created-kept :
      (p : Pointer Dialog) (store : Store)
      → find k store ≡ some d
      → find k (insert_created p store).1 ≡ some d
  insert_created-kept fault store h = h
  insert_created-kept null store h = h
  insert_created-kept (at e) store h = find-insert_kept k (id e) e d store h

  generate_dialog-kept :
      (uris : Uris) (s : Response) (store : Store)
      → find k store ≡ some d
      → find k (generate_dialog uris s store).1 ≡ some d
  unfolding generate_dialog
  generate_dialog-kept uris s store h = elim (Option-cases (response_dialog_id s)) [
    | inl n ↦ rw (n, generate_dialog) h
    | inr (key, e) ↦ elim (Option-cases (find key store)) [
      | inl n ↦ rw (e, generate_dialog) (rw n (insert_created-kept (create uris s) store h))
      | inr (d', f) ↦ rw (e, generate_dialog) (rw f h)
    ]
  ]

  -- A dialog other than the one under the key is neither confirmed nor terminated.
  confirm_dialog-kept :
      (e : Dialog) (store : Store)
      → equal (id e) k ≡ false
      → find k store ≡ some d
      → find k (confirm_dialog e store).1 ≡ some d
  unfolding confirm_dialog
  confirm_dialog-kept e store ne h = find-assign (id e) k (with_state confirmed e) store ∙ rw ne h

  terminate_dialog-kept :
      (e : Dialog) (store : Store)
      → equal (id e) k ≡ false
      → find k store ≡ some d
      → find k (terminate_dialog e store).1 ≡ some d
  unfolding terminate_dialog
  terminate_dialog-kept e store ne h = elim (Bool-cases (is_some (find (id e) store))) [
    | inl t ↦ rw t (find-erase (id e) k store ∙ rw ne h)
    | inr f ↦ rw f h
  ]

  update_dialog-kept :
      (uris : Uris) (s : Response) (class : ℕ) (o : Option Dialog) (store : Store)
      → ((e : Dialog) → o ≡ some e → is_confirmed e.state ≡ false → equal (id e) k ≡ false)
      → find k store ≡ some d
      → find k (update_dialog uris s class o store).1 ≡ some d
  unfolding update_dialog
  update_dialog-kept uris s class none store ne h = elim (Bool-cases (class == 1)) [
    | inl t ↦ rw t (generate_dialog-kept uris s store h)
    | inr f ↦ elim (Bool-cases (class == 2)) [
      | inl t ↦ rw (f, t) (generate_dialog-kept uris s store h)
      | inr g ↦ rw (f, g) h
    ]
  ]
  update_dialog-kept uris s class (some e) store ne h = elim (Bool-cases (is_confirmed e.state)) [
    | inl t ↦ rw t h
    | inr c ↦ elim (Bool-cases (class == 1)) [
      | inl t ↦ rw (c, t) h
      | inr f ↦ elim (Bool-cases (class == 2)) [
        | inl t ↦ rw (c, f, t) (confirm_dialog-kept e store (ne e refl c) h)
        | inr g ↦ rw (c, f, g) (terminate_dialog-kept e store (ne e refl c) h)
      ]
    ]
  ]

-- The dialog found under one key and not confirmed is not the confirmed one under another.
other_id :
    (store : Store) (key k : Text) {d e : Dialog}
    → IsValid store
    → find k store ≡ some d
    → d.state ≡ confirmed
    → find key store ≡ some e
    → is_confirmed e.state ≡ false
    → equal (id e) k ≡ false
other_id store key k {d} {e} v h c f u = elim (Bool-cases (equal (id e) k)) [
  | inr ne ↦ ne
  | inl q ↦
      let same_key : key ≡ k = (find-All IsLive key e store v f).0 ∙ (equal_iff (id e) k).0 q in
      let same : e ≡ d = some-injective e d (sym f ∙ ap (λ x. find x store) same_key ∙ h) in
      absurd (cc (u, same, c))
]

-- In a valid store, a confirmed dialog survives every response: HandleResponse leaves it under its
-- key with no field changed.
pub confirmed_survives :
    (uris : Uris) (s : Response) (store : Store) (k : Text) {d : Dialog}
    → IsValid store
    → find k store ≡ some d
    → d.state ≡ confirmed
    → find k (handle_response uris s store).1 ≡ some d
confirmed_survives uris s store k {d} v h c = elim (handle_response-cases uris s store) [
  | inl same ↦ rw same h
  | inr (key, e) ↦ rw e (
      update_dialog-kept k uris s _ (find key store) store (λ e f u. other_id store key k v h c f u)
        h)
]

-- A BYE with a dialog id removes what stands under that id in the store and nothing else.
pub bye_removes :
    (r : Request) (store : Store) (key j : Text)
    → is_method bye r.method ≡ true
    → request_dialog_id r ≡ some key
    → find j (handle_request r store).1 ≡ (if equal key j then none else find j store)
unfolding handle_request terminate_for_request
bye_removes r store key j b i = elim (Option-cases (find key store)) [
  | inr (d, f) ↦ rw b (rw (i, terminate_for_request) (rw f (find-erase key j store)))
  | inl n ↦ rw b (rw (i, terminate_for_request) (rw n (absent n)))
]
  where
    absent : find key store ≡ none → find j store ≡ (if equal key j then none else find j store)
    absent n = elim (Bool-cases (equal key j)) [
      | inl t ↦ rw t (ap (λ x. find x store) (sym ((equal_iff key j).0 t)) ∙ n)
      | inr f ↦ rw f refl
    ]
