-- ===== src/Message/Headers/Laws.antt =====
-- What is found in a header list that was put together or changed.
use mathlib.Core.Option
use sippet.Base.{
  ℕ, [], ◌∷◌, ◌++◌, ◌≡◌, ◌≢◌, refl, sym, ◌∙◌, Option, none, some, Option-cases, inl, inr,
}
use sippet.Message.Header.{Header}
use sippet.Message.Header
use sippet.Message.Headers.{Headers, get, clones, modify_first}

abbrev pub or_else {ℓ} : {A : Type ℓ} → Option A → Option A → Option A
or_else (some a) _ = some a
or_else none o = o

-- Header::type, for the classes that the casts ask for.
abbrev pub kind : Header → ℕ
kind (Header.via _) = 0
kind (Header.from _) = 1
kind (Header.to _) = 2
kind (Header.call_id _) = 3
kind (Header.cseq _ _) = 4
kind (Header.timestamp _ _) = 5
kind (Header.route _) = 6
kind (Header.record_route _) = 7
kind _ = 8

-- The cast takes headers of one type only.
pub data IsClass {ℓ} {A : Type ℓ} (cast : Header → Option A) (k : ℕ) : Type ℓ where
  class : ((h : Header) (a : A) → cast h ≡ some a → kind h ≡ k) → IsClass cast k

via_class : (h : Header) (a : _) → Header.as_via h ≡ some a → kind h ≡ 0
via_class (Header.via _) a e = refl
via_class _ a e = cc

from_class : (h : Header) (a : _) → Header.as_from h ≡ some a → kind h ≡ 1
from_class (Header.from _) a e = refl
from_class _ a e = cc

to_class : (h : Header) (a : _) → Header.as_to h ≡ some a → kind h ≡ 2
to_class (Header.to _) a e = refl
to_class _ a e = cc

call_id_class : (h : Header) (a : _) → Header.as_call_id h ≡ some a → kind h ≡ 3
call_id_class (Header.call_id _) a e = refl
call_id_class _ a e = cc

cseq_class : (h : Header) (a : _) → Header.as_cseq h ≡ some a → kind h ≡ 4
cseq_class (Header.cseq _ _) a e = refl
cseq_class _ a e = cc

pub via-IsClass : IsClass Header.as_via 0
via-IsClass = class via_class

pub from-IsClass : IsClass Header.as_from 1
from-IsClass = class from_class

pub to-IsClass : IsClass Header.as_to 2
to-IsClass = class to_class

pub call_id-IsClass : IsClass Header.as_call_id 3
call_id-IsClass = class call_id_class

pub cseq-IsClass : IsClass Header.as_cseq 4
cseq-IsClass = class cseq_class

module _ {ℓ} {A : Type ℓ} (cast : Header → Option A) where
  pub get-append : (xs ys : Headers) → get cast (xs ++ ys) ≡ or_else (get cast xs) (get cast ys)
  unfolding get
  get-append [] ys = refl
  get-append (h ∷ xs) ys = elim (Option-cases (cast h)) [
    | inl e ↦ rw (e, get) (get-append xs ys)
    | inr (a, e) ↦ rw (e, get)
  ]

  pub get-cons : (h : Header) (xs : Headers) → get cast (h ∷ xs) ≡ or_else (cast h) (get cast xs)
  unfolding get
  get-cons h xs = elim (Option-cases (cast h)) [ inl e ↦ rw (e, get) | inr (a, e) ↦ rw (e, get) ]

  pub get-clones : (xs : Headers) → get cast (clones cast xs) ≡ get cast xs
  unfolding get clones
  get-clones [] = refl
  get-clones (h ∷ xs) = elim (Option-cases (cast h)) [
    | inl e ↦ rw (e, get) (get-clones xs)
    | inr (a, e) ↦ rw (e, get) (rw (e, get))
  ]

  module _ {κ} {B : Type κ} (other : Header → Option B) where
    -- Cloning one class adds no header of another.
    pub get-clones_other :
        (k j : ℕ)
        → IsClass cast k
        → IsClass other j
        → k ≢ j
        → (xs : Headers) → get cast (clones other xs) ≡ none
    unfolding get clones
    get-clones_other k j c d ne [] = refl
    get-clones_other k j (class f) (class g) ne (h ∷ xs) = elim (Option-cases (other h)) [
      | inl e ↦ rw e (get-clones_other k j (class f) (class g) ne xs)
      | inr (b, e) ↦ elim (Option-cases (cast h)) [
        | inl n ↦ rw (e, get) (rw (n, get) (get-clones_other k j (class f) (class g) ne xs))
        | inr (a, s) ↦ absurd (ne (sym (f h a s) ∙ g h b e))
      ]
    ]

    -- Changing the first header of one class leaves those of another.
    pub get-modify_other :
        (k j : ℕ) (change : B → Header)
        → IsClass cast k
        → IsClass other j
        → k ≢ j
        → ((b : B) → cast (change b) ≡ none)
        → (xs : Headers) → get cast (modify_first other change xs) ≡ get cast xs
    unfolding get modify_first
    get-modify_other k j change c d ne same [] = refl
    get-modify_other k j change (class f) (class g) ne same (h ∷ xs) =
        elim (Option-cases (other h)) [
          | inl e ↦ elim (Option-cases (cast h)) [
            | inl n ↦
                rw (e, modify_first)
                  (rw (n, get) (get-modify_other k j change (class f) (class g) ne same xs))
            | inr (a, s) ↦ rw (e, modify_first) (rw (s, get))
          ]
          | inr (b, e) ↦ elim (Option-cases (cast h)) [
            | inl n ↦ rw (e, modify_first) (rw (same b, n, get))
            | inr (a, s) ↦ absurd (ne (sym (f h a s) ∙ g h b e))
          ]
        ]

-- The first header of the class is the changed one.
pub get-modify {ℓ} :
    {A : Type ℓ} (cast : Header → Option A) (build : A → Header) (change : A → A)
    → ((a : A) → cast (build a) ≡ some a)
    → (xs : Headers)
    → get cast (modify_first cast (λ a. build (change a)) xs) ≡ Option.map change (get cast xs)
unfolding get modify_first
get-modify cast build change same [] = refl
get-modify cast build change same (h ∷ xs) = elim (Option-cases (cast h)) [
  | inl e ↦ rw (e, modify_first) (rw (e, get) (get-modify cast build change same xs))
  | inr (a, e) ↦ rw (e, modify_first) (rw (same (change a), e, get))
]
