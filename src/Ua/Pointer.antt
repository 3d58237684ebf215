-- ===== src/Ua/Pointer.antt =====
-- The result of code that returns a pointer: null, an object, or a fault where it dereferences
-- a null pointer or reads a parameter that is not there.
use sippet.Base.{Option, none, some}

pub data Pointer {ℓ} (A : Type ℓ) : Type ℓ where
  fault null : Pointer A
  at : A → Pointer A

infixl 5 ◌>>=◌
abbrev pub ◌>>=◌ {ℓ κ} : {A : Type ℓ} {B : Type κ} → Pointer A → (A → Pointer B) → Pointer B
fault >>= f = fault
null >>= f = null
at a >>= f = f a

-- What is dereferenced must be there.
abbrev pub deref {ℓ} : {A : Type ℓ} → Option A → Pointer A
deref none = fault
deref (some a) = at a

-- The property of the object that a pointer leads to.
abbrev pub OnObject {ℓ κ} : {A : Type ℓ} → (A → Type κ) → Pointer A → Type κ
OnObject P (at a) = P a
OnObject P _ = Unit

pub OnObject-deref {κ} :
    {A B : Type 0} (P : B → Type κ) (o : Option A) (k : A → Pointer B)
    → ((a : A) → OnObject P (k a))
    → OnObject P (deref o >>= k)
OnObject-deref P none k h = tt
OnObject-deref P (some a) k h = h a
