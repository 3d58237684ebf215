-- ===== src/Message/Method/Coerce.antt =====
-- What the lookup in the sorted `names` table of method.cc finds.
use sippet.Base.{◌≡◌, ◌↔◌, refl, sym, ◌∙◌, some, Text}
use sippet.Message.Atom.{lower, coerce}
use sippet.Message.Atom.Lookup.{IsTable, coerce-lower, coerce-eq_some}
use sippet.Message.Method.{MethodType, ack, string_of, names}

coerce-string_of : (t : MethodType) → coerce names (string_of t) ≡ some t
unfolding coerce
coerce-string_of ack = refl
coerce-string_of _ = refl

names-IsTable : IsTable string_of names
names-IsTable = (
  refl,
  (
    refl,
    (
      refl,
      (
        refl,
        (
          refl,
          (
            refl,
            (
              refl,
              (refl, (refl, (refl, (refl, (refl, (refl, (refl, (refl, (refl, (refl, tt)))))))))),
            ),
          ),
        ),
      ),
    ),
  ),
)

-- A text is read as a known method exactly when it is that method's name, in any case of its
-- letters.
pub coerce_iff :
    (s : Text) (t : MethodType) → (coerce names s ≡ some t) ↔ (lower s ≡ lower (string_of t))
coerce_iff s t = (
  λ h. sym (coerce-eq_some string_of names s t names-IsTable h),
  λ h. coerce-lower names s (string_of t) h ∙ coerce-string_of t,
)
