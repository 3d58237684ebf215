-- ===== src/Transport/AliasesMap/Laws.antt =====
-- What the aliases map keeps over its operations.
use mathlib.Core.Option.{some-injective}
use sippet.Base.{
  ◌≡◌, ◌≢◌, ◌⊎◌, refl, sym, ◌∙◌, ap, Bool, true, false, ◌||◌, List, [], ◌∷◌, ◌++◌, none, some,
  if◌then◌else◌, Bool-cases, Option-cases, inl, inr, arith,
}
use sippet.Base.Maps.{find, assign, erase, find-assign, find-erase}
use sippet.Transport.AliasesMap.{
  AliasesMap, or_nil, or_empty, aliases_of, add_alias, target_of, remove_each, remove_aliases,
}
use sippet.Transport.EndPoint.{EndPoint, Key, key, empty}
use sippet.Transport.NetworkLayer.{key_eq, key_beq, key_beq_iff}

-- Whether a list has an endpoint with the key.
abbrev pub lists : Key → List EndPoint → Bool
lists k [] = false
lists k (a ∷ es) = if key_beq (key a) k then true else lists k es

pub data Operation : Type 0 where
  add : EndPoint → EndPoint → Operation
  remove : EndPoint → Operation

abbrev pub run : Operation → AliasesMap → AliasesMap
unfolding add_alias remove_aliases
run (add target alias) m = add_alias target alias m
run (remove target) m = remove_aliases target m

abbrev pub run_all : List Operation → AliasesMap → AliasesMap
run_all [] m = m
run_all (o ∷ os) m = run_all os (run o m)

abbrev pub no_aliases : AliasesMap
no_aliases = record { reverse_map = []; forward_map = [] }

-- What the reverse map has stands in the forward map too.
Listed : AliasesMap → Type 0
Listed m =
    (k : Key) (target : EndPoint)
    → find k m.reverse_map ≡ some target
    → lists k (aliases_of target m) ≡ true

lists-append :
    (k : Key) (es : List EndPoint) (a : EndPoint)
    → lists k (es ++ a ∷ []) ≡ (lists k es || key_beq (key a) k)
lists-append k [] a = ground arith
lists-append k (x ∷ es) a = ground (arith, lists-append k es a)

find-remove_each :
    (k : Key) (es : List EndPoint) (reverse : List (Key × EndPoint))
    → find k (remove_each es reverse) ≡ (if lists k es then none else find k reverse)
unfolding remove_each
find-remove_each k [] reverse = refl
find-remove_each k (a ∷ es) reverse =
    find-remove_each k es (erase (key a) reverse)
    ∙ ap (λ x. if lists k es then none else x) (find-erase (key a) k reverse)
    ∙ ground arith

aliases_of-add :
    (target alias t : EndPoint) (m : AliasesMap)
    → aliases_of t (add_alias target alias m)
      ≡ (if key_beq (key target) (key t) then aliases_of target m ++ alias ∷ [] else aliases_of t m)
unfolding add_alias
aliases_of-add target alias t m =
    ap or_nil (find-assign (key target) (key t) (aliases_of target m ++ alias ∷ []) m.forward_map)
    ∙ (elim (Bool-cases (key_beq (key target) (key t))) [ inl h ↦ rw h refl | inr h ↦ rw h refl ])

aliases_of-key : (t u : EndPoint) (m : AliasesMap) → key t ≡ key u → aliases_of t m ≡ aliases_of u m
aliases_of-key t u m e = ap (λ k. or_nil (find k m.forward_map)) e

-- The entry that a lookup finds after an assignment is the new one or an old one.
assigned :
    (k j : Key) {x y : EndPoint} (m : List (Key × EndPoint))
    → find j (assign k x m) ≡ some y
    → ((key_beq k j ≡ true) × (x ≡ y)) ⊎ (find j m ≡ some y)
assigned k j {x} {y} m e =
    let h : (if key_beq k j then some x else find j m) ≡ some y = sym (find-assign k j x m) ∙ e in
    elim (Bool-cases (key_beq k j)) [
      | inl t ↦ inl (t, some-injective x y (rw t at h))
      | inr f ↦ inr (rw f at h)
    ]

add-Listed :
    (target alias : EndPoint) (m : AliasesMap) → Listed m → Listed (add_alias target alias m)
unfolding add_alias Listed
add-Listed target alias m v k t e =
    rw (aliases_of-add target alias t m) (elim (assigned (key alias) k m.reverse_map e) [
      | inl (h, same) ↦
          rw
            (
              (key_beq_iff (key target) (key t)).1 (ap key same),
              lists-append k (aliases_of target m) alias,
              h,
            )
            (ground arith)
      | inr old ↦ elim (Bool-cases (key_beq (key target) (key t))) [
        | inr f ↦ rw f (v k t old)
        | inl h ↦
            rw
              (
                h,
                lists-append k (aliases_of target m) alias,
                aliases_of-key target t m ((key_beq_iff (key target) (key t)).0 h),
                v k t old,
              )
              refl
      ]
    ])

-- What RemoveAliases leaves of both maps.
removed :
    (target : EndPoint) (m : AliasesMap) (k : Key)
    → find k (remove_aliases target m).reverse_map
      ≡ (if lists k (aliases_of target m) then none else find k m.reverse_map)
unfolding remove_aliases
removed target m k = elim (Option-cases (find (key target) m.forward_map)) [
  | inl n ↦ rw (n, remove_aliases, or_nil) refl
  | inr (es, at) ↦ rw (at, remove_aliases, or_nil) (find-remove_each k es m.reverse_map)
]

aliases_of-remove :
    (target t : EndPoint) (m : AliasesMap)
    → key_beq (key target) (key t) ≡ false
    → aliases_of t (remove_aliases target m) ≡ aliases_of t m
unfolding remove_aliases
aliases_of-remove target t m f = elim (Option-cases (find (key target) m.forward_map)) [
  | inl n ↦ rw (n, remove_aliases) refl
  | inr (es, at) ↦
      rw (at, remove_aliases)
        (ap or_nil (find-erase (key target) (key t) m.forward_map) ∙ rw f refl)
]

-- An alias that is left has another target.
left_over :
    (target t : EndPoint) (m : AliasesMap) (k : Key)
    → Listed m
    → find k (remove_aliases target m).reverse_map ≡ some t
    → (find k m.reverse_map ≡ some t) × (key_beq (key target) (key t) ≡ false)
unfolding Listed
left_over target t m k v e =
    let h = sym (removed target m k) ∙ e in
    elim (Bool-cases (lists k (aliases_of target m))) [
      | inl l ↦ absurd (cc (rw l at h))
      | inr l ↦
          let old : find k m.reverse_map ≡ some t = rw l at h in
          (
            old,
            elim (Bool-cases (key_beq (key target) (key t))) [
              | inr f ↦ f
              | inl same ↦ absurd (
                  cc (
                    l,
                    v k t old,
                    ap (λ es. lists k es)
                        (aliases_of-key target t m ((key_beq_iff (key target) (key t)).0 same)),
                  ))
            ],
          )
    ]

remove-Listed : (target : EndPoint) (m : AliasesMap) → Listed m → Listed (remove_aliases target m)
unfolding Listed
remove-Listed target m v k t e =
    let (old, other) = left_over target t m k v e in
    rw (aliases_of-remove target t m other) (v k t old)

run_all-Listed : (os : List Operation) (m : AliasesMap) → Listed m → Listed (run_all os m)
unfolding run
run_all-Listed [] m v = v
run_all-Listed (add target alias ∷ os) m v = run_all-Listed os _ (add-Listed target alias m v)
run_all-Listed (remove target ∷ os) m v = run_all-Listed os _ (remove-Listed target m v)

no_aliases-Listed : Listed no_aliases
unfolding Listed find
no_aliases-Listed k t e = absurd (cc e)

-- After RemoveAliases, over any history of the map, no alias leads to the target any more, and an
-- alias that does not stand among those of the target leads where it did.
pub removed_target :
    (os : List Operation) (target alias : EndPoint)
    → key target ≢ key empty
    → let m = run_all os no_aliases in
      let m' = remove_aliases target m in
      (key (target_of alias m') ≢ key target)
      × ((lists (key alias) (aliases_of target m) ≡ true)
          ⊎ (target_of alias m' ≡ target_of alias m))
unfolding target_of
removed_target os target alias named =
    let m = run_all os no_aliases in
    (
      elim (Option-cases (find (key alias) (remove_aliases target m).reverse_map)) [
        | inl n ↦ rw (n, target_of) (λ e. named (sym e))
        | inr (t, at) ↦
            let (_, other) =
              left_over target t m (key alias) (run_all-Listed os no_aliases no_aliases-Listed)
                at in
            rw (at, target_of)
              (λ e. absurd (cc (other, (key_beq_iff (key target) (key t)).1 (sym e))))
      ],
      elim (Bool-cases (lists (key alias) (aliases_of target m))) [
        | inl t ↦ inl t
        | inr f ↦ inr (
            ap or_empty (removed target m (key alias))
            ∙ ap (λ b. or_empty (if b then none else find (key alias) m.reverse_map)) f)
      ],
    )

-- An alias that was given a new target is lost with its old one: RemoveAliases of the old target
-- leaves it without any.
pub moved_alias_lost :
    (old new alias : EndPoint) (m : AliasesMap)
    → key_beq (key new) (key old) ≡ false
    → target_of alias (remove_aliases old (add_alias new alias (add_alias old alias m))) ≡ empty
unfolding target_of
moved_alias_lost old new alias m other =
    let m1 = add_alias old alias m in
    let m2 = add_alias new alias m1 in
    let listed : lists (key alias) (aliases_of old m2) ≡ true =
      rw
        (
          aliases_of-add new alias old m1,
          other,
          aliases_of-add old alias old m,
          (key_beq_iff (key old) (key old)).1 refl,
          lists-append (key alias) (aliases_of old m) alias,
          (key_beq_iff (key alias) (key alias)).1 refl,
        )
        (ground arith) in
    ap or_empty (removed old m2 (key alias))
    ∙ ap (λ b. or_empty (if b then none else find (key alias) m2.reverse_map)) listed
