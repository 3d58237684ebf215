-- ===== src/Message/Params/Laws.antt =====
-- What a parameter list gives back after it was set.
use sippet.Base.{[], ◌∷◌, ◌≡◌, refl, none, some, arith, if◌then◌else◌, Text, equal, equal_iff}
use sippet.Message.Params.{Params, param_find, param_set, tag, set_tag, branch, set_branch}

-- Setting a parameter changes what is found under its name, and under no other name.
pub param_find-set :
    (key other value : Text) (params : Params)
    → param_find other (param_set key value params)
      ≡ (if equal key other then some value else param_find other params)
unfolding param_find param_set
param_find-set key other value [] = refl
param_find-set key other value ((name, old) ∷ rest) = ground (
  arith,
  equal_iff key other,
  equal_iff name key,
  equal_iff name other,
  param_find-set key other value rest,
)

pub tag-set : (value : Text) (params : Params) → tag (set_tag value params) ≡ some value
unfolding tag set_tag
tag-set value params = rw (param_find-set _ _ value params)

pub branch-set : (value : Text) (params : Params) → branch (set_branch value params) ≡ some value
unfolding branch set_branch
branch-set value params = rw (param_find-set _ _ value params)

pub tag_nil : tag [] ≡ none
unfolding tag
tag_nil = refl
