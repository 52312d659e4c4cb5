-- ===== src/Roles/Assignments/Order.antt =====
-- The role records of a page (src/users/user-roles.service.ts).
use nocodb_middleware.Prelude.{
  ◌≡◌, refl, ◌⊎◌, inl, inr, Bool, true, false, none, some, List, [], ◌∷◌, map, any, filter,
  Bool-cases, arith,
}
use nocodb_middleware.Js.{Num, same_num, same_num_iff}
use nocodb_middleware.Types.{NocoRecord}
use nocodb_middleware.Roles.Assignments.{role_with, ordered_roles}

module _ (key : NocoRecord → Num) where
  -- Whether some record has the id.
  pub has_role : List NocoRecord → Num → Bool
  has_role rs id = any (λ r. same_num (key r) id) rs

  -- A lookup finds a record with the id, if there is one.
  Looked : Num → List NocoRecord → Type 0
  Looked id rs =
      ((role_with key id rs ≡ none) × (has_role rs id ≡ false))
      ⊎ ((r : NocoRecord) × (role_with key id rs ≡ some r) × (has_role rs id ≡ true) × (key r ≡ id))

  looked : (id : Num) (rs : List NocoRecord) → Looked id rs
  unfolding Looked has_role role_with
  looked id [] = inl (refl, refl)
  looked id (x ∷ rs) = elim (looked id rs) [
    | inl (absent, missing) ↦ elim (Bool-cases (same_num (key x) id)) [
      | inl k ↦ rw (absent, k) (inr (x, refl, refl, (same_num_iff (key x) id).0 k))
      | inr k ↦ rw (absent, k, missing) (inl (refl, refl))
    ]
    | inr (r, found, present, e) ↦ inr (r, rw found refl, ground arith, e)
  ]

  -- The ids of the roles that are loaded are those of the requested ones that some record has, each
  -- as often as it was requested, in the order of the request.
  pub map-ordered_roles :
      (ids : List Num) (rs : List NocoRecord)
      → map key (ordered_roles key ids rs) ≡ filter (has_role rs) ids
  unfolding ordered_roles filter Looked
  map-ordered_roles [] rs = refl
  map-ordered_roles (id ∷ ids) rs =
      let rest = map-ordered_roles ids rs in
      elim (looked id rs) [
        | inl (absent, missing) ↦ rw (ordered_roles, absent, missing) rest
        | inr (r, found, present, e) ↦ rw (ordered_roles, found, present) (λ i. e i ∷ rest i)
      ]
