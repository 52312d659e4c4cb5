-- ===== src/Permissions/Service/Forgetting.antt =====
-- A cleared permission cache, and the next request (src/permissions/permissions.service.ts).
use nocodb_middleware.Prelude.{
  ◌≡◌, refl, ap, sym, ◌∙◌, none, some, [], ◌∷◌, filter, Bool-cases, inl, inr,
}
use nocodb_middleware.Js.{Num, same_num, truthy_num}
use nocodb_middleware.Result.{ok}
use nocodb_middleware.Effects.{pure, ◌>>◌}
use nocodb_middleware.Outside.{Outside, App}
use nocodb_middleware.Permissions.Cache.{Cache, get_entry, delete_entry, clear_cache}
use nocodb_middleware.Permissions.Service.{
  clear_permissions, cached_permissions, read_cache, get_user_permissions, load_permissions,
}

get_entry-delete_entry : (u : Num) (c : Cache) → get_entry u (delete_entry u c) ≡ none
unfolding get_entry delete_entry filter
get_entry-delete_entry u [] = refl
get_entry-delete_entry u ((v, e) ∷ c) =
    let ih = get_entry-delete_entry u c in
    elim (Bool-cases (same_num u v)) [ inl k ↦ rw k ih | inr k ↦ rw k (rw k ih) ]

get_entry-clear_cache : (u : Num) (c : Cache) → get_entry u (clear_cache (some u) c) ≡ none
unfolding clear_cache get_entry
get_entry-clear_cache u c = elim (Bool-cases (truthy_num u)) [
  | inl k ↦ rw k (get_entry-delete_entry u c)
  | inr k ↦ rw k refl
]

module _ (out : Outside) where
  open out use {World}

  -- Nothing is cached for the user.
  unfoldable pub Forgotten : Num → App World → Type 0
  Forgotten u s = get_entry u s.permissions_cache ≡ none

  pub get_user_permissions_of_Forgotten :
      (u : Num) (s : App World)
      → Forgotten u s
      → get_user_permissions out u s ≡ load_permissions out u s
  unfolding Forgotten get_user_permissions cached_permissions read_cache
  get_user_permissions_of_Forgotten u s h = rw h refl

  pub clear_permissions_all-Forgotten :
      (u : Num) (s t : App World) → clear_permissions out none s ≡ (ok tt, t) → Forgotten u t
  unfolding Forgotten clear_permissions clear_cache get_entry
  clear_permissions_all-Forgotten u s t h = ap (λ r. get_entry u r.1.permissions_cache) (sym h)

  pub clear_permissions-Forgotten :
      (u : Num) (s t : App World) → clear_permissions out (some u) s ≡ (ok tt, t) → Forgotten u t
  unfolding Forgotten clear_permissions
  clear_permissions-Forgotten u s t h =
      ap (λ r. get_entry u r.1.permissions_cache) (sym h)
      ∙ get_entry-clear_cache u s.permissions_cache

  -- The same, with a result after it.
  pub clear_all_then-Forgotten {ℓ} :
      {A : Type ℓ} (u : Num) (a b : A) (s t : App World)
      → (clear_permissions out none >> pure a) s ≡ (ok b, t)
      → Forgotten u t
  unfolding Forgotten clear_permissions clear_cache get_entry
  clear_all_then-Forgotten u a b s t h = ap (λ r. get_entry u r.1.permissions_cache) (sym h)

  pub clear_then-Forgotten {ℓ} :
      {A : Type ℓ} (u : Num) (a b : A) (s t : App World)
      → (clear_permissions out (some u) >> pure a) s ≡ (ok b, t)
      → Forgotten u t
  unfolding Forgotten clear_permissions
  clear_then-Forgotten u a b s t h =
      ap (λ r. get_entry u r.1.permissions_cache) (sym h)
      ∙ get_entry-clear_cache u s.permissions_cache
