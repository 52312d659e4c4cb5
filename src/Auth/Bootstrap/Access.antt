-- ===== src/Auth/Bootstrap/Access.antt =====
-- Access to the bootstrap of an administrator (src/auth/bootstrap-admin.service.ts).
use nocodb_middleware.Prelude.{◌≡◌, refl, ◌⊎◌, inl, inr, Option, Text}
use nocodb_middleware.Result.{err, forbidden, unauthorized}
use nocodb_middleware.Auth.{BootstrapAdmin}
use nocodb_middleware.Outside.{Outside, App}
use nocodb_middleware.Auth.Users.{Crypto}
use nocodb_middleware.Auth.Token.Authorization.{
  Authorized, Refused, Decided, assert_bootstrap_allowed-Decided,
}
use nocodb_middleware.Auth.Bootstrap.{bootstrap, bootstrap_admin}

module _ (out : Outside) (crypto : Crypto (Outside.World out)) where
  open out use {World}

  -- The call is the bootstrap itself for the right token. For any other it throws, and the state of
  -- the services and of NocoDB is untouched.
  pub Guarded : Option Text → Option Text → BootstrapAdmin → App World → Type 0
  Guarded configured provided dto s =
      (Authorized configured provided
        × (bootstrap_admin out crypto configured dto provided s ≡ bootstrap out crypto dto s))
      ⊎ ((Authorized configured provided → ⊥)
          × ((bootstrap_admin out crypto configured dto provided s ≡ (err forbidden, s))
              ⊎ (bootstrap_admin out crypto configured dto provided s ≡ (err unauthorized, s))))

  -- An administrator is bootstrapped exactly for a token that has the bytes of the configured one,
  -- both not empty. For any other token the call throws a ForbiddenException or an
  -- UnauthorizedException and leaves the services and NocoDB untouched.
  pub bootstrap_admin-Guarded :
      (configured provided : Option Text) (dto : BootstrapAdmin) (s : App World)
      → Guarded configured provided dto s
  unfolding bootstrap_admin Guarded Decided Refused
  bootstrap_admin-Guarded configured provided dto s =
      elim (assert_bootstrap_allowed-Decided configured provided) [
        | inl (authorized, e) ↦ rw e (inl (authorized, refl))
        | inr (other, inl e) ↦ rw e (inr (other, inl refl))
        | inr (other, inr e) ↦ rw e (inr (other, inr refl))
      ]
