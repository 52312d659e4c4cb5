-- ===== src/Example/Registration.antt =====
-- What the public routes of the example backend write
-- (example/src/shared/services/auth.service.ts).
use nocodb_middleware.Prelude.{
  ◌≡◌, ◌⊎◌, refl, inl, inr, true, Option, none, List, Text, codes, same, arith,
}
use nocodb_middleware.Js.{Value, text}
use nocodb_middleware.Effects.Keeps.{Keeps}
use nocodb_middleware.Types.{users, get}
use nocodb_middleware.Example.Backend.{
  Backend, JwtPayload, Verb, Request, records_path, get_request,
}
use nocodb_middleware.Example.Accounts
use nocodb_middleware.Example.Accounts.{user_data, hash_key}
use nocodb_middleware.Example.Guards.{authenticate}
use nocodb_middleware.Example.Server.{Route, is_public, handle, no_user, serve, serve_found}
use nocodb_middleware.Example.Privileges.{IsRead}
use nocodb_middleware.Example.Sending.{KeptBy}
use nocodb_middleware.Example.Sending.Reads.{login-Keeps}
use nocodb_middleware.Example.Sending.Writes.{register-Keeps}
use nocodb_middleware.Example.Sending.Routes.{wrapped-Keeps}

-- The creation of an account with the role `user`.
abbrev pub IsRegistration : Request → Type 0
IsRegistration r =
    (r.verb ≡ Verb.post)
    × (r.path ≡ records_path users)
    × (get (codes "role") r.body ≡ text (codes "user"))

module _ (b : Backend) (P : Backend.World b → Type 0)
    (kept : KeptBy b (λ r. IsRead r ⊎ IsRegistration r) P) where
  reads :
      (path : Text) (params : List (Text × Value))
      → IsRead (get_request path params) ⊎ IsRegistration (get_request path params)
  unfolding get_request
  reads path params = inl refl

  public-Keeps : (r : Route) → is_public r ≡ true → Keeps P (handle b r no_user)
  unfolding is_public handle user_data get same
  public-Keeps (Route.register_user u) h = wrapped-Keeps P (Accounts.register b u) _ (
      register-Keeps b (λ r. IsRead r ⊎ IsRegistration r) P kept reads u
        (λ hash. inr (refl, refl, refl)))
  public-Keeps (Route.login_user c) h =
      wrapped-Keeps P (Accounts.login b c) _
        (login-Keeps b (λ r. IsRead r ⊎ IsRegistration r) P kept reads c)
  public-Keeps _ h = absurd (ground arith)

  found-Keeps : (r : Route) (path : Text) → is_public r ≡ true → Keeps P (serve_found b r path none)
  unfolding serve_found
  found-Keeps r path h = rw h (public-Keeps r h)

-- A public route makes the backend send nothing but reads of NocoDB and the creation of accounts
-- with the role `user`, whatever the payload says, a role included, and whoever asks.
pub serve_public-IsRegistration :
    (b : Backend) (P : Backend.World b → Type 0) (r : Route) (path : Text)
    (verified : Option JwtPayload)
    → KeptBy b (λ r. IsRead r ⊎ IsRegistration r) P
    → is_public r ≡ true
    → Keeps P (serve b r path verified)
unfolding serve authenticate
serve_public-IsRegistration b P r path verified kept h = rw h (found-Keeps b P kept r path h)
