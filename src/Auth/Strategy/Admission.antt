-- ===== src/Auth/Strategy/Admission.antt =====
-- Who is admitted with a valid token (src/auth/strategies/jwt.strategy.ts).
use nocodb_middleware.Prelude.{
  ◌≡◌, refl, sym, ap, ◌∙◌, inl, inr, true, false, ◌&&◌, Option, none, some, Bool-cases, arith,
}
use nocodb_middleware.Js.{Num, Value, bool, is_integer, is_positive}
use nocodb_middleware.Result.{ok, guard, unauthorized}
use nocodb_middleware.Effects.{lift, >>=-ok, guard-ok, lift-ok}
use nocodb_middleware.Types.{NocoRecord, NocoTableMeta, get, users}
use nocodb_middleware.Prelude.{codes}
use nocodb_middleware.Outside.{Outside, App}
use nocodb_middleware.Nocodb.Meta.{get_table_by_name}
use nocodb_middleware.Nocodb.Records
use nocodb_middleware.Auth.{Provider, local, external, IdentityClaims, ResolvedIdentity}
use nocodb_middleware.Auth.Claims.{TokenPayload, normalize}
use nocodb_middleware.Auth.Config.{Settings, get_provider}
use nocodb_middleware.Auth.Users.{is_not_false}
use nocodb_middleware.Auth.Provisioning.{resolve_identity}
use nocodb_middleware.Auth.Provisioning.Resolution.{Resolved, upsert_identity_user-Resolved}
use nocodb_middleware.Permissions.Management.{extract_numeric_id}
use nocodb_middleware.Auth.Strategy.{
  AuthenticatedUser, local_user, external_user, admit_local, read_local, validate_local,
  admit_identity, validate_external, validate_claims, validate,
}

module _ (out : Outside) where
  open out use {World, parse_number}

  -- What must have been found, by provider, in the run from `s` to `t`.
  Account : IdentityClaims → Provider → AuthenticatedUser → App World → App World → Type 0
  Account claims local u s t =
      (table : NocoTableMeta) × (user : NocoRecord) × (s₁ : App World) × (get_table_by_name out
          users s
        ≡ (ok (some table), s₁))
      × (Records.read out table.id (parse_number claims.subject) none s₁ ≡ (ok (some user), t))
      × ¬ (get (codes "is_active") user ≡ bool false)
      × (u.user_id ≡ parse_number claims.subject)
      × (is_integer (parse_number claims.subject) && is_positive (parse_number claims.subject)
          ≡ true)
      × (u.roles ≡ claims.roles)
  Account claims external u s t =
      (identity : ResolvedIdentity) × (resolved : Resolved out
        (record claims { provider = external }) identity s t)
      × ¬ (get (codes "is_active") resolved.account ≡ bool false)
      × (extract_numeric_id parse_number resolved.account ≡ ok u.user_id)
      × (u.roles ≡ claims.roles)

  not_inactive : (v : Value) → is_not_false v ≡ true → ¬ (v ≡ bool false)
  unfolding is_not_false
  not_inactive v active inactive = absurd (ground (arith, rw inactive at active))

  pub Authenticated : Settings → TokenPayload → AuthenticatedUser → App World → App World → Type 0
  Authenticated settings payload u s t =
      (provider : Provider) × (claims : IdentityClaims) × (get_provider settings ≡ ok provider)
      × (normalize payload provider ≡ ok claims)
      × Account claims provider u s t
      × (u.scope ≡ claims.scope)

  admit_local-ok :
      (user_id : Num) (claims : IdentityClaims) (found : Option NocoRecord) (s t : App World)
      {u : AuthenticatedUser}
      → admit_local out user_id claims found s ≡ (ok u, t)
      → (user : NocoRecord) × (found ≡ some user)
        × (s ≡ t)
        × (is_not_false (get (codes "is_active") user) ≡ true)
        × (u ≡ local_user user_id claims user)
  unfolding admit_local
  admit_local-ok user_id claims none s t h = ground arith
  admit_local-ok user_id claims (some user) s t {u} h =
      elim (Bool-cases (is_not_false (get (codes "is_active") user))) [
        | inl active ↦ let e = rw active at h in (user, refl, cc, active, cc)
        | inr inactive ↦ let e = rw inactive at h in absurd (ground arith)
      ]

  read_local-ok :
      (user_id : Num) (claims : IdentityClaims) (found : Option NocoTableMeta) (s t : App World)
      {u : AuthenticatedUser}
      → read_local out user_id claims found s ≡ (ok u, t)
      → (table : NocoTableMeta) × (user : NocoRecord) × (found ≡ some table)
        × (Records.read out table.id user_id none s ≡ (ok (some user), t))
        × (is_not_false (get (codes "is_active") user) ≡ true)
        × (u ≡ local_user user_id claims user)
  unfolding read_local
  read_local-ok user_id claims none s t h = ground arith
  read_local-ok user_id claims (some table) s t h =
      let (found, s₁, reading, admitting) = >>=-ok (Records.read out table.id user_id none) _ s h in
      let (user, e, same_state, active, made) =
        admit_local-ok user_id claims found s₁ t admitting in
      (table, user, refl, cc, active, made)

  validate_local-Account :
      (claims : IdentityClaims) (s t : App World) {u : AuthenticatedUser}
      → validate_local out claims s ≡ (ok u, t)
      → Account claims local u s t × (u.scope ≡ claims.scope)
  unfolding validate_local Account local_user
  validate_local-Account claims s t h =
      let id = parse_number claims.subject in
      let (checked, s₁, guarded, asking) =
        >>=-ok (lift (guard (is_integer id && is_positive id) unauthorized)) _ s h in
      let (found, s₂, listed, reading) = >>=-ok (get_table_by_name out users) _ s₁ asking in
      let (table, user, present, read, active, made) = read_local-ok id claims found s₂ t reading in
      let (positive, unchanged) =
        guard-ok (is_integer id && is_positive id) unauthorized s guarded in
      (
        (
          table,
          user,
          s₂,
          rw unchanged (rw (sym present) listed),
          read,
          not_inactive (get (codes "is_active") user) active,
          ap (λ v. v.user_id) made,
          positive,
          ap (λ v. v.roles) made,
        ),
        ap (λ v. v.scope) made,
      )

  admit_identity-ok :
      (claims : IdentityClaims) (identity : ResolvedIdentity) (s t : App World)
      {u : AuthenticatedUser}
      → admit_identity out claims identity s ≡ (ok u, t)
      → (s ≡ t) × (identity.active ≡ true) × (u ≡ external_user claims identity)
  unfolding admit_identity
  admit_identity-ok claims identity s t h = elim (Bool-cases identity.active) [
    | inl active ↦ let e = rw active at h in (cc, active, cc)
    | inr inactive ↦ let e = rw inactive at h in absurd (ground arith)
  ]

  validate_external-Account :
      (claims : IdentityClaims) (s t : App World) {u : AuthenticatedUser}
      → validate_external out claims s ≡ (ok u, t)
      → Account claims external u s t × (u.scope ≡ claims.scope)
  unfolding validate_external Account external_user resolve_identity
  validate_external-Account claims s t h =
      let (identity, s₁, resolving, admitting) =
        >>=-ok (resolve_identity out external claims) _ s h in
      let (unchanged, active, made) = admit_identity-ok claims identity s₁ t admitting in
      let resolved : Resolved out (record claims { provider = external }) identity s t =
        upsert_identity_user-Resolved out (record claims { provider = external }) s t identity
          (rw (sym unchanged) resolving) in
      (
        (
          identity,
          resolved,
          not_inactive (get (codes "is_active") resolved.account)
              (sym resolved.active_known ∙ active),
          resolved.id_known ∙ ap (λ v. ok v.user_id) (sym made),
          ap (λ v. v.roles) made ∙ resolved.roles_known,
        ),
        ap (λ v. v.scope) made,
      )

  validate_claims-Account :
      (claims : IdentityClaims) (provider : Provider) (s t : App World) {u : AuthenticatedUser}
      → validate_claims out claims provider s ≡ (ok u, t)
      → Account claims provider u s t × (u.scope ≡ claims.scope)
  unfolding validate_claims
  validate_claims-Account claims local s t h = validate_local-Account claims s t h
  validate_claims-Account claims external s t h = validate_external-Account claims s t h

  -- A request is authenticated only by a token with a subject. With local accounts that subject is
  -- a positive integer, the id of a user whose record NocoDB returned and did not show inactive. With
  -- an external provider the account that the subject or the email found was changed, or one was
  -- created, NocoDB's answer to that did not show it inactive, and it has the user's id. Roles and
  -- scope are the token's.
  pub validate-Authenticated :
      (settings : Settings) (payload : TokenPayload) (s t : App World) (u : AuthenticatedUser)
      → validate out settings payload s ≡ (ok u, t)
      → Authenticated settings payload u s t
  unfolding validate Authenticated
  validate-Authenticated settings payload s t u h =
      let (provider, s₁, configured, normalizing) = >>=-ok (lift (get_provider settings)) _ s h in
      let (claims, s₂, normalized, validating) =
        >>=-ok (lift (normalize payload provider)) _ s₁ normalizing in
      let (account, scope) = validate_claims-Account claims provider s₂ t validating in
      let (from_settings, same_state) = lift-ok (get_provider settings) s configured in
      let (from_payload, same_state') = lift-ok (normalize payload provider) s₁ normalized in
      (provider, claims, from_settings, from_payload, rw (same_state ∙ same_state') account, scope)
