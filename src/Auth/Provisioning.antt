-- ===== src/Auth/Provisioning.antt =====
-- UserProvisioningService (src/auth/user-provisioning.service.ts), and the identity providers that
-- call it (src/auth/identity).
pub mod Conflicts
pub mod Duplicates
pub mod Resolution
use nocodb_middleware.Prelude.{
  Bool, true, false, not, Option, none, some, List, [], ◌∷◌, ◌++◌, Text, codes, split, ◌==◌,
  if◌then◌else◌,
}
use nocodb_middleware.Js.{
  Num, Value, undefined, null, bool, num, text, or_default, truthy, equal_num,
}
use nocodb_middleware.Result.{conflict}
use nocodb_middleware.Effects.{Exec, pure, raise, lift, ◌>>=◌, ◌>>◌}
use nocodb_middleware.Filter
use nocodb_middleware.Types.{NocoRecord, get, users, roles, user_roles}
use nocodb_middleware.Outside.{Outside, App}
use nocodb_middleware.Nocodb.Requests.{date_now}
use nocodb_middleware.Nocodb.Records
use nocodb_middleware.Permissions.Management.{extract_numeric_id}
use nocodb_middleware.Auth.{Provider, local, external, IdentityClaims, ResolvedIdentity, NewUser}
use nocodb_middleware.Auth.Users.{
  Crypto, text_or_undefined, is_not_false, required_table, id_of, find_by, find_by_both,
  hash_password,
}

unfoldable pub provider_text : Provider → Text
provider_text local = codes "local"
provider_text external = codes "external"

first_piece : List Text → Text
first_piece [] = []
first_piece (t ∷ ts) = t

unfoldable pub default_username : IdentityClaims → Text
unfolding first_piece
default_username claims = elim claims.email [
  | none ↦ codes "user_" ++ claims.subject
  | some email ↦ first_piece (split (λ c. c == b'@') email)
]

-- `claims.username ?? record.username`
claimed_or : Option Text → Value → Value
claimed_or none v = v
claimed_or (some t) v = text t

unfoldable pub new_identity : IdentityClaims → NocoRecord
unfolding claimed_or provider_text
new_identity claims =
    (codes "username", claimed_or claims.username (text (default_username claims)))
    ∷ (codes "email", text_or_undefined claims.email)
    ∷ (codes "password_hash", elim claims.provider [ local ↦ null | external ↦ undefined ])
    ∷ (codes "is_active", bool true)
    ∷ (codes "auth_provider", text (provider_text claims.provider))
    ∷ (codes "external_subject", text claims.subject)
    ∷ []

-- What an account found by its subject takes over from the claims.
unfoldable pub refreshed : IdentityClaims → NocoRecord → NocoRecord
unfolding claimed_or
refreshed claims r =
    (codes "email", claimed_or claims.email (get (codes "email") r))
    ∷ (codes "username", claimed_or claims.username (get (codes "username") r))
    ∷ []

-- What an account found by its email takes over.
unfoldable pub linked : IdentityClaims → NocoRecord → NocoRecord
unfolding claimed_or provider_text
linked claims r =
    (codes "auth_provider", text (provider_text claims.provider))
    ∷ (codes "external_subject", text claims.subject)
    ∷ (codes "username", claimed_or claims.username (get (codes "username") r))
    ∷ []

active_or_true : Option Bool → Bool
active_or_true none = true
active_or_true (some b) = b

roles_or_none : Option (List Text) → List Text
roles_or_none none = []
roles_or_none (some rs) = rs

module _ (out : Outside) where
  open out use {World, parse_number, iso_date}

  unfoldable pub to_resolved_identity : NocoRecord → List Text → Exec (App World) ResolvedIdentity
  to_resolved_identity r token_roles = do
    id ← id_of out r
    pure (record {
      user_id = id;
      username = or_default (get (codes "username") r) (text (codes "unknown"));
      email = get (codes "email") r;
      roles = token_roles;
      active = is_not_false (get (codes "is_active") r);
    })

  unfoldable pub find_by_subject : Text → IdentityClaims → Exec (App World) (Option NocoRecord)
  unfolding provider_text
  find_by_subject table_id claims =
      find_by_both out table_id (codes "auth_provider")
        (Filter.text (provider_text claims.provider)) (codes "external_subject")
        (Filter.text claims.subject)

  -- An absent or empty email finds no one.
  unfoldable pub find_by_email : Text → Option Text → Exec (App World) (Option NocoRecord)
  find_by_email table_id none = pure none
  find_by_email table_id (some []) = pure none
  find_by_email table_id (some (c ∷ t)) = find_by out table_id (codes "email") (Filter.text (c ∷ t))

  -- Both lookups found an account: they must be one.
  unfoldable pub check_mapping : Option NocoRecord → Option NocoRecord → Exec (App World) (Unit {0})
  check_mapping (some by_subject) (some by_email) = do
    subject_id ← id_of out by_subject
    email_id ← id_of out by_email
    if equal_num subject_id email_id then pure tt else raise conflict
  check_mapping _ _ = pure tt

  change_user : Text → NocoRecord → NocoRecord → List Text → Exec (App World) ResolvedIdentity
  change_user table_id existing fields token_roles = do
    id ← id_of out existing
    updated ← Records.update out table_id id fields
    to_resolved_identity updated token_roles

  unfoldable pub save_identity :
      Text
      → IdentityClaims
      → Option NocoRecord
      → Option NocoRecord
      → Exec (App World) ResolvedIdentity
  unfolding change_user
  save_identity table_id claims (some by_subject) by_email =
      change_user table_id by_subject (refreshed claims by_subject) claims.roles
  save_identity table_id claims none (some by_email) =
      change_user table_id by_email (linked claims by_email) claims.roles
  save_identity table_id claims none none = do
    created ← Records.create out table_id (new_identity claims)
    to_resolved_identity created claims.roles

  unfoldable pub upsert_identity_user : IdentityClaims → Exec (App World) ResolvedIdentity
  unfolding save_identity
  upsert_identity_user claims = do
    table_id ← required_table out users
    by_subject ← find_by_subject table_id claims
    by_email ← find_by_email table_id claims.email
    check_mapping by_subject by_email
    save_identity table_id claims by_subject by_email

  -- `resolveIdentity` of the provider that is configured.
  unfoldable pub resolve_identity : Provider → IdentityClaims → Exec (App World) ResolvedIdentity
  resolve_identity provider claims = upsert_identity_user (record claims { provider = provider })

  assign_unless : Text → Num → Num → Option NocoRecord → Exec (App World) (Unit {0})
  assign_unless table_id user_id role_id (some existing) = pure tt
  assign_unless table_id user_id role_id none = do
    now ← date_now out
    _ ← Records.create out table_id (
        (codes "user_id", num user_id)
        ∷ (codes "role_id", num role_id)
        ∷ (codes "assigned_at", text (iso_date now))
        ∷ [])
    pure tt

  assign_role : Text → Num → NocoRecord → Exec (App World) (Unit {0})
  unfolding assign_unless
  assign_role table_id user_id role = do
    role_id ← id_of out role
    existing ←
        find_by_both out table_id (codes "user_id") (Filter.number user_id) (codes "role_id")
          (Filter.number role_id)
    assign_unless table_id user_id role_id existing

  -- A name that no role has is skipped.
  assign_named : Text → Num → Option NocoRecord → Exec (App World) (Unit {0})
  unfolding assign_role
  assign_named table_id user_id none = pure tt
  assign_named table_id user_id (some role) =
      if truthy (get (codes "id") role) then assign_role table_id user_id role else pure tt

  assign_each : Text → Text → Num → List Text → Exec (App World) (Unit {0})
  unfolding assign_named
  assign_each roles_id table_id user_id [] = pure tt
  assign_each roles_id table_id user_id (name ∷ names) = do
    role ← find_by out roles_id (codes "role_name") (Filter.text name)
    assign_named table_id user_id role
    assign_each roles_id table_id user_id names

  unfoldable pub assign_roles_by_name : Num → List Text → Exec (App World) (Unit {0})
  unfolding assign_each
  assign_roles_by_name user_id names = do
    roles_id ← required_table out roles
    table_id ← required_table out user_roles
    assign_each roles_id table_id user_id names

  -- `if (found) throw new ConflictException(…)`
  unfoldable pub none_or_conflict : Option NocoRecord → Exec (App World) (Unit {0})
  none_or_conflict none = pure tt
  none_or_conflict (some r) = raise conflict

  assign_given : Num → Option (List Text) → Exec (App World) (Unit {0})
  unfolding assign_roles_by_name
  assign_given user_id none = pure tt
  assign_given user_id (some []) = pure tt
  assign_given user_id (some (r ∷ rs)) = assign_roles_by_name user_id (r ∷ rs)

  unfoldable pub save_local_user : Crypto World → Text → NewUser → Exec (App World) ResolvedIdentity
  unfolding assign_given active_or_true roles_or_none
  save_local_user crypto table_id dto = do
    hash ← hash_password out crypto dto.password
    created ← Records.create out table_id (
        (codes "username", text dto.username)
        ∷ (codes "email", text dto.email)
        ∷ (codes "password_hash", text hash)
        ∷ (codes "is_active", bool (active_or_true dto.is_active))
        ∷ (codes "auth_provider", text (codes "local"))
        ∷ (codes "external_subject", text dto.email)
        ∷ [])
    resolved ← to_resolved_identity created (roles_or_none dto.roles)
    assign_given resolved.user_id dto.roles
    pure resolved

  unfoldable pub create_local_user : Crypto World → NewUser → Exec (App World) ResolvedIdentity
  unfolding save_local_user
  create_local_user crypto dto = do
    table_id ← required_table out users
    by_username ← find_by out table_id (codes "username") (Filter.text dto.username)
    none_or_conflict by_username
    by_email ← find_by out table_id (codes "email") (Filter.text dto.email)
    none_or_conflict by_email
    save_local_user crypto table_id dto

  unfoldable pub set_user_status : Num → Bool → Exec (App World) ResolvedIdentity
  set_user_status user_id is_active = do
    table_id ← required_table out users
    updated ← Records.update out table_id user_id ((codes "is_active", bool is_active) ∷ [])
    to_resolved_identity updated []
