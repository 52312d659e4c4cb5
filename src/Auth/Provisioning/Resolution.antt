-- ===== src/Auth/Provisioning/Resolution.antt =====
-- The account that an identity is resolved to (src/auth/user-provisioning.service.ts).
use nocodb_middleware.Prelude.{◌≡◌, sym, ap, ◌∙◌, Option, none, some, List, Text, codes}
use nocodb_middleware.Js.{Num, text, or_default}
use nocodb_middleware.Result.{ok}
use nocodb_middleware.Effects.{>>=-ok, lift-ok}
use nocodb_middleware.Types.{NocoRecord, get, users}
use nocodb_middleware.Outside.{Outside, App}
use nocodb_middleware.Nocodb.Records
use nocodb_middleware.Permissions.Management.{extract_numeric_id}
use nocodb_middleware.Auth.{IdentityClaims, ResolvedIdentity}
use nocodb_middleware.Auth.Users.{is_not_false, required_table, id_of}
use nocodb_middleware.Auth.Provisioning.{
  to_resolved_identity, find_by_subject, find_by_email, check_mapping, change_user, save_identity,
  new_identity, upsert_identity_user,
}

module _ (out : Outside) where
  open out use {World, parse_number}

  -- The record is NocoDB's answer to a change of the account found, or to the creation of one.
  Changed : Text → NocoRecord → NocoRecord → App World → App World → Type 0
  Changed table_id found r s t =
      (id : Num) × (fields : NocoRecord) × (extract_numeric_id parse_number found ≡ ok id)
      × (Records.update out table_id id fields s ≡ (ok r, t))

  pub Saved :
      Text → Option NocoRecord → Option NocoRecord → NocoRecord → App World → App World → Type 0
  Saved table_id (some by_subject) by_email r s t = Changed table_id by_subject r s t
  Saved table_id none (some by_email) r s t = Changed table_id by_email r s t
  Saved table_id none none r s t =
      (fields : NocoRecord) × (Records.create out table_id fields s ≡ (ok r, t))

  -- The run of `upsertIdentityUser` from `s` to `t`: the lookups, and the account saved behind them,
  -- from which the identity is read.
  pub record Resolved (claims : IdentityClaims) (identity : ResolvedIdentity) (s t : App World)
      : Type 0 where
    pub table_id : Text
    pub by_subject : Option NocoRecord
    pub by_email : Option NocoRecord
    pub account : NocoRecord
    pub at_subject : App World
    pub at_email : App World
    pub at_check : App World
    pub at_save : App World
    pub required : required_table out (codes "users") s ≡ (ok table_id, at_subject)
    pub subject_looked_up :
        find_by_subject out table_id claims at_subject ≡ (ok by_subject, at_email)
    pub email_looked_up : find_by_email out table_id claims.email at_email ≡ (ok by_email, at_check)
    pub checked : check_mapping out by_subject by_email at_check ≡ (ok tt, at_save)
    pub saved : Saved table_id by_subject by_email account at_save t
    pub id_known : extract_numeric_id parse_number account ≡ ok identity.user_id
    pub active_known : identity.active ≡ is_not_false (get (codes "is_active") account)
    pub roles_known : identity.roles ≡ claims.roles

  -- What an identity takes from the account.
  Shows : NocoRecord → List Text → ResolvedIdentity → Type 0
  Shows r token_roles identity =
      (extract_numeric_id parse_number r ≡ ok identity.user_id)
      × (identity.active ≡ is_not_false (get (codes "is_active") r))
      × (identity.roles ≡ token_roles)

  to_resolved_identity-Shows :
      (r : NocoRecord) (token_roles : List Text) (s t : App World) {identity : ResolvedIdentity}
      → to_resolved_identity out r token_roles s ≡ (ok identity, t)
      → (s ≡ t) × Shows r token_roles identity
  unfolding to_resolved_identity id_of Shows
  to_resolved_identity-Shows r token_roles s t {identity} h =
      let (id, s₁, found, made) = >>=-ok (id_of out r) _ s h in
      let (known, same_state) = lift-ok (extract_numeric_id parse_number r) s found in
      let identity_of : record {
        user_id = id;
        username = or_default (get (codes "username") r) (text (codes "unknown"));
        email = get (codes "email") r;
        roles = token_roles;
        active = is_not_false (get (codes "is_active") r);
      }
          ≡ identity =
        cc in
      let same_end : s₁ ≡ t = cc in
      (
        same_state ∙ same_end,
        (
          known ∙ ap (λ i. ok i.user_id) identity_of,
          ap (λ i. i.active) (sym identity_of),
          ap (λ i. i.roles) (sym identity_of),
        ),
      )

  change_user-Changed :
      (table_id : Text) (found fields : NocoRecord) (token_roles : List Text) (s t : App World)
      {identity : ResolvedIdentity}
      → change_user out table_id found fields token_roles s ≡ (ok identity, t)
      → (r : NocoRecord) × Changed table_id found r s t × Shows r token_roles identity
  unfolding change_user id_of Changed
  change_user-Changed table_id found fields token_roles s t h =
      let (id, s₁, finding, h₁) = >>=-ok (id_of out found) _ s h in
      let (known, same_state) = lift-ok (extract_numeric_id parse_number found) s finding in
      let (r, s₂, updated, h₂) = >>=-ok (Records.update out table_id id fields) _ s₁ h₁ in
      let (same_end, shown) = to_resolved_identity-Shows r token_roles s₂ t h₂ in
      (r, (id, fields, known, rw (same_state, ← same_end) updated), shown)

  save_identity-Saved :
      (table_id : Text) (claims : IdentityClaims) (by_subject by_email : Option NocoRecord)
      (s t : App World) {identity : ResolvedIdentity}
      → save_identity out table_id claims by_subject by_email s ≡ (ok identity, t)
      → (r : NocoRecord) × Saved table_id by_subject by_email r s t × Shows r claims.roles identity
  unfolding save_identity Saved
  save_identity-Saved table_id claims (some r) by_email s t h =
      change_user-Changed table_id r _ claims.roles s t h
  save_identity-Saved table_id claims none (some r) s t h =
      change_user-Changed table_id r _ claims.roles s t h
  save_identity-Saved table_id claims none none s t h =
      let (r, s₁, created, h₁) = >>=-ok (Records.create out table_id (new_identity claims)) _ s h in
      let (same_end, shown) = to_resolved_identity-Shows r claims.roles s₁ t h₁ in
      (r, (new_identity claims, rw (← same_end) created), shown)

  pub upsert_identity_user-Resolved :
      (claims : IdentityClaims) (s t : App World) (identity : ResolvedIdentity)
      → upsert_identity_user out claims s ≡ (ok identity, t)
      → Resolved claims identity s t
  unfolding upsert_identity_user Shows
  upsert_identity_user-Resolved claims s t identity h =
      let (table_id, s₁, required, h₁) = >>=-ok (required_table out users) _ s h in
      let (by_subject, s₂, subject_found, h₂) =
        >>=-ok (find_by_subject out table_id claims) _ s₁ h₁ in
      let (by_email, s₃, email_found, h₃) =
        >>=-ok (find_by_email out table_id claims.email) _ s₂ h₂ in
      let (_, s₄, checked, h₄) = >>=-ok (check_mapping out by_subject by_email) _ s₃ h₃ in
      let (account, saved, (id_known, active_known, roles_known)) =
        save_identity-Saved table_id claims by_subject by_email s₄ t h₄ in
      record {
        table_id = table_id;
        by_subject = by_subject;
        by_email = by_email;
        account = account;
        at_subject = s₁;
        at_email = s₂;
        at_check = s₃;
        at_save = s₄;
        required = required;
        subject_looked_up = subject_found;
        email_looked_up = email_found;
        checked = checked;
        saved = saved;
        id_known = id_known;
        active_known = active_known;
        roles_known = roles_known;
      }
