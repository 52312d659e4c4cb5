-- ===== src/Auth/Provisioning/Conflicts.antt =====
-- Accounts that are refused (src/auth/user-provisioning.service.ts).
use nocodb_middleware.Prelude.{
  ◌≡◌, refl, sym, ap, Bool, true, Option, none, some, List, [], ◌∷◌, Text, codes,
}
use nocodb_middleware.Js.{Num, truthy, equal_num}
use nocodb_middleware.Result.{err, conflict}
use nocodb_middleware.Effects.{Exec, pure, raise}
use nocodb_middleware.Effects.Keeps.{Keeps, >>=-Keeps, if-Keeps}
use nocodb_middleware.Effects.Never.{Never, Refuses, pure-Never, if-Never, >>=-Never, >>=-Refuses}
use nocodb_middleware.Filter
use nocodb_middleware.Types.{NocoRecord, get, users, roles, user_roles}
use nocodb_middleware.Outside.{Outside, App, Method}
use nocodb_middleware.Nocodb.Requests.{date_now}
use nocodb_middleware.Nocodb.Records
use nocodb_middleware.Nocodb.Reading.{KeptBy, Holds, only_reads}
use nocodb_middleware.Nocodb.Conflicts.{create-Never, update-Never, date_now-Never}
use nocodb_middleware.Auth.{IdentityClaims, ResolvedIdentity, NewUser}
use nocodb_middleware.Auth.Users.{
  Crypto, id_of, required_table, find_by, find_by_both, hash_password,
}
use nocodb_middleware.Auth.Users.Lookups.{
  id_of-Never, id_of-Keeps, required_table-Never, required_table-Keeps, find_by-Never,
  find_by-Keeps, find_by_both-Never, find_by_both-Keeps, hash_password-Never,
}
use nocodb_middleware.Auth.Provisioning.{
  to_resolved_identity, find_by_subject, find_by_email, check_mapping, change_user, save_identity,
  upsert_identity_user, assign_unless, assign_role, assign_named, assign_each, assign_roles_by_name,
  none_or_conflict, assign_given, save_local_user, create_local_user,
}

module _ (out : Outside) where
  open out use {World}

  to_resolved_identity-Never :
      (r : NocoRecord) (names : List Text) → Never conflict (to_resolved_identity out r names)
  unfolding to_resolved_identity
  to_resolved_identity-Never r names =
      >>=-Never conflict (id_of out r) _ (id_of-Never out r) (λ id. pure-Never conflict _)

  change_user-Never :
      (table_id : Text) (r fields : NocoRecord) (names : List Text)
      → Never conflict (change_user out table_id r fields names)
  unfolding change_user
  change_user-Never table_id r fields names =
      >>=-Never conflict (id_of out r) _ (id_of-Never out r) (λ id.
        >>=-Never conflict (Records.update out table_id id fields) _
          (update-Never out table_id id fields)
          (λ updated. to_resolved_identity-Never updated names))

  save_identity-Never :
      (table_id : Text) (claims : IdentityClaims) (by_subject by_email : Option NocoRecord)
      → Never conflict (save_identity out table_id claims by_subject by_email)
  unfolding save_identity
  save_identity-Never table_id claims (some r) by_email =
      change_user-Never table_id r _ claims.roles
  save_identity-Never table_id claims none (some r) = change_user-Never table_id r _ claims.roles
  save_identity-Never table_id claims none none =
      >>=-Never conflict (Records.create out table_id _) _ (create-Never out table_id _)
        (λ created. to_resolved_identity-Never created claims.roles)

  assign_unless-Never :
      (table_id : Text) (user_id role_id : Num) (existing : Option NocoRecord)
      → Never conflict (assign_unless out table_id user_id role_id existing)
  unfolding assign_unless
  assign_unless-Never table_id user_id role_id (some r) = pure-Never conflict _
  assign_unless-Never table_id user_id role_id none =
      >>=-Never conflict (date_now out) _ (date_now-Never out) (λ now.
        >>=-Never conflict (Records.create out table_id _) _ (create-Never out table_id _)
          (λ made. pure-Never conflict _))

  assign_role-Never :
      (table_id : Text) (user_id : Num) (role : NocoRecord)
      → Never conflict (assign_role out table_id user_id role)
  unfolding assign_role
  assign_role-Never table_id user_id role =
      >>=-Never conflict (id_of out role) _ (id_of-Never out role) (λ role_id.
        >>=-Never conflict
          (find_by_both out table_id (codes "user_id") (Filter.number user_id) (codes "role_id")
            (Filter.number role_id))
          _ (find_by_both-Never out table_id _ _ _ _)
          (assign_unless-Never table_id user_id role_id))

  assign_named-Never :
      (table_id : Text) (user_id : Num) (role : Option NocoRecord)
      → Never conflict (assign_named out table_id user_id role)
  unfolding assign_named
  assign_named-Never table_id user_id none = pure-Never conflict _
  assign_named-Never table_id user_id (some role) =
      if-Never conflict (truthy (get (codes "id") role)) (assign_role out table_id user_id role)
        (pure tt) (assign_role-Never table_id user_id role) (pure-Never conflict _)

  assign_each-Never :
      (roles_id table_id : Text) (user_id : Num) (names : List Text)
      → Never conflict (assign_each out roles_id table_id user_id names)
  unfolding assign_each
  assign_each-Never roles_id table_id user_id [] = pure-Never conflict _
  assign_each-Never roles_id table_id user_id (name ∷ names) =
      >>=-Never conflict (find_by out roles_id (codes "role_name") (Filter.text name)) _
        (find_by-Never out roles_id _ _)
        (λ role.
          >>=-Never conflict (assign_named out table_id user_id role) _
            (assign_named-Never table_id user_id role)
            (λ _. assign_each-Never roles_id table_id user_id names))

  assign_given-Never :
      (user_id : Num) (names : Option (List Text)) → Never conflict (assign_given out user_id names)
  unfolding assign_given assign_roles_by_name
  assign_given-Never user_id none = pure-Never conflict _
  assign_given-Never user_id (some []) = pure-Never conflict _
  assign_given-Never user_id (some (name ∷ names)) =
      >>=-Never conflict (required_table out roles) _ (required_table-Never out roles) (λ roles_id.
        >>=-Never conflict (required_table out user_roles) _ (required_table-Never out user_roles)
          (λ table_id. assign_each-Never roles_id table_id user_id (name ∷ names)))

  save_local_user-Never :
      (crypto : Crypto World) (table_id : Text) (dto : NewUser)
      → Never conflict (save_local_user out crypto table_id dto)
  unfolding save_local_user
  save_local_user-Never crypto table_id dto =
      >>=-Never conflict (hash_password out crypto dto.password) _
        (hash_password-Never out crypto dto.password)
        (λ hash.
          >>=-Never conflict (Records.create out table_id _) _ (create-Never out table_id _)
            (λ made.
              >>=-Never conflict (to_resolved_identity out made _) _
                (to_resolved_identity-Never made _)
                (λ resolved.
                  >>=-Never conflict (assign_given out resolved.user_id dto.roles) _
                    (assign_given-Never resolved.user_id dto.roles) (λ _. pure-Never conflict _))))

module _ (out : Outside) where
  open out use {World}

  -- The two ways to an account.
  pub data Registration : Type 0 where
    by_identity : IdentityClaims → Registration
    by_administrator : Crypto World → NewUser → Registration

  unfoldable pub register : Registration → Exec (App World) ResolvedIdentity
  register (by_identity claims) = upsert_identity_user out claims
  register (by_administrator crypto dto) = create_local_user out crypto dto

module _ (out : Outside) (allowed : Method → Bool) (P : Outside.World out → Type 0)
    (kept : KeptBy out allowed P) (gets : allowed Method.get ≡ true) where
  open out use {World}

  none_or_conflict-Keeps : (r : Option NocoRecord) → Keeps (Holds out P) (none_or_conflict out r)
  unfolding none_or_conflict
  none_or_conflict-Keeps none s h = h
  none_or_conflict-Keeps (some r) s h = h

  pub find_by_email-Keeps :
      (table_id : Text) (email : Option Text)
      → Keeps (Holds out P) (find_by_email out table_id email)
  unfolding find_by_email
  find_by_email-Keeps table_id none = λ s h. h
  find_by_email-Keeps table_id (some []) = λ s h. h
  find_by_email-Keeps table_id (some (c ∷ t)) = find_by-Keeps out allowed P kept gets table_id _ _

  pub check_mapping-Keeps :
      (by_subject by_email : Option NocoRecord)
      → Keeps (Holds out P) (check_mapping out by_subject by_email)
  unfolding check_mapping
  check_mapping-Keeps (some a) (some b) =
      >>=-Keeps (Holds out P) (id_of out a) _ (id_of-Keeps out (Holds out P) a) (λ x.
        >>=-Keeps (Holds out P) (id_of out b) _ (id_of-Keeps out (Holds out P) b) (λ y.
          if-Keeps (Holds out P) (equal_num x y) (pure tt) (raise conflict) (λ s h. h) (λ s h. h)))
  check_mapping-Keeps (some a) none = λ s h. h
  check_mapping-Keeps none b = λ s h. h

  upsert-Refuses :
      (claims : IdentityClaims) → Refuses conflict (Holds out P) (upsert_identity_user out claims)
  unfolding upsert_identity_user find_by_subject
  upsert-Refuses claims =
      >>=-Refuses conflict (Holds out P) (required_table out users) _
        (required_table-Keeps out allowed P kept gets users)
        (λ table_id.
          >>=-Refuses conflict (Holds out P) (find_by_subject out table_id claims) _
            (find_by_both-Keeps out allowed P kept gets table_id _ _ _ _)
            (λ by_subject.
              >>=-Refuses conflict (Holds out P) (find_by_email out table_id claims.email) _
                (find_by_email-Keeps table_id claims.email)
                (λ by_email.
                  >>=-Refuses conflict (Holds out P) (check_mapping out by_subject by_email) _
                    (check_mapping-Keeps by_subject by_email)
                    (λ _ s h thrown.
                      absurd
                        (save_identity-Never out table_id claims by_subject by_email s thrown)))))

  create_local_user-Refuses :
      (crypto : Crypto World) (dto : NewUser)
      → Refuses conflict (Holds out P) (create_local_user out crypto dto)
  unfolding create_local_user
  create_local_user-Refuses crypto dto =
      >>=-Refuses conflict (Holds out P) (required_table out users) _
        (required_table-Keeps out allowed P kept gets users)
        (λ table_id.
          >>=-Refuses conflict (Holds out P) (find_by out table_id (codes "username") _) _
            (find_by-Keeps out allowed P kept gets table_id _ _)
            (λ by_username.
              >>=-Refuses conflict (Holds out P) (none_or_conflict out by_username) _
                (none_or_conflict-Keeps by_username)
                (λ _.
                  >>=-Refuses conflict (Holds out P) (find_by out table_id (codes "email") _) _
                    (find_by-Keeps out allowed P kept gets table_id _ _)
                    (λ by_email.
                      >>=-Refuses conflict (Holds out P) (none_or_conflict out by_email) _
                        (none_or_conflict-Keeps by_email)
                        (λ _ s h thrown.
                          absurd (save_local_user-Never out crypto table_id dto s thrown))))))

-- When a registration throws a ConflictException, NocoDB was only read: every property of the world
-- that reads, the clock and timers keep still holds.
pub register-conflict_reads_only :
    (out : Outside) (P : Outside.World out → Type 0)
    → KeptBy out only_reads P
    → (r : Registration out) (s t : App (Outside.World out)) → P s.world
    → register out r s ≡ (err conflict, t)
    → P t.world
unfolding register only_reads
register-conflict_reads_only out P kept (by_identity claims) s t h thrown =
    rw (sym (ap (λ x. x.1) thrown))
      (upsert-Refuses out only_reads P kept refl claims s h (ap (λ x. x.0) thrown))
register-conflict_reads_only out P kept (by_administrator crypto dto) s t h thrown =
    rw (sym (ap (λ x. x.1) thrown))
      (create_local_user-Refuses out only_reads P kept refl crypto dto s h (ap (λ x. x.0) thrown))
