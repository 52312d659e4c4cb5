-- ===== src/Permissions/Service/Loading.antt =====
-- Where a user's permissions come from (src/permissions/permissions.service.ts).
pub mod Runs
use nocodb_middleware.Prelude.{
  ◌≡◌, ap, sym, ◌⊎◌, inl, inr, true, Option, none, some, List, [], ◌∷◌, Text, codes, Any, arith,
}
use nocodb_middleware.Js.{Num, Value, text}
use nocodb_middleware.Result.{ok}
use nocodb_middleware.Effects.{pure, lift, ◌>>◌, >>=-ok, lift-ok}
use nocodb_middleware.Filter.{filter_eq, filter_in}
use nocodb_middleware.Types.{
  NocoRecord, NocoTableMeta, CrudAction, UserPermissions, roles, user_roles, users,
  table_permissions,
}
use nocodb_middleware.Outside.{Outside, App}
use nocodb_middleware.Nocodb.Meta.{get_table_by_name}
use nocodb_middleware.Nocodb.Records
use nocodb_middleware.Nocodb.Records.{FilterOptions, list_all, no_options}
use nocodb_middleware.Permissions.Service.{
  active_ids, existing_ids, role_ids_of, grants_from, create_empty_permissions, numbers,
  assignment_options, store_permissions, load_grants_from, load_grants, load_roles_from, load_roles,
  load_assignments, load_user, load_permissions, username_of, allows, permits, actions_of,
}
use Runs.{FromGrants, FromRoles, FromAssignments, Justified, Evidence}
use nocodb_middleware.Permissions.Service.Granting.{Grants, allows_iff}
use nocodb_middleware.Filter

module _ (out : Outside) where
  open out use {World}

  -- The permissions of nobody.
  of_empty :
      (user_id : Num) (name : Value) (s s' : App World) (v : UserPermissions)
      → pure (create_empty_permissions out user_id name) s ≡ (ok v, s')
      → v.permissions ≡ []
  unfolding create_empty_permissions
  of_empty user_id name s s' v h = ground arith

  stored-ok :
      (user_id : Num) (value v : UserPermissions) (s t : App World)
      → (store_permissions out user_id value >> pure value) s ≡ (ok v, t)
      → (value ≡ v) × (store_permissions out user_id v s ≡ (ok tt, t))
  stored-ok user_id value v s t h =
      let (u, s1, kept, answered) = >>=-ok (store_permissions out user_id value) _ s h in
      let same_value : value ≡ v = cc in
      let same_state : s1 ≡ t = cc in (same_value, rw (← same_value, ← same_state) kept)

  module _ (user_id : Num) (name : Value) (v : UserPermissions) (t : App World) where
    from_grants :
        (role_records : List NocoRecord) (active : List Num) (o : Option NocoTableMeta)
        (s s' : App World)
        → get_table_by_name out table_permissions s ≡ (ok o, s')
        → load_grants_from out user_id name role_records active o s' ≡ (ok v, t)
        → (v.permissions ≡ []) ⊎ FromGrants out user_id role_records active v s t
    unfolding load_grants_from
    from_grants role_records active none s s' found h = inl (of_empty user_id name s' t v h)
    from_grants role_records active (some table) s s' found h =
        let (filter, s1, making, h1) =
          >>=-ok (lift (filter_in (codes "role_id") (numbers out active))) _ s' h in
        let (made, same_state) =
          lift-ok (filter_in (codes "role_id") (numbers out active)) s' making in
        let (perms, s2, got, h2) =
          >>=-ok (list_all out table.id (record no_options { filter = some filter })) _ s1 h1 in
        let (same_value, kept) = stored-ok user_id _ v s2 t h2 in
        inr (record {
          filter = filter;
          perms = perms;
          after = s2;
          of_roles = made;
          perms_listed = record {
            table = table;
            found = s';
            named = found;
            listed = rw same_state got;
          };
          computed = ap (λ w. w.permissions) (sym same_value);
          stored = kept;
        })

    grants :
        (role_records : List NocoRecord) (active : List Num) (s : App World)
        → load_grants out user_id name role_records active s ≡ (ok v, t)
        → (v.permissions ≡ []) ⊎ FromGrants out user_id role_records active v s t
    unfolding load_grants
    grants role_records [] s h = inl (of_empty user_id name s t v h)
    grants role_records (id ∷ ids) s h =
        let (o, s1, found, h1) = >>=-ok (get_table_by_name out table_permissions) _ s h in
        from_grants role_records (id ∷ ids) o s s1 found h1

    from_roles :
        (ids : List Num) (o : Option NocoTableMeta) (s s' : App World)
        → get_table_by_name out roles s ≡ (ok o, s')
        → load_roles_from out user_id name ids o s' ≡ (ok v, t)
        → (v.permissions ≡ []) ⊎ FromRoles out user_id ids v s t
    unfolding load_roles_from
    from_roles ids none s s' found h = inl (of_empty user_id name s' t v h)
    from_roles ids (some table) s s' found h =
        let (filter, s1, making, h1) =
          >>=-ok (lift (filter_in (codes "id") (numbers out ids))) _ s' h in
        let (made, same_state) = lift-ok (filter_in (codes "id") (numbers out ids)) s' making in
        let (records, s2, got, h2) =
          >>=-ok (list_all out table.id (record no_options { filter = some filter })) _ s1 h1 in
        elim (grants records (active_ids out ids records) s2 h2) [
          | inl nothing ↦ inl nothing
          | inr granted ↦ inr (record {
            filter = filter;
            role_records = records;
            after = s2;
            of_assigned = made;
            roles_listed = record {
              table = table;
              found = s';
              named = found;
              listed = rw same_state got;
            };
            grants = granted;
          })
        ]

    roles_loaded :
        (ids : List Num) (s : App World)
        → load_roles out user_id name ids s ≡ (ok v, t)
        → (v.permissions ≡ []) ⊎ FromRoles out user_id ids v s t
    unfolding load_roles
    roles_loaded [] s h = inl (of_empty user_id name s t v h)
    roles_loaded (id ∷ ids) s h =
        let (o, s1, found, h1) = >>=-ok (get_table_by_name out roles) _ s h in
        from_roles (id ∷ ids) o s s1 found h1

    assignments_loaded :
        (o : Option NocoTableMeta) (s s' : App World)
        → get_table_by_name out user_roles s ≡ (ok o, s')
        → load_assignments out user_id name o s' ≡ (ok v, t)
        → (v.permissions ≡ []) ⊎ FromAssignments out user_id v s t
    unfolding load_assignments
    assignments_loaded none s s' found h = inl (of_empty user_id name s' t v h)
    assignments_loaded (some table) s s' found h =
        let (filter, s1, making, h1) =
          >>=-ok (lift (filter_eq (codes "user_id") (Filter.number user_id))) _ s' h in
        let (made, same_state) =
          lift-ok (filter_eq (codes "user_id") (Filter.number user_id)) s' making in
        let (records, s2, got, h2) =
          >>=-ok (list_all out table.id (assignment_options out filter)) _ s1 h1 in
        elim (roles_loaded (role_ids_of out records) s2 h2) [
          | inl nothing ↦ inl nothing
          | inr rest ↦ inr (record {
            filter = filter;
            assignments = records;
            after = s2;
            of_user = made;
            assignments_listed = record {
              table = table;
              found = s';
              named = found;
              listed = rw same_state got;
            };
            role_grants = rest;
          })
        ]

  user_loaded :
      (user_id : Num) (o : Option NocoTableMeta) (s s' t : App World) (v : UserPermissions)
      → get_table_by_name out users s ≡ (ok o, s')
      → load_user out user_id o s' ≡ (ok v, t)
      → Justified out user_id v s t
  unfolding load_user
  user_loaded user_id none s s' t v found h =
      inl (of_empty user_id (text (codes "unknown")) s' t v h)
  user_loaded user_id (some table) s s' t v found h =
      let (user, s1, got, h1) = >>=-ok (Records.read out table.id user_id none) _ s' h in
      let (o, s2, named, h2) = >>=-ok (get_table_by_name out user_roles) _ s1 h1 in
      elim (assignments_loaded user_id (username_of out user) v t o s1 s2 named h2) [
        | inl nothing ↦ inl nothing
        | inr rest ↦ inr (record {
          users_table = table;
          found = s';
          user = user;
          after = s1;
          named = found;
          read = got;
          of_assignments = rest;
        })
      ]

  pub load_permissions-Justified :
      (user_id : Num) (s t : App World) (v : UserPermissions)
      → load_permissions out user_id s ≡ (ok v, t)
      → Justified out user_id v s t
  unfolding load_permissions
  load_permissions-Justified user_id s t v h =
      let (o, s1, found, h1) = >>=-ok (get_table_by_name out users) _ s h in
      user_loaded user_id o s s1 t v found h1

  -- When a run loads permissions that allow an action on a table, it listed, in the table
  -- `table_permissions`, a record for a role that it listed in `roles`, and that record names the
  -- table and has the action ticked; `roles` was asked for the roles of the user's assignments in
  -- `user_roles`.
  pub load_permissions-Evidence :
      (user_id : Num) (s t : App World) (v : UserPermissions) (table : Text) (action : CrudAction)
      → load_permissions out user_id s ≡ (ok v, t)
      → allows out v table action ≡ true
      → Evidence out user_id v table action s t
  unfolding allows actions_of permits
  load_permissions-Evidence user_id s t v table action h yes' =
      elim (load_permissions-Justified user_id s t v h) [
        | inl nothing ↦ absurd (ground (arith, rw nothing at yes'))
        | inr loaded ↦
            let from = loaded.of_assignments.role_grants in
            record {
              loaded = loaded;
              granted =
                  (allows_iff out (existing_ids out from.role_records) from.grants.perms table
                      action v from.grants.computed).0
                    yes';
            }
      ]
