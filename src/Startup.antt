-- ===== src/Startup.antt =====
-- DatabaseInitializationService (src/nocodb/database-initialization.service.ts). Log lines are left
-- out.
pub mod Tables
pub mod Deletions
use nocodb_middleware.Prelude.{
  Bool, true, false, not, ◌&&◌, ◌||◌, Option, none, some, List, [], ◌∷◌, map, any, Text, codes,
  same, if◌then◌else◌,
}
use nocodb_middleware.Js.{Num, bool, num, text, truthy}
use nocodb_middleware.Result.{failure, guard}
use nocodb_middleware.Effects.{Exec, pure, raise, lift, catch, ◌>>=◌, ◌>>◌}
use nocodb_middleware.Filter
use nocodb_middleware.Filter.{filter_eq}
use nocodb_middleware.Types.{
  NocoRecord, NocoFieldMeta, NocoTableMeta, get, users, roles, user_roles, table_permissions,
  system_table_names,
}
use nocodb_middleware.Outside.{Outside, App}
use nocodb_middleware.Nocodb.Meta.{
  get_table_by_name, get_table_metadata, create_table, create_column,
}
use nocodb_middleware.Nocodb.Records
use nocodb_middleware.Nocodb.Records.{no_options}
use nocodb_middleware.Auth.Users.{id_of, find_by_both}

pub record TableDefinition : Type 0 where
  pub table_name : Text
  pub title : Text
  pub fields : List NocoFieldMeta

abbrev field : Text → Text → NocoFieldMeta
field title kind = record { title = title; kind = kind }

abbrev single_line : Text
single_line = codes "SingleLineText"

abbrev pub system_table_definitions : List TableDefinition
system_table_definitions =
    record {
      table_name = users;
      title = codes "Users";
      fields =
          field (codes "username") single_line
          ∷ field (codes "email") (codes "Email")
          ∷ field (codes "password_hash") (codes "LongText")
          ∷ field (codes "is_active") (codes "Checkbox")
          ∷ field (codes "auth_provider") single_line
          ∷ field (codes "external_subject") single_line
          ∷ [];
    }
    ∷ record {
      table_name = roles;
      title = codes "Roles";
      fields =
          field (codes "role_name") single_line
          ∷ field (codes "description") (codes "LongText")
          ∷ field (codes "is_system_role") (codes "Checkbox")
          ∷ [];
    }
    ∷ record {
      table_name = user_roles;
      title = codes "User Roles";
      fields =
          field (codes "user_id") (codes "Number")
          ∷ field (codes "role_id") (codes "Number")
          ∷ field (codes "assigned_at") (codes "DateTime")
          ∷ [];
    }
    ∷ record {
      table_name = table_permissions;
      title = codes "Table Permissions";
      fields =
          field (codes "role_id") (codes "Number")
          ∷ field (codes "table_name") single_line
          ∷ field (codes "can_create") (codes "Checkbox")
          ∷ field (codes "can_read") (codes "Checkbox")
          ∷ field (codes "can_update") (codes "Checkbox")
          ∷ field (codes "can_delete") (codes "Checkbox")
          ∷ [];
    }
    ∷ []

-- `LEGACY_LINK_FIELDS[tableName]`, where an absent entry is the empty list.
unfoldable pub legacy_link_fields : Text → List Text
legacy_link_fields name =
    if same name user_roles
    then codes "user" ∷ codes "role" ∷ []
    else if same name table_permissions
    then codes "role" ∷ []
    else []

unfoldable pub is_link_field_type : Text → Bool
is_link_field_type kind = same kind (codes "Links") || same kind (codes "LinkToAnotherRecord")

unfoldable pub fields_of : NocoTableMeta → List NocoFieldMeta
fields_of t = elim t.fields [ none ↦ [] | some fs ↦ fs ]

unfoldable pub is_legacy : List Text → NocoTableMeta → Bool
unfolding is_link_field_type fields_of
is_legacy legacy t = any (λ f. is_link_field_type f.kind && any (same f.title) legacy) (fields_of t)

unfoldable pub has_title : Text → NocoTableMeta → Bool
unfolding fields_of
has_title title t = any (λ f. same f.title title) (fields_of t)

admin_role : NocoRecord
admin_role =
    (codes "role_name", text (codes "admin"))
    ∷ (codes "description", text (codes "System Administrator"))
    ∷ (codes "is_system_role", bool true)
    ∷ []

admin_permission : Num → Text → NocoRecord
admin_permission role_id table_name =
    (codes "role_id", num role_id)
    ∷ (codes "table_name", text table_name)
    ∷ (codes "can_create", bool true)
    ∷ (codes "can_read", bool true)
    ∷ (codes "can_update", bool true)
    ∷ (codes "can_delete", bool true)
    ∷ []

-- `if (tableId)`
has_id : Option Text → Bool
has_id none = false
has_id (some []) = false
has_id (some (c ∷ t)) = true

module _ (out : Outside) where
  open out use {World}

  refuse_legacy : Text → List Text → Exec (App World) (Unit {0})
  refuse_legacy table_id [] = pure tt
  refuse_legacy table_id (title ∷ titles) = do
    metadata ← get_table_metadata out table_id
    lift (guard (not (is_legacy (title ∷ titles) metadata)) failure)

  unfoldable pub assert_no_legacy_link_fields : Text → Text → Exec (App World) (Unit {0})
  unfolding refuse_legacy
  assert_no_legacy_link_fields table_id table_name =
      refuse_legacy table_id (legacy_link_fields table_name)

  -- A field that cannot be made is passed over.
  unfoldable pub create_unless : Bool → Text → NocoFieldMeta → Exec (App World) (Unit {0})
  create_unless true table_id f = pure tt
  create_unless false table_id f = catch (create_column out table_id f) (λ e. pure tt)

  unfoldable pub create_missing :
      Text → NocoTableMeta → List NocoFieldMeta → Exec (App World) (Unit {0})
  unfolding create_unless
  create_missing table_id metadata [] = pure tt
  create_missing table_id metadata (f ∷ fs) = do
    create_unless (has_title f.title metadata) table_id f
    create_missing table_id metadata fs

  unfoldable pub ensure_fields_exist : Text → List NocoFieldMeta → Exec (App World) (Unit {0})
  unfolding create_missing
  ensure_fields_exist table_id fields =
      catch (do metadata ← get_table_metadata out table_id; create_missing table_id metadata fields)
        (λ e. pure tt)

  unfoldable pub ensure_in : TableDefinition → Option NocoTableMeta → Exec (App World) (Option Text)
  ensure_in table_def (some existing) = do
    assert_no_legacy_link_fields existing.id table_def.table_name
    ensure_fields_exist existing.id table_def.fields
    pure (some existing.id)
  ensure_in table_def none =
      catch
        (do
          made ← create_table out table_def.table_name table_def.title table_def.fields
          pure (some made.id))
        (λ e. pure none)

  unfoldable pub ensure_table_exists : TableDefinition → Exec (App World) (Option Text)
  unfolding ensure_in
  ensure_table_exists table_def = do
    existing ← get_table_by_name out table_def.table_name
    ensure_in table_def existing

  change_permission : Text → NocoRecord → NocoRecord → Exec (App World) NocoRecord
  change_permission table_id fields existing = do
    id ← id_of out existing
    Records.update out table_id id fields

  -- `if (existing?.id)`
  save_permission : Text → NocoRecord → Option NocoRecord → Exec (App World) NocoRecord
  unfolding change_permission
  save_permission table_id fields none = Records.create out table_id fields
  save_permission table_id fields (some existing) =
      if truthy (get (codes "id") existing)
      then change_permission table_id fields existing
      else Records.create out table_id fields

  unfoldable pub ensure_admin_permissions : Text → Num → List Text → Exec (App World) (Unit {0})
  unfolding save_permission admin_permission
  ensure_admin_permissions table_id role_id [] = pure tt
  ensure_admin_permissions table_id role_id (name ∷ names) = do
    existing ←
        find_by_both out table_id (codes "role_id") (Filter.number role_id) (codes "table_name")
          (Filter.text name)
    _ ← save_permission table_id (admin_permission role_id name) existing
    ensure_admin_permissions table_id role_id names

  role_or_new : Text → List NocoRecord → Exec (App World) NocoRecord
  unfolding admin_role
  role_or_new table_id [] = Records.create out table_id admin_role
  role_or_new table_id (r ∷ rs) = pure r

  seed_in : Option NocoTableMeta → Option NocoTableMeta → Exec (App World) (Unit {0})
  unfolding role_or_new ensure_admin_permissions
  seed_in (some roles_table) (some permissions_table) = do
    of_admin ← lift (filter_eq (codes "role_name") (Filter.text (codes "admin")))
    result ←
        Records.list out roles_table.id
          (record no_options { filter = some of_admin; limit = some 1 })
    role ← role_or_new roles_table.id result.list
    role_id ← id_of out role
    ensure_admin_permissions permissions_table.id role_id system_table_names
  seed_in _ _ = pure tt

  -- No error of the seeding stops the startup.
  unfoldable pub seed_default_permissions : Exec (App World) (Unit {0})
  unfolding seed_in
  seed_default_permissions =
      catch
        (do
          roles_table ← get_table_by_name out roles
          permissions_table ← get_table_by_name out table_permissions
          seed_in roles_table permissions_table)
        (λ e. pure tt)

  -- A table without an id ends the initialization before the seeding.
  unfoldable pub initialize_from : List TableDefinition → Exec (App World) (Unit {0})
  unfolding has_id
  initialize_from [] = seed_default_permissions
  initialize_from (table_def ∷ rest) = do
    table_id ← ensure_table_exists table_def
    let later = initialize_from rest
    if has_id table_id then later else pure tt

  unfoldable pub on_module_init : Exec (App World) (Unit {0})
  unfolding initialize_from
  on_module_init = initialize_from system_table_definitions
