-- ===== src/Types.antt =====
-- The data that the services share (src/nocodb/nocodb.types.ts, src/nocodb/nocodb.service.ts,
-- src/permissions/interfaces/permission.interface.ts, src/permissions/enums/crud-action.enum.ts,
-- src/common/system-table-names.ts).
use nocodb_middleware.Prelude.{Bool, false, Option, List, [], ◌∷◌, Text, codes, same, if◌then◌else◌}
use nocodb_middleware.Js.{Num, Value, undefined}

-- A record of NocoDB, flat: its fields by title, and `id` among them.
abbrev pub NocoRecord : Type 0
NocoRecord = List (Text × Value)

-- `record[key]`
unfoldable pub get : Text → NocoRecord → Value
get key [] = undefined
get key ((k, v) ∷ fields) = if same key k then v else get key fields

-- `record[key] = v`
unfoldable pub put : Text → Value → NocoRecord → NocoRecord
put key v [] = (key, v) ∷ []
put key v ((k, w) ∷ fields) = if same key k then (k, v) ∷ fields else (k, w) ∷ put key v fields

-- A record as the v3 Data API answers it.
pub record V3Record : Type 0 where
  pub id : Value
  pub fields : Option NocoRecord

-- Of a field only the title and the type are read.
pub record NocoFieldMeta : Type 0 where
  pub title : Text
  pub kind : Text

pub record NocoTableMeta : Type 0 where
  pub id : Text
  pub title : Text
  pub table_name : Option Text
  pub fields : Option (List NocoFieldMeta)

pub data CrudAction : Type 0 where
  create read update delete : CrudAction

abbrev pub action_text : CrudAction → Text
action_text create = codes "create"
action_text read = codes "read"
action_text update = codes "update"
action_text delete = codes "delete"

-- A `Set<CrudAction>`.
pub record Actions : Type 0 where
  pub has_create : Bool
  pub has_read : Bool
  pub has_update : Bool
  pub has_delete : Bool

abbrev pub no_actions : Actions
no_actions = record { has_create = false; has_read = false; has_update = false; has_delete = false }

unfoldable pub has_action : CrudAction → Actions → Bool
has_action create a = a.has_create
has_action read a = a.has_read
has_action update a = a.has_update
has_action delete a = a.has_delete

pub record UserPermissions : Type 0 where
  pub user_id : Num
  pub username : Value
  pub roles : List Value
  pub permissions : List (Value × Actions)

abbrev pub users : Text
users = codes "users"

abbrev pub roles : Text
roles = codes "roles"

abbrev pub user_roles : Text
user_roles = codes "user_roles"

abbrev pub table_permissions : Text
table_permissions = codes "table_permissions"

abbrev pub system_table_names : List Text
system_table_names = users ∷ roles ∷ user_roles ∷ table_permissions ∷ []
