-- ===== src/Sdk/Admin.antt =====
-- AdminService of the SDK (client/src/services/admin.service.ts).
use nocodb_middleware.Prelude.{ℕ, Bool, Option, none, some, List, [], ◌∷◌, Text, codes}
use nocodb_middleware.Js.{Num}
use nocodb_middleware.Outside.{get, post}
use nocodb_middleware.Sanitize
use nocodb_middleware.Sanitize.{
  Json, undefined, array, object, Items, nil, cons, Members, end, member,
}
use nocodb_middleware.Sdk.{SdkRequest, Answer, Outcome, field, truthy_json, optional, number, call}

pub record Role : Type 0 where
  pub id : Json
  pub role_name : Json
  pub description : Json
  pub is_system_role : Bool

pub record ProvisionedUser : Type 0 where
  pub id : Json
  pub username : Json
  pub email : Json
  pub is_active : Json
  pub roles : Json

unfoldable pub to_role : Json → Option Role
unfolding field truthy_json
to_role j = elim (field (codes "is_system_role") j) [
  | none ↦ none
  | some flag ↦ some (record {
    id = value_of (field (codes "id") j);
    role_name = value_of (field (codes "role_name") j);
    description = value_of (field (codes "description") j);
    is_system_role = truthy_json flag;
  })
]
  where
    value_of : Option Json → Json
    value_of none = undefined
    value_of (some v) = v

unfoldable pub to_provisioned_user : Json → Option ProvisionedUser
unfolding field
to_provisioned_user j = elim (field (codes "active") j) [
  | none ↦ none
  | some active ↦ some (record {
    id = value_of (field (codes "userId") j);
    username = value_of (field (codes "username") j);
    email = value_of (field (codes "email") j);
    is_active = active;
    roles = value_of (field (codes "roles") j);
  })
]
  where
    value_of : Option Json → Json
    value_of none = undefined
    value_of (some v) = v

pub record PermissionFlags : Type 0 where
  pub can_create : Bool
  pub can_read : Bool
  pub can_update : Bool
  pub can_delete : Bool

pub record UserInput : Type 0 where
  pub username : Text
  pub email : Text
  pub password : Text
  pub roles : Option (List Text)
  pub is_active : Option Bool

items_of : List Text → Items
items_of [] = nil
items_of (t ∷ ts) = cons (Sanitize.text t) (items_of ts)

to_roles : Items → Option (List Role)
to_roles nil = some []
to_roles (cons x xs) = elim (to_role x) [
  | none ↦ none
  | some role ↦ elim (to_roles xs) [ none ↦ none | some rest ↦ some (role ∷ rest) ]
]

-- `data.map(toRole)`; what is no array has no `map`.
role_rows : Option Json → Option (List Role)
unfolding to_roles
role_rows (some (array xs)) = to_roles xs
role_rows _ = none

-- The metadata of a page is passed on as it is.
pub record RolePage : Type 0 where
  pub rows : List Role
  pub meta : Json

to_role_page : Json → Option RolePage
unfolding role_rows
to_role_page j = elim (role_rows (field (codes "data") j)) [
  | none ↦ none
  | some rows ↦ elim (field (codes "meta") j) [
    | none ↦ none
    | some meta ↦ some (record { rows = rows; meta = meta })
  ]
]

module _ {W : Type 0} (http : SdkRequest → W → Answer × W) where
  -- AdminService
  unfoldable pub list_roles : Option ℕ → Option ℕ → W → Outcome RolePage × W
  unfolding to_role_page optional
  list_roles page take =
      call http get (some (codes "/admin/permissions/roles"))
        (optional (codes "page") number page (optional (codes "take") number take end)) undefined
        to_role_page

  unfoldable pub list_tables : W → Outcome Json × W
  list_tables = call http get (some (codes "/meta/tables")) end undefined some

  unfoldable pub create_role : Text → Option Text → Option Bool → W → Outcome Role × W
  unfolding optional
  create_role role_name description is_system_role =
      call http post (some (codes "/admin/permissions/roles")) end
        (object (
          member (codes "roleName") (Sanitize.text role_name) (
            optional (codes "description") Sanitize.text description
              (optional (codes "isSystemRole") Sanitize.bool is_system_role end))))
        to_role

  unfoldable pub set_table_permissions : Num → Text → PermissionFlags → W → Outcome (Unit {0}) × W
  set_table_permissions role_id table_name p =
      call http post (some (codes "/admin/permissions/table-permissions")) end
        (object (
          member (codes "roleId") (Sanitize.num role_id) (
            member (codes "tableName") (Sanitize.text table_name) (
              member (codes "canCreate") (Sanitize.bool p.can_create) (
                member (codes "canRead") (Sanitize.bool p.can_read) (
                  member (codes "canUpdate") (Sanitize.bool p.can_update)
                    (member (codes "canDelete") (Sanitize.bool p.can_delete) end)))))))
        (λ j. some tt)

  unfoldable pub create_user : UserInput → W → Outcome ProvisionedUser × W
  unfolding optional items_of
  create_user dto =
      call http post (some (codes "/users")) end
        (object (
          member (codes "username") (Sanitize.text dto.username) (
            member (codes "email") (Sanitize.text dto.email) (
              member (codes "password") (Sanitize.text dto.password) (
                optional (codes "roles") (λ ts. array (items_of ts)) dto.roles
                  (optional (codes "isActive") Sanitize.bool dto.is_active end))))))
        to_provisioned_user

  unfoldable pub health_check : W → Outcome Json × W
  health_check = call http get (some (codes "/health")) end undefined some
