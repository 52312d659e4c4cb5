-- ===== src/Roles/Catalog.antt =====
-- RolesService (src/roles/roles.service.ts).
pub mod Clearing
use nocodb_middleware.Prelude.{
  ℕ, Bool, true, false, not, ◌&&◌, ◌||◌, Option, none, some, List, [], ◌∷◌, Text, codes, all, leb,
  split, ◌==◌,
}
use nocodb_middleware.Js.{Num, bool, text}
use nocodb_middleware.Result.{guard, bad_request, conflict, not_found}
use nocodb_middleware.Effects.{Exec, pure, raise, lift, ◌>>=◌, ◌>>◌}
use nocodb_middleware.Filter
use nocodb_middleware.Filter.{filter_eq}
use nocodb_middleware.Types.{NocoRecord, NocoTableMeta, roles}
use nocodb_middleware.Outside.{Outside, App}
use nocodb_middleware.Nocodb.Meta.{get_table_by_name}
use nocodb_middleware.Nocodb.Records
use nocodb_middleware.Nocodb.Records.{PageInfo, find_one}
use nocodb_middleware.Page.{Page, PageOptions, empty_page, page_of, limit_of, offset_of}
use nocodb_middleware.Permissions.Service.{clear_permissions}

pub record NewRole : Type 0 where
  pub role_name : Text
  pub description : Option Text
  pub is_system_role : Option Bool

-- `[a-zA-Z0-9_-]`
is_role_char : ℕ → Bool
is_role_char c =
    leb b'a' c && leb c b'z'
    || (leb b'A' c && leb c b'Z' || (leb b'0' c && leb c b'9' || (c == b'_' || c == b'-')))

is_role_word : Text → Bool
unfolding is_role_char
is_role_word [] = false
is_role_word (c ∷ t) = all is_role_char (c ∷ t)

-- Words with one space between any two: `/^[a-zA-Z0-9_-]+(?: [a-zA-Z0-9_-]+)*$/`
unfoldable pub is_role_name : Text → Bool
unfolding is_role_word
is_role_name name = all is_role_word (split (λ c. c == 32) name)

text_or_empty : Option Text → Text
text_or_empty none = []
text_or_empty (some t) = t

bool_or_false : Option Bool → Bool
bool_or_false none = false
bool_or_false (some b) = b

-- The server's total, if it was asked for one.
unfoldable pub total_rows : Option PageInfo → Option ℕ
total_rows none = none
total_rows (some i) = some i.total_rows

module _ (out : Outside) where
  open out use {World}

  find_role_in : Text → Option NocoTableMeta → Exec (App World) (Option NocoRecord)
  find_role_in role_name none = pure none
  find_role_in role_name (some t) = do
    filter ← lift (filter_eq (codes "role_name") (Filter.text role_name))
    find_one out t.id filter

  unfoldable pub find_role_by_name : Text → Exec (App World) (Option NocoRecord)
  unfolding find_role_in
  find_role_by_name role_name = do
    lift (guard (is_role_name role_name) bad_request)
    roles_table ← get_table_by_name out roles
    find_role_in role_name roles_table

  create_unless : Text → NewRole → Option NocoRecord → Exec (App World) NocoRecord
  unfolding text_or_empty bool_or_false
  create_unless table_id role (some existing) = raise conflict
  create_unless table_id role none = Records.create out table_id (
      (codes "role_name", text role.role_name)
      ∷ (codes "description", text (text_or_empty role.description))
      ∷ (codes "is_system_role", bool (bool_or_false role.is_system_role))
      ∷ [])

  create_role_in : NewRole → Option NocoTableMeta → Exec (App World) NocoRecord
  unfolding create_unless
  create_role_in role none = raise not_found
  create_role_in role (some t) = do
    existing ← find_role_by_name role.role_name
    create_unless t.id role existing

  unfoldable pub create_role : NewRole → Exec (App World) NocoRecord
  unfolding create_role_in
  create_role role = do roles_table ← get_table_by_name out roles; create_role_in role roles_table

  roles_page : Option PageOptions → Option NocoTableMeta → Exec (App World) (Page NocoRecord)
  roles_page o none = pure (empty_page o)
  roles_page o (some t) = do
    result ← Records.list out t.id (record {
      filter = none;
      sort = some (codes "id");
      fields = none;
      limit = some (limit_of o);
      offset = some (offset_of o);
      with_count = true;
    })
    pure (page_of o (total_rows result.page_info) result.list)

  unfoldable pub get_all_roles : Option PageOptions → Exec (App World) (Page NocoRecord)
  unfolding roles_page
  get_all_roles o = do roles_table ← get_table_by_name out roles; roles_page o roles_table

  delete_role_in : Num → Option NocoTableMeta → Exec (App World) (Unit {0})
  delete_role_in role_id none = raise not_found
  delete_role_in role_id (some t) = do Records.delete out t.id role_id; clear_permissions out none

  unfoldable pub delete_role : Num → Exec (App World) (Unit {0})
  unfolding delete_role_in
  delete_role role_id = do
    roles_table ← get_table_by_name out roles
    delete_role_in role_id roles_table
