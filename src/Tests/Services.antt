-- ===== src/Tests/Services.antt =====
-- The services on the server of the fixtures.
use nocodb_middleware.Prelude.{
  ℕ, ◌+◌, ◌*◌, ◌≤◌, ◌≡◌, ◌↔◌, refl, inl, [], ◌∷◌, codes, same, find, Any, true, some, filter,
  strip_prefix, arith,
}
use nocodb_middleware.Js.{num, text, bool, truthy}
use nocodb_middleware.Result.{ok}
use nocodb_middleware.Types.{NocoRecord, UserPermissions, read}
use nocodb_middleware.Outside.{App}
use nocodb_middleware.Nocodb.Requests.{
  date_now, take_slot, tables_path, meta_base_path, enforce_rate_limit, http, next_slot, wait,
}
use nocodb_middleware.Nocodb.Meta.{
  get_table_by_name, list_tables, list_base_tables, pick_table, get_prefixed_table_name,
}
use nocodb_middleware.Nocodb.Records
use nocodb_middleware.Nocodb.Limiter.{IsTimed, passages, releases_spaced}
use nocodb_middleware.Nocodb.Batches.{created, updated, batches-reported}
use nocodb_middleware.Permissions.Service.{
  get_user_permissions, load_permissions, clear_permissions, grants_from, allows, same_key,
}
use nocodb_middleware.Permissions.Service.Granting.{Grants, allows_iff}
use nocodb_middleware.Permissions.Scope.{has_scope_permission, includes}
use nocodb_middleware.Permissions.Guards.{
  DataRequest, can_activate_table, check_table, check_user, is_allowed, is_system_table,
  method_action, to_upper_case,
}
use nocodb_middleware.Permissions.Guards.Denial.{Admitted, activated-Admitted}
use nocodb_middleware.TableName.{is_valid_table_name, code_points, last_or, is_word, is_inner}
use nocodb_middleware.Roles.Catalog.{delete_role}
use nocodb_middleware.Roles.Freshness.{role_deleted, change, change-not_stale}
use nocodb_middleware.Catalog.{
  TableCatalogItem, list_external_tables, external_items, prefixed_items, is_internal,
}
use nocodb_middleware.Catalog.Resolution.{Resolvable, list_external_tables-Resolvable}
use nocodb_middleware.Tests.Fixtures.{server, start, one}

abbrev role_gone : App ℕ
role_gone = (change server (role_deleted one) start).1

deleted : change server (role_deleted one) start ≡ (ok tt, role_gone)
unfolding change delete_role get_table_by_name list_tables list_base_tables http same tables_path
    meta_base_path pick_table find get_prefixed_table_name Records.delete enforce_rate_limit
    clear_permissions
deleted = refl

change-not_stale_example :
    get_user_permissions server one role_gone ≡ load_permissions server one role_gone
change-not_stale_example = change-not_stale server (role_deleted one) one start role_gone deleted tt

abbrev permission : NocoRecord
permission =
    (codes "role_id", num one)
    ∷ (codes "table_name", text (codes "books"))
    ∷ (codes "can_read", bool true)
    ∷ []

abbrev reader : UserPermissions
reader = record {
  user_id = one;
  username = text (codes "ann");
  roles = [];
  permissions = grants_from server (one ∷ []) [] (permission ∷ []);
}

allows_iff_example :
    (allows server reader (codes "books") read ≡ true)
    ↔ Any (Grants server (one ∷ []) (codes "books") read) (permission ∷ [])
allows_iff_example = allows_iff server (one ∷ []) (permission ∷ []) (codes "books") read reader refl

abbrev scoped : DataRequest
scoped = record {
  method = codes "get";
  table = some (codes "books");
  user = some (record { user_id = num one; scope = some (text (codes "books:read") ∷ []) });
}

scoped_passes : can_activate_table server scoped start ≡ (ok true, start)
unfolding can_activate_table check_table is_valid_table_name code_points is_word is_inner last_or
    is_system_table same check_user method_action to_upper_case truthy is_allowed
    has_scope_permission includes same_key
scoped_passes = refl

activated-Admitted_example : Admitted server scoped start start
activated-Admitted_example = activated-Admitted server scoped start start true scoped_passes

abbrev books_item : TableCatalogItem
books_item = record { id = codes "books"; table_name = codes "books"; title = codes "p_books" }

listing : list_external_tables server start ≡ (ok (books_item ∷ []), start)
unfolding list_external_tables external_items prefixed_items is_internal strip_prefix
    is_valid_table_name code_points is_word is_inner last_or list_tables list_base_tables http same
    tables_path meta_base_path filter
listing = refl

list_external_tables-Resolvable_example : Resolvable server books_item start start
list_external_tables-Resolvable_example =
    list_external_tables-Resolvable server start start (books_item ∷ []) listing books_item
      (inl refl)

abbrev idle : ℕ → ℕ
idle w = w

server-IsTimed : IsTimed server
server-IsTimed = record { onward = λ w. omega arith; waits = λ d w. omega arith }

three_passages :
    passages server (idle ∷ idle ∷ idle ∷ []) start
    ≡ (1000, 1000) ∷ (1000, 1200) ∷ (1200, 1400) ∷ []
unfolding passages enforce_rate_limit date_now take_slot next_slot wait
three_passages = refl

releases_spaced_example : 1000 + 200 * 2 ≤ 1400
unfolding passages enforce_rate_limit date_now take_slot next_slot wait
releases_spaced_example =
    releases_spaced server server-IsTimed (idle ∷ idle ∷ idle ∷ []) start 0 2 {p = (1000, 1000)}
      {q = (1200, 1400)} refl refl

abbrev ann_fields : NocoRecord
ann_fields = (codes "name", text (codes "Ann")) ∷ []

batches-reported_example :
    ((Records.batch_create server (codes "t") (ann_fields ∷ ann_fields ∷ []) start).0
      ≡ ok (created server (codes "t") (ann_fields ∷ ann_fields ∷ []) start))
    × ((Records.batch_update server (codes "t") ((one, ann_fields) ∷ (one, []) ∷ []) start).0
        ≡ ok (updated server (codes "t") ((one, ann_fields) ∷ (one, []) ∷ []) start))
batches-reported_example =
    batches-reported server (codes "t") (ann_fields ∷ ann_fields ∷ [])
      ((one, ann_fields) ∷ (one, []) ∷ []) start
