-- ===== src/Tests/Loading.antt =====
-- Permissions of a user with one role.
use nocodb_middleware.Prelude.{ℕ, ◌≡◌, refl, true, some, List, [], ◌∷◌, Text, codes}
use nocodb_middleware.Js.{num, text, bool}
use nocodb_middleware.Result.{ok}
use nocodb_middleware.Types.{NocoRecord, V3Record, UserPermissions, read, no_actions}
use nocodb_middleware.Outside.{Outside, App, Payload, received}
use nocodb_middleware.Nocodb.Requests.{
  records_path, record_path, tables_path, meta_base_path, data_table_path,
}
use nocodb_middleware.Permissions.Service.{load_permissions, allows, actions_of, permits}
use nocodb_middleware.Permissions.Service.Loading.Runs.{Evidence}
use nocodb_middleware.Permissions.Service.Loading.{load_permissions-Evidence}
use nocodb_middleware.Nocodb.Meta.{
  get_table_by_name, list_tables, list_base_tables, pick_table, get_prefixed_table_name,
}
use nocodb_middleware.Nocodb.Requests.{
  http, enforce_rate_limit, date_now, flatten_record, next_slot, wait,
}
use nocodb_middleware.Prelude.{same, find, filter, is_space, trim, trim_start}
use nocodb_middleware.Nocodb.Records.{
  as_records, counted_list, list_all, list_from, list_params, is_not_found,
}
use nocodb_middleware.Js.{
  num_text, decimal, digits_from, is_finite, is_integer, is_positive, or_default, same_num,
  to_number, truthy, truthy_num, truthy_text,
}
use nocodb_middleware.Filter.{
  filter_eq, filter_in, format_filter_value, has_control_character, join, sanitize_filter_field,
}
use nocodb_middleware.Filter.Pattern.{is_field_char}
use nocodb_middleware.Result.{map_result}
use nocodb_middleware.Types.{get, put, has_action}
use nocodb_middleware.Permissions.Cache.{cache_permissions, delete_entry, drop_expired, make_room}
use nocodb_middleware.Permissions.Service.{
  active_ids, add_actions, add_permission, create_empty_permissions, existing_ids, grant,
  grants_from, role_ids_of, same_key, store_permissions, unique,
}
use nocodb_middleware.Nocodb.Records
use nocodb_middleware.Tests.Fixtures.{server, start, one, body_for, bodies}

abbrev row : NocoRecord → V3Record
row fields = record { id = num one; fields = some fields }

abbrev record_bodies : List (Text × Payload)
record_bodies =
    (
      record_path (codes "b") (codes "users") one,
      Payload.one_record (row ((codes "username", text (codes "ann")) ∷ [])),
    )
    ∷ (
      records_path (codes "b") (codes "user_roles"),
      Payload.records (some (row ((codes "role_id", num one) ∷ []) ∷ [])),
    )
    ∷ (
      records_path (codes "b") (codes "roles"),
      Payload.records (some (row ((codes "role_name", text (codes "reader")) ∷ []) ∷ [])),
    )
    ∷ (
      records_path (codes "b") (codes "table_permissions"),
      Payload.records (
          some (
            row (
              (codes "role_id", num one)
              ∷ (codes "table_name", text (codes "books"))
              ∷ (codes "can_read", bool true)
              ∷ [])
            ∷ [])),
    )
    ∷ bodies

abbrev with_reader : Outside
with_reader = record server { send = λ r w. (received (body_for r.path record_bodies), w) }

abbrev reader_loaded : UserPermissions
reader_loaded = record {
  user_id = one;
  username = text (codes "ann");
  roles = text (codes "reader") ∷ [];
  permissions = (text (codes "books"), record no_actions { has_read = true }) ∷ [];
}

abbrev after_load : App ℕ
after_load = (load_permissions with_reader one start).1

loads : load_permissions with_reader one start ≡ (ok reader_loaded, after_load)
unfolding get_table_by_name list_tables list_base_tables pick_table get_prefixed_table_name http
    tables_path meta_base_path record_path records_path data_table_path enforce_rate_limit date_now
    flatten_record next_slot wait same find filter is_space trim trim_start Records.read as_records
    Records.count counted_list Records.list list_all list_from list_params is_not_found num_text
    decimal digits_from is_finite is_integer is_positive or_default same_num to_number truthy
    truthy_num truthy_text filter_eq filter_in format_filter_value has_control_character join
    sanitize_filter_field is_field_char map_result get put has_action cache_permissions delete_entry
    drop_expired make_room load_permissions active_ids add_actions add_permission
    create_empty_permissions existing_ids grant grants_from role_ids_of same_key store_permissions
    unique
loads = refl

reader_reads : allows with_reader reader_loaded (codes "books") read ≡ true
unfolding allows actions_of permits same_key same has_action
reader_reads = refl

load_permissions-Evidence_example :
    Evidence with_reader one reader_loaded (codes "books") read start after_load
load_permissions-Evidence_example =
    load_permissions-Evidence with_reader one start after_load reader_loaded (codes "books") read
      loads reader_reads
