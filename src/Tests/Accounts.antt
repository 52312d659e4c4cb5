-- ===== src/Tests/Accounts.antt =====
-- The account services and the startup on the recording server.
use nocodb_middleware.Startup.{ensure_fields_exist}
use nocodb_middleware.Startup.{is_legacy}
use nocodb_middleware.Nocodb.Meta.{get_table_metadata}
use nocodb_middleware.Startup.{legacy_link_fields}
use nocodb_middleware.Startup.{assert_no_legacy_link_fields}
use nocodb_middleware.Auth.Users.{text_or_undefined}
use nocodb_middleware.Js.{or_default}
use nocodb_middleware.Auth.Strategy.{local_user}
use nocodb_middleware.Types.{put}
use nocodb_middleware.Nocodb.Requests.{flatten_record}
use nocodb_middleware.Types.{get}
use nocodb_middleware.Auth.Users.{is_not_false}
use nocodb_middleware.Auth.Provisioning.{none_or_conflict}
use nocodb_middleware.Nocodb.Requests.{record_path}
use nocodb_middleware.Nocodb.Requests.{table_path}
use nocodb_middleware.Nocodb.Requests.{data_table_path}
use nocodb_middleware.Nocodb.Requests.{records_path}
use nocodb_middleware.Nocodb.Requests.{enforce_rate_limit}
use nocodb_middleware.Nocodb.Records.{list}
use nocodb_middleware.Nocodb.Records.{find_one}
use nocodb_middleware.Prelude.{is_space}
use nocodb_middleware.Prelude.{trim}
use nocodb_middleware.Filter.{format_filter_value}
use nocodb_middleware.Js.{is_positive}
use nocodb_middleware.Js.{is_integer}
use nocodb_middleware.Auth.Strategy.{validate_local}
use nocodb_middleware.Js.{num_text}
use nocodb_middleware.Auth.Claims.{normalize}
use nocodb_middleware.Auth.Config.{get_provider}
use nocodb_middleware.Filter.Pattern.{is_field_char}
use nocodb_middleware.Filter.{sanitize_filter_field}
use nocodb_middleware.Filter.{filter_eq}
use nocodb_middleware.Auth.Users.{find_by}
use nocodb_middleware.Nocodb.Meta.{get_prefixed_table_name}
use nocodb_middleware.Nocodb.Meta.{pick_table}
use nocodb_middleware.Nocodb.Requests.{meta_base_path}
use nocodb_middleware.Nocodb.Requests.{tables_path}
use nocodb_middleware.Nocodb.Requests.{http}
use nocodb_middleware.Nocodb.Meta.{list_base_tables}
use nocodb_middleware.Nocodb.Meta.{list_tables}
use nocodb_middleware.Nocodb.Meta.{get_table_by_name}
use nocodb_middleware.Auth.Users.{required_table}
use nocodb_middleware.Prelude.{
  ◌≡◌, ◌⊎◌, refl, none, some, List, [], ◌∷◌, Text, codes, same, find, filter,
}
use nocodb_middleware.Result.{Result, ok, err, conflict, failure}
use nocodb_middleware.Outside.{App, Method}
use nocodb_middleware.Nocodb.Reading.{only_reads}
use nocodb_middleware.Permissions.Guards.{RequestUser}
use nocodb_middleware.Permissions.Guards.Denial.{Admitted}
use nocodb_middleware.Page.{default_page_options}
use nocodb_middleware.Api.{
  delete_record, get_all_roles, data_request, required_permission, serve_data, serve_admin,
}
use nocodb_middleware.Api.Authorized.{IsAuthorized, served-IsAuthorized}
use nocodb_middleware.Nocodb.Records
use nocodb_middleware.Js.{Num, num, text, undefined}
use nocodb_middleware.Auth.{external, IdentityClaims, NewUser, BootstrapAdmin}
use nocodb_middleware.Auth.Provisioning.{upsert_identity_user, create_local_user}
use nocodb_middleware.Auth.Provisioning.Conflicts.{
  by_administrator, register, register-conflict_reads_only,
}
use nocodb_middleware.Auth.Provisioning.Duplicates.{
  makes_none, Unknown, upsert_identity_user-makes_none,
}
use nocodb_middleware.Auth.Bootstrap.Access.{Guarded, bootstrap_admin-Guarded}
use nocodb_middleware.Auth.Claims.{TokenPayload, string, number, absent}
use nocodb_middleware.Auth.Config.{Settings}
use nocodb_middleware.Auth.Strategy.{AuthenticatedUser, validate}
use nocodb_middleware.Auth.Strategy.Admission.{Authenticated, validate-Authenticated}
use nocodb_middleware.Startup.{TableDefinition, ensure_table_exists}
use nocodb_middleware.Startup.Tables.{
  Present, Made, ensure_table_exists-throws_reads_only, ensure_table_exists-Ensured,
}
use nocodb_middleware.Tests.Fixtures.{one}
use nocodb_middleware.Tests.Recorder.{recorder, recorder-KeptBy, Unnoted, idle, crypto}

abbrev ann : NewUser
ann = record {
  username = codes "ann";
  email = codes "ann@example.org";
  password = codes "secret";
  roles = none;
  is_active = none;
}

abbrev asked : App (List Method)
asked = (register (recorder only_reads) (by_administrator crypto ann) idle).1

refused : register (recorder only_reads) (by_administrator crypto ann) idle ≡ (err conflict, asked)
unfolding register create_local_user required_table get_table_by_name list_tables list_base_tables
    http same tables_path meta_base_path pick_table find get_prefixed_table_name find_by filter_eq
    sanitize_filter_field is_field_char format_filter_value trim is_space find_one list
    enforce_rate_limit records_path data_table_path table_path record_path none_or_conflict
refused = refl

register-conflict_reads_only_example : Unnoted asked.world
register-conflict_reads_only_example =
    register-conflict_reads_only (recorder only_reads) Unnoted (recorder-KeptBy only_reads)
      (by_administrator crypto ann) idle asked refl refused

abbrev claims : IdentityClaims
claims = record {
  subject = codes "s-1";
  provider = external;
  email = some (codes "ann@example.org");
  username = none;
  roles = [];
  scope = [];
}

upsert_identity_user-makes_none_example :
    Unnoted (upsert_identity_user (recorder makes_none) claims idle).1.world
    ⊎ Unknown (recorder makes_none) claims idle
upsert_identity_user-makes_none_example =
    upsert_identity_user-makes_none (recorder makes_none) Unnoted (recorder-KeptBy makes_none)
      claims idle refl

abbrev root : BootstrapAdmin
root = record {
  username = codes "root";
  email = codes "root@example.org";
  password = codes "Secret-123";
}

bootstrap_admin-Guarded_example :
    Guarded (recorder only_reads) crypto (some (codes "token")) (some (codes "tokem")) root idle
bootstrap_admin-Guarded_example =
    bootstrap_admin-Guarded (recorder only_reads) crypto (some (codes "token"))
      (some (codes "tokem")) root idle

abbrev settings : Settings
settings = record {
  auth_provider = none;
  jwt_secret = some (codes "secret");
  external_jwt_secret = none;
  external_jwt_issuer = none;
  external_jwt_audience = none;
}

abbrev payload : TokenPayload
payload = record {
  sub = number one;
  email = absent;
  username = absent;
  preferred_username = absent;
  roles = string (codes "editor, reader");
  role = absent;
  scope = absent;
  scp = absent;
}

abbrev admitted : AuthenticatedUser
admitted = record {
  user_id = one;
  username = text (codes "ann");
  email = undefined;
  roles = codes "editor" ∷ codes "reader" ∷ [];
  scope = [];
}

abbrev looked_up : App (List Method)
looked_up = (validate (recorder only_reads) settings payload idle).1

passes : validate (recorder only_reads) settings payload idle ≡ (ok admitted, looked_up)
unfolding validate get_provider normalize num_text validate_local is_integer is_positive
    get_table_by_name list_tables list_base_tables http same tables_path meta_base_path pick_table
    find get_prefixed_table_name Records.read enforce_rate_limit record_path records_path
    data_table_path table_path is_not_false get flatten_record put local_user or_default
    text_or_undefined filter is_space trim
passes = refl

validate-Authenticated_example :
    Authenticated (recorder only_reads) settings payload admitted idle looked_up
validate-Authenticated_example =
    validate-Authenticated (recorder only_reads) settings payload idle looked_up admitted passes

abbrev user_links : TableDefinition
user_links = record { table_name = codes "user_roles"; title = codes "User Roles"; fields = [] }

abbrev legacy_found : App (List Method)
legacy_found = (ensure_table_exists (recorder only_reads) user_links idle).1

legacy : ensure_table_exists (recorder only_reads) user_links idle ≡ (err failure, legacy_found)
unfolding ensure_table_exists get_table_by_name list_tables list_base_tables http same tables_path
    meta_base_path pick_table find get_prefixed_table_name assert_no_legacy_link_fields
    legacy_link_fields get_table_metadata table_path is_legacy
legacy = refl

ensure_table_exists-throws_reads_only_example : Unnoted legacy_found.world
ensure_table_exists-throws_reads_only_example =
    ensure_table_exists-throws_reads_only (recorder only_reads) Unnoted (recorder-KeptBy only_reads)
      user_links idle legacy_found failure refl legacy

abbrev role_table : TableDefinition
role_table = record { table_name = codes "roles"; title = codes "Roles"; fields = [] }

abbrev roles_found : App (List Method)
roles_found = (ensure_table_exists (recorder only_reads) role_table idle).1

ensured :
    ensure_table_exists (recorder only_reads) role_table idle
    ≡ (ok (some (codes "roles")), roles_found)
unfolding ensure_table_exists get_table_by_name list_tables list_base_tables http same tables_path
    meta_base_path pick_table find get_prefixed_table_name assert_no_legacy_link_fields
    legacy_link_fields ensure_fields_exist get_table_metadata table_path record_path records_path
    data_table_path
ensured = refl

ensure_table_exists-Ensured_example :
    Present (recorder only_reads) role_table (codes "roles") idle
    ⊎ Made (recorder only_reads) role_table (codes "roles") idle roles_found
ensure_table_exists-Ensured_example =
    ensure_table_exists-Ensured (recorder only_reads) role_table idle roles_found (codes "roles")
      ensured

abbrev reader : RequestUser
reader = record {
  user_id = num one;
  scope = some (text (codes "books:delete") ∷ text (codes "roles:read") ∷ []);
}

abbrev first_record_id : Text → Result Num
first_record_id t = ok one

served-IsAuthorized_example :
    (Unnoted
        (serve_data
          (recorder only_reads)
          first_record_id
          (delete_record (codes "1"))
          (codes "books")
          (some reader)
          idle).1.world
      ⊎ ((s' : App (List Method)) × Admitted
            (recorder only_reads)
            (data_request (delete_record (codes "1")) (codes "books") (some reader))
            idle
            s'))
    × (Unnoted
          (serve_admin
            (recorder only_reads)
            first_record_id
            (get_all_roles default_page_options)
            (some reader)
            idle).1.world
        ⊎ ((s' : App (List Method)) × IsAuthorized
              (recorder only_reads)
              (required_permission (get_all_roles default_page_options))
              (some reader)
              idle
              s'))
served-IsAuthorized_example =
    served-IsAuthorized (recorder only_reads) Unnoted (recorder-KeptBy only_reads) first_record_id
      (delete_record (codes "1")) (codes "books") (get_all_roles default_page_options) (some reader)
      idle refl
