-- ===== src/Filter/Fields.antt =====
-- The fields that the services filter by (src/nocodb/nocodb-filter.util.ts).
use nocodb_middleware.Prelude.{◌≡◌, refl, codes, same}
use nocodb_middleware.Result.{ok}
use nocodb_middleware.Filter.{sanitize_filter_field}
use nocodb_middleware.Filter.Pattern.{is_field_char}

pub sanitize-table_name : sanitize_filter_field (codes "table_name") ≡ ok (codes "table_name")
unfolding sanitize_filter_field is_field_char same
sanitize-table_name = refl
