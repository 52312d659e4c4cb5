-- ===== src/Tests/Writes.antt =====
-- Writes of records on the server of the fixtures.
use nocodb_middleware.Data.Writes.{stored, change, written-IsWritable}
use nocodb_middleware.Prelude.{ℕ, ◌≡◌, ◌≢◌, refl, [], ◌∷◌, codes, same, All, filter}
use nocodb_middleware.Js.{num, text}
use nocodb_middleware.Result.{ok}
use nocodb_middleware.Types.{NocoRecord, put}
use nocodb_middleware.Outside.{App, TableInfo}
use nocodb_middleware.Nocodb.Requests.{enforce_rate_limit, http, date_now, flatten_record}
use nocodb_middleware.Nocodb.Records
use nocodb_middleware.Data
use nocodb_middleware.Data.{object, get_table, has, keys, get_info, cached_or_loaded}
use nocodb_middleware.Data.Writes.{IsWritable}
use nocodb_middleware.Tests.Fixtures.{server, start, one}

abbrev ann_fields : NocoRecord
ann_fields = (codes "name", text (codes "Ann")) ∷ []

abbrev books : TableInfo
books = record {
  id = codes "books";
  writable_fields = codes "name" ∷ [];
  read_only_fields = codes "age" ∷ [];
  expires_at = 9000;
}

-- A table is cached.
abbrev warm : App ℕ
warm = record start { tables_cache = (codes "books", books) ∷ [] }

books_known : get_table server (codes "books") warm ≡ (ok books, warm)
unfolding get_table get_info same cached_or_loaded date_now
books_known = refl

abbrev book_made : App ℕ
book_made = (Data.create server (codes "books") (object ann_fields) warm).1

abbrev made_record : NocoRecord
made_record = (codes "id", num one) ∷ []

create_runs :
    Data.create server (codes "books") (object ann_fields) warm ≡ (ok made_record, book_made)
unfolding Data.create Data.assert_record_input Data.checked_table get_table cached_or_loaded
    get_info same date_now Data.assert_writable_fields Data.read_only_keys filter Data.unknown_keys
    Data.with_upstream_validation Records.create enforce_rate_limit http flatten_record put
create_runs = refl

abbrev book_changed : App ℕ
book_changed = (Data.update server (codes "books") one (object ann_fields) warm).1

update_runs :
    Data.update server (codes "books") one (object ann_fields) warm ≡ (ok made_record, book_changed)
unfolding Data.update Data.assert_record_input Data.checked_table get_table cached_or_loaded
    get_info same date_now Data.assert_writable_fields Data.read_only_keys filter Data.unknown_keys
    Data.with_upstream_validation Records.update enforce_rate_limit http flatten_record put
update_runs = refl

written-IsWritable_example :
    (info : TableInfo) × (t : App ℕ) × (get_table server (codes "books") warm ≡ (ok info, t))
    × (ann_fields ≢ [])
    × All (IsWritable info) (keys ann_fields)
    × (stored server (change one) info.id ann_fields t ≡ (ok made_record, book_changed))
written-IsWritable_example =
    written-IsWritable server (change one) (codes "books") ann_fields made_record warm book_changed
      update_runs
