-- ===== src/Repository.antt =====
-- Repositories and the cache of responses (src/nocodb/repositories/base.repository.ts,
-- example.repository.ts and src/nocodb/interceptors/cache.interceptor.ts). The cache manager is a
-- library: a parameter with a state of its own.
use nocodb_middleware.Prelude.{
  ℕ, ◌*◌, true, Option, none, some, [], ◌∷◌, ◌++◌, Text, codes, same, if◌then◌else◌,
}
use nocodb_middleware.Js.{Num}
use nocodb_middleware.Result.{Result, ok, err, failure}
use nocodb_middleware.Effects.{Exec, pure, raise, ◌>>=◌}
use nocodb_middleware.Types.{NocoRecord, NocoTableMeta}
use nocodb_middleware.Outside.{Outside, App}
use nocodb_middleware.Nocodb.Meta.{get_table_by_name}
use nocodb_middleware.Nocodb.Records
use nocodb_middleware.Nocodb.Records.{RecordList, PageInfo}
use nocodb_middleware.Page.{Page, PageOptions, page_meta, skip}

-- `result.pageInfo?.totalRows || 0`
total_or_zero : Option PageInfo → ℕ
total_or_zero none = 0
total_or_zero (some i) = i.total_rows

module _ (out : Outside) (table_id : Text) where
  open out use {World}

  unfoldable pub find_many : PageOptions → Exec (App World) (Page NocoRecord)
  unfolding total_or_zero
  find_many o = do
    result ← Records.list out table_id (record {
      filter = none;
      sort = none;
      fields = none;
      limit = o.take;
      offset = some (skip o);
      with_count = true;
    })
    pure (record { rows = result.list; meta = page_meta o (total_or_zero result.page_info) })

  unfoldable pub find_one : Text → Exec (App World) (Option NocoRecord)
  find_one = Records.find_one out table_id

  unfoldable pub create : NocoRecord → Exec (App World) NocoRecord
  create = Records.create out table_id

  unfoldable pub update : Num → NocoRecord → Exec (App World) NocoRecord
  update = Records.update out table_id

  unfoldable pub delete : Num → Exec (App World) (Unit {0})
  delete = Records.delete out table_id

module _ (out : Outside) where
  open out use {World}

  found_id : Option NocoTableMeta → Exec (App World) Text
  found_id none = raise failure
  found_id (some t) = pure t.id

  -- `onModuleInit` of ExampleRepository: the table id from then on.
  unfoldable pub resolve_examples : Exec (App World) Text
  unfolding found_id
  resolve_examples = do found ← get_table_by_name out (codes "examples"); found_id found

abbrev pub default_cache_ttl_ms : ℕ
default_cache_ttl_ms = 60 * 1000

pub record RouteRequest : Type 0 where
  pub method : Text
  pub url : Text

-- The cache manager: `get` answers `none` for no value and for a falsy one. A store happens behind
-- the response and cannot fail the request.
pub record CacheManager (Response : Type 0) (S : Type 0) : Type 0 where
  pub get : Text → S → Option Response × S
  pub set : Text → Response → ℕ → S → S

module _ {Response S : Type 0} (manager : CacheManager Response S) where
  route_key : RouteRequest → Text
  route_key req = codes "route:" ++ req.url

  keep_response : Text → Result Response × S → Result Response × S
  keep_response key (ok response, s) =
      (ok response, manager.set key response default_cache_ttl_ms s)
  keep_response key (err e, s) = (err e, s)

  from_cache : Text → Exec S Response → Option Response × S → Result Response × S
  unfolding keep_response
  from_cache key handle (some response, s) = (ok response, s)
  from_cache key handle (none, s) = keep_response key (handle s)

  -- Only `GET` is cached; `handle` is the handler of the route.
  unfoldable pub intercept : RouteRequest → Exec S Response → Exec S Response
  unfolding route_key from_cache
  intercept req handle s =
      if same req.method (codes "GET")
      then from_cache (route_key req) handle (manager.get (route_key req) s)
      else handle s

-- What AllExceptionsFilter (src/nocodb/filters/nocodb-exception.filter.ts) answers; its log lines
-- are left out. Absent or empty texts of the exception fall back.
pub record ErrorResponse : Type 0 where
  pub status_code : ℕ
  pub timestamp : Text
  pub path : Text
  pub message : Text
  pub error : Text

text_or : Option Text → Text → Text
text_or none d = d
text_or (some []) d = d
text_or (some (c ∷ t)) d = c ∷ t

unfoldable pub error_response : ℕ → Option Text → Option Text → Text → Text → Text → ErrorResponse
unfolding text_or
error_response status response_message response_error exception_message url timestamp = record {
  status_code = status;
  timestamp = timestamp;
  path = url;
  message = text_or response_message exception_message;
  error = text_or response_error (codes "Internal Server Error");
}
