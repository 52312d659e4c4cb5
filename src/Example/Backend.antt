-- ===== src/Example/Backend.antt =====
-- The NocoDB client of the example backend (example/src/shared/services/nocodb.service.ts), and
-- what the backend needs of the world: NocoDB behind the HTTP client, the clock, bcrypt, the JWT
-- library, the decoding of path segments, and the language's conversions of texts to numbers.
use nocodb_middleware.Prelude.{
  ℕ, zero, suc, Bool, Option, none, some, List, [], ◌∷◌, ◌++◌, Text, codes,
}
use nocodb_middleware.Js.{Num, int, ℤ, pos, Value, num, text, value_string}
use nocodb_middleware.Result.{Result, axios, failure}
use nocodb_middleware.Effects.{Exec, pure, raise, ◌>>=◌}
use nocodb_middleware.Types.{NocoRecord}

-- What a token says of a user (example/src/shared/interfaces/user.interface.ts).
pub record JwtPayload : Type 0 where
  pub sub : Value
  pub username : Value
  pub email : Value
  pub role : Value

pub data Verb : Type 0 where
  get post patch delete : Verb

pub record Request : Type 0 where
  pub verb : Verb
  pub path : Text
  pub params : List (Text × Value)
  pub body : NocoRecord

-- The bodies of the documented answers; `nothing` is `null`, on which every access throws a
-- `TypeError`. Of a body for another endpoint the members that the code reads are missing.
pub data Payload : Type 0 where
  listed : Option (List NocoRecord) → Payload
  one : NocoRecord → Payload
  counted : Option ℕ → Payload
  nothing : Payload

pub data Reply : Type 0 where
  received : Payload → Reply
  failed : Option ℕ → Reply

-- `hash` and `compare` are bcrypt's, `sign` the JWT library's; all three may throw.
pub record Backend : Type 1 where
  pub World : Type 0
  pub send : Request → World → Reply × World
  pub iso_now : World → Text × World
  pub hash : Text → World → Result Text × World
  pub compare : Text → Value → Result Bool
  pub sign : JwtPayload → World → Result Text × World
  pub decode : Text → Text
  pub parse_number : Text → Num
  pub parse_int : Text → Num

unfoldable pub records_path : Text → Text
records_path table = codes "/tables/" ++ (table ++ codes "/records")

unfoldable pub record_path : Text → Value → Text
unfolding records_path
record_path table id = records_path table ++ (b'/' ∷ value_string id)

unfoldable pub count_path : Text → Text
unfolding records_path
count_path table = records_path table ++ codes "/count"

pub record ListOptions : Type 0 where
  pub where_text : Option Text
  pub limit : Option ℕ
  pub offset : Option ℤ
  pub sort_by : Option Text
  pub sort_order : Option Text

-- `if (value) params[key] = value`, by the kinds of the options.
unfoldable pub text_param : Text → Option Text → List (Text × Value)
text_param key (some (c ∷ t)) = (key, text (c ∷ t)) ∷ []
text_param key _ = []

limit_param : Option ℕ → List (Text × Value)
limit_param (some (suc n)) = (codes "limit", num (int (pos (suc n)))) ∷ []
limit_param _ = []

offset_param : Option ℤ → List (Text × Value)
offset_param none = []
offset_param (some (pos zero)) = []
offset_param (some z) = (codes "offset", num (int z)) ∷ []

order_suffix : Option Text → Text
order_suffix (some (c ∷ t)) = b' ' ∷ (c ∷ t)
order_suffix _ = []

sort_param : Option Text → Option Text → List (Text × Value)
unfolding order_suffix
sort_param (some (c ∷ t)) order = (codes "sort", text ((c ∷ t) ++ order_suffix order)) ∷ []
sort_param _ order = []

unfoldable pub list_params : ListOptions → List (Text × Value)
unfolding text_param limit_param offset_param sort_param
list_params o =
    text_param (codes "where") o.where_text
    ++ (limit_param o.limit ++ (offset_param o.offset ++ sort_param o.sort_by o.sort_order))

unfoldable pub count_params : Text → List (Text × Value)
unfolding text_param
count_params w = text_param (codes "where") (some w)

unfoldable pub get_request : Text → List (Text × Value) → Request
get_request path params = record { verb = get; path = path; params = params; body = [] }

-- `response.data.list || []`
unfoldable pub as_list : {World : Type 0} → Payload → Exec World (List NocoRecord)
as_list (listed (some rows)) = pure rows
as_list (listed none) = pure []
as_list (one r) = pure []
as_list (counted n) = pure []
as_list nothing = raise failure

-- `response.data`
unfoldable pub as_data : Payload → Option NocoRecord
as_data (one r) = some r
as_data (listed rows) = some []
as_data (counted n) = some []
as_data nothing = none

-- `response.data.count || 0`
unfoldable pub as_count : {World : Type 0} → Payload → Exec World ℕ
as_count (counted (some n)) = pure n
as_count (counted none) = pure 0
as_count (listed rows) = pure 0
as_count (one r) = pure 0
as_count nothing = raise failure

module _ (b : Backend) where
  open b use {World}

  unfoldable pub answer : Reply → Exec World Payload
  answer (received p) = pure p
  answer (failed status) = raise (axios status)

  -- A call of the HTTP client; the handlers around it log an error and throw it again.
  unfoldable pub http : Request → Exec World Payload
  http r w = let (reply, w') = b.send r w in answer reply w'

  unfoldable pub find_all : Text → ListOptions → Exec World (List NocoRecord)
  find_all table o = do p ← http (get_request (records_path table) (list_params o)); as_list p

  unfoldable pub find_one : Text → Value → Exec World (Option NocoRecord)
  find_one table id = do p ← http (get_request (record_path table id) []); pure (as_data p)

  unfoldable pub create : Text → NocoRecord → Exec World (Option NocoRecord)
  create table fields = do
    p ← http (record { verb = post; path = records_path table; params = []; body = fields })
    pure (as_data p)

  unfoldable pub update : Text → Value → NocoRecord → Exec World (Option NocoRecord)
  update table id fields = do
    p ← http (record { verb = patch; path = record_path table id; params = []; body = fields })
    pure (as_data p)

  unfoldable pub delete_record : Text → Value → Exec World (Unit {0})
  delete_record table id = do
    _ ← http (record { verb = delete; path = record_path table id; params = []; body = [] })
    pure tt

  -- `query`: a statement of SQL.
  unfoldable pub query : Text → Exec World (List NocoRecord)
  query sql = do
    p ← http (record {
      verb = post;
      path = codes "/query";
      params = [];
      body = (codes "query", text sql) ∷ [];
    })
    as_list p

  unfoldable pub get_table_schema : Text → Exec World (Option NocoRecord)
  get_table_schema table = do
    p ← http (get_request (codes "/tables/" ++ (table ++ codes "/schema")) [])
    pure (as_data p)

  unfoldable pub count : Text → Text → Exec World ℕ
  count table w = do p ← http (get_request (count_path table) (count_params w)); as_count p
