-- ===== src/Outside.antt =====
-- What the services need of the world: the HTTP client with NocoDB behind it, the clock, timers,
-- the configuration, and the language's conversion of text to numbers.
use nocodb_middleware.Prelude.{ℕ, Bool, Option, List, Text}
use nocodb_middleware.Js.{Num}
use nocodb_middleware.Types.{NocoRecord, V3Record, NocoFieldMeta, NocoTableMeta, UserPermissions}

pub data Method : Type 0 where
  get post patch delete : Method

-- One entry of a sort order; the request carries the list of them as JSON.
pub record SortEntry : Type 0 where
  pub field : Text
  pub descending : Bool

pub data Param : Type 0 where
  plain : Text → Param
  sorted : List SortEntry → Param

pub data Body : Type 0 where
  empty : Body
  fields_of : NocoRecord → Body
  changed : Num → NocoRecord → Body
  deleted : Num → Body
  table : Text → Option Text → List NocoFieldMeta → Body
  field : NocoFieldMeta → Body

pub record Request : Type 0 where
  pub method : Method
  pub path : Text
  pub params : List (Text × Param)
  pub body : Body

-- The bodies of the documented answers; `no_body` is `null`, on which every access throws a
-- `TypeError`. Of a body for another endpoint the members that the code reads are missing.
pub data Payload : Type 0 where
  tables : Option (List NocoTableMeta) → Payload
  table_meta : NocoTableMeta → Payload
  records : Option (List V3Record) → Payload
  one_record : V3Record → Payload
  counted : Option ℕ → Payload
  no_body : Payload

-- The HTTP client returns the body, or throws an error with the status of the response, if any.
-- It is the client with its retries.
pub data Reply : Type 0 where
  received : Payload → Reply
  failed : Option ℕ → Reply

pub record Outside : Type 1 where
  pub World : Type 0
  pub send : Request → World → Reply × World
  pub now : World → ℕ × World
  pub sleep : ℕ → World → World
  pub parse_number : Text → Num
  -- `new Date(n).toISOString()`
  pub iso_date : ℕ → Text
  pub base_id : Text
  pub table_prefix : Text
  -- Fuel for `listAll`: the number of pages after which the model gives up.
  pub max_pages : ℕ
  -- The runtime's Unicode tables for `\p{L}` and `\p{N}`.
  pub is_letter_or_number : ℕ → Bool

-- The fields of a user table that may be written, and those that may not (src/data/data.service.ts).
pub record TableInfo : Type 0 where
  pub id : Text
  pub writable_fields : List Text
  pub read_only_fields : List Text
  pub expires_at : ℕ

pub record CachedPermissions : Type 0 where
  pub value : UserPermissions
  pub expires_at : ℕ

-- The world, and the state that the services keep between requests: `nextAllowedTime`,
-- `permissionsCache` in insertion order, and `tables`.
pub record App (World : Type 0) : Type 0 where
  pub world : World
  pub next_allowed_time : ℕ
  pub permissions_cache : List (Num × CachedPermissions)
  pub tables_cache : List (Text × TableInfo)
