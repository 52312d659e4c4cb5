-- ===== src/Nocodb/Requests.antt =====
-- Paths, parameters, the rate limit, and the single step of sending a request.
use nocodb_middleware.Prelude.{
  ℕ, ◌+◌, ◌-◌, max, Bool, true, false, Option, none, some, List, [], ◌∷◌, ◌++◌, map, Text, codes,
  same, trim, split, starts_with, filter, ◌==◌, if◌then◌else◌,
}
use nocodb_middleware.Js.{Num, num_text}
use nocodb_middleware.Result.{ok, axios}
use nocodb_middleware.Effects.{Exec, pure, raise, ◌>>=◌}
use nocodb_middleware.Types.{NocoRecord, V3Record, put}
use nocodb_middleware.Outside.{Outside, App, Request, Payload, Reply, received, failed, SortEntry}

unfoldable pub meta_base_path : Text → Text
meta_base_path base_id = codes "/api/v3/meta/bases/" ++ base_id

unfoldable pub tables_path : Text → Text
tables_path base_id = meta_base_path base_id ++ codes "/tables"

unfoldable pub table_path : Text → Text → Text
table_path base_id table_id = tables_path base_id ++ (b'/' ∷ table_id)

unfoldable pub fields_path : Text → Text → Text
fields_path base_id table_id = table_path base_id table_id ++ codes "/fields"

unfoldable pub data_table_path : Text → Text → Text
data_table_path base_id table_id = codes "/api/v3/data/" ++ (base_id ++ (b'/' ∷ table_id))

unfoldable pub records_path : Text → Text → Text
records_path base_id table_id = data_table_path base_id table_id ++ codes "/records"

unfoldable pub record_path : Text → Text → Num → Text
record_path base_id table_id record_id =
    records_path base_id table_id ++ (b'/' ∷ num_text record_id)

unfoldable pub count_path : Text → Text → Text
count_path base_id table_id = data_table_path base_id table_id ++ codes "/count"

fields_or_empty : Option NocoRecord → NocoRecord
fields_or_empty none = []
fields_or_empty (some fields) = fields

-- `{ ...(record.fields ?? {}), id: record.id }`
unfoldable pub flatten_record : V3Record → NocoRecord
unfolding fields_or_empty
flatten_record r = put (codes "id") r.id (fields_or_empty r.fields)

is_empty : Text → Bool
is_empty [] = true
is_empty (c ∷ t) = false

-- `part.slice(1)`
drop_one : Text → Text
drop_one [] = []
drop_one (c ∷ t) = t

unfoldable pub sort_entry : Text → SortEntry
unfolding drop_one
sort_entry part =
    let descending = starts_with (codes "-") part in
    let name = if descending then drop_one part else part in
    record { field = if same name (codes "id") then codes "Id" else name; descending = descending }

unfoldable pub to_v3_sort : Text → List SortEntry
unfolding is_empty
to_v3_sort sort = map sort_entry (
    filter (λ part. if is_empty part then false else true) (map trim (split (λ c. c == b',') sort)))

-- 1000 / rateLimit
abbrev pub min_request_interval : ℕ
min_request_interval = 200

-- One link of `rateLimitChain`: when the request may start, the delay until then, and the new
-- `nextAllowedTime`.
pub record Slot : Type 0 where
  pub scheduled_time : ℕ
  pub delay : ℕ
  pub next_allowed_time : ℕ

unfoldable pub next_slot : ℕ → ℕ → Slot
next_slot now next_allowed_time =
    let scheduled_time = max now next_allowed_time in
    record {
      scheduled_time = scheduled_time;
      delay = scheduled_time - now;
      next_allowed_time = scheduled_time + min_request_interval;
    }

module _ (out : Outside) where
  open out use {World}

  unfoldable pub date_now : Exec (App World) ℕ
  date_now s = let (t, w) = out.now s.world in (ok t, record s { world = w })

  unfoldable pub wait : ℕ → App World → App World
  wait delay s = if delay == 0 then s else record s { world = out.sleep delay s.world }

  unfoldable pub take_slot : ℕ → Exec (App World) (Unit {0})
  unfolding next_slot wait
  take_slot now s =
      let slot = next_slot now s.next_allowed_time in
      (ok tt, wait slot.delay (record s { next_allowed_time = slot.next_allowed_time }))

  unfoldable pub enforce_rate_limit : Exec (App World) (Unit {0})
  unfolding date_now take_slot
  enforce_rate_limit = do now ← date_now; take_slot now

  unfoldable pub answer : Reply → Exec (App World) Payload
  answer (received p) = pure p
  answer (failed status) = raise (axios status)

  unfoldable pub http : Request → Exec (App World) Payload
  unfolding answer
  http r s = let (reply, w) = out.send r s.world in answer reply (record s { world = w })
