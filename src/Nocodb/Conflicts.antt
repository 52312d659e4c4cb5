-- ===== src/Nocodb/Conflicts.antt =====
-- Operations of src/nocodb/nocodb.service.ts and builders of src/nocodb/nocodb-filter.util.ts that
-- throw no ConflictException.
use nocodb_middleware.Prelude.{
  ◌≢◌, ap, ◌∙◌, Bool, true, false, none, some, List, [], ◌∷◌, Text, inl, inr, Bool-cases, arith,
}
use nocodb_middleware.Js.{Num}
use nocodb_middleware.Result.{Error, Result, ok, err, conflict, guard}
use nocodb_middleware.Result
use nocodb_middleware.Effects.{Exec, lift, ◌>>=◌, ◌>>◌}
use nocodb_middleware.Effects.Never.{Never, pure-Never, >>=-Never, catch-Never}
use nocodb_middleware.Filter
use nocodb_middleware.Filter.{
  FilterValue, filter_eq, filter_checked, filter_not_checked, and_filters, sanitize_filter_field,
  format_filter_value,
}
use nocodb_middleware.Types.{NocoRecord}
use nocodb_middleware.Outside.{Outside, App, Request, Payload, Reply, received, failed}
use nocodb_middleware.Nocodb.Requests.{http, answer, enforce_rate_limit, date_now, take_slot}
use nocodb_middleware.Nocodb.Meta.{get_table_by_name, list_tables, list_base_tables, as_tables}
use nocodb_middleware.Nocodb.Records.{
  FilterOptions, is_not_found, create, first_record, list, as_records, counted_list, find_one,
  count, as_count, update, update_request, missing_record,
}

-- A result that is no ConflictException.
abbrev pub Clean {ℓ} : {A : Type ℓ} → Result A → Type ℓ
Clean r = r ≢ err conflict

pub lift-Never {ℓ} :
    {S : Type 0} {A : Type ℓ} (r : Result A) → Clean r → Never {S = S} conflict (lift r)
lift-Never r h s = h

>>=-Clean {ℓ κ} :
    {A : Type ℓ} {B : Type κ} (r : Result A) (f : A → Result B)
    → Clean r
    → ((a : A) → Clean (f a))
    → Clean (Result.◌>>=◌ r f)
>>=-Clean (ok a) f h k = k a
>>=-Clean (err e) f h k = λ thrown. h (ground arith)

guard-Clean : (b : Bool) → Clean (guard b Error.bad_request)
guard-Clean true h = ground arith
guard-Clean false h = ground arith

ok-Clean {ℓ} : {A : Type ℓ} (a : A) → Clean (ok a)
ok-Clean a h = ground arith

sanitize_filter_field-Clean : (field : Text) → Clean (sanitize_filter_field field)
unfolding sanitize_filter_field
sanitize_filter_field-Clean field = >>=-Clean (guard _ _) _ (guard-Clean _) (λ _. ok-Clean _)

format_filter_value-Clean : (v : FilterValue) → Clean (format_filter_value v)
unfolding format_filter_value
format_filter_value-Clean (Filter.text t) =
    >>=-Clean (guard _ _) _ (guard-Clean _) (λ _. ok-Clean _)
format_filter_value-Clean (Filter.number n) =
    >>=-Clean (guard _ _) _ (guard-Clean _) (λ _. ok-Clean _)
format_filter_value-Clean (Filter.boolean b) = λ h. ground arith

filter_pair-Clean :
    (field : Text) (v : FilterValue) (f : Text → Text → Text)
    → Clean (
        Result.◌>>=◌
          (sanitize_filter_field field)
          (λ a. Result.◌>>=◌ (format_filter_value v) (λ t. ok (f a t))))
filter_pair-Clean field v f =
    >>=-Clean (sanitize_filter_field field) _ (sanitize_filter_field-Clean field)
      (λ a. >>=-Clean (format_filter_value v) _ (format_filter_value-Clean v) (λ t. ok-Clean _))

pub filter_eq-Clean : (field : Text) (v : FilterValue) → Clean (filter_eq field v)
unfolding filter_eq filter_checked filter_not_checked
filter_eq-Clean field (Filter.boolean true) =
    >>=-Clean (sanitize_filter_field field) _ (sanitize_filter_field-Clean field) (λ _. ok-Clean _)
filter_eq-Clean field (Filter.boolean false) =
    >>=-Clean (sanitize_filter_field field) _ (sanitize_filter_field-Clean field) (λ _. ok-Clean _)
filter_eq-Clean field (Filter.text t) = filter_pair-Clean field (Filter.text t) _
filter_eq-Clean field (Filter.number n) = filter_pair-Clean field (Filter.number n) _

pub and_filters-Clean : (filters : List Text) → Clean (and_filters filters)
unfolding and_filters
and_filters-Clean filters = >>=-Clean (guard _ _) _ (guard-Clean _) (λ _. ok-Clean _)

module _ (out : Outside) where
  open out use {World}

  answer-Never : (r : Reply) → Never conflict (answer out r)
  unfolding answer
  answer-Never (received p) s h = ground arith
  answer-Never (failed status) s h = ground arith

  http-Never : (r : Request) → Never conflict (http out r)
  unfolding http
  http-Never r s = answer-Never _ _

  pub date_now-Never : Never conflict (date_now out)
  unfolding date_now
  date_now-Never s h = ground arith

  limit-Never : Never conflict (enforce_rate_limit out)
  unfolding enforce_rate_limit take_slot
  limit-Never =
      >>=-Never conflict (date_now out) (take_slot out) date_now-Never (λ t s h. ground arith)

  limited-Never {ℓ} :
      {A : Type ℓ} (r : Request) (f : Payload → Exec (App World) A)
      → ((p : Payload) → Never conflict (f p))
      → Never conflict (enforce_rate_limit out >> (http out r >>= f))
  limited-Never r f k =
      >>=-Never conflict (enforce_rate_limit out) _ limit-Never
        (λ _. >>=-Never conflict (http out r) f (http-Never r) k)

  as_tables-Never : (p : Payload) → Never conflict (as_tables out p)
  unfolding as_tables
  as_tables-Never (Payload.tables (some ts)) s h = ground arith
  as_tables-Never (Payload.tables none) s h = ground arith
  as_tables-Never (Payload.table_meta _) s h = ground arith
  as_tables-Never (Payload.records _) s h = ground arith
  as_tables-Never (Payload.one_record _) s h = ground arith
  as_tables-Never (Payload.counted _) s h = ground arith
  as_tables-Never Payload.no_body s h = ground arith

  pub get_table_by_name-Never : (name : Text) → Never conflict (get_table_by_name out name)
  unfolding get_table_by_name list_tables list_base_tables
  get_table_by_name-Never name =
      >>=-Never conflict (list_tables out) _
        (>>=-Never conflict (http out _) (as_tables out) (http-Never _) as_tables-Never)
        (λ ts. pure-Never conflict _)

  as_count-Never : (p : Payload) → Never conflict (as_count out p)
  unfolding as_count
  as_count-Never (Payload.counted (some n)) s h = ground arith
  as_count-Never (Payload.counted none) s h = ground arith
  as_count-Never (Payload.tables _) s h = ground arith
  as_count-Never (Payload.table_meta _) s h = ground arith
  as_count-Never (Payload.records _) s h = ground arith
  as_count-Never (Payload.one_record _) s h = ground arith
  as_count-Never Payload.no_body s h = ground arith

  as_records-Never : (p : Payload) → Never conflict (as_records out p)
  unfolding as_records
  as_records-Never (Payload.records (some rs)) s h = ground arith
  as_records-Never (Payload.records none) s h = ground arith
  as_records-Never (Payload.tables _) s h = ground arith
  as_records-Never (Payload.table_meta _) s h = ground arith
  as_records-Never (Payload.one_record _) s h = ground arith
  as_records-Never (Payload.counted _) s h = ground arith
  as_records-Never Payload.no_body s h = ground arith

  counted_list-Never :
      (table_id : Text) (o : FilterOptions) (rows : List NocoRecord) (with_count : Bool)
      → Never conflict (counted_list out table_id o rows with_count)
  unfolding counted_list count
  counted_list-Never table_id o rows false = pure-Never conflict _
  counted_list-Never table_id o rows true =
      >>=-Never conflict (count out table_id o.filter) _
        (limited-Never _ (as_count out) as_count-Never) (λ n. pure-Never conflict _)

  list-Never : (table_id : Text) (o : FilterOptions) → Never conflict (list out table_id o)
  unfolding list
  list-Never table_id o = limited-Never _ _ (λ p.
      >>=-Never conflict (as_records out p) _ (as_records-Never p)
        (λ rows. counted_list-Never table_id o rows o.with_count))

  pub find_one-Never : (table_id filter : Text) → Never conflict (find_one out table_id filter)
  unfolding find_one
  find_one-Never table_id filter =
      >>=-Never conflict (list out table_id _) _ (list-Never table_id _)
        (λ r. pure-Never conflict _)

  first_record-Never : (p : Payload) → Never conflict (first_record out p)
  unfolding first_record
  first_record-Never (Payload.records (some (r ∷ rs))) s h = ground arith
  first_record-Never (Payload.records (some [])) s h = ground arith
  first_record-Never (Payload.records none) s h = ground arith
  first_record-Never (Payload.tables _) s h = ground arith
  first_record-Never (Payload.table_meta _) s h = ground arith
  first_record-Never (Payload.one_record _) s h = ground arith
  first_record-Never (Payload.counted _) s h = ground arith
  first_record-Never Payload.no_body s h = ground arith

  pub create-Never :
      (table_id : Text) (fields : NocoRecord) → Never conflict (create out table_id fields)
  unfolding create
  create-Never table_id fields = limited-Never _ (first_record out) first_record-Never

  update_request-Never :
      (table_id : Text) (id : Num) (fields : NocoRecord)
      → Never conflict (update_request out table_id id fields)
  unfolding update_request
  update_request-Never table_id id fields =
      >>=-Never conflict (http out _) (first_record out) (http-Never _) first_record-Never

  missing_record-Never {ℓ} :
      {A : Type ℓ} (e : Error) (s : App World)
      → e ≢ conflict
      → (missing_record out {A = A} e s).0 ≢ err conflict
  unfolding missing_record
  missing_record-Never e s h thrown = elim (Bool-cases (is_not_found e)) [
    | inl k ↦ let t = rw k at thrown in ground arith
    | inr k ↦ let t = rw k at thrown in h (ground arith)
  ]

  pub update-Never :
      (table_id : Text) (id : Num) (fields : NocoRecord)
      → Never conflict (update out table_id id fields)
  unfolding update
  update-Never table_id id fields = >>=-Never conflict (enforce_rate_limit out) _ limit-Never (λ _.
      catch-Never conflict (update_request out table_id id fields) _ (λ s t e thrown.
        missing_record-Never e t
          (λ same. update_request-Never table_id id fields s (thrown ∙ ap err same))))
