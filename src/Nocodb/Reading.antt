-- ===== src/Nocodb/Reading.antt =====
-- Which requests the operations of src/nocodb/nocodb.service.ts send, as the properties of the
-- world that they keep: those that requests of the allowed methods, the clock and timers keep.
use nocodb_middleware.Prelude.{
  ℕ, zero, suc, ◌+◌, ◌≡◌, Bool, true, false, Option, none, some, List, [], ◌∷◌, ◌++◌, Text, length,
  ltb, ◌==◌, inl, inr, Bool-cases,
}
use nocodb_middleware.Js.{Num}
use nocodb_middleware.Effects.{Exec, pure, raise, ◌>>=◌, ◌>>◌}
use nocodb_middleware.Effects.Keeps.{Keeps, >>=-Keeps, catch-Keeps, if-Keeps}
use nocodb_middleware.Types.{NocoRecord, NocoFieldMeta}
use nocodb_middleware.Outside.{Outside, App, Request, Payload, Method, Reply, received, failed}
use nocodb_middleware.Nocodb.Requests.{http, answer, enforce_rate_limit, date_now, take_slot, wait}
use nocodb_middleware.Nocodb.Meta.{
  get_table_by_name, list_tables, list_base_tables, as_tables, get_table_metadata, as_table,
  create_table, create_column,
}
use nocodb_middleware.Nocodb.Records.{
  FilterOptions, is_not_found, create, first_record, read, read_request, as_record, list,
  as_records, counted_list, list_from, list_all, find_one, count, as_count, update, update_request,
  missing_record,
}

-- The property is kept by every request of an allowed method, by the clock and by timers.
pub record KeptBy (out : Outside) (allowed : Method → Bool) (P : Outside.World out → Type 0)
    : Type 0 where
  pub send :
      (r : Request) (w : Outside.World out)
      → allowed r.method ≡ true
      → P w
      → P (Outside.send out r w).1
  pub now : (w : Outside.World out) → P w → P (Outside.now out w).1
  pub sleep : (d : ℕ) (w : Outside.World out) → P w → P (Outside.sleep out d w)

-- Only `GET` is allowed.
unfoldable pub only_reads : Method → Bool
only_reads Method.get = true
only_reads _ = false

-- The property, of the state of the services.
abbrev pub Holds : (out : Outside) → (Outside.World out → Type 0) → App (Outside.World out) → Type 0
Holds out P s = P s.world

module _ (out : Outside) (allowed : Method → Bool) (P : Outside.World out → Type 0)
    (kept : KeptBy out allowed P) where
  open out use {World}

  answer-Keeps : (r : Reply) → Keeps (Holds out P) (answer out r)
  unfolding answer
  answer-Keeps (received p) s h = h
  answer-Keeps (failed status) s h = h

  pub http-Keeps : (r : Request) → allowed r.method ≡ true → Keeps (Holds out P) (http out r)
  unfolding http
  http-Keeps r e s h =
      answer-Keeps (out.send r s.world).0 (record s { world = (out.send r s.world).1 })
        (kept.send r s.world e h)

  pub date_now-Keeps : Keeps (Holds out P) (date_now out)
  unfolding date_now
  date_now-Keeps s h = kept.now s.world h

  wait-Holds : (d : ℕ) (s : App World) → Holds out P s → Holds out P (wait out d s)
  unfolding wait
  wait-Holds d s h = elim (Bool-cases (d == 0)) [
    | inl k ↦ rw k h
    | inr k ↦ rw k (kept.sleep d s.world h)
  ]

  take_slot-Keeps : (t : ℕ) → Keeps (Holds out P) (take_slot out t)
  unfolding take_slot
  take_slot-Keeps t s h = wait-Holds _ _ h

  pub enforce_rate_limit-Keeps : Keeps (Holds out P) (enforce_rate_limit out)
  unfolding enforce_rate_limit
  enforce_rate_limit-Keeps =
      >>=-Keeps (Holds out P) (date_now out) (take_slot out) date_now-Keeps take_slot-Keeps

  -- A request behind the rate limit, and what is made of its answer.
  pub limited-Keeps {ℓ} :
      {A : Type ℓ} (m : Exec (App World) A)
      → Keeps (Holds out P) m
      → Keeps (Holds out P) (enforce_rate_limit out >> m)
  limited-Keeps m k =
      >>=-Keeps (Holds out P) (enforce_rate_limit out) _ enforce_rate_limit-Keeps (λ _. k)

  pub asked-Keeps {ℓ} :
      {A : Type ℓ} (r : Request) (f : Payload → Exec (App World) A)
      → allowed r.method ≡ true
      → ((p : Payload) → Keeps (Holds out P) (f p))
      → Keeps (Holds out P) (http out r >>= f)
  asked-Keeps r f e k = >>=-Keeps (Holds out P) (http out r) f (http-Keeps r e) k

module _ (out : Outside) (P : Outside.World out → Type 0) where
  as_table-Keeps : (p : Payload) → Keeps (Holds out P) (as_table out p)
  unfolding as_table
  as_table-Keeps (Payload.table_meta t) s h = h
  as_table-Keeps (Payload.tables _) s h = h
  as_table-Keeps (Payload.records _) s h = h
  as_table-Keeps (Payload.one_record _) s h = h
  as_table-Keeps (Payload.counted _) s h = h
  as_table-Keeps Payload.no_body s h = h

module _ (out : Outside) (allowed : Method → Bool) (P : Outside.World out → Type 0)
    (kept : KeptBy out allowed P) (gets : allowed Method.get ≡ true) where
  open out use {World}

  as_tables-Keeps : (p : Payload) → Keeps (Holds out P) (as_tables out p)
  unfolding as_tables
  as_tables-Keeps (Payload.tables (some ts)) s h = h
  as_tables-Keeps (Payload.tables none) s h = h
  as_tables-Keeps (Payload.table_meta _) s h = h
  as_tables-Keeps (Payload.records _) s h = h
  as_tables-Keeps (Payload.one_record _) s h = h
  as_tables-Keeps (Payload.counted _) s h = h
  as_tables-Keeps Payload.no_body s h = h

  pub list_base_tables-Keeps : (base : Text) → Keeps (Holds out P) (list_base_tables out base)
  unfolding list_base_tables
  list_base_tables-Keeps base =
      asked-Keeps out allowed P kept _ (as_tables out) gets as_tables-Keeps

  pub get_table_by_name-Keeps : (name : Text) → Keeps (Holds out P) (get_table_by_name out name)
  unfolding get_table_by_name list_tables
  get_table_by_name-Keeps name =
      >>=-Keeps (Holds out P) (list_tables out) _ (list_base_tables-Keeps out.base_id) (λ ts s h. h)

  pub get_table_metadata-Keeps : (id : Text) → Keeps (Holds out P) (get_table_metadata out id)
  unfolding get_table_metadata
  get_table_metadata-Keeps id =
      asked-Keeps out allowed P kept _ (as_table out) gets (as_table-Keeps out P)

  as_count-Keeps : (p : Payload) → Keeps (Holds out P) (as_count out p)
  unfolding as_count
  as_count-Keeps (Payload.counted (some n)) s h = h
  as_count-Keeps (Payload.counted none) s h = h
  as_count-Keeps (Payload.tables _) s h = h
  as_count-Keeps (Payload.table_meta _) s h = h
  as_count-Keeps (Payload.records _) s h = h
  as_count-Keeps (Payload.one_record _) s h = h
  as_count-Keeps Payload.no_body s h = h

  pub count-Keeps : (table_id : Text) (w : Option Text) → Keeps (Holds out P) (count out table_id w)
  unfolding count
  count-Keeps table_id w =
      limited-Keeps out allowed P kept _
        (asked-Keeps out allowed P kept _ (as_count out) gets as_count-Keeps)

  as_records-Keeps : (p : Payload) → Keeps (Holds out P) (as_records out p)
  unfolding as_records
  as_records-Keeps (Payload.records (some rs)) s h = h
  as_records-Keeps (Payload.records none) s h = h
  as_records-Keeps (Payload.tables _) s h = h
  as_records-Keeps (Payload.table_meta _) s h = h
  as_records-Keeps (Payload.one_record _) s h = h
  as_records-Keeps (Payload.counted _) s h = h
  as_records-Keeps Payload.no_body s h = h

  counted_list-Keeps :
      (table_id : Text) (o : FilterOptions) (rows : List NocoRecord) (with_count : Bool)
      → Keeps (Holds out P) (counted_list out table_id o rows with_count)
  unfolding counted_list
  counted_list-Keeps table_id o rows false = λ s h. h
  counted_list-Keeps table_id o rows true =
      >>=-Keeps (Holds out P) (count out table_id o.filter) _ (count-Keeps table_id o.filter)
        (λ n s h. h)

  pub list-Keeps : (table_id : Text) (o : FilterOptions) → Keeps (Holds out P) (list out table_id o)
  unfolding list
  list-Keeps table_id o = limited-Keeps out allowed P kept _ (
      asked-Keeps out allowed P kept _ _ gets (λ p.
        >>=-Keeps (Holds out P) (as_records out p) _ (as_records-Keeps p)
          (λ rows. counted_list-Keeps table_id o rows o.with_count)))

  pub find_one-Keeps : (table_id filter : Text) → Keeps (Holds out P) (find_one out table_id filter)
  unfolding find_one
  find_one-Keeps table_id filter =
      >>=-Keeps (Holds out P) (list out table_id _) _ (list-Keeps table_id _) (λ rows s h. h)

  list_from-Keeps :
      (fuel : ℕ) (table_id : Text) (o : FilterOptions) (size offset : ℕ) (rs : List NocoRecord)
      → Keeps (Holds out P) (list_from out fuel table_id o size offset rs)
  unfolding list_from
  list_from-Keeps zero table_id o size offset rs = λ s h. h
  list_from-Keeps (suc fuel) table_id o size offset rs =
      >>=-Keeps (Holds out P) (list out table_id _) _ (list-Keeps table_id _) (λ page.
        if-Keeps (Holds out P) (ltb (length page.list) size) (pure (rs ++ page.list)) _ (λ s h. h)
          (list_from-Keeps fuel table_id o size (offset + size) (rs ++ page.list)))

  pub list_all-Keeps :
      (table_id : Text) (o : FilterOptions) → Keeps (Holds out P) (list_all out table_id o)
  unfolding list_all
  list_all-Keeps table_id o = list_from-Keeps out.max_pages table_id o 1000 0 []

  as_record-Keeps : (p : Payload) → Keeps (Holds out P) (as_record out p)
  unfolding as_record
  as_record-Keeps (Payload.one_record _) s h = h
  as_record-Keeps (Payload.records _) s h = h
  as_record-Keeps (Payload.tables _) s h = h
  as_record-Keeps (Payload.table_meta _) s h = h
  as_record-Keeps (Payload.counted _) s h = h
  as_record-Keeps Payload.no_body s h = h

  pub read-Keeps :
      (table_id : Text) (id : Num) (fields : Option (List Text))
      → Keeps (Holds out P) (read out table_id id fields)
  unfolding read read_request
  read-Keeps table_id id fields = limited-Keeps out allowed P kept _ (
      catch-Keeps (Holds out P) (read_request out table_id id fields) _
        (asked-Keeps out allowed P kept _ _ gets
          (λ p. >>=-Keeps (Holds out P) (as_record out p) _ (as_record-Keeps p) (λ r s h. h)))
        (λ e. if-Keeps (Holds out P) (is_not_found e) (pure none) (raise e) (λ s h. h) (λ s h. h)))

-- What is read of the answer to a write.
module _ (out : Outside) (P : Outside.World out → Type 0) where
  first_record-Keeps : (p : Payload) → Keeps (Holds out P) (first_record out p)
  unfolding first_record
  first_record-Keeps (Payload.records (some (r ∷ rs))) s h = h
  first_record-Keeps (Payload.records (some [])) s h = h
  first_record-Keeps (Payload.records none) s h = h
  first_record-Keeps (Payload.tables _) s h = h
  first_record-Keeps (Payload.table_meta _) s h = h
  first_record-Keeps (Payload.one_record _) s h = h
  first_record-Keeps (Payload.counted _) s h = h
  first_record-Keeps Payload.no_body s h = h

module _ (out : Outside) (allowed : Method → Bool) (P : Outside.World out → Type 0)
    (kept : KeptBy out allowed P) (patches : allowed Method.patch ≡ true) where
  open out use {World}

  pub update-Keeps :
      (table_id : Text) (id : Num) (fields : NocoRecord)
      → Keeps (Holds out P) (update out table_id id fields)
  unfolding update update_request missing_record
  update-Keeps table_id id fields = limited-Keeps out allowed P kept _ (
      catch-Keeps (Holds out P) (update_request out table_id id fields) _
        (asked-Keeps out allowed P kept _ (first_record out) patches (first_record-Keeps out P))
        (λ e s h. h))

module _ (out : Outside) (allowed : Method → Bool) (P : Outside.World out → Type 0)
    (kept : KeptBy out allowed P) (posts : allowed Method.post ≡ true) where
  open out use {World}

  pub create-Keeps :
      (table_id : Text) (fields : NocoRecord) → Keeps (Holds out P) (create out table_id fields)
  unfolding create
  create-Keeps table_id fields =
      limited-Keeps out allowed P kept _
        (asked-Keeps out allowed P kept _ (first_record out) posts (first_record-Keeps out P))

  pub create_table-Keeps :
      (name title : Text) (fields : List NocoFieldMeta)
      → Keeps (Holds out P) (create_table out name title fields)
  unfolding create_table
  create_table-Keeps name title fields =
      asked-Keeps out allowed P kept _ (as_table out) posts (as_table-Keeps out P)

  pub create_column-Keeps :
      (table_id : Text) (f : NocoFieldMeta) → Keeps (Holds out P) (create_column out table_id f)
  unfolding create_column
  create_column-Keeps table_id f = asked-Keeps out allowed P kept _ _ posts (λ p s h. h)
