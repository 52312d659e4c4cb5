-- ===== src/Data/Writes.antt =====
-- The fields of a write (src/data/data.service.ts).
use nocodb_middleware.Prelude.{
  ◌≡◌, ◌≢◌, ◌∙◌, inl, inr, Bool, true, false, not, ◌||◌, List, [], ◌∷◌, Text, codes, same, same_iff,
  All, Any, filter, Bool-cases, arith,
}
use nocodb_middleware.Js.{Num}
use nocodb_middleware.Result.{ok}
use nocodb_middleware.Effects.{Exec, >>=-ok, catching-ok}
use nocodb_middleware.Types.{NocoRecord}
use nocodb_middleware.Outside.{Outside, App, TableInfo}
use nocodb_middleware.Nocodb.Records
use nocodb_middleware.Data
use nocodb_middleware.Data.{
  BodyInput, object, is_nil, has, keys, read_only_keys, unknown_keys, is_rejected,
  assert_record_input, assert_writable_fields, with_upstream_validation, get_table, checked_table,
}

-- A field that a client may write: known and writable, not read-only, and not the record's key.
pub record IsWritable (info : TableInfo) (key : Text) : Type 0 where
  pub not_id : key ≢ codes "id"
  pub not_read_only : has key info.read_only_fields ≡ false
  pub known : has key info.writable_fields ≡ true

-- A write of a record: `create`, or `update` of an id.
pub data Write : Type 0 where
  creation : Write
  change : Num → Write

-- A list filtered to nothing.
filter-nil :
    {A : Type 0} (p : A → Bool) (xs : List A)
    → is_nil (filter p xs) ≡ true
    → All (λ x. p x ≡ false) xs
unfolding filter
filter-nil p [] h = tt
filter-nil p (x ∷ xs) h = ground (arith, filter-nil p xs)

filter-not_nil :
    {A : Type 0} (p : A → Bool) (xs : List A)
    → Any (λ x. p x ≡ true) xs
    → is_nil (filter p xs) ≡ false
unfolding filter
filter-not_nil p [] h = absurd h
filter-not_nil p (x ∷ xs) h = ground (arith, filter-not_nil p xs)

module _ (info : TableInfo) where
  IsWritable-of_checks :
      (ks : List Text)
      → All (λ key. (same key (codes "id") || has key info.read_only_fields) ≡ false) ks
      → All (λ key. not (has key info.writable_fields) ≡ false) ks
      → All (IsWritable info) ks
  IsWritable-of_checks [] h k = tt
  IsWritable-of_checks (key ∷ ks) (h, hs) (k, kks) = (
    record {
      not_id = λ (e : key ≡ codes "id"). ground (arith, (same_iff key (codes "id")).1 e);
      not_read_only = ground arith;
      known = ground arith;
    },
    IsWritable-of_checks ks hs kks,
  )

module _ (out : Outside) where
  open out use {World}

  no_bad_keys :
      (info : TableInfo) (fields : NocoRecord)
      → is_nil (read_only_keys info fields) ≡ true
      → is_nil (unknown_keys info fields) ≡ true
      → All (IsWritable info) (keys fields)
  unfolding read_only_keys unknown_keys
  no_bad_keys info fields h k =
      IsWritable-of_checks info (keys fields)
        (filter-nil (λ key. same key (codes "id") || has key info.read_only_fields) (keys fields) h)
        (filter-nil (λ key. not (has key info.writable_fields)) (keys fields) k)

  checks_passed :
      (info : TableInfo) (fields : NocoRecord) (s s' : App World)
      → assert_writable_fields out info fields s ≡ (ok tt, s')
      → All (IsWritable info) (keys fields) × (s ≡ s')
  unfolding assert_writable_fields
  checks_passed info fields s s' h = elim (Bool-cases (is_nil (read_only_keys info fields))) [
    | inr some_read_only ↦ absurd (ground (arith, rw some_read_only at h))
    | inl none_read_only ↦ elim (Bool-cases (is_nil (unknown_keys info fields))) [
      | inr some_unknown ↦ absurd (ground (arith, rw (none_read_only, some_unknown) at h))
      | inl none_unknown ↦ (
        no_bad_keys info fields none_read_only none_unknown,
        ground (arith, rw (none_read_only, none_unknown) at h),
      )
    ]
  ]

  checked_inversion :
      (table : Text) (fields : NocoRecord) (info : TableInfo) (s s' : App World)
      → checked_table out table fields s ≡ (ok info, s')
      → (get_table out table s ≡ (ok info, s')) × All (IsWritable info) (keys fields)
  unfolding checked_table
  checked_inversion table fields info s s' h =
      let (info1, s1, got, rest) = >>=-ok (get_table out table) _ s h in
      let (u, s2, checks, done) = >>=-ok (assert_writable_fields out info1 fields) _ s1 rest in
      let (writable, same_state) = checks_passed info1 fields s1 s2 checks in
      let same_info : info1 ≡ info = ground (arith, done) in
      let last_state : s1 ≡ s' = same_state ∙ ground (arith, done) in
      (got ∙ (λ i. (ok (same_info i), last_state i)), rw (← same_info) writable)

  -- A record that was created had at least one field, all its fields were writable ones of the
  -- table, and it is what NocoDB made of exactly those fields.
  pub create-IsWritable :
      (table : Text) (fields made : NocoRecord) (s s' : App World)
      → Data.create out table (object fields) s ≡ (ok made, s')
      → (info : TableInfo) × (t : App World) × (get_table out table s ≡ (ok info, t))
        × (fields ≢ [])
        × All (IsWritable info) (keys fields)
        × (Records.create out info.id fields t ≡ (ok made, s'))
  unfolding Data.create assert_record_input with_upstream_validation
  create-IsWritable table [] made s s' h = absurd (ground arith)
  create-IsWritable table (f ∷ fs) made s s' h =
      let (info, t, checked, wrote) = >>=-ok (checked_table out table (f ∷ fs)) _ s h in
      let (got, writable) = checked_inversion table (f ∷ fs) info s t checked in
      (
        info,
        t,
        got,
        λ (e : f ∷ fs ≡ []). ground (arith, e),
        writable,
        catching-ok (Records.create out info.id (f ∷ fs) t) _ wrote,
      )

  -- A record that was updated was given at least one field, all these fields were writable ones of
  -- the table, and the result is what NocoDB made of exactly those fields.
  pub update-IsWritable :
      (table : Text) (id : Num) (fields made : NocoRecord) (s s' : App World)
      → Data.update out table id (object fields) s ≡ (ok made, s')
      → (info : TableInfo) × (t : App World) × (get_table out table s ≡ (ok info, t))
        × (fields ≢ [])
        × All (IsWritable info) (keys fields)
        × (Records.update out info.id id fields t ≡ (ok made, s'))
  unfolding Data.update assert_record_input with_upstream_validation
  update-IsWritable table id [] made s s' h = absurd (ground arith)
  update-IsWritable table id (f ∷ fs) made s s' h =
      let (info, t, checked, wrote) = >>=-ok (checked_table out table (f ∷ fs)) _ s h in
      let (got, writable) = checked_inversion table (f ∷ fs) info s t checked in
      (
        info,
        t,
        got,
        λ (e : f ∷ fs ≡ []). ground (arith, e),
        writable,
        catching-ok (Records.update out info.id id (f ∷ fs) t) _ wrote,
      )

  -- The two writes of a record, and how NocoDB is asked for them.
  abbrev pub written : Write → Text → BodyInput → Exec (App World) NocoRecord
  written creation table body = Data.create out table body
  written (change id) table body = Data.update out table id body

  abbrev pub stored : Write → Text → NocoRecord → Exec (App World) NocoRecord
  stored creation table_id fields = Records.create out table_id fields
  stored (change id) table_id fields = Records.update out table_id id fields

  -- A record that was created or updated was given at least one field, all these fields were
  -- writable ones of the table, and the result is what NocoDB made of exactly those fields.
  pub written-IsWritable :
      (w : Write) (table : Text) (fields made : NocoRecord) (s s' : App World)
      → written w table (object fields) s ≡ (ok made, s')
      → (info : TableInfo) × (t : App World) × (get_table out table s ≡ (ok info, t))
        × (fields ≢ [])
        × All (IsWritable info) (keys fields)
        × (stored w info.id fields t ≡ (ok made, s'))
  written-IsWritable creation table fields made s s' h = create-IsWritable table fields made s s' h
  written-IsWritable (change id) table fields made s s' h =
      update-IsWritable table id fields made s s' h
