-- ===== src/Startup/Tables.antt =====
-- The tables of the system, one at a time (src/nocodb/database-initialization.service.ts).
use nocodb_middleware.Prelude.{
  ◌≡◌, refl, sym, ap, ◌⊎◌, inl, inr, false, not, Option, none, some, List, [], ◌∷◌, Text, arith,
}
use nocodb_middleware.Result.{Error, Result, ok, err, failure}
use nocodb_middleware.Effects.{Exec, go_on, pure, catch, catching, >>=-ok, guard-ok, ◌>>=◌}
use nocodb_middleware.Effects.Keeps.{Keeps, >>=-Keeps}
use nocodb_middleware.Effects.Never.{
  Never, Refuses, pure-Never, >>=-Never, >>=-Refuses, catch-Never,
}
use nocodb_middleware.Types.{NocoTableMeta}
use nocodb_middleware.Outside.{Outside, App}
use nocodb_middleware.Nocodb.Meta.{get_table_by_name, get_table_metadata, create_table}
use nocodb_middleware.Nocodb.Reading.{
  KeptBy, Holds, only_reads, get_table_by_name-Keeps, get_table_metadata-Keeps,
}
use nocodb_middleware.Startup.{
  TableDefinition, legacy_link_fields, is_legacy, refuse_legacy, assert_no_legacy_link_fields,
  ensure_fields_exist, ensure_in, ensure_table_exists,
}

module _ (out : Outside) where
  open out use {World}

  -- What is caught and dropped is never thrown.
  caught-Never {ℓ} :
      {A : Type ℓ} (e : Error) (m : Exec (App World) A) (a : A) → Never e (catch m (λ _. pure a))
  caught-Never e m a = catch-Never e m (λ _. pure a) (λ s t e' _ thrown. ground arith)

  ensure_fields_exist-Never :
      (e : Error) (d : TableDefinition) (id : Text)
      → Never e (ensure_fields_exist out id d.fields >>= λ _. pure (some id))
  unfolding ensure_fields_exist
  ensure_fields_exist-Never e d id =
      >>=-Never e (ensure_fields_exist out id d.fields) _ (caught-Never e _ tt)
        (λ _. pure-Never e (some id))

  module _ (P : World → Type 0) (kept : KeptBy out only_reads P) where
    refuse_legacy-Keeps :
        (id : Text) (titles : List Text) → Keeps (Holds out P) (refuse_legacy out id titles)
    unfolding refuse_legacy only_reads
    refuse_legacy-Keeps id [] = λ s h. h
    refuse_legacy-Keeps id (title ∷ titles) =
        >>=-Keeps (Holds out P) (get_table_metadata out id) _
          (get_table_metadata-Keeps out only_reads P kept refl id) (λ m s h. h)

    ensure_in-Refuses :
        (e : Error) (d : TableDefinition) (found : Option NocoTableMeta)
        → Refuses e (Holds out P) (ensure_in out d found)
    unfolding ensure_in assert_no_legacy_link_fields
    ensure_in-Refuses e d none = λ s h thrown. absurd (
        caught-Never e
          (create_table out d.table_name d.title d.fields >>= λ made. pure (some made.id)) none s
          thrown)
    ensure_in-Refuses e d (some table) =
        >>=-Refuses e (Holds out P) (assert_no_legacy_link_fields out table.id d.table_name) _
          (refuse_legacy-Keeps table.id (legacy_link_fields d.table_name))
          (λ _ s h thrown. absurd (ensure_fields_exist-Never e d table.id s thrown))

    -- When a table cannot be ensured because the code throws, which it does for a legacy table and
    -- for a NocoDB that cannot be read, NocoDB was only read.
    pub ensure_table_exists-throws_reads_only :
        (d : TableDefinition) (s t : App World) (e : Error)
        → P s.world
        → ensure_table_exists out d s ≡ (err e, t)
        → P t.world
    unfolding ensure_table_exists only_reads
    ensure_table_exists-throws_reads_only d s t e h thrown = rw (sym (ap (λ x. x.1) thrown)) (
        >>=-Refuses e (Holds out P) (get_table_by_name out d.table_name) (ensure_in out d)
          (get_table_by_name-Keeps out only_reads P kept refl d.table_name)
          (λ found. ensure_in-Refuses e d found) s h (ap (λ x. x.0) thrown))

  -- The metadata that NocoDB answers shows no legacy link.
  pub Unlinked : Text → List Text → App World → Type 0
  Unlinked id [] s = Unit
  Unlinked id (title ∷ titles) s =
      (metadata : NocoTableMeta) × (t : App World) × (get_table_metadata out id s
        ≡ (ok metadata, t))
      × (is_legacy (title ∷ titles) metadata ≡ false)

  -- A table that is there: NocoDB listed it, and if the name had link fields in the legacy schema,
  -- answered its metadata and showed none of them.
  pub Present : TableDefinition → Text → App World → Type 0
  Present d id s =
      (table : NocoTableMeta) × (s₁ : App World) × (get_table_by_name out d.table_name s
        ≡ (ok (some table), s₁))
      × (id ≡ table.id)
      × Unlinked table.id (legacy_link_fields d.table_name) s₁

  -- A table that was made: NocoDB listed none of the name and answered a new one.
  pub Made : TableDefinition → Text → App World → App World → Type 0
  Made d id s t =
      (table : NocoTableMeta) × (s₁ : App World) × (get_table_by_name out d.table_name s
        ≡ (ok none, s₁))
      × (create_table out d.table_name d.title d.fields s₁ ≡ (ok table, t))
      × (id ≡ table.id)

  refuse_legacy-Unlinked :
      (id : Text) (titles : List Text) (s t : App World) {u : Unit {0}}
      → refuse_legacy out id titles s ≡ (ok u, t)
      → Unlinked id titles s
  unfolding refuse_legacy Unlinked
  refuse_legacy-Unlinked id [] s t h = tt
  refuse_legacy-Unlinked id (title ∷ titles) s t h =
      let (metadata, s₁, answered, checked) = >>=-ok (get_table_metadata out id) _ s h in
      let (none_legacy, same_state) =
        guard-ok (not (is_legacy (title ∷ titles) metadata)) failure s₁ checked in
      (metadata, s₁, answered, ground arith)

  created-some :
      (d : TableDefinition) (s t : App World) (id : Text)
      → catch
          (create_table out d.table_name d.title d.fields >>= λ made. pure (some made.id))
          (λ e. pure none)
          s
        ≡ (ok (some id), t)
      → (table : NocoTableMeta) × (create_table out d.table_name d.title d.fields s ≡ (ok table, t))
        × (id ≡ table.id)
  created-some d s t id h = by_answer (create_table out d.table_name d.title d.fields s) h
    where
      by_answer :
          (m : Result NocoTableMeta × App World)
          → catching
              (go_on m.0 (λ made. pure (some made.id)) m.1).0
              (λ e. pure none)
              (go_on m.0 (λ made. pure (some made.id)) m.1).1
            ≡ (ok (some id), t)
          → (table : NocoTableMeta) × (m ≡ (ok table, t)) × (id ≡ table.id)
      by_answer (ok table, u) k = (table, cc, cc)
      by_answer (err e, u) k = absurd (ground arith)

  -- A table of the system counts as initialized only with evidence from NocoDB: a table of that name
  -- without the links of the legacy schema, or one that was just created as the definition says.
  pub ensure_table_exists-Ensured :
      (d : TableDefinition) (s t : App World) (id : Text)
      → ensure_table_exists out d s ≡ (ok (some id), t)
      → Present d id s ⊎ Made d id s t
  unfolding ensure_table_exists ensure_in assert_no_legacy_link_fields Present Made
  ensure_table_exists-Ensured d s t id h =
      let (found, s₁, listed, ensuring) = >>=-ok (get_table_by_name out d.table_name) _ s h in
      by_listing found s₁ listed ensuring
    where
      by_listing :
          (found : Option NocoTableMeta) (s₁ : App World)
          → get_table_by_name out d.table_name s ≡ (ok found, s₁)
          → ensure_in out d found s₁ ≡ (ok (some id), t)
          → Present d id s ⊎ Made d id s t
      by_listing none s₁ listed made =
          let (table, created, e) = created-some d s₁ t id made in
          inr (table, s₁, listed, created, e)
      by_listing (some table) s₁ listed ensuring =
          let (u, s₂, unlinked, rest) =
            >>=-ok (assert_no_legacy_link_fields out table.id d.table_name) _ s₁ ensuring in
          let (v, s₃, filled, returned) =
            >>=-ok (ensure_fields_exist out table.id d.fields) _ s₂ rest in
          inl (
            table,
            s₁,
            listed,
            cc,
            refuse_legacy-Unlinked table.id (legacy_link_fields d.table_name) s₁ s₂ unlinked,
          )
