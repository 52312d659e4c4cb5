-- ===== src/Nocodb/Batches.antt =====
-- Batches and their reports (src/nocodb/nocodb.service.ts).
use nocodb_middleware.Prelude.{◌≡◌, refl, Option, none, some, List, [], ◌∷◌, Text}
use nocodb_middleware.Js.{Num}
use nocodb_middleware.Result.{Result, ok, err}
use nocodb_middleware.Effects.{Exec, go_on, catching}
use nocodb_middleware.Types.{NocoRecord}
use nocodb_middleware.Outside.{Outside, App}
use nocodb_middleware.Nocodb.Records.{
  BatchItem, stored, rejected, create, update, batch_create, batch_update,
}

-- What one record of a batch leads to: the stored record, or its error.
outcome : Option Num → Result NocoRecord → BatchItem
outcome id (ok r) = stored r
outcome id (err e) = rejected id e

module _ (out : Outside) (table_id : Text) where
  open out use {World}

  -- The reports of records created one after the other, each in the state that the one before
  -- it left.
  pub created : List NocoRecord → App World → List BatchItem
  unfolding outcome
  created [] s = []
  created (r ∷ rs) s =
      outcome none (create out table_id r s).0 ∷ created rs (create out table_id r s).1

  -- The same of updates.
  pub updated : List (Num × NocoRecord) → App World → List BatchItem
  unfolding outcome
  updated [] s = []
  updated ((id, fields) ∷ rest) s =
      outcome (some id) (update out table_id id fields s).0
      ∷ updated rest (update out table_id id fields s).1

  -- The report of one record, before those of the others.
  report :
      (id : Option Num) (rest : Exec (App World) (List BatchItem))
      (m : Result NocoRecord × App World) (items : List BatchItem)
      → (rest m.1).0 ≡ ok items
      → (go_on
          (catching
            (go_on m.0 (λ made t. (ok (stored made), t)) m.1).0
            (λ e t. (ok (rejected id e), t))
            (go_on m.0 (λ made t. (ok (stored made), t)) m.1).1).0
          (λ item t. go_on (rest t).0 (λ items u. (ok (item ∷ items), u)) (rest t).1)
          (catching
            (go_on m.0 (λ made t. (ok (stored made), t)) m.1).0
            (λ e t. (ok (rejected id e), t))
            (go_on m.0 (λ made t. (ok (stored made), t)) m.1).1).1).0
        ≡ ok (outcome id m.0 ∷ items)
  unfolding outcome
  report id rest (ok made, t) items h = rw h
  report id rest (err e, t) items h = rw h

  batch_create-created :
      (rs : List NocoRecord) (s : App World)
      → (batch_create out table_id rs s).0 ≡ ok (created rs s)
  unfolding batch_create created
  batch_create-created [] s = refl
  batch_create-created (r ∷ rs) s =
      let m = create out table_id r s in
      report none (batch_create out table_id rs) m (created rs m.1) (batch_create-created rs m.1)

  batch_update-updated :
      (rs : List (Num × NocoRecord)) (s : App World)
      → (batch_update out table_id rs s).0 ≡ ok (updated rs s)
  unfolding batch_update updated
  batch_update-updated [] s = refl
  batch_update-updated ((id, fields) ∷ rs) s =
      let m = update out table_id id fields s in
      report (some id) (batch_update out table_id rs) m (updated rs m.1)
        (batch_update-updated rs m.1)

  -- Neither batch throws: each reports on every record in order, a failure with its error, and of an
  -- update with the id of the record. Records behind a failure are still created and updated.
  pub batches-reported :
      (rs : List NocoRecord) (changes : List (Num × NocoRecord)) (s : App World)
      → ((batch_create out table_id rs s).0 ≡ ok (created rs s))
        × ((batch_update out table_id changes s).0 ≡ ok (updated changes s))
  batches-reported rs changes s = (batch_create-created rs s, batch_update-updated changes s)
