-- ===== src/Startup/Deletions.antt =====
-- What the initialization never does (src/nocodb/database-initialization.service.ts).
use nocodb_middleware.Prelude.{Bool, true, false}
use nocodb_middleware.Effects.Keeps.{Keeps}
use nocodb_middleware.Filter
use nocodb_middleware.Outside.{Outside, App, Method}
use nocodb_middleware.Nocodb.Records
use nocodb_middleware.Nocodb.Reading.{KeptBy, Holds}

-- Every method but `DELETE`.
unfoldable pub deletes_none : Method → Bool
deletes_none Method.delete = false
deletes_none _ = true

module _ (out : Outside) (P : Outside.World out → Type 0) (kept : KeptBy out deletes_none P) where
  open out use {World}

  abbrev In : App World → Type 0
  In = Holds out P
