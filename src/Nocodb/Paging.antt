-- ===== src/Nocodb/Paging.antt =====
-- `listAll` against the pages that NocoDB documents (src/nocodb/nocodb.service.ts).
use mathlib.Core.List.{append_assoc, map-append}
use nocodb_middleware.Prelude.{
  ℕ, zero, suc, ◌+◌, ◌-◌, ◌*◌, min, ◌<◌, ◌≡◌, refl, sym, ◌∙◌, ap, false, none, some, List, [], ◌++◌,
  map, Text, length, take, drop, take_of_length-le, length-map, length-take, length-drop,
  take-append-drop, drop-drop, ltb, ◌==◌, inl, inr, Bool-cases, arith,
}
use nocodb_middleware.Result.{ok}
use nocodb_middleware.Types.{NocoRecord, V3Record}
use nocodb_middleware.Outside.{Outside, App, Payload, Request, Method, Body, received}
use nocodb_middleware.Nocodb.Requests.{records_path, flatten_record, wait, enforce_rate_limit, http}
use nocodb_middleware.Nocodb.Records.{
  FilterOptions, list_params, as_records, list, list_from, list_all,
}

module _ (out : Outside) (Steady : out.World → Type 0) where
  open out use {World, base_id, send, now, sleep}

  -- Neither reading the clock nor waiting changes what NocoDB holds.
  pub record IsQuiet : Type 0 where
    pub clock : (w : World) → Steady w → Steady (now w).1
    pub timer : (d : ℕ) (w : World) → Steady w → Steady (sleep d w)

  -- NocoDB answers the request with this body as long as its data is steady, and keeps it so.
  pub record Serves (r : Request) (p : Payload) : Type 0 where
    pub replies : (w : World) → Steady w → (send r w).0 ≡ received p
    pub keeps : (w : World) → Steady w → Steady (send r w).1

  -- The request of a page of the list.
  abbrev pub page_options : FilterOptions → ℕ → ℕ → FilterOptions
  page_options o size offset = record o {
    limit = some size;
    offset = some offset;
    with_count = false;
  }

  abbrev pub page_request : Text → FilterOptions → ℕ → ℕ → Request
  page_request table_id o size offset = record {
    method = Method.get;
    path = records_path base_id table_id;
    params = list_params (page_options o size offset);
    body = Body.empty;
  }

  -- What NocoDB documents of `limit` and `offset`: the page is the slice of the matching rows.
  abbrev pub IsPaged : Text → FilterOptions → ℕ → List V3Record → Type 0
  IsPaged table_id o size rows =
      (offset : ℕ)
      → Serves (page_request table_id o size offset)
          (Payload.records (some (take size (drop offset rows))))

  module _ (quiet : IsQuiet) where
    wait-Steady : (d : ℕ) (s : App World) → Steady s.world → Steady (wait out d s).world
    unfolding wait
    wait-Steady d s h = elim (Bool-cases (d == 0)) [
      | inl none_left ↦ rw none_left h
      | inr some_left ↦ rw some_left (quiet.timer d s.world h)
    ]

    limit-Steady : (s : App World) → Steady s.world → Steady (enforce_rate_limit out s).1.world
    unfolding enforce_rate_limit
    limit-Steady s h = wait-Steady _ _ (quiet.clock s.world h)

    limit-ok : (s : App World) → (enforce_rate_limit out s).0 ≡ ok tt
    unfolding enforce_rate_limit
    limit-ok s = refl

    http-Serves :
        (r : Request) (p : Payload) (s : App World)
        → Serves r p
        → Steady s.world
        → ((http out r s).0 ≡ ok p) × Steady (http out r s).1.world
    unfolding http
    http-Serves r p s serves h =
        (rw (serves.replies s.world h), rw (serves.replies s.world h) (serves.keeps s.world h))

    module _ (table_id : Text) (o : FilterOptions) (size : ℕ) (rows : List V3Record) where
      list-page :
          (offset : ℕ) (s : App World)
          → IsPaged table_id o size rows
          → Steady s.world
          → ((list out table_id (page_options o size offset) s).0
              ≡ ok (record {
                list = map flatten_record (take size (drop offset rows));
                page_info = none;
              }))
            × Steady (list out table_id (page_options o size offset) s).1.world
      unfolding list as_records
      list-page offset s paged h =
          let t : App World = (enforce_rate_limit out s).1 in
          let (replied, kept) =
            http-Serves (page_request table_id o size offset) _ t (paged offset)
              (limit-Steady s h) in
          (rw (limit-ok s) (rw replied), rw (limit-ok s) (rw replied kept))

      slice-joined :
          (offset : ℕ) (before : List NocoRecord)
          → (before ++ map flatten_record (take size (drop offset rows)))
              ++ map flatten_record (drop (offset + size) rows)
            ≡ before ++ map flatten_record (drop offset rows)
      slice-joined offset before =
          append_assoc before _ _
          ∙ ap (λ r. before ++ r)
              (sym (
                  map-append flatten_record (take size (drop offset rows))
                    (drop (offset + size) rows))
                ∙ ap (map flatten_record) (
                    ap (λ r. take size (drop offset rows) ++ r) (sym (drop-drop offset size rows))
                    ∙ take-append-drop size (drop offset rows)))

      page_length :
          (offset : ℕ)
          → length (map flatten_record (take size (drop offset rows)))
            ≡ min size (length rows - offset)
      page_length offset = omega (
        arith,
        length-map flatten_record (take size (drop offset rows)),
        length-take size (drop offset rows),
        length-drop offset rows,
      )

      last_page :
          (offset : ℕ)
          → min size (length rows - offset) < size
          → take size (drop offset rows) ≡ drop offset rows
      last_page offset h =
          take_of_length-le size (drop offset rows) (omega (arith, length-drop offset rows))

      -- The loop, from an offset with the records before it at hand.
      list_from-rest :
          (fuel offset : ℕ) (s : App World) (before : List NocoRecord)
          → IsPaged table_id o size rows
          → Steady s.world
          → length rows - offset < fuel * size
          → (list_from out fuel table_id o size offset before s).0
            ≡ ok (before ++ map flatten_record (drop offset rows))
      unfolding list_from
      list_from-rest zero offset s before paged h bound = absurd (omega arith)
      list_from-rest (suc fuel) offset s before paged h bound =
          let (page, kept) = list-page offset s paged h in
          let n = length (map flatten_record (take size (drop offset rows))) in
          elim (Bool-cases (ltb n size)) [
            | inl short ↦ rw page (
                rw short (
                  ap (λ r. ok (before ++ map flatten_record r))
                    (last_page offset (ground (arith, page_length offset)))))
            | inr full ↦ rw page (
                rw full (
                  list_from-rest fuel (offset + size) _ _ paged kept
                    (ground (arith, page_length offset))
                  ∙ ap ok (slice-joined offset before)))
          ]

-- If NocoDB serves every page as documented, its data does not change meanwhile, and the matching
-- records are fewer than the pages of the fuel hold, `listAll` returns all of them in order.
pub list_all_complete :
    (out : Outside) (Steady : out.World → Type 0) (table_id : Text) (o : FilterOptions)
    (rows : List V3Record) (s : App out.World)
    → IsQuiet out Steady
    → IsPaged out Steady table_id o 1000 rows
    → Steady s.world
    → length rows < out.max_pages * 1000
    → (list_all out table_id o s).0 ≡ ok (map flatten_record rows)
unfolding list_all drop
list_all_complete out Steady table_id o rows s quiet paged h bound =
    list_from-rest out Steady quiet table_id o 1000 rows out.max_pages 0 s [] paged h (omega arith)
