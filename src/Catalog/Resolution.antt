-- ===== src/Catalog/Resolution.antt =====
-- Listed tables and requests by name (src/nocodb/table-catalog.service.ts, `getTableByName` of
-- src/nocodb/nocodb.service.ts, src/data/table-permissions.guard.ts).
use mathlib.Core.Path.{subst}
use nocodb_middleware.Prelude.{
  ◌≡◌, refl, sym, ap, ◌∙◌, ◌⊎◌, inl, inr, Bool, true, false, not, some, List, [], ◌∷◌, ◌++◌, filter,
  find, In, Text, same, same_refl, same_iff, strip_prefix, ◌==◌, Bool-cases, Option-cases, arith,
}
use nocodb_middleware.Result.{Result, ok, err}
use nocodb_middleware.Effects.{>>=-ok}
use nocodb_middleware.Types.{NocoTableMeta}
use nocodb_middleware.Outside.{Outside, App}
use nocodb_middleware.TableName.{is_valid_table_name}
use nocodb_middleware.Nocodb.Meta.{
  list_tables, get_prefixed_table_name, pick_table, get_table_by_name,
}
use nocodb_middleware.Permissions.Guards.{is_system_table}
use nocodb_middleware.Catalog.{
  TableCatalogItem, item, is_internal, prefixed_items, external_items, list_external_tables,
}

strip_prefix-some : (p t : Text) {r : Text} → strip_prefix p t ≡ some r → p ++ r ≡ t
unfolding strip_prefix
strip_prefix-some [] t h = ground arith
strip_prefix-some (a ∷ p) [] h = ground arith
strip_prefix-some (a ∷ p) (b ∷ t) h = elim (Bool-cases (a == b)) [
  | inl same ↦
      let tail = strip_prefix-some p t (rw same at h) in let head : a ≡ b = ground arith in cc
  | inr other ↦ ground (arith, rw other at h)
]

In-filter :
    {A : Type 0} (p : A → Bool) (l : List A) {a : A} → In a (filter p l) → In a l × (p a ≡ true)
unfolding filter
In-filter p [] h = absurd h
In-filter p (x ∷ l) {a} h = elim (Bool-cases (p x)) [
  | inl k ↦
      let m : (a ≡ x) ⊎ In a (filter p l) = rw k at h in
      elim m [
        | inl e ↦ (inl e, ap p e ∙ k)
        | inr n ↦ let (found, holds) = In-filter p l n in (inr found, holds)
      ]
  | inr k ↦
      let n : In a (filter p l) = rw k at h in
      let (found, holds) = In-filter p l n in (inr found, holds)
]

find-In :
    {A : Type 0} (p : A → Bool) (l : List A) {a : A}
    → In a l
    → p a ≡ true
    → (b : A) × (find p l ≡ some b) × (p b ≡ true)
unfolding find
find-In p [] m h = absurd m
find-In p (x ∷ l) {a} m h = elim (Bool-cases (p x)) [
  | inl k ↦ rw k (x, refl, k)
  | inr k ↦ elim m [ inl e ↦ ground (arith, ap p e) | inr n ↦ rw k (find-In p l n h) ]
]

-- An item stands for a table whose title is the prefix and the logical name.
prefixed_item :
    (prefix : Text) (ts : List NocoTableMeta) (i : TableCatalogItem)
    → In i (prefixed_items prefix ts)
    → (t : NocoTableMeta) × In t ts × (t.title ≡ i.title) × (prefix ++ i.table_name ≡ i.title)
unfolding prefixed_items item
prefixed_item prefix [] i h = absurd h
prefixed_item prefix (t ∷ ts) i h = elim (Option-cases (strip_prefix prefix t.title)) [
  | inl e ↦
      let m : In i (prefixed_items prefix ts) = rw (In, e) at h in
      let (u, n, titled, named) = prefixed_item prefix ts i m in (u, inr n, titled, named)
  | inr (name, e) ↦
      let m : (i ≡ item t name) ⊎ In i (prefixed_items prefix ts) = rw (In, e) at h in
      elim m [
        | inl q ↦ (
          t,
          inl refl,
          ap (λ k. k.title) (sym q),
          ap (λ k. prefix ++ k.table_name) q
              ∙ strip_prefix-some prefix t.title e
              ∙ ap (λ k. k.title) (sym q),
        )
        | inr n ↦
            let (u, n', titled, named) = prefixed_item prefix ts i n in (u, inr n', titled, named)
      ]
]

listed_or_none : {W : Type 0} → Result (List TableCatalogItem) × App W → List TableCatalogItem
listed_or_none (ok items, s) = items
listed_or_none (err e, s) = []

module _ (out : Outside) where
  open out use {World, table_prefix, is_letter_or_number}

  -- The guard takes the name for that of a data table, and a request for it finds a table with the
  -- item's title.
  pub record Resolvable (i : TableCatalogItem) (s : App World) (t : App World) : Type 0 where
    pub valid : is_valid_table_name is_letter_or_number i.table_name ≡ true
    pub external : is_system_table i.table_name ≡ false
    pub table : NocoTableMeta
    pub found : get_table_by_name out i.table_name s ≡ (ok (some table), t)
    pub titled : table.title ≡ i.title

  pick-title :
      (name : Text) (ts : List NocoTableMeta) (t : NocoTableMeta)
      → In t ts
      → t.title ≡ name
      → (u : NocoTableMeta) × (pick_table out name ts ≡ some u) × (u.title ≡ name)
  unfolding pick_table
  pick-title name ts t m e =
      let (u, found, holds) =
        find-In (λ k. same k.title name) ts m (ap (λ k. same k name) e ∙ same_refl name) in
      (u, rw (pick_table, found) refl, (same_iff u.title name).0 holds)

  -- Every table that the catalog lists has a valid name that is not internal, and the same state of
  -- NocoDB answers a request for this name with a table that has the listed title.
  pub list_external_tables-Resolvable :
      (s t : App World) (items : List TableCatalogItem)
      → list_external_tables out s ≡ (ok items, t)
      → (i : TableCatalogItem) → In i items
      → Resolvable i s t
  unfolding list_external_tables external_items is_internal is_system_table get_table_by_name
      get_prefixed_table_name listed_or_none
  list_external_tables-Resolvable s t items h i m =
      let (tables, s₁, listed, e) = >>=-ok (list_tables out) _ s h in
      let same_state = ap (λ r. r.1) e in
      let kept = subst (λ l. In i l) (sym (ap listed_or_none e)) m in
      let (unhidden, valid) =
        In-filter (λ k. is_valid_table_name is_letter_or_number k.table_name) _ kept in
      let (named, hidden) = In-filter (λ k. not (is_internal k)) _ unhidden in
      let (table, inside, same_title, logical) = prefixed_item table_prefix tables i named in
      let (u, picked, titled) =
        pick-title (table_prefix ++ i.table_name) tables table inside (same_title ∙ sym logical) in
      record {
        valid = valid;
        external = ground arith;
        table = u;
        found = rw listed (λ j. (ok (picked j), same_state j));
        titled = titled ∙ logical;
      }
