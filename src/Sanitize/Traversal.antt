-- ===== src/Sanitize/Traversal.antt =====
-- What the middleware leaves in a request (src/common/middleware/sanitize.middleware.ts).
use nocodb_middleware.Prelude.{
  ◌≡◌, refl, ◌⊎◌, inl, inr, false, Option, none, some, Text, codes, same, Bool-cases,
}
use nocodb_middleware.Sanitize.{
  Json, undefined, null, bool, num, text, array, object, Items, nil, cons, Members, end, member,
  set_member, Setting, off, with, SanitizeOptions, HttpRequest, should_skip_sanitization, is_object,
  sanitize_with, sanitize_items, sanitize_members, sanitize_value, or_default, sanitize_part,
  use_sanitizer,
}

-- Every text of a value satisfies the predicate. Names of members are no texts of the value.
unfoldable mutual
  pub EveryText : (Text → Type 0) → Json → Type 0
  EveryText P undefined = Unit
  EveryText P null = Unit
  EveryText P (bool b) = Unit
  EveryText P (num n) = Unit
  EveryText P (text t) = P t
  EveryText P (array xs) = EveryItem P xs
  EveryText P (object ms) = EveryMember P ms

  pub EveryItem : (Text → Type 0) → Items → Type 0
  EveryItem P nil = Unit
  EveryItem P (cons x xs) = EveryText P x × EveryItem P xs

  pub EveryMember : (Text → Type 0) → Members → Type 0
  EveryMember P end = Unit
  EveryMember P (member key v ms) = EveryText P v × EveryMember P ms

set_member-EveryMember :
    (P : Text → Type 0) (key : Text) (v : Json) (ms : Members)
    → EveryText P v
    → EveryMember P ms
    → EveryMember P (set_member key v ms)
unfolding set_member EveryText
set_member-EveryMember P key v ms h k = elim (Bool-cases (same key (codes "__proto__"))) [
  | inl proto ↦ rw proto k
  | inr other ↦ rw other (h, k)
]

module _ (Config : Type 0) (sanitize_html : Config → Text → Text) (strip_all : Config) where
  module _ (P : Text → Type 0) (c : Config) (safe : (t : Text) → P (sanitize_html c t)) where
    mutual
      unfolding sanitize_with EveryText

      sanitize_with-EveryText :
          (v : Json) → EveryText P (sanitize_with Config sanitize_html strip_all c v)
      sanitize_with-EveryText undefined = tt
      sanitize_with-EveryText null = tt
      sanitize_with-EveryText (bool b) = tt
      sanitize_with-EveryText (num n) = tt
      sanitize_with-EveryText (text t) = safe t
      sanitize_with-EveryText (array xs) = sanitize_items-EveryItem xs
      sanitize_with-EveryText (object ms) = sanitize_members-EveryMember ms

      sanitize_items-EveryItem :
          (xs : Items) → EveryItem P (sanitize_items Config sanitize_html strip_all c xs)
      sanitize_items-EveryItem nil = tt
      sanitize_items-EveryItem (cons x xs) =
          (sanitize_with-EveryText x, sanitize_items-EveryItem xs)

      sanitize_members-EveryMember :
          (ms : Members) → EveryMember P (sanitize_members Config sanitize_html strip_all c ms)
      sanitize_members-EveryMember end = tt
      sanitize_members-EveryMember (member key v ms) =
          set_member-EveryMember P key _ _ (sanitize_with-EveryText v)
            (sanitize_members-EveryMember ms)

  -- A part of a request behind the middleware: all its texts satisfy the predicate, or it is as it
  -- was, because its sanitizing is switched off or it is no object.
  pub Cleaned : (Text → Type 0) → Option (Setting Config) → Json → Json → Type 0
  Cleaned P setting v cleaned =
      EveryText P cleaned
      ⊎ ((setting ≡ some off) × (cleaned ≡ v))
      ⊎ ((is_object v ≡ false) × (cleaned ≡ v))

  sanitize_part-Cleaned :
      (P : Text → Type 0)
      → ((c : Config) (t : Text) → P (sanitize_html c t))
      → (setting : Option (Setting Config)) (v : Json)
      → Cleaned P setting v (sanitize_part Config sanitize_html strip_all setting v)
  unfolding sanitize_part sanitize_value or_default Cleaned
  sanitize_part-Cleaned P safe none v = elim (Bool-cases (is_object v)) [
    | inl k ↦ rw k (inl (sanitize_with-EveryText P strip_all (safe strip_all) v))
    | inr k ↦ rw k (inr (inr (refl, refl)))
  ]
  sanitize_part-Cleaned P safe (some off) v = elim (Bool-cases (is_object v)) [
    | inl k ↦ rw k (inr (inl (refl, refl)))
    | inr k ↦ rw k (inr (inr (refl, refl)))
  ]
  sanitize_part-Cleaned P safe (some (with c)) v = elim (Bool-cases (is_object v)) [
    | inl k ↦ rw k (inl (sanitize_with-EveryText P c (safe c) v))
    | inr k ↦ rw k (inr (inr (refl, refl)))
  ]

  -- What the sanitizer guarantees of every text that it answers holds of every text of the body, the
  -- query and the parameters that the handlers see, at any depth, unless the path is one of those
  -- that are skipped, the sanitizing of the part is switched off, or the part is no object.
  pub use_sanitizer-Cleaned :
      (P : Text → Type 0)
      → ((c : Config) (t : Text) → P (sanitize_html c t))
      → (options : SanitizeOptions Config) (req : HttpRequest)
      → should_skip_sanitization req.path ≡ false
      → Cleaned P options.body req.body
          (use_sanitizer Config sanitize_html strip_all options req).body
        × Cleaned P options.query req.query
            (use_sanitizer Config sanitize_html strip_all options req).query
        × Cleaned P options.params req.params
            (use_sanitizer Config sanitize_html strip_all options req).params
  unfolding use_sanitizer
  use_sanitizer-Cleaned P safe options req h = rw h (
    sanitize_part-Cleaned P safe options.body req.body,
    sanitize_part-Cleaned P safe options.query req.query,
    sanitize_part-Cleaned P safe options.params req.params,
  )
