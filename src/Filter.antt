-- ===== src/Filter.antt =====
-- Builders of `where` expressions (src/nocodb/nocodb-filter.util.ts). Each may throw.
pub mod Pattern
pub mod Accepted
pub mod Built
pub mod Joining
pub mod Contained
pub mod Fields
use Pattern.{is_field_char, is_expression}
use nocodb_middleware.Prelude.{
  ℕ, Bool, true, false, not, ◌&&◌, ◌||◌, List, [], ◌∷◌, ◌++◌, Text, codes, same, trim, any, all,
  ltb, ◌==◌, if◌then◌else◌,
}
use nocodb_middleware.Js.{Num, is_finite, num_text}
use nocodb_middleware.Result.{Result, ok, err, bad_request, ◌>>=◌, ◌>>◌, guard, map_result}

pub data FilterValue : Type 0 where
  text : Text → FilterValue
  number : Num → FilterValue
  boolean : Bool → FilterValue

is_empty : Text → Bool
is_empty [] = true
is_empty (c ∷ t) = false

unfoldable pub sanitize_filter_field : Text → Result Text
unfolding is_empty
sanitize_filter_field field = do
  guard (not (is_empty field) && all is_field_char field) bad_request
  ok (if same field (codes "id") then codes "Id" else field)

-- No code unit of a surrogate pair is a control character, so the units can be tested one by one.
unfoldable pub has_control_character : Text → Bool
has_control_character t = any (λ c. ltb c 32 || c == 127) t

unfoldable pub format_filter_value : FilterValue → Result Text
unfolding is_empty has_control_character
format_filter_value (number n) = do guard (is_finite n) bad_request; ok (num_text n)
format_filter_value (boolean b) = err bad_request
format_filter_value (text t) = do
  guard (not (is_empty (trim t) || any (λ c. c == b'"') (trim t) || has_control_character (trim t)))
      bad_request
  ok (b'"' ∷ trim t ++ codes "\"")

unfoldable pub filter_checked : Text → Result Text
filter_checked field = do f ← sanitize_filter_field field; ok (b'(' ∷ f ++ codes ",checked)")

unfoldable pub filter_not_checked : Text → Result Text
filter_not_checked field = do f ← sanitize_filter_field field; ok (b'(' ∷ f ++ codes ",notchecked)")

unfoldable pub filter_eq : Text → FilterValue → Result Text
filter_eq field (boolean true) = filter_checked field
filter_eq field (boolean false) = filter_not_checked field
filter_eq field v = do
  f ← sanitize_filter_field field
  t ← format_filter_value v
  ok (b'(' ∷ f ++ (codes ",eq," ++ (t ++ codes ")")))

-- `texts.join(separator)`
unfoldable pub join : Text → List Text → Text
join sep [] = []
join sep (t ∷ []) = t
join sep (t ∷ u ∷ ts) = t ++ (sep ++ join sep (u ∷ ts))

unfoldable pub filter_in : Text → List FilterValue → Result Text
filter_in field [] = err bad_request
filter_in field (v ∷ vs) = do
  f ← sanitize_filter_field field
  ts ← map_result format_filter_value (v ∷ vs)
  ok (b'(' ∷ f ++ (codes ",in," ++ (join (codes ",") ts ++ codes ")")))

unfoldable pub and_filters : List Text → Result Text
and_filters filters = do
  guard (all is_expression filters) bad_request
  ok (join (codes "~and") filters)
