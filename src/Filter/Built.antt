-- ===== src/Filter/Built.antt =====
-- Joining of what the builders return (src/nocodb/nocodb-filter.util.ts).
use nocodb_middleware.Prelude.{◌≡◌, refl, ◌⊎◌, inl, inr, true, List, [], ◌∷◌, Text, codes, All, all}
use nocodb_middleware.Result.{ok}
use nocodb_middleware.Filter.{FilterValue, filter_eq, filter_in, join, and_filters}
use nocodb_middleware.Filter.Pattern.{is_expression}
use nocodb_middleware.Filter.Accepted.{IsSimple, filter_eq-is_expression, filter_in-is_expression}

-- Returned by filterEq, which also calls filterChecked and filterNotChecked, or by filterIn, for
-- texts, Booleans and integers below 10^21 in magnitude.
abbrev pub IsBuilt : Text → Type 0
IsBuilt e =
    ((field : Text) × (v : FilterValue) × IsSimple v × (filter_eq field v ≡ ok e))
    ⊎ ((field : Text) × (vs : List FilterValue) × All IsSimple vs × (filter_in field vs ≡ ok e))

built-is_expression : (e : Text) → IsBuilt e → is_expression e ≡ true
built-is_expression e (inl (field, v, s, h)) = filter_eq-is_expression field v s h
built-is_expression e (inr (field, vs, s, h)) = filter_in-is_expression field vs s h

all_built : (es : List Text) → All IsBuilt es → all is_expression es ≡ true
all_built [] h = refl
all_built (e ∷ es) (h, hs) = rw (built-is_expression e h, all_built es hs)

-- andFilters joins any filters that filterEq and filterIn returned, each number in them being an
-- integer below 10^21 in magnitude; it refuses none.
pub and_filters-of_built :
    (es : List Text) → All IsBuilt es → and_filters es ≡ ok (join (codes "~and") es)
unfolding and_filters
and_filters-of_built es h = rw (all_built es h) refl
