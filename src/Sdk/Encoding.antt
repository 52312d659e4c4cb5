-- ===== src/Sdk/Encoding.antt =====
-- Paths of the data API in the SDK (`path` of client/src/services/records.service.ts).
pub mod Separators
use nocodb_middleware.Prelude.{
  ℕ, ◌+◌, ◌-◌, ◌/◌, ◌%◌, Bool, true, false, not, ◌&&◌, ◌||◌, Option, none, some, List, [], ◌∷◌,
  ◌++◌, Text, codes, any, ltb, leb, ◌==◌, if◌then◌else◌,
}
use nocodb_middleware.Js.{Num, num_text}
use nocodb_middleware.Auth.Token.{utf8}

-- Characters that `encodeURIComponent` leaves as they are.
unfoldable pub is_unreserved : ℕ → Bool
is_unreserved c =
    (leb b'A' c && leb c b'Z')
    || (leb b'a' c && leb c b'z')
    || (leb b'0' c && leb c b'9')
    || any (λ d. d == c) (codes "-_.!~*'()")

unfoldable pub hex_digit : ℕ → ℕ
hex_digit n = if ltb n 10 then b'0' + n else b'A' + (n - 10)

unfoldable pub encode_bytes : Text → Text
unfolding is_unreserved hex_digit
encode_bytes [] = []
encode_bytes (c ∷ t) =
    let rest = encode_bytes t in
    if is_unreserved c then c ∷ rest else b'%' ∷ hex_digit (c / 16 % 16) ∷ hex_digit (c % 16) ∷ rest

is_high : ℕ → Bool
is_high c = leb 0xd800 c && ltb c 0xdc00

is_low : ℕ → Bool
is_low c = leb 0xdc00 c && ltb c 0xe000

-- Every surrogate is one of a pair.
unfoldable pub is_well_formed : Text → Bool
unfolding is_high is_low
is_well_formed [] = true
is_well_formed (c ∷ []) = not (is_high c || is_low c)
is_well_formed (c ∷ d ∷ t) =
    let behind = is_well_formed t in
    let rest = is_well_formed (d ∷ t) in
    if is_high c then is_low d && behind else if is_low c then false else rest

-- `encodeURIComponent`: the UTF-8 bytes of a text, all but the unreserved ones as `%XX`; `none` is
-- the URIError of a lone surrogate.
unfoldable pub encode_uri_component : Text → Option Text
unfolding encode_bytes is_well_formed
encode_uri_component t = if is_well_formed t then some (encode_bytes (utf8 t)) else none

with_id : Option Num → Text → Option Text
unfolding encode_uri_component
with_id none base = some base
with_id (some id) base = elim (encode_uri_component (num_text id)) [
  | none ↦ none
  | some encoded ↦ some (base ++ (b'/' ∷ encoded))
]

-- `path(table, id?)`
unfoldable pub data_path : Text → Option Num → Option Text
unfolding with_id
data_path table id = elim (encode_uri_component table) [
  | none ↦ none
  | some encoded ↦ with_id id (codes "/data/" ++ encoded)
]
