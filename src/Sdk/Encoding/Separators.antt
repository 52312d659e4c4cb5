-- ===== src/Sdk/Encoding/Separators.antt =====
-- An encoded part of a path (client/src/services/records.service.ts).
use nocodb_middleware.Prelude.{
  ℕ, ◌/◌, ◌%◌, ◌<◌, ◌≡◌, refl, inl, inr, Bool, true, false, ◌||◌, none, some, [], ◌∷◌, ◌++◌, Text,
  codes, any, ◌==◌, Bool-cases, arith,
}
use nocodb_middleware.Auth.Token.{utf8}
use nocodb_middleware.Sdk.Encoding.{
  is_unreserved, hex_digit, encode_bytes, is_well_formed, encode_uri_component, with_id, data_path,
}

-- What ends a part of a path.
is_separator : ℕ → Bool
is_separator c = c == b'/' || c == b'?' || c == b'#'

unreserved-not_separator : (c : ℕ) → is_unreserved c ≡ true → is_separator c ≡ false
unfolding is_unreserved is_separator
unreserved-not_separator c h = ground arith

hex_digit-not_separator : (n : ℕ) → n < 16 → is_separator (hex_digit n) ≡ false
unfolding hex_digit is_separator
hex_digit-not_separator n h = ground arith

percent-not_separator : is_separator b'%' ≡ false
unfolding is_separator
percent-not_separator = refl

encode_bytes-none : (t : Text) → any is_separator (encode_bytes t) ≡ false
unfolding encode_bytes
encode_bytes-none [] = refl
encode_bytes-none (c ∷ t) =
    let rest = encode_bytes-none t in
    let first = hex_digit-not_separator (c / 16 % 16) (omega arith) in
    let second = hex_digit-not_separator (c % 16) (omega arith) in
    elim (Bool-cases (is_unreserved c)) [
      | inl k ↦ let plain = unreserved-not_separator c k in rw k (rw plain rest)
      | inr k ↦ rw k (percent (hex_digit (c / 16 % 16)) (hex_digit (c % 16)) first second rest)
    ]
  where
    percent :
        (a b : ℕ)
        → is_separator a ≡ false
        → is_separator b ≡ false
        → any is_separator (encode_bytes t) ≡ false
        → any is_separator (b'%' ∷ a ∷ b ∷ encode_bytes t) ≡ false
    percent a b h k r = rw percent-not_separator (rw h (rw k r))

-- The path of a table in the SDK is that of the data API with one part behind it: the name of the
-- table, whatever it is, brings no further part, no query and no fragment into the request.
data_path-one_part :
    (table path : Text)
    → data_path table none ≡ some path
    → (part : Text) × (path ≡ codes "/data/" ++ part) × (any is_separator part ≡ false)
unfolding data_path with_id encode_uri_component
data_path-one_part table path h = elim (Bool-cases (is_well_formed table)) [
  | inl k ↦
      let e = rw (k, data_path, encode_uri_component) at h in
      (encode_bytes (utf8 table), cc, encode_bytes-none (utf8 table))
  | inr k ↦ let e = rw (k, data_path, encode_uri_component) at h in absurd (ground arith)
]
