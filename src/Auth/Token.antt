-- ===== src/Auth/Token.antt =====
-- The bootstrap token, compared as bytes (`assertBootstrapAllowed` of
-- src/auth/bootstrap-admin.service.ts).
pub mod Authorization
use nocodb_middleware.Prelude.{
  ℕ, ◌+◌, ◌-◌, ◌*◌, ◌/◌, ◌%◌, Bool, true, false, ◌&&◌, Option, none, some, [], ◌∷◌, ◌++◌, Text,
  same, length, ltb, leb, ◌==◌, if◌then◌else◌,
}
use nocodb_middleware.Result.{Result, guard, forbidden, unauthorized, ◌>>=◌, ◌>>◌}

-- `Buffer.from(t)`: UTF-8. A surrogate that is not one of a pair becomes U+FFFD.
replacement : Text
replacement = 239 ∷ 191 ∷ 189 ∷ []

two_bytes : ℕ → Text
two_bytes c = (192 + c / 64) ∷ (128 + c % 64) ∷ []

three_bytes : ℕ → Text
three_bytes c = (224 + c / 4096) ∷ (128 + c / 64 % 64) ∷ (128 + c % 64) ∷ []

four_bytes : ℕ → Text
four_bytes c =
    (240 + c / 262144) ∷ (128 + c / 4096 % 64) ∷ (128 + c / 64 % 64) ∷ (128 + c % 64) ∷ []

is_high : ℕ → Bool
is_high c = leb 0xd800 c && ltb c 0xdc00

is_low : ℕ → Bool
is_low c = leb 0xdc00 c && ltb c 0xe000

unit_bytes : ℕ → Text
unfolding replacement two_bytes three_bytes is_high is_low
unit_bytes c =
    if ltb c 128
    then c ∷ []
    else if ltb c 0x800
    then two_bytes c
    else if is_high c
    then replacement
    else if is_low c
    then replacement
    else three_bytes c

unfoldable pub utf8 : Text → Text
unfolding unit_bytes four_bytes is_high is_low
utf8 [] = []
utf8 (c ∷ []) = unit_bytes c
utf8 (c ∷ d ∷ t) =
    let rest = utf8 (d ∷ t) in
    let behind = utf8 t in
    if is_high c && is_low d
    then four_bytes (0x10000 + (c - 0xd800) * 1024 + (d - 0xdc00)) ++ behind
    else unit_bytes c ++ rest

is_set : Option Text → Bool
is_set none = false
is_set (some []) = false
is_set (some (c ∷ t)) = true

bytes_of : Option Text → Text
bytes_of none = []
bytes_of (some t) = utf8 t

-- `timingSafeEqual` compares the bytes; it is asked only for buffers of one length.
unfoldable pub assert_bootstrap_allowed : Option Text → Option Text → Result (Unit {0})
unfolding is_set bytes_of
assert_bootstrap_allowed configured provided = do
  guard (is_set configured) forbidden
  guard (is_set provided) unauthorized
  guard (length (bytes_of provided) == length (bytes_of configured)) unauthorized
  guard (same (bytes_of provided) (bytes_of configured)) unauthorized
