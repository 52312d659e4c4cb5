-- ===== src/Auth/Config.antt =====
-- AuthProviderConfigService (src/auth/auth-provider-config.service.ts). An absent setting is `none`.
use nocodb_middleware.Prelude.{
  Bool, true, false, Option, none, some, [], ◌∷◌, Text, codes, same, ◌+◌, leb, ◌&&◌, map,
  if◌then◌else◌,
}
use nocodb_middleware.Result.{Result, ok, err, failure, guard, ◌>>=◌, ◌>>◌}
use nocodb_middleware.Auth.{Provider, local, external}

pub record Settings : Type 0 where
  pub auth_provider : Option Text
  pub jwt_secret : Option Text
  pub external_jwt_secret : Option Text
  pub external_jwt_issuer : Option Text
  pub external_jwt_audience : Option Text

is_set : Option Text → Bool
is_set none = false
is_set (some []) = false
is_set (some (c ∷ t)) = true

-- `toLowerCase` on ASCII letters. No other character has a letter of the two provider names as its
-- lower case.
unfoldable pub lower : Text → Text
lower = map (λ c. if leb b'A' c && leb c b'Z' then c + 32 else c)

named : Text → Result Provider
named t =
    if same t (codes "local")
    then ok local
    else if same t (codes "external")
    then ok external
    else err failure

unfoldable pub get_provider : Settings → Result Provider
unfolding named lower
get_provider s = elim s.auth_provider [ none ↦ ok local | some t ↦ named (lower t) ]

required_settings : Settings → Provider → Result (Unit {0})
unfolding is_set
required_settings s local = guard (is_set s.jwt_secret) failure
required_settings s external = do
  guard (is_set s.external_jwt_secret) failure
  guard (is_set s.external_jwt_issuer) failure
  guard (is_set s.external_jwt_audience) failure

unfoldable pub on_module_init : Settings → Result (Unit {0})
unfolding get_provider required_settings
on_module_init s = do provider ← get_provider s; required_settings s provider

-- The secret that the constructor of JwtStrategy requires (src/auth/strategies/jwt.strategy.ts).
unfoldable pub jwt_secret : Settings → Provider → Option Text
jwt_secret s local = s.jwt_secret
jwt_secret s external = s.external_jwt_secret

unfoldable pub strategy_secret : Settings → Result Text
unfolding get_provider jwt_secret
strategy_secret s = do
  provider ← get_provider s
  elim (jwt_secret s provider) [
    | none ↦ err failure
    | some [] ↦ err failure
    | some (c ∷ t) ↦ ok (c ∷ t)
  ]
