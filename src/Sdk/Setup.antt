-- ===== src/Sdk/Setup.antt =====
-- The tokens and the constructor of the SDK's client (client/src/services/auth.service.ts,
-- client/src/token-storage.ts, client/src/client.ts).
use nocodb_middleware.Prelude.{ℕ, Option, none, some, ◌∷◌, Text}
use nocodb_middleware.Client.{TokenPair}
use nocodb_middleware.Sdk.{Outcome, rejected, resolved}

-- AuthService over InMemoryTokenStorage, whose state is the stored pair.
unfoldable pub set_tokens : TokenPair → Option TokenPair → Option TokenPair
set_tokens tokens stored = some tokens

unfoldable pub get_tokens : Option TokenPair → Option TokenPair
get_tokens stored = stored

unfoldable pub clear_tokens : Option TokenPair → Option TokenPair
clear_tokens stored = none

-- The constructor of the client (client/src/client.ts): what the HTTP client is made with. A token
-- storage is a value of its own type.
pub record ClientConfig (Storage : Type 0) : Type 0 where
  pub base_url : Option Text
  pub token_storage : Option Storage
  pub timeout : Option ℕ

pub record HttpSettings (Storage : Type 0) : Type 0 where
  pub base_url : Text
  pub storage : Storage
  pub timeout : ℕ

given_or : {A : Type 0} → Option A → A → A
given_or none d = d
given_or (some a) d = a

settings_for :
    {Storage : Type 0}
    → Storage
    → ClientConfig Storage
    → Option Text
    → Outcome (HttpSettings Storage)
unfolding given_or
settings_for in_memory config (some (c ∷ url)) = resolved (record {
  base_url = c ∷ url;
  storage = given_or config.token_storage in_memory;
  timeout = given_or config.timeout 30_000;
})
settings_for in_memory config _ = rejected 0

-- `none` is a call without a configuration.
unfoldable pub new_client :
    {Storage : Type 0} → Storage → Option (ClientConfig Storage) → Outcome (HttpSettings Storage)
unfolding settings_for
new_client in_memory none = rejected 0
new_client in_memory (some config) = settings_for in_memory config config.base_url
