-- ===== src/Permissions/Cache.antt =====
-- The permission cache of src/permissions/permissions.service.ts: a `Map` from user ids, in
-- insertion order, with an expiry time in each entry.
pub mod Bounds
pub mod History
use nocodb_middleware.Prelude.{
  ℕ, ◌+◌, Bool, true, false, not, ◌&&◌, Option, none, some, List, [], ◌∷◌, ◌++◌, length, filter,
  ltb, leb, if◌then◌else◌,
}
use nocodb_middleware.Js.{Num, same_num, truthy_num}
use nocodb_middleware.Types.{UserPermissions}
use nocodb_middleware.Outside.{CachedPermissions}

abbrev pub Cache : Type 0
Cache = List (Num × CachedPermissions)

abbrev pub permissions_cache_ttl_ms : ℕ
permissions_cache_ttl_ms = 300_000

abbrev pub permissions_cache_max_entries : ℕ
permissions_cache_max_entries = 1000

-- `Map.get`
unfoldable pub get_entry : Num → Cache → Option CachedPermissions
get_entry user [] = none
get_entry user ((u, e) ∷ c) = if same_num user u then some e else get_entry user c

-- `Map.delete`
unfoldable pub delete_entry : Num → Cache → Cache
delete_entry user = filter (λ e. not (same_num user e.0))

-- `while (size >= MAX) delete(oldest)`
unfoldable pub make_room : Cache → Cache
make_room [] = []
make_room (e ∷ c) =
    let smaller = make_room c in
    if leb permissions_cache_max_entries (length (e ∷ c)) then smaller else e ∷ c

unfoldable pub drop_expired : ℕ → Cache → Cache
drop_expired now = filter (λ e. ltb now e.1.expires_at)

unfoldable pub cache_permissions : ℕ → Num → UserPermissions → Cache → Cache
cache_permissions now user value cache =
    make_room (delete_entry user (drop_expired now cache))
    ++ (user, record { value = value; expires_at = now + permissions_cache_ttl_ms }) ∷ []

-- `cached && cached.expiresAt > Date.now()`
unfoldable pub fresh_value : ℕ → Option CachedPermissions → Option UserPermissions
fresh_value now none = none
fresh_value now (some e) = if ltb now e.expires_at then some e.value else none

-- `clearCache(userId?)`: an id of 0 or NaN clears everything.
unfoldable pub clear_cache : Option Num → Cache → Cache
clear_cache none cache = []
clear_cache (some user) cache = if truthy_num user then delete_entry user cache else []
