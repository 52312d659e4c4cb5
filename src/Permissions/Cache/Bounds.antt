-- ===== src/Permissions/Cache/Bounds.antt =====
-- Size and reads of the permission cache (src/permissions/permissions.service.ts).
use nocodb_middleware.Prelude.{
  ℕ, ◌+◌, ◌≤◌, ◌<◌, ◌≡◌, refl, inl, inr, none, some, [], ◌∷◌, ◌++◌, length, length-append, filter,
  ltb, if◌then◌else◌, Bool-cases, arith,
}
use nocodb_middleware.Js.{Num, same_num, same_num_refl}
use nocodb_middleware.Types.{UserPermissions}
use nocodb_middleware.Permissions.Cache.{
  Cache, get_entry, delete_entry, make_room, drop_expired, cache_permissions, fresh_value,
  permissions_cache_max_entries,
}

pub make_room_bound : (c : Cache) → length (make_room c) < 1000
unfolding make_room
make_room_bound [] = omega arith
make_room_bound (e ∷ c) = ground (arith, make_room_bound c)

-- The cache never holds more than its maximal number of entries after an insertion, whatever it
-- held before.
pub cache_permissions_bound :
    (now : ℕ) (user : Num) (value : UserPermissions) (c : Cache)
    → length (cache_permissions now user value c) ≤ permissions_cache_max_entries
unfolding cache_permissions
cache_permissions_bound now user value c = omega (
  arith,
  length-append {0} (make_room (delete_entry user (drop_expired now c)))
      ((user, record { value = value; expires_at = now + 300_000 }) ∷ []),
  make_room_bound (delete_entry user (drop_expired now c)),
)

-- Cutting entries never makes a key readable that was not.
get_entry-append :
    (u : Num) (c d : Cache) → get_entry u c ≡ none → get_entry u (c ++ d) ≡ get_entry u d
unfolding get_entry
get_entry-append u [] d h = refl
get_entry-append u ((v, e) ∷ c) d h = ground (arith, get_entry-append u c d)

make_room-absent : (u : Num) (c : Cache) → get_entry u c ≡ none → get_entry u (make_room c) ≡ none
unfolding make_room get_entry
make_room-absent u [] h = refl
make_room-absent u ((v, e) ∷ c) h = ground (arith, make_room-absent u c)

delete_entry-absent : (u : Num) (c : Cache) → get_entry u (delete_entry u c) ≡ none
unfolding delete_entry get_entry filter
delete_entry-absent u [] = refl
delete_entry-absent u ((v, e) ∷ c) = elim (Bool-cases (same_num u v)) [
  | inl it ↦ rw it (delete_entry-absent u c)
  | inr other ↦ rw other (rw other (delete_entry-absent u c))
]

-- What was just stored for a user is what a read finds, until its five minutes are over; after
-- that a read finds nothing.
pub get_entry-cache_permissions :
    (now later : ℕ) (user : Num) (value : UserPermissions) (c : Cache)
    → fresh_value later (get_entry user (cache_permissions now user value c))
      ≡ (if ltb later (now + 300_000) then some value else none)
unfolding cache_permissions fresh_value get_entry
get_entry-cache_permissions now later user value c =
    let kept = make_room (delete_entry user (drop_expired now c)) in
    let gone : get_entry user kept ≡ none =
      make_room-absent user (delete_entry user (drop_expired now c))
        (delete_entry-absent user (drop_expired now c)) in
    rw
      (get_entry-append user kept
        ((user, record { value = value; expires_at = now + 300_000 }) ∷ []) gone)
      (rw (same_num_refl user))
