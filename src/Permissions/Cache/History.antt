-- ===== src/Permissions/Cache/History.antt =====
-- The permission cache over its life (src/permissions/permissions.service.ts).
use nocodb_middleware.Prelude.{
  ℕ, ◌+◌, ◌≤◌, ◌<◌, ◌≡◌, refl, ap, sym, ◌∙◌, inl, inr, Bool, true, false, not, Option, none, some,
  List, [], ◌∷◌, ◌++◌, length, filter, All, ltb, leb, if◌then◌else◌, Bool-cases, arith,
}
use nocodb_middleware.Js.{Num, same_num, same_num_iff, same_num_refl, truthy_num}
use nocodb_middleware.Types.{UserPermissions}
use nocodb_middleware.Outside.{CachedPermissions}
use nocodb_middleware.Permissions.Cache.{
  Cache, get_entry, delete_entry, make_room, drop_expired, cache_permissions, fresh_value,
  clear_cache, permissions_cache_max_entries,
}
use nocodb_middleware.Permissions.Cache.Bounds.{cache_permissions_bound}

-- What happens to the cache: permissions that were loaded at a time are stored, or it is cleared.
pub data CacheEvent : Type 0 where
  stored : ℕ → Num → UserPermissions → CacheEvent
  cleared : Option Num → CacheEvent

-- One event after another, from the empty cache.
pub data Reachable : List CacheEvent → Cache → Type 0 where
  at_start : Reachable [] []
  after_store :
      (now : ℕ) (user : Num) (value : UserPermissions) {events : List CacheEvent} {c : Cache}
      → Reachable events c
      → Reachable (stored now user value ∷ events) (cache_permissions now user value c)
  after_clear :
      (user : Option Num) {events : List CacheEvent} {c : Cache}
      → Reachable events c
      → Reachable (cleared user ∷ events) (clear_cache user c)

-- The abstract view, a map of users without bounds: what was stored last for the user and when,
-- unless it was cleared since. The latest event comes first.
clears : Option Num → Num → Bool
clears none user = true
clears (some u) user = if truthy_num u then same_num u user else true

pub last_stored : List CacheEvent → Num → Option (ℕ × UserPermissions)
last_stored [] user = none
last_stored (stored now u value ∷ events) user =
    if same_num u user then some (now, value) else last_stored events user
last_stored (cleared u ∷ events) user = if clears u user then none else last_stored events user

-- An entry is the one of the abstract view.
Matches : List CacheEvent → Num × CachedPermissions → Type 0
Matches events e =
    (now : ℕ) × (last_stored events e.0 ≡ some (now, e.1.value)) × (e.1.expires_at ≡ now + 300_000)

All-filter {ℓ κ} :
    {A : Type ℓ} (P : A → Type κ) (q : A → Bool) (xs : List A)
    → All P xs
    → All (λ x. P x × (q x ≡ true)) (filter q xs)
unfolding filter
All-filter P q [] h = tt
All-filter P q (x ∷ xs) (h, k) = elim (Bool-cases (q x)) [
  | inl kept ↦ rw kept ((h, kept), All-filter P q xs k)
  | inr dropped ↦ rw dropped (All-filter P q xs k)
]

All-map {ℓ κ μ} :
    {A : Type ℓ} {P : A → Type κ} {Q : A → Type μ} (f : (x : A) → P x → Q x) (xs : List A)
    → All P xs
    → All Q xs
All-map f [] h = tt
All-map f (x ∷ xs) (h, k) = (f x h, All-map f xs k)

All-append {ℓ κ} :
    {A : Type ℓ} (P : A → Type κ) (xs : List A) (y : A) → All P xs → P y → All P (xs ++ (y ∷ []))
All-append P [] y h k = (k, tt)
All-append P (x ∷ xs) y (h, t) k = (h, All-append P xs y t k)

All-make_room {κ} :
    (P : Num × CachedPermissions → Type κ) (c : Cache) → All P c → All P (make_room c)
unfolding make_room
All-make_room P [] h = tt
All-make_room P (e ∷ c) (h, k) =
    elim (Bool-cases (leb permissions_cache_max_entries (length (e ∷ c)))) [
      | inl full ↦ rw full (All-make_room P c k)
      | inr room ↦ rw room (h, k)
    ]

-- Entries of other users stay justified by what was before a user's entries were deleted.
Matches-delete :
    (events : List CacheEvent) (event : CacheEvent) (user : Num) (c : Cache)
    → ((u : Num) → same_num user u ≡ false → last_stored (event ∷ events) u ≡ last_stored events u)
    → All (Matches events) c
    → All (Matches (event ∷ events)) (delete_entry user c)
unfolding delete_entry Matches
Matches-delete events event user c same h =
    All-map
      (λ e k.
        let ((now, last, expires), other) = k in (now, same e.0 (ground arith) ∙ last, expires))
      (delete_entry user c) (All-filter (Matches events) (λ e. not (same_num user e.0)) c h)

last_stored-other :
    (now : ℕ) (user : Num) (value : UserPermissions) (events : List CacheEvent) (u : Num)
    → same_num user u ≡ false
    → last_stored (stored now user value ∷ events) u ≡ last_stored events u
unfolding last_stored
last_stored-other now user value events u other = rw other refl

stored-justified :
    (now : ℕ) (user : Num) (value : UserPermissions) (events : List CacheEvent) (c : Cache)
    → All (Matches events) c
    → All (Matches (stored now user value ∷ events)) (cache_permissions now user value c)
unfolding cache_permissions drop_expired Matches last_stored
stored-justified now user value events c h =
    let event = stored now user value in
    let fresh = drop_expired now c in
    let fresh_ones : All (Matches events) fresh =
      All-map (λ e k. k.0) fresh (All-filter (Matches events) (λ e. ltb now e.1.expires_at) c h) in
    let others =
      Matches-delete events event user fresh (last_stored-other now user value events) fresh_ones in
    All-append (Matches (event ∷ events)) (make_room (delete_entry user fresh))
      (user, record { value = value; expires_at = now + 300_000 })
      (All-make_room (Matches (event ∷ events)) (delete_entry user fresh) others)
      (now, rw (same_num_refl user) refl, refl)

cleared-justified :
    (user : Option Num) (events : List CacheEvent) (c : Cache)
    → All (Matches events) c
    → All (Matches (cleared user ∷ events)) (clear_cache user c)
unfolding clear_cache last_stored clears
cleared-justified none events c h = tt
cleared-justified (some user) events c h = elim (Bool-cases (truthy_num user)) [
  | inl k ↦ rw k (
      Matches-delete events (cleared (some user)) user c (λ u other. rw (k, clears) (rw other refl))
        h)
  | inr k ↦ rw k tt
]

justified : {events : List CacheEvent} {c : Cache} → Reachable events c → All (Matches events) c
justified at_start = tt
justified (after_store now user value {events} {c} before) =
    stored-justified now user value events c (justified before)
justified (after_clear user {events} {c} before) =
    cleared-justified user events c (justified before)

length-filter {ℓ} : {A : Type ℓ} (q : A → Bool) (xs : List A) → length (filter q xs) ≤ length xs
unfolding filter
length-filter q [] = omega arith
length-filter q (x ∷ xs) = elim (Bool-cases (q x)) [
  | inl kept ↦ rw kept (omega (arith, length-filter q xs))
  | inr dropped ↦ rw dropped (omega (arith, length-filter q xs))
]

length-clear_cache : (user : Option Num) (c : Cache) → length (clear_cache user c) ≤ length c
unfolding clear_cache delete_entry
length-clear_cache none c = omega arith
length-clear_cache (some user) c = elim (Bool-cases (truthy_num user)) [
  | inl k ↦ rw k (length-filter _ c)
  | inr k ↦ rw k (omega arith)
]

-- However permissions were stored and cleared so far, the cache has at most its maximal number of
-- entries.
pub Reachable-bound :
    {events : List CacheEvent} {c : Cache}
    → Reachable events c
    → length c ≤ permissions_cache_max_entries
Reachable-bound at_start = omega arith
Reachable-bound (after_store now user value {events} {c} before) =
    cache_permissions_bound now user value c
Reachable-bound (after_clear user {events} {c} before) =
    let h = Reachable-bound before in let k = length-clear_cache user c in omega (arith, h, k)

get_entry-Matches :
    (events : List CacheEvent) (user : Num) (c : Cache) (e : CachedPermissions)
    → All (Matches events) c
    → get_entry user c ≡ some e
    → Matches events (user, e)
unfolding get_entry Matches
get_entry-Matches events user [] e h k = ground arith
get_entry-Matches events user ((u, d) ∷ c) e (m, h) k = elim (Bool-cases (same_num user u)) [
  | inl it ↦
      let found : d ≡ e = let e' = rw (it, get_entry) at k in cc in
      let (now, last, expires) = m in
      (
        now,
        ap (last_stored events) ((same_num_iff user u).0 it)
            ∙ last
            ∙ ap (λ x. some (now, x.value)) found,
        sym (ap (λ x. x.expires_at) found) ∙ expires,
      )
  | inr other ↦ get_entry-Matches events user c e h (rw (other, get_entry) at k)
]

fresh_value-some :
    (later : ℕ) (o : Option CachedPermissions) (value : UserPermissions)
    → fresh_value later o ≡ some value
    → (e : CachedPermissions) × (o ≡ some e) × (e.value ≡ value) × (later < e.expires_at)
unfolding fresh_value
fresh_value-some later none value h = ground arith
fresh_value-some later (some e) value h = elim (Bool-cases (ltb later e.expires_at)) [
  | inl k ↦ let e' = rw k at h in (e, refl, cc, ground arith)
  | inr k ↦ let e' = rw k at h in absurd (ground arith)
]

-- However permissions were stored and cleared so far, what a read finds is what the abstract map has
-- for the user: it was stored less than five minutes ago, and after that the user was neither stored
-- again nor cleared.
pub get_entry-Refines :
    {events : List CacheEvent} {c : Cache}
    → Reachable events c
    → (user : Num) (later : ℕ) (value : UserPermissions)
    → fresh_value later (get_entry user c) ≡ some value
    → (now : ℕ) × (last_stored events user ≡ some (now, value)) × (later < now + 300_000)
unfolding Matches
get_entry-Refines {events} {c} reached user later value h =
    let (e, found, same_value, fresh) = fresh_value-some later (get_entry user c) value h in
    let (now, last, expires) = get_entry-Matches events user c e (justified reached) found in
    (now, last ∙ ap (λ v. some (now, v)) same_value, rw (sym expires) fresh)
