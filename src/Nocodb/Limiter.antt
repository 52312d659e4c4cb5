-- ===== src/Nocodb/Limiter.antt =====
-- The pace of requests under `enforceRateLimit` (src/nocodb/nocodb.service.ts).
use native.Mathlib.Nat.{zero-add, suc-add}
use nocodb_middleware.Prelude.{
  ℕ, zero, suc, ◌+◌, ◌-◌, ◌*◌, ◌≤◌, ◌≡◌, max, Option, none, some, List, [], ◌∷◌, ◌==◌, inl, inr,
  Bool-cases, arith,
}
use nocodb_middleware.Outside.{Outside, App}
use nocodb_middleware.Nocodb.Requests.{next_slot, wait, date_now, take_slot, enforce_rate_limit}

module _ {ℓ} {A : Type ℓ} where
  abbrev pub get_elem? : List A → ℕ → Option A
  get_elem? [] i = none
  get_elem? (x ∷ xs) zero = some x
  get_elem? (x ∷ xs) (suc i) = get_elem? xs i

-- The clock does not run backwards between two looks at it, and shows the time waited behind a
-- timer.
pub record IsTimed (out : Outside) : Type 0 where
  pub onward :
      (w : Outside.World out) → (Outside.now out w).0 ≤ (Outside.now out (Outside.now out w).1).0
  pub waits :
      (d : ℕ) (w : Outside.World out)
      → (Outside.now out w).0 + d ≤ (Outside.now out (Outside.sleep out d w)).0

module _ (out : Outside) where
  open out use {World, now}

  -- What the clock shows.
  abbrev pub clock : App World → ℕ
  clock s = (now s.world).0

  -- What the clock shows when `enforceRateLimit` is called and when it lets the request go, of one
  -- request after each of the given changes of the world.
  unfoldable pub passages : List (World → World) → App World → List (ℕ × ℕ)
  passages [] s = []
  passages (change ∷ changes) s =
      let t = record s { world = change s.world } in
      let t' = (enforce_rate_limit out t).1 in (clock t, clock t') ∷ passages changes t'

  wait-next_allowed_time :
      (d : ℕ) (s : App World) → (wait out d s).next_allowed_time ≡ s.next_allowed_time
  unfolding wait
  wait-next_allowed_time d s = elim (Bool-cases (d == 0)) [
    | inl none_left ↦ rw none_left
    | inr some_left ↦ rw some_left
  ]

  -- The first slot that is free behind the call.
  next_allowed_after :
      (s : App World)
      → (enforce_rate_limit out s).1.next_allowed_time ≡ max (clock s) s.next_allowed_time + 200
  unfolding enforce_rate_limit next_slot
  next_allowed_after s = wait-next_allowed_time _ _

  module _ (timed : IsTimed out) where
    waited : (d : ℕ) (s : App World) → (now s.world).0 + d ≤ clock (wait out d s)
    unfolding wait
    waited d s = elim (Bool-cases (d == 0)) [
      | inl none_left ↦ let e : d ≡ 0 = ground arith in rw none_left (omega arith)
      | inr some_left ↦ rw some_left (timed.waits d s.world)
    ]

    -- No request goes before its slot.
    released :
        (s : App World) → max (clock s) s.next_allowed_time ≤ clock (enforce_rate_limit out s).1
    unfolding enforce_rate_limit date_now take_slot next_slot
    released s =
        let slot = max (clock s) s.next_allowed_time in
        let later : App World = record s {
          world = (now s.world).1;
          next_allowed_time = slot + 200;
        } in
        omega (arith, timed.onward s.world, waited (slot - clock s) later)

    later_release :
        (changes : List (World → World)) (s : App World) (k : ℕ) {p : ℕ × ℕ}
        → get_elem? (passages changes s) k ≡ some p
        → s.next_allowed_time + 200 * k ≤ p.1
    unfolding passages
    later_release [] s k h = cc
    later_release (c ∷ cs) s zero h = ground (arith, released (record s { world = c s.world }))
    later_release (c ∷ cs) s (suc k) h =
        let t : App World = record s { world = c s.world } in
        omega (arith, next_allowed_after t, later_release cs (enforce_rate_limit out t).1 k h)

    from_first :
        (c : World → World) (cs : List (World → World)) (s : App World) (k : ℕ) {p q : ℕ × ℕ}
        → get_elem? (passages (c ∷ cs) s) 0 ≡ some p
        → get_elem? (passages (c ∷ cs) s) k ≡ some q
        → p.0 + 200 * k ≤ q.1
    unfolding passages
    from_first c cs s zero hp hq = ground (arith, released (record s { world = c s.world }))
    from_first c cs s (suc k) {p} {q} hp hq =
        let t : App World = record s { world = c s.world } in
        let called : clock t ≡ p.0 = ground arith in
        omega
          (arith, next_allowed_after t, later_release cs (enforce_rate_limit out t).1 k hq, called)

    -- Of any sequence of requests, however the world changes between them, the one `k` places
    -- behind another is let go when the clock shows at least 200 ms for each of the `k` steps more
    -- than when the rate limit was asked for the first of the two, provided that the clock does not
    -- run backwards while the limit looks at it and shows the time waited behind a timer.
    pub releases_spaced :
        (changes : List (World → World)) (s : App World) (i k : ℕ) {p q : ℕ × ℕ}
        → get_elem? (passages changes s) i ≡ some p
        → get_elem? (passages changes s) (i + k) ≡ some q
        → p.0 + 200 * k ≤ q.1
    unfolding passages
    releases_spaced [] s i k hp hq = cc
    releases_spaced (c ∷ cs) s zero k hp hq = from_first c cs s k hp (rw zero-add at hq)
    releases_spaced (c ∷ cs) s (suc i) k hp hq =
        releases_spaced cs (enforce_rate_limit out (record s { world = c s.world })).1 i k hp
          (rw suc-add at hq)
