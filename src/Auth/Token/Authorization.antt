-- ===== src/Auth/Token/Authorization.antt =====
-- Which bootstrap tokens are accepted (`assertBootstrapAllowed` of
-- src/auth/bootstrap-admin.service.ts).
use nocodb_middleware.Prelude.{
  ◌≡◌, ◌≢◌, ◌⊎◌, inl, inr, refl, ap, true, false, Option, none, some, [], ◌∷◌, Text, same, same_iff,
  length, ◌==◌, Bool-cases, arith,
}
use nocodb_middleware.Result.{Result, ok, err, forbidden, unauthorized}
use nocodb_middleware.Auth.Token.{utf8, is_set, bytes_of, assert_bootstrap_allowed}

-- Both tokens are there and are the same bytes.
pub Authorized : Option Text → Option Text → Type 0
Authorized configured provided =
    (c : Text) × (p : Text) × (configured ≡ some c)
    × (provided ≡ some p)
    × (c ≢ [])
    × (p ≢ [])
    × (utf8 p ≡ utf8 c)

unfoldable pub Refused : Option Text → Option Text → Result (Unit {0}) → Type 0
Refused configured provided r =
    (Authorized configured provided → ⊥) × ((r ≡ err forbidden) ⊎ (r ≡ err unauthorized))

unfoldable pub Decided : Option Text → Option Text → Result (Unit {0}) → Type 0
Decided configured provided r =
    (Authorized configured provided × (r ≡ ok tt)) ⊎ Refused configured provided r

other_bytes : (c p : Text) → same (utf8 p) (utf8 c) ≡ false → Authorized (some c) (some p) → ⊥
unfolding Authorized
other_bytes c p k (c', p', configured, provided, _, _, bytes) =
    let e : utf8 p ≡ utf8 c = cc in let equal = (same_iff (utf8 p) (utf8 c)).1 e in ground arith

pub assert_bootstrap_allowed-Decided :
    (configured provided : Option Text)
    → Decided configured provided (assert_bootstrap_allowed configured provided)
unfolding assert_bootstrap_allowed Decided Refused Authorized is_set bytes_of
assert_bootstrap_allowed-Decided none provided = inr (λ a. ground arith, inl refl)
assert_bootstrap_allowed-Decided (some []) provided = inr (λ a. ground arith, inl refl)
assert_bootstrap_allowed-Decided (some (c ∷ t)) none = inr (λ a. ground arith, inr refl)
assert_bootstrap_allowed-Decided (some (c ∷ t)) (some []) = inr (λ a. ground arith, inr refl)
assert_bootstrap_allowed-Decided (some (c ∷ t)) (some (d ∷ u)) =
    let given = utf8 (d ∷ u) in
    let expected = utf8 (c ∷ t) in
    elim (Bool-cases (same given expected)) [
      | inl k ↦
          let bytes : given ≡ expected = (same_iff given expected).0 k in
          let lengths : (length given == length expected) ≡ true =
            ground (arith, ap length bytes) in
          rw lengths
            (rw k (inl ((c ∷ t, d ∷ u, refl, refl, ground arith, ground arith, bytes), refl)))
      | inr k ↦ elim (Bool-cases (length given == length expected)) [
        | inl lengths ↦ rw lengths (rw k (inr (other_bytes (c ∷ t) (d ∷ u) k, inr refl)))
        | inr lengths ↦ rw lengths (inr (other_bytes (c ∷ t) (d ∷ u) k, inr refl))
      ]
    ]
