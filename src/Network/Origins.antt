-- ===== src/Network/Origins.antt =====
-- Origins in production (src/config/cors.config.ts).
use nocodb_middleware.Prelude.{
  ◌≡◌, ◌≢◌, ◌↔◌, ◌⊎◌, refl, inl, inr, Bool, true, false, Option, List, [], ◌∷◌, Text, codes, same,
  same_iff, All, Bool-cases, arith,
}
use nocodb_middleware.Result.{ok}
use nocodb_middleware.Network.{
  is_wildcard, origin_errors, has_error, cors_origins, parse_and_validate_cors_origins,
  log_cors_warnings,
}

origin_errors_iff :
    (os : List Text) → (has_error (origin_errors true os) ≡ false) ↔ All (λ o. o ≢ codes "*") os
unfolding origin_errors has_error is_wildcard
origin_errors_iff [] = ground arith
origin_errors_iff (o ∷ os) = elim (Bool-cases (same o (codes "*"))) [
  | inl k ↦
      let same_text = (same_iff o (codes "*")).0 k in
      rw k (λ h. ground arith, λ h. absurd (h.0 same_text))
  | inr k ↦
      let other : o ≢ codes "*" = λ e. let k' = (same_iff o (codes "*")).1 e in ground arith in
      let rest = origin_errors_iff os in rw k (λ h. (other, rest.0 h), λ h. rest.1 h.1)
]

origin_errors-development : (os : List Text) → origin_errors false os ≡ []
unfolding origin_errors
origin_errors-development [] = refl
origin_errors-development (o ∷ os) = elim (Bool-cases (is_wildcard o)) [
  | inl k ↦ rw k (origin_errors-development os)
  | inr k ↦ rw k (origin_errors-development os)
]

-- The start of the application is let through by the check of the CORS origins exactly when it does
-- not run in production, or none of the configured origins is the wildcard.
pub log_cors_warnings_iff :
    (raw : Option Text) (production : Bool)
    → (log_cors_warnings (parse_and_validate_cors_origins raw production) production ≡ ok tt)
      ↔ ((production ≡ false) ⊎ All (λ o. o ≢ codes "*") (cors_origins raw))
unfolding log_cors_warnings has_error parse_and_validate_cors_origins
log_cors_warnings_iff raw false =
    (λ h. inl refl, λ h. rw (origin_errors-development (cors_origins raw)) refl)
log_cors_warnings_iff raw true =
    elim (Bool-cases (has_error (origin_errors true (cors_origins raw)))) [
      | inl k ↦ rw k (
        λ h. absurd (ground arith),
        λ h. absurd (ground (arith, k, (origin_errors_iff (cors_origins raw)).1)),
      )
      | inr k ↦ rw k (λ h. inr ((origin_errors_iff (cors_origins raw)).0 k), λ h. refl)
    ]
