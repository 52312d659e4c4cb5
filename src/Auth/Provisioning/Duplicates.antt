-- ===== src/Auth/Provisioning/Duplicates.antt =====
-- When an account is made (src/auth/user-provisioning.service.ts).
use nocodb_middleware.Prelude.{
  ◌≡◌, refl, ap, ◌∙◌, ◌⊎◌, inl, inr, Bool, true, false, Option, none, some, List, Text,
}
use nocodb_middleware.Result.{Result, ok, err}
use nocodb_middleware.Effects.{Exec, go_on, ◌>>=◌}
use nocodb_middleware.Effects.Keeps.{Keeps, >>=-Keeps}
use nocodb_middleware.Types.{NocoRecord, users}
use nocodb_middleware.Outside.{Outside, App, Method}
use nocodb_middleware.Nocodb.Records
use nocodb_middleware.Nocodb.Reading.{KeptBy, Holds, update-Keeps}
use nocodb_middleware.Auth.{IdentityClaims}
use nocodb_middleware.Auth.Users.{id_of, required_table}
use nocodb_middleware.Auth.Users.Lookups.{id_of-Keeps, required_table-Keeps, find_by_both-Keeps}
use nocodb_middleware.Auth.Provisioning.{
  to_resolved_identity, find_by_subject, find_by_email, check_mapping, change_user, save_identity,
  upsert_identity_user,
}
use nocodb_middleware.Auth.Provisioning.Conflicts.{find_by_email-Keeps, check_mapping-Keeps}

-- Only `GET` and `PATCH`, which make no record.
unfoldable pub makes_none : Method → Bool
makes_none Method.get = true
makes_none Method.patch = true
makes_none _ = false

-- In the run of `upsertIdentityUser` from `s` both lookups returned no one.
pub Unknown : (out : Outside) → IdentityClaims → App (Outside.World out) → Type 0
Unknown out claims s =
    (table_id : Text) × (s₁ : App out.World) × (s₂ : App out.World) × (s₃ : App out.World)
    × (required_table out users s ≡ (ok table_id, s₁))
    × (find_by_subject out table_id claims s₁ ≡ (ok none, s₂))
    × (find_by_email out table_id claims.email s₂ ≡ (ok none, s₃))

module _ (out : Outside) (P : Outside.World out → Type 0) (kept : KeptBy out makes_none P) where
  open out use {World}

  change_user-Keeps :
      (table_id : Text) (r fields : NocoRecord) (names : List Text)
      → Keeps (Holds out P) (change_user out table_id r fields names)
  unfolding change_user to_resolved_identity makes_none
  change_user-Keeps table_id r fields names =
      >>=-Keeps (Holds out P) (id_of out r) _ (id_of-Keeps out (Holds out P) r) (λ id.
        >>=-Keeps (Holds out P) (Records.update out table_id id fields) _
          (update-Keeps out makes_none P kept refl table_id id fields)
          (λ updated.
            >>=-Keeps (Holds out P) (id_of out updated) _ (id_of-Keeps out (Holds out P) updated)
              (λ _ s h. h)))

  -- A failed first step leaves what it kept; otherwise the rest decides.
  module _ {A B E : Type 0} (f : A → Exec (App World) B) where
    step_from :
        (m : Result A × App World)
        → Holds out P m.1
        → ((a : A) (t : App World) → m ≡ (ok a, t) → Holds out P t → Holds out P (f a t).1 ⊎ E)
        → Holds out P (go_on m.0 f m.1).1 ⊎ E
    step_from (ok a, t) h next = next a t refl h
    step_from (err e, t) h next = inl h

    step :
        (m : Exec (App World) A) (s : App World)
        → Holds out P s
        → Keeps (Holds out P) m
        → ((a : A) (t : App World) → m s ≡ (ok a, t) → Holds out P t → Holds out P (f a t).1 ⊎ E)
        → Holds out P ((m >>= f) s).1 ⊎ E
    step m s h first next = step_from (m s) (first s h) next

  save_identity-kept :
      (table_id : Text) (claims : IdentityClaims) (by_subject by_email : Option NocoRecord)
      (s : App World)
      → Holds out P s
      → Holds out P (save_identity out table_id claims by_subject by_email s).1
        ⊎ ((by_subject ≡ none) × (by_email ≡ none))
  unfolding save_identity
  save_identity-kept table_id claims (some r) by_email s h =
      inl (change_user-Keeps table_id r _ claims.roles s h)
  save_identity-kept table_id claims none (some r) s h =
      inl (change_user-Keeps table_id r _ claims.roles s h)
  save_identity-kept table_id claims none none s h = inr (refl, refl)

  -- Unless neither the subject nor the email of the claims finds an account, no record is made:
  -- what holds of the world and is kept by reads, changes of records, the clock and timers still
  -- holds behind `upsertIdentityUser`, however it ends.
  pub upsert_identity_user-makes_none :
      (claims : IdentityClaims) (s : App World)
      → P s.world
      → P (upsert_identity_user out claims s).1.world ⊎ Unknown out claims s
  unfolding upsert_identity_user find_by_subject Unknown makes_none
  upsert_identity_user-makes_none claims s h =
      step _ (required_table out users) s h (required_table-Keeps out makes_none P kept refl users)
        (λ table_id s₁ e₁ h₁.
          step _ (find_by_subject out table_id claims) s₁ h₁
            (find_by_both-Keeps out makes_none P kept refl table_id _ _ _ _)
            (λ by_subject s₂ e₂ h₂.
              step _ (find_by_email out table_id claims.email) s₂ h₂
                (find_by_email-Keeps out makes_none P kept refl table_id claims.email)
                (λ by_email s₃ e₃ h₃.
                  step _ (check_mapping out by_subject by_email) s₃ h₃
                    (check_mapping-Keeps out makes_none P kept refl by_subject by_email)
                    (λ _ s₄ e₄ h₄.
                      elim (save_identity-kept table_id claims by_subject by_email s₄ h₄) [
                        | inl k ↦ inl k
                        | inr (a, b) ↦ inr (
                          table_id,
                          s₁,
                          s₂,
                          s₃,
                          e₁,
                          e₂ ∙ ap (λ o. (ok o, s₂)) a,
                          e₃ ∙ ap (λ o. (ok o, s₃)) b,
                        )
                      ]))))
