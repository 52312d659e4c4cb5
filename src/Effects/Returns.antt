-- ===== src/Effects/Returns.antt =====
-- What holds of every value that an action returns (the sequencing of Effects.antt).
use nocodb_middleware.Result.{Result, ok, err}
use nocodb_middleware.Effects.{Exec, go_on, ◌>>=◌}

abbrev pub OnOk {ℓ} : {A : Type ℓ} → (A → Type 0) → Result A → Type 0
OnOk Q (ok a) = Q a
OnOk Q (err e) = Unit

abbrev pub Returns {ℓ} : {S : Type 0} {A : Type ℓ} → (A → Type 0) → Exec S A → Type 0
Returns Q m = (s : _) → OnOk Q (m s).0

anything {ℓ} : {A : Type ℓ} (r : Result A) → OnOk (λ _. Unit) r
anything (ok a) = tt
anything (err e) = tt

module _ {ℓ κ} {S : Type 0} {A : Type ℓ} {B : Type κ} (Q : B → Type 0) where
  go_on-Returns :
      (R : A → Type 0) (r : Result A) (f : A → Exec S B) (s : S)
      → OnOk R r
      → ((a : A) → R a → Returns Q (f a))
      → OnOk Q (go_on r f s).0
  go_on-Returns R (ok a) f s h k = k a h s
  go_on-Returns R (err e) f s h k = tt

  -- The rest may use what is known of the first result.
  pub >>=-Returns :
      (R : A → Type 0) (m : Exec S A) (f : A → Exec S B)
      → Returns R m
      → ((a : A) → R a → Returns Q (f a))
      → Returns Q (m >>= f)
  >>=-Returns R m f first next s = go_on-Returns R (m s).0 f (m s).1 (first s) next

  pub then-Returns :
      (m : Exec S A) (f : A → Exec S B) → ((a : A) → Returns Q (f a)) → Returns Q (m >>= f)
  then-Returns m f next = >>=-Returns (λ _. Unit) m f (λ s. anything (m s).0) (λ a _. next a)
