-- ===== src/Effects/Never.antt =====
-- Actions that never throw a given error, and actions that keep a property of the state when they
-- throw it (the sequencing of Effects.antt).
use nocodb_middleware.Prelude.{◌≡◌, ◌≢◌, refl, Bool, true, false, arith, if◌then◌else◌}
use nocodb_middleware.Result.{Error, Result, ok, err}
use nocodb_middleware.Effects.{Exec, pure, go_on, catching, catch, ◌>>=◌}
use nocodb_middleware.Effects.Keeps.{Keeps}

abbrev pub Never {ℓ} : {S : Type 0} {A : Type ℓ} → Error → Exec S A → Type ℓ
Never e m = (s : _) → (m s).0 ≢ err e

-- If the action throws the error, then what held before holds behind it.
abbrev pub Refuses {ℓ} : {S : Type 0} {A : Type ℓ} → Error → (S → Type 0) → Exec S A → Type ℓ
Refuses e I m = (s : _) → I s → (m s).0 ≡ err e → I (m s).1

module _ {ℓ} {S : Type 0} {A : Type ℓ} (e : Error) where
  pub pure-Never : (a : A) → Never {S = S} e (pure a)
  pure-Never a s h = ground arith

  pub if-Never : (b : Bool) (m n : Exec S A) → Never e m → Never e n → Never e (if b then m else n)
  if-Never true m n first second = first
  if-Never false m n first second = second

  catching-Never :
      (r : Result A) (handler : Error → Exec S A) (t : S)
      → ((e' : Error) → r ≡ err e' → (handler e' t).0 ≢ err e)
      → (catching r handler t).0 ≢ err e
  catching-Never (ok a) handler t h thrown = ground arith
  catching-Never (err e') handler t h thrown = h e' refl thrown

  -- The handler sees only what the action throws.
  pub catch-Never :
      (m : Exec S A) (handler : Error → Exec S A)
      → ((s t : S) (e' : Error) → (m s).0 ≡ err e' → (handler e' t).0 ≢ err e)
      → Never e (catch m handler)
  catch-Never m handler h s = catching-Never (m s).0 handler (m s).1 (λ e' k. h s (m s).1 e' k)

module _ {ℓ κ} {S : Type 0} {A : Type ℓ} {B : Type κ} (e : Error) where
  go_on-Never :
      (r : Result A) (f : A → Exec S B) (t : S)
      → r ≢ err e
      → ((a : A) → Never e (f a))
      → (go_on r f t).0 ≢ err e
  go_on-Never (ok a) f t h k = k a t
  go_on-Never (err e') f t h k = λ thrown. h (ground arith)

  pub >>=-Never :
      (m : Exec S A) (f : A → Exec S B) → Never e m → ((a : A) → Never e (f a)) → Never e (m >>= f)
  >>=-Never m f first next s = go_on-Never (m s).0 f (m s).1 (first s) next

  go_on-Refuses :
      (I : S → Type 0) (r : Result A) (f : A → Exec S B) (t : S)
      → I t
      → ((a : A) → Refuses e I (f a))
      → (go_on r f t).0 ≡ err e
      → I (go_on r f t).1
  go_on-Refuses I (ok a) f t h k = k a t h
  go_on-Refuses I (err e') f t h k = λ thrown. h

  -- What only keeps the property, before what refuses.
  pub >>=-Refuses :
      (I : S → Type 0) (m : Exec S A) (f : A → Exec S B)
      → Keeps I m
      → ((a : A) → Refuses e I (f a))
      → Refuses e I (m >>= f)
  >>=-Refuses I m f first next s h = go_on-Refuses I (m s).0 f (m s).1 (first s h) next
