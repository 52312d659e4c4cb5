-- ===== src/Effects/Keeps.antt =====
-- What holds of the state before an action and behind it, whether the action returns or throws
-- (the sequencing of Effects.antt).
use nocodb_middleware.Prelude.{List, [], ◌∷◌, Bool, true, false, if◌then◌else◌}
use nocodb_middleware.Result.{Error, Result, ok, err}
use nocodb_middleware.Effects.{Exec, pure, go_on, catching, catch, traverse, ◌>>=◌}

abbrev pub Keeps {ℓ} : {S : Type 0} {A : Type ℓ} → (S → Type 0) → Exec S A → Type 0
Keeps I m = (s : _) → I s → I (m s).1

module _ {ℓ κ} {S : Type 0} {A : Type ℓ} {B : Type κ} (I : S → Type 0) where
  go_on-Keeps :
      (r : Result A) (f : A → Exec S B) (t : S)
      → I t
      → ((a : A) → Keeps I (f a))
      → I (go_on r f t).1
  go_on-Keeps (ok a) f t h k = k a t h
  go_on-Keeps (err e) f t h k = h

  pub >>=-Keeps :
      (m : Exec S A) (f : A → Exec S B) → Keeps I m → ((a : A) → Keeps I (f a)) → Keeps I (m >>= f)
  >>=-Keeps m f first next s h = go_on-Keeps (m s).0 f (m s).1 (first s h) next

module _ {ℓ} {S : Type 0} {A : Type ℓ} (I : S → Type 0) where
  catching-Keeps :
      (r : Result A) (handler : Error → Exec S A) (t : S)
      → I t
      → ((e : Error) → Keeps I (handler e))
      → I (catching r handler t).1
  catching-Keeps (ok a) handler t h k = h
  catching-Keeps (err e) handler t h k = k e t h

  pub catch-Keeps :
      (m : Exec S A) (handler : Error → Exec S A)
      → Keeps I m
      → ((e : Error) → Keeps I (handler e))
      → Keeps I (catch m handler)
  catch-Keeps m handler first next s h = catching-Keeps (m s).0 handler (m s).1 (first s h) next

  pub if-Keeps : (b : Bool) (m n : Exec S A) → Keeps I m → Keeps I n → Keeps I (if b then m else n)
  if-Keeps true m n first second = first
  if-Keeps false m n first second = second

pub traverse-Keeps {ℓ κ} :
    {S : Type 0} {A : Type ℓ} {B : Type κ} (I : S → Type 0) (f : A → Exec S B) (xs : List A)
    → ((a : A) → Keeps I (f a))
    → Keeps I (traverse f xs)
unfolding traverse
traverse-Keeps I f [] k = λ s h. h
traverse-Keeps {S} I f (x ∷ xs) k =
    >>=-Keeps I (f x) _ (k x) (λ y.
      >>=-Keeps I (traverse f xs) (λ ys. pure (y ∷ ys)) (traverse-Keeps I f xs k) (λ ys s h. h))
