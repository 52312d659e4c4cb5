-- ===== src/Effects.antt =====
-- Code that changes state and may throw. What was written before a throw stays written, so the
-- state comes back beside the error too. `await` is this sequencing: other requests that run
-- between two awaits are not part of an action.
pub mod Keeps
pub mod Never
pub mod Returns
use nocodb_middleware.Prelude.{◌≡◌, refl, Bool, true, false, List, [], ◌∷◌, arith}
use nocodb_middleware.Result.{Error, Result, ok, err, guard}

abbrev pub Exec {ℓ} : Type 0 → Type ℓ → Type ℓ
Exec S A = S → Result A × S

module _ {ℓ} {S : Type 0} {A : Type ℓ} where
  abbrev pub pure : A → Exec S A
  pure a s = (ok a, s)

  abbrev pub raise : Error → Exec S A
  raise e s = (err e, s)

  abbrev pub lift : Result A → Exec S A
  lift r s = (r, s)

module _ {ℓ κ} {S : Type 0} {A : Type ℓ} {B : Type κ} where
  abbrev pub go_on : Result A → (A → Exec S B) → Exec S B
  go_on (ok a) f s = f a s
  go_on (err e) f s = (err e, s)

  infixl 5 ◌>>=◌
  abbrev pub ◌>>=◌ : Exec S A → (A → Exec S B) → Exec S B
  ◌>>=◌ m f s = go_on (m s).0 f (m s).1

infixl 5 ◌>>◌
abbrev pub ◌>>◌ {ℓ} : {S : Type 0} {B : Type ℓ} → Exec S (Unit {0}) → Exec S B → Exec S B
m >> k = m >>= λ _. k

-- `try { m } catch (error) { handler }`
abbrev pub catching {ℓ} : {S : Type 0} {A : Type ℓ} → Result A → (Error → Exec S A) → Exec S A
catching (ok a) handler s = (ok a, s)
catching (err e) handler s = handler e s

abbrev pub catch {ℓ} : {S : Type 0} {A : Type ℓ} → Exec S A → (Error → Exec S A) → Exec S A
catch m handler s = catching (m s).0 handler (m s).1

-- `for (const x of list) await f(x)`, with the results in order.
unfoldable pub traverse {ℓ κ} :
    {S : Type 0} {A : Type ℓ} {B : Type κ} → (A → Exec S B) → List A → Exec S (List B)
traverse f [] = pure []
traverse f (x ∷ xs) = do y ← f x; ys ← traverse f xs; pure (y ∷ ys)

module _ {ℓ κ} {S : Type 0} {A : Type ℓ} {B : Type κ} where
  go_on-ok :
      (m : Result A × S) (f : A → Exec S B) {b : B} {s' : S}
      → go_on m.0 f m.1 ≡ (ok b, s')
      → (a : A) × (t : S) × (m ≡ (ok a, t)) × (f a t ≡ (ok b, s'))
  go_on-ok (ok a, t) f h = (a, t, refl, h)
  go_on-ok (err e, t) f h = ground arith

  -- Inversion of a bind that returned.
  pub >>=-ok :
      (m : Exec S A) (f : A → Exec S B) (s : S) {b : B} {s' : S}
      → (m >>= f) s ≡ (ok b, s')
      → (a : A) × (t : S) × (m s ≡ (ok a, t)) × (f a t ≡ (ok b, s'))
  >>=-ok m f s h = go_on-ok (m s) f h

-- What a handler that only throws lets through was returned by the action.
pub catching-ok {ℓ} :
    {S : Type 0} {A : Type ℓ} (m : Result A × S) (g : Error → Error) {a : A} {s' : S}
    → catching m.0 (λ e t. (err (g e), t)) m.1 ≡ (ok a, s')
    → m ≡ (ok a, s')
catching-ok (ok b, t) g h = h
catching-ok (err e, t) g h = ground arith

-- A check that let through was true, and changed nothing.
pub guard-ok :
    {S : Type 0} (b : Bool) (error : Error) (s : S) {made : Unit {0}} {t : S}
    → lift (guard b error) s ≡ (ok made, t)
    → (b ≡ true) × (s ≡ t)
guard-ok true error s h = (refl, cc)
guard-ok false error s h = absurd (ground arith)

pub lift-ok {ℓ} :
    {S : Type 0} {A : Type ℓ} (r : Result A) (s : S) {a : A} {t : S}
    → lift r s ≡ (ok a, t)
    → (r ≡ ok a) × (s ≡ t)
lift-ok (ok b) s h = (cc, cc)
lift-ok (err e) s h = absurd (ground arith)
