-- ===== src/Base/Monad.antt =====
-- Go's `(value, error)` results, and code that changes a state and may return an error. What was
-- written before an error stays written, so the state comes back beside the error too.
use mathlib.Core.Path.{◌≡◌, refl, ap}

pub data Result {ℓ} (E A : Type ℓ) : Type ℓ where
  ok : A → Result E A
  err : E → Result E A

abbrev pub Exec {ℓ} : Type ℓ → Type ℓ → Type ℓ → Type ℓ
Exec S E A = S → Result E A × S

module _ {ℓ} {S E A : Type ℓ} where
  abbrev pub pure : A → Exec S E A
  pure a s = (ok a, s)

  abbrev pub raise : E → Exec S E A
  raise e s = (err e, s)

  abbrev pub lift : Result E A → Exec S E A
  lift r s = (r, s)

  abbrev pub gets : (S → A) → Exec S E A
  gets f s = (ok (f s), s)

module _ {ℓ} {S E A B : Type ℓ} where
  abbrev continue : (A → Exec S E B) → Result E A × S → Result E B × S
  continue f (ok a, s) = f a s
  continue f (err e, s) = (err e, s)

  infixl 10 ◌>>=◌ ◌>>◌
  -- `x, err := m; if err != nil { return err }; f(x)`
  abbrev pub ◌>>=◌ : Exec S E A → (A → Exec S E B) → Exec S E B
  ◌>>=◌ m f s = continue f (m s)

  abbrev pub ◌>>◌ : Exec S E A → Exec S E B → Exec S E B
  m >> n = m >>= λ _. n

-- `x, err := m`, with the error inspected by what follows.
abbrev pub attempt {ℓ} : {S E F A B : Type ℓ} → Exec S E A → (Result E A → Exec S F B) → Exec S F B
attempt m k s = let (r, s') = m s in k r s'

-- A bind whose first part is known.
module _ {ℓ} {S E A B : Type ℓ} (m : Exec S E A) (f : A → Exec S E B) {s s' : S} where
  pub bind-ok : {a : A} → m s ≡ (ok a, s') → (m >>= f) s ≡ f a s'
  bind-ok h = ap (continue f) h

  pub bind-err : {e : E} → m s ≡ (err e, s') → (m >>= f) s ≡ (err e, s')
  bind-err h = ap (continue f) h

-- Inversion of a bind that has succeeded.
module _ {ℓ} {S E A B : Type ℓ} (f : A → Exec S E B) where
  continue-eq-ok :
      (p : Result E A × S) {b : B}
      → (continue f p).0 ≡ ok b
      → (a : A) × (s' : S) × (p ≡ (ok a, s')) × ((f a s').0 ≡ ok b)
  continue-eq-ok (ok a, s') h = (a, s', refl, h)
  continue-eq-ok (err e, s') h = cc

module _ {ℓ} {S E A B : Type ℓ} (m : Exec S E A) (f : A → Exec S E B) (s : S) {b : B} where
  pub bind-eq-ok :
      ((m >>= f) s).0 ≡ ok b → (a : A) × (s' : S) × (m s ≡ (ok a, s')) × ((f a s').0 ≡ ok b)
  bind-eq-ok h = continue-eq-ok f (m s) h
