-- ===== src/Client/Tui/Panic.antt =====
-- Code that can panic, as an index out of range does: `none` is the panic.
use go_yandex_gophkeeper.Base.{
  ℕ, List, Option, none, some, get_elem?, set, Bool, if◌then◌else◌, true, false,
}

infixl 5 ◌>>=◌ ◌>>◌
abbrev pub ◌>>=◌ {ℓ κ} : {A : Type ℓ} {B : Type κ} → Option A → (A → Option B) → Option B
none >>= f = none
some a >>= f = f a

abbrev pub ◌>>◌ {ℓ κ} : {A : Type ℓ} {B : Type κ} → Option A → Option B → Option B
m >> k = m >>= λ _. k

-- The property holds of what is returned, and something is returned.
abbrev pub Returns {ℓ} : {A : Type ℓ} → (A → Type 0) → Option A → Type 0
Returns P none = ⊥
Returns P (some a) = P a

-- `xs[i] = f(xs[i])`
abbrev pub changed {ℓ} : {A : Type ℓ} → List A → ℕ → (A → A) → Option A → Option (List A)
changed xs i f none = none
changed xs i f (some a) = some (set xs i (f a))

abbrev pub change_at {ℓ} : {A : Type ℓ} → ℕ → (A → A) → List A → Option (List A)
change_at i f xs = changed xs i f (get_elem? xs i)

module _ {ℓ} {A : Type ℓ} (P : A → Type 0) where
  -- Both branches of a test.
  pub if_Returns :
      (b : Bool) (x y : Option A) → Returns P x → Returns P y → Returns P (if b then x else y)
  if_Returns true x y p q = p
  if_Returns false x y p q = q

  -- Both branches of a test, for code that cannot panic.
  pub if_holds : (b : Bool) (x y : A) → P x → P y → P (if b then x else y)
  if_holds true x y p q = p
  if_holds false x y p q = q
