-- ===== src/Base/Keeps.antt =====
-- Invariants of actions: one rule for each way to build an action.
use mathlib.Core.Bool.{Bool, true, false}
use go_yandex_gophkeeper.Base.Tests.{if◌then◌else◌}
use go_yandex_gophkeeper.Base.Monad.{Exec, Result, ok, err, pure, raise, gets, lift, attempt, ◌>>=◌}

-- `m` keeps `P`, whether it returns or fails.
pub record Keeps {ℓ κ} {S E A : Type ℓ} (P : S → Type κ) (m : Exec S E A) : Type (ℓ ⊔ κ) where
  pub at : (s : S) → P s → P (m s).1

module _ {ℓ κ} {S E A : Type ℓ} {P : S → Type κ} where
  pub Keeps-pure : (a : A) → Keeps P (pure {E = E} a)
  Keeps-pure a = record { at = λ s h. h }

  pub Keeps-raise : (e : E) → Keeps P (raise {A = A} e)
  Keeps-raise e = record { at = λ s h. h }

  pub Keeps-gets : (f : S → A) → Keeps P (gets {E = E} f)
  Keeps-gets f = record { at = λ s h. h }

  pub Keeps-if :
      (b : Bool) (m n : Exec S E A) → Keeps P m → Keeps P n → Keeps P (if b then m else n)
  Keeps-if true m n km kn = km
  Keeps-if false m n km kn = kn

module _ {ℓ κ} {S E F A B : Type ℓ} {P : S → Type κ} where
  pub Keeps-attempt :
      (m : Exec S E A) (k : Result E A → Exec S F B)
      → Keeps P m
      → ((r : Result E A) → Keeps P (k r))
      → Keeps P (attempt m k)
  Keeps-attempt m k km kk = record { at = λ s h. (kk (m s).0).at (m s).1 (km.at s h) }

module _ {ℓ κ} {S E A B : Type ℓ} {P : S → Type κ} where
  Keeps-continue :
      (r : Result E A) (s : S) (f : A → Exec S E B)
      → P s
      → ((a : A) → Keeps P (f a))
      → P ((lift r >>= f) s).1
  Keeps-continue (ok a) s f h kf = (kf a).at s h
  Keeps-continue (err e) s f h kf = h

  pub Keeps-bind :
      (m : Exec S E A) (f : A → Exec S E B)
      → Keeps P m
      → ((a : A) → Keeps P (f a))
      → Keeps P (m >>= f)
  Keeps-bind m f km kf = record { at = λ s h. Keeps-continue (m s).0 (m s).1 f (km.at s h) kf }

pub ruleset keeps_rules = (Keeps-pure, Keeps-raise, Keeps-gets, Keeps-if, Keeps-attempt, Keeps-bind)
