-- ===== src/Client/Tui/PassGen/Preview.antt =====
-- internal/client/tui/passgen.go: the preview of a password.
use go_yandex_gophkeeper.Base.{
  ℕ, List, zero, suc, ◌≤◌, ◌≡◌, arith, Bool-cases, inl, inr, ok, length, refl, [], Option, some,
  none, err, Result,
}
use go_yandex_gophkeeper.Base.Int.{pos}
use go_yandex_gophkeeper.Crypto.Charset.{PasswordOpts, charset, contains}
use go_yandex_gophkeeper.Crypto.Generate.{Rand, GenError, generate_password}
use go_yandex_gophkeeper.Crypto.Coverage.{Bounded, count}
use go_yandex_gophkeeper.Crypto.Returns.{Draws, generate_password-returns}
use go_yandex_gophkeeper.Crypto.Passwords.{generate_password-eq-ok}
use go_yandex_gophkeeper.Client.Tui.Model.{PassGenState, password}
use go_yandex_gophkeeper.Client.Tui.Panic.{Returns}
use go_yandex_gophkeeper.Client.Tui.PassGen.{
  or_error, generation_error_text, sync_rounds, new_pass_gen_state, previewed, initial, rounds,
  refresh_cmd, meets_minimums, password_opts,
}
use go_yandex_gophkeeper.Client.Tui.PassGen.Bounds.{InRange}

-- A password of n characters, all from the set of the options.
pub record Fits (o : PasswordOpts) (n : ℕ) (pw : List ℕ) : Type 0 where
  pub long : length pw ≡ n
  pub drawn : count (contains (charset o)) pw ≡ n

module _ ⦃rand : Rand⦄ (draws : Draws rand) (law : Bounded rand) where
  generated :
      (o : PasswordOpts) (n k : ℕ)
      → o.length ≡ pos n
      → 4 ≤ n
      → (pw : List ℕ) × ((generate_password o k).0 ≡ ok pw) × Fits o n pw
  generated o n k at h =
      let (pw, e) = generate_password-returns draws o n k at h in
      let facts = generate_password-eq-ok law o k e in
      let l : length pw ≡ n = ground (arith, facts.0) in
      (pw, e, record { long = l; drawn = omega (arith, facts.2, l) })

  rounds-Fits :
      (m : ℕ) (o : PasswordOpts) (n d s : ℕ) (pw : List ℕ) (k : ℕ)
      → o.length ≡ pos n
      → 4 ≤ n
      → Fits o n pw
      → Returns (Fits o n) (rounds m o d s pw k).0
  unfolding rounds
  rounds-Fits zero o n d s pw k at h f = f
  rounds-Fits (suc m) o n d s pw k at h f =
      let (new, e, g) = generated o n k at h in
      elim (Bool-cases (meets_minimums new d s)) [
        | inl b ↦ rw (e, rounds) (rw b g)
        | inr b ↦ rw (e, rounds) (rw b (rounds-Fits m o n d s new (generate_password o k).1 at h g))
      ]

  first_round :
      (m : ℕ) (o : PasswordOpts) (n d s k : ℕ) (pw : List ℕ)
      → o.length ≡ pos n
      → 4 ≤ n
      → Returns (Fits o n) (rounds (suc m) o d s pw k).0
  unfolding rounds
  first_round m o n d s k pw at h =
      let (new, e, g) = generated o n k at h in
      elim (Bool-cases (meets_minimums new d s)) [
        | inl b ↦ rw (e, rounds) (rw b g)
        | inr b ↦ rw (e, rounds) (rw b (rounds-Fits m o n d s new (generate_password o k).1 at h g))
      ]

  -- Where crypto/rand draws, the preview of a password with settings in range is made, and has the
  -- length that is set, and its characters are all from the set of the options.
  pub refresh_cmd-password :
      (s : PassGenState) (k : ℕ)
      → s.tab ≡ password
      → InRange s
      → Returns (Fits (password_opts s) s.length) (refresh_cmd s k).0
  unfolding refresh_cmd
  refresh_cmd-password s k at r =
      rw (at, refresh_cmd)
        (first_round 29 (password_opts s) s.length s.min_digits s.min_symbols k [] refl r.long)

or_error-ok :
    (text : List ℕ) (r : Result GenError (List ℕ) × ℕ) {pw : List ℕ}
    → r.0 ≡ ok pw
    → (or_error text r).0 ≡ some pw
or_error-ok text (err e, k) h = absurd (cc)
or_error-ok text (ok p, k) h = cc

previewed-returns :
    (s : PassGenState) (o : Option (List ℕ)) {pw : List ℕ}
    → o ≡ some pw
    → (t : PassGenState) × (previewed s o ≡ some t)
previewed-returns s none h = absurd (cc)
previewed-returns s (some p) h = (record s { preview = p }, refl)

module _ ⦃rand : Rand⦄ (draws : Draws rand) where
  sync_rounds-returns :
      (m : ℕ) (o : PasswordOpts) (n d s k : ℕ)
      → o.length ≡ pos n
      → 4 ≤ n
      → (pw : List ℕ) × ((sync_rounds m o d s k).0 ≡ some pw)
  unfolding sync_rounds
  sync_rounds-returns zero o n d s k at h =
      let (pw, e) = generate_password-returns draws o n k at h in
      (pw, or_error-ok generation_error_text (generate_password o k) e)
  sync_rounds-returns (suc m) o n d s k at h =
      let (new, e) = generate_password-returns draws o n k at h in
      elim (Bool-cases (meets_minimums new d s)) [
        | inl b ↦ (new, rw (e, sync_rounds) (rw b refl))
        | inr b ↦
            let (pw, f) = sync_rounds-returns m o n d s (generate_password o k).1 at h in
            (pw, rw (e, sync_rounds) (rw b f))
      ]

  -- Where crypto/rand draws, the generator opens.
  pub new_pass_gen_state-returns :
      (target : Option ℕ) (k : ℕ) → (s : PassGenState) × ((new_pass_gen_state target k).0 ≡ some s)
  unfolding new_pass_gen_state
  new_pass_gen_state-returns target k =
      let (pw, e) =
        sync_rounds-returns 30 (password_opts (initial target)) 20 1 1 k refl (omega arith) in
      previewed-returns (initial target) _ e
