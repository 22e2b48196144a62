-- ===== src/Client/Tui/Auth/Forms.antt =====
-- The form that is open fits the step: a key then never reaches past the fields.
use go_yandex_gophkeeper.Base.{
  String, List, [], ◌∷◌, ℕ, zero, suc, ◌+◌, ◌-◌, ◌%◌, ◌≤◌, ◌<◌, ◌≡◌, some, length, set, get_elem?,
  map, refl, arith, false, ◌==◌, if◌then◌else◌, ltb, Bool-cases, inl, inr,
}
use native.Mathlib.Nat.{mod-lt}
use go_yandex_gophkeeper.Client.Tui.Panic.{Returns, if_Returns, change_at, if_holds}
use go_yandex_gophkeeper.Client.Tui.Auth.Model.{
  Msg, Step, server, menu, login, register, loading, mfa, key, Widgets, AuthModel, handle_form_key,
  refocus, submit_form, Cmd, next_field, prev_field, quiet, type_into, back_to_menu, submit_login,
  handle_server_key, handle_menu_key, submitted, checked_register, handle_mfa_key, submit_register,
  submit_mfa, open_login_form, open_register_form, or_placeholder,
}

-- The number of fields of a step, and a focus on one of them.
abbrev pub Fits : Step → ℕ → ℕ → Type 0
Fits login n focus = (n ≡ 2) × (focus < n)
Fits register n focus = (n ≡ 4) × (focus < n)
Fits mfa n focus = (n ≡ 1) × (focus < n)
Fits _ n focus = Unit

pub record IsWellFormed {Input : Type 0} (m : AuthModel Input) : Type 0 where
  pub fits : Fits m.step (length m.inputs) m.focus_idx
  pub on_menu : m.menu_idx ≤ 1

-- What a handler returns fits.
pub record Kept {Input : Type 0} (r : AuthModel Input × Cmd) : Type 0 where
  pub kept : IsWellFormed (r.0)

module _ {A : Type 0} where
  pub length-set : (xs : List A) (i : ℕ) (v : A) → length (set xs i v) ≡ length xs
  length-set [] i v = refl
  length-set (x ∷ xs) zero v = refl
  length-set (x ∷ xs) (suc i) v = omega (arith, length-set xs i v)

  pub get_elem?-of_lt : (xs : List A) (i : ℕ) → i < length xs → (a : A) × (get_elem? xs i ≡ some a)
  get_elem?-of_lt [] i h = absurd (omega arith)
  get_elem?-of_lt (x ∷ xs) zero h = (x, refl)
  get_elem?-of_lt (x ∷ xs) (suc i) h = get_elem?-of_lt xs i (omega arith)

  pub change_at-of_lt :
      (i : ℕ) (f : A → A) (xs : List A)
      → i < length xs
      → (ys : List A) × (change_at i f xs ≡ some ys) × (length ys ≡ length xs)
  change_at-of_lt i f xs h =
      let (a, e) = get_elem?-of_lt xs i h in (set xs i (f a), rw e refl, length-set xs i (f a))

pub length-map : {A B : Type 0} (f : A → B) (xs : List A) → length (map f xs) ≡ length xs
length-map f [] = refl
length-map f (x ∷ xs) = omega (arith, length-map f xs)

pub fits_of : (s : Step) (n n' i i' : ℕ) → n' ≡ n → (i < n → i' < n') → Fits s n i → Fits s n' i'
fits_of login n n' i i' e f h = (omega arith, f h.1)
fits_of register n n' i i' e f h = (omega arith, f h.1)
fits_of mfa n n' i i' e f h = (omega arith, f h.1)
fits_of server n n' i i' e f h = tt
fits_of menu n n' i i' e f h = tt
fits_of loading n n' i i' e f h = tt

module _ {Input : Type 0} ⦃w : Widgets Input⦄ where
  -- Going to another field keeps all but the fields' own state and the focus.
  refocus_total :
      (next : ℕ) (m : AuthModel Input)
      → m.focus_idx < length m.inputs
      → next < length m.inputs
      → (ys : List Input) × (refocus next m ≡ some (record m { inputs = ys; focus_idx = next }))
        × (length ys ≡ length m.inputs)
  unfolding refocus
  refocus_total next m h k =
      let (xs, e, l) = change_at-of_lt m.focus_idx w.blur m.inputs h in
      let (ys, e', l') = change_at-of_lt next w.focus xs (omega arith) in
      (ys, rw e (rw e' refl), omega arith)

  pub moved_IsWellFormed :
      (m : AuthModel Input) (next : ℕ) (ys : List Input)
      → IsWellFormed m
      → next < length m.inputs
      → length ys ≡ length m.inputs
      → IsWellFormed (record m { inputs = ys; focus_idx = next })
  moved_IsWellFormed m next ys wf h l = record {
    fits = fits_of m.step _ _ _ _ l (λ _. rw l h) wf.fits;
    on_menu = wf.on_menu;
  }

  refocus-IsWellFormed :
      (next : ℕ) (m : AuthModel Input)
      → IsWellFormed m
      → m.focus_idx < length m.inputs
      → next < length m.inputs
      → Returns Kept (quiet (refocus next m))
  refocus-IsWellFormed next m wf h k =
      let (ys, e, l) = refocus_total next m h k in
      rw e (record { kept = moved_IsWellFormed m next ys wf k l })

  pub typed-IsWellFormed :
      (msg : Msg) (m : AuthModel Input) → IsWellFormed m → IsWellFormed (type_into msg m)
  typed-IsWellFormed msg m wf =
      let l = length-map (w.update msg) m.inputs in
      record { fits = fits_of m.step _ _ _ _ l (λ e. rw l e) wf.fits; on_menu = wf.on_menu }

  menu-IsWellFormed : (m : AuthModel Input) → IsWellFormed m → IsWellFormed (back_to_menu m)
  menu-IsWellFormed m wf = record { fits = tt; on_menu = wf.on_menu }

  -- A key in a form.
  pub form_key :
      (k : String) (m : AuthModel Input)
      → IsWellFormed m
      → m.focus_idx < length m.inputs
      → Returns Kept (submit_form m)
      → Returns Kept (handle_form_key k m)
  unfolding handle_form_key next_field prev_field
  form_key k m wf h s =
      let next =
        refocus-IsWellFormed ((m.focus_idx + 1) % length m.inputs) m wf h
          (mod-lt (m.focus_idx + 1) (omega arith)) in
      let prev =
        refocus-IsWellFormed ((m.focus_idx + length m.inputs - 1) % length m.inputs) m wf h
          (mod-lt (m.focus_idx + length m.inputs - 1) (omega arith)) in
      search
        (if_Returns, next, prev, s, wf, typed-IsWellFormed (key k) m wf, menu-IsWellFormed m wf)
        depth 12

  checked-IsWellFormed :
      (m : AuthModel Input) (u e p c : String) → IsWellFormed m → Kept (checked_register m u e p c)
  unfolding checked_register
  checked-IsWellFormed m u e p c wf =
      let quiet' : IsWellFormed (record m { loading = false }) = record {
        fits = wf.fits;
        on_menu = wf.on_menu;
      } in
      search (if_holds (Kept {Input = Input}), wf, quiet')

  pub submit_login-IsWellFormed :
      (m : AuthModel Input) → length m.inputs ≡ 2 → IsWellFormed m → Returns Kept (submit_login m)
  submit_login-IsWellFormed m h wf =
      let (a, ea) = get_elem?-of_lt m.inputs 0 (omega arith) in
      let (b, eb) = get_elem?-of_lt m.inputs 1 (omega arith) in rw ea (rw eb (record { kept = wf }))

  pub submit_register-IsWellFormed :
      (m : AuthModel Input)
      → length m.inputs ≡ 4
      → IsWellFormed m
      → Returns Kept (submit_register m)
  submit_register-IsWellFormed m h wf =
      let (a, ea) = get_elem?-of_lt m.inputs 0 (omega arith) in
      let (b, eb) = get_elem?-of_lt m.inputs 1 (omega arith) in
      let (c, ec) = get_elem?-of_lt m.inputs 2 (omega arith) in
      let (d, ed) = get_elem?-of_lt m.inputs 3 (omega arith) in
      rw ea (rw eb (rw ec (rw ed (checked-IsWellFormed m _ _ _ _ wf))))

  pub submitted-IsWellFormed : (m : AuthModel Input) → IsWellFormed m → IsWellFormed (submitted m)
  submitted-IsWellFormed m wf = record { fits = wf.fits; on_menu = wf.on_menu }

  pub mfa_key :
      (k : String) (m : AuthModel Input)
      → IsWellFormed m
      → length m.inputs ≡ 1
      → Returns Kept (handle_mfa_key k m)
  unfolding handle_mfa_key submit_mfa
  mfa_key k m wf h =
      let (a, ea) = get_elem?-of_lt m.inputs 0 (omega arith) in
      let sent : Returns Kept (submit_mfa m) =
        rw ea (record { kept = record { fits = wf.fits; on_menu = wf.on_menu } }) in
      search (if_Returns, sent, wf, typed-IsWellFormed (key k) m wf, menu-IsWellFormed m wf) depth
        12

  pub server_key :
      (k : String) (m : AuthModel Input)
      → m.step ≡ server
      → IsWellFormed m
      → Kept (handle_server_key k m)
  unfolding handle_server_key
  server_key k m at wf =
      let typed : IsWellFormed (record m { server_input = w.update (key k) m.server_input }) =
        record { fits = wf.fits; on_menu = wf.on_menu } in
      let onward : IsWellFormed (record m {
        cfg = record m.cfg {
          server_addr = or_placeholder m.server_input (w.trim_space (w.value m.server_input));
        };
        step = menu;
        menu_idx = 0;
      }) =
        record { fits = tt; on_menu = omega arith } in
      search (if_holds (Kept {Input = Input}), wf, typed, onward) depth 8

  moved_menu :
      (m : AuthModel Input) (i : ℕ)
      → m.step ≡ menu
      → i ≤ 1
      → IsWellFormed (record m { menu_idx = i })
  moved_menu m i at h = record { fits = rw at tt; on_menu = h }

  raised_menu :
      (m : AuthModel Input)
      → m.step ≡ menu
      → IsWellFormed m
      → IsWellFormed (if ltb m.menu_idx 1 then record m { menu_idx = m.menu_idx + 1 } else m)
  raised_menu m at wf = elim (Bool-cases (ltb m.menu_idx 1)) [
    | inl e ↦ rw e (moved_menu m (m.menu_idx + 1) at (ground arith))
    | inr e ↦ rw e wf
  ]

  login_form : (m : AuthModel Input) → m.menu_idx ≤ 1 → IsWellFormed (open_login_form m)
  unfolding open_login_form
  login_form m h = record { fits = (refl, omega arith); on_menu = h }

  register_form : (m : AuthModel Input) → m.menu_idx ≤ 1 → IsWellFormed (open_register_form m)
  unfolding open_register_form
  register_form m h = record { fits = (refl, omega arith); on_menu = h }

  pub menu_key :
      (k : String) (m : AuthModel Input)
      → m.step ≡ menu
      → IsWellFormed m
      → Kept (handle_menu_key k m)
  unfolding handle_menu_key
  menu_key k m at wf =
      let back : IsWellFormed (record m { step = server; server_input = w.focus m.server_input }) =
        record { fits = tt; on_menu = wf.on_menu } in
      let raised : IsWellFormed
          (if ltb m.menu_idx 1 then record m { menu_idx = m.menu_idx + 1 } else m) =
        raised_menu m at wf in
      let chosen : IsWellFormed
          (if m.menu_idx == 0 then open_login_form m else open_register_form m) =
        if_holds IsWellFormed (m.menu_idx == 0) _ _ (login_form m wf.on_menu)
          (register_form m wf.on_menu) in
      search
        (
          if_holds (Kept {Input = Input}),
          wf,
          back,
          moved_menu m (m.menu_idx - 1) at (omega arith),
          raised,
          chosen,
          login_form (record m { menu_idx = 0 }) (omega arith),
          register_form (record m { menu_idx = 1 }) (omega arith),
        )
        depth 12
