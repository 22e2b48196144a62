-- ===== src/Client/Tui/Auth/Refused.antt =====
-- internal/client/tui/auth.go: an attempt that the server refuses, and what is on the screen then.
use go_yandex_gophkeeper.Base.{
  String, List, [], ◌∷◌, ℕ, ◌≡◌, ◌⊎◌, inl, inr, none, some, refl, arith, length, ltb, false,
  Bool-cases, map, set, get_elem?, ap, suc, zero, Option,
}
use go_yandex_gophkeeper.Client.Tui.Auth.Model.{
  Step, login, register, key, auth_err, needs_mfa, Widgets, AuthModel, submit_form, Cmd, nothing,
  submitted, checked_register, Msg, submit_by,
}
use mathlib.Core.Path.{subst}
use go_yandex_gophkeeper.Client.Tui.Panic.{Returns, if_holds}
use go_yandex_gophkeeper.Client.Tui.Auth.Forms.{Fits, IsWellFormed, get_elem?-of_lt}
use go_yandex_gophkeeper.Client.Tui.Auth.Update.{run, Opens, handle_special_msg}

ltb_zero : (n : ℕ) → ltb n 0 ≡ false
ltb_zero n = ground arith

abbrev mfa_refused : String → String → List Msg
mfa_refused session text = needs_mfa session ∷ key "enter" ∷ auth_err text ∷ key "enter" ∷ []

abbrev pub AtForm : Step → Type 0
AtForm s = (s ≡ login) ⊎ (s ≡ register)

module _ {Input : Type 0} ⦃w : Widgets Input⦄ ⦃opens : Opens⦄ where
  mfa_refused_at :
      (m : AuthModel Input) (session text : String) (s : Step)
      → AtForm s
      → run (mfa_refused session text) (record m { step_before_loading = s }) ≡ none
  unfolding run
  mfa_refused_at m session text s (inl e) = rw e refl
  mfa_refused_at m session text s (inr e) = rw e refl

  -- When the server asks for a code, refuses the code that is sent, and Enter is pressed again, the
  -- client panics: the sign-in form is back with the one field of the code.
  pub mfa_refused_panics :
      (m : AuthModel Input) (session text : String)
      → AtForm m.step_before_loading
      → run (needs_mfa session ∷ key "enter" ∷ auth_err text ∷ key "enter" ∷ []) m ≡ none
  mfa_refused_panics m session text at = mfa_refused_at m session text m.step_before_loading at

  left_at :
      (m : AuthModel Input) (text : String) (s t : Step)
      → AtForm s
      → AtForm t
      → run
          (key "esc" ∷ auth_err text ∷ key "tab" ∷ [])
          (record m { step = s; step_before_loading = t })
        ≡ none
  unfolding run
  left_at m text s t (inl e) (inl e') = rw (e, e', ltb_zero m.focus_idx) refl
  left_at m text s t (inl e) (inr e') = rw (e, e', ltb_zero m.focus_idx) refl
  left_at m text s t (inr e) (inl e') = rw (e, e', ltb_zero m.focus_idx) refl
  left_at m text s t (inr e) (inr e') = rw (e, e', ltb_zero m.focus_idx) refl

  -- When a form is left by Esc while its attempt is on the way, the attempt is refused, and Tab is
  -- pressed then, the client panics: the form is back without its fields.
  pub left_form_panics :
      (m : AuthModel Input) (text : String)
      → AtForm m.step
      → AtForm m.step_before_loading
      → run (key "esc" ∷ auth_err text ∷ key "tab" ∷ []) m ≡ none
  left_form_panics m text at before = left_at m text m.step m.step_before_loading at before

module _ {Input : Type 0} ⦃w : Widgets Input⦄ where
  -- What an attempt leaves alone.
  record Sent (m : AuthModel Input) (r : AuthModel Input × Cmd) : Type 0 where
    inputs : r.0.inputs ≡ m.inputs
    before : r.0.step_before_loading ≡ m.step

  checked-Sent :
      (m m' : AuthModel Input) (u e p c : String)
      → Sent m (m', nothing)
      → Sent m (checked_register m' u e p c)
  unfolding checked_register
  checked-Sent m m' u e p c h =
      let sent : (cmd : Cmd) → Sent m (m', cmd) =
        λ cmd. record { inputs = h.inputs; before = h.before } in
      let not_sent : (cmd : Cmd) → Sent m (record m' { loading = false }, cmd) =
        λ cmd. record { inputs = h.inputs; before = h.before } in
      search (if_holds (Sent m), sent, not_sent)

  submit_by-Sent :
      (s : Step) (m : AuthModel Input)
      → AtForm s
      → s ≡ m.step
      → Fits s (length m.inputs) m.focus_idx
      → Returns (Sent m) (submit_by s (submitted m))
  submit_by-Sent s m (inl at) e fit =
      let f = subst (λ x. Fits x (length m.inputs) m.focus_idx) at fit in
      let (a, ea) = get_elem?-of_lt m.inputs 0 (omega arith) in
      let (b, eb) = get_elem?-of_lt m.inputs 1 (omega arith) in
      rw at (rw ea (rw eb (record { inputs = refl; before = refl })))
  submit_by-Sent s m (inr at) e fit =
      let f = subst (λ x. Fits x (length m.inputs) m.focus_idx) at fit in
      let (a, ea) = get_elem?-of_lt m.inputs 0 (omega arith) in
      let (b, eb) = get_elem?-of_lt m.inputs 1 (omega arith) in
      let (c, ec) = get_elem?-of_lt m.inputs 2 (omega arith) in
      let (d, ed) = get_elem?-of_lt m.inputs 3 (omega arith) in
      rw at (
        rw ea (
          rw eb (
            rw ec (
              rw ed
                (checked-Sent m (submitted m) _ _ _ _ (record { inputs = refl; before = refl }))))))

  -- The form is back with an error text.
  pub record Shown (step : Step) (values : List String) (text : String) (r : AuthModel Input × Cmd)
      : Type 0 where
    pub at_step : r.0.step ≡ step
    pub typed : map w.value r.0.inputs ≡ values
    pub says : r.0.err_msg ≡ text
    pub waits : r.0.loading ≡ false

  module _ (value_focus : (i : Input) → w.value (w.focus i) ≡ w.value i) where
    values-set :
        (xs : List Input) (i : ℕ) (a : Input)
        → get_elem? xs i ≡ some a
        → map w.value (set xs i (w.focus a)) ≡ map w.value xs
    values-set [] i a h = refl
    values-set (x ∷ xs) zero a h = let e : x ≡ a = cc in rw (value_focus a) (rw e refl)
    values-set (x ∷ xs) (suc i) a h = ap (λ r. w.value x ∷ r) (values-set xs i a h)

    refused-Shown :
        (m : AuthModel Input) (text : String)
        → Returns
            (Shown m.step_before_loading (map w.value m.inputs) text)
            (handle_special_msg (auth_err text) m)
    unfolding handle_special_msg
    refused-Shown m text = elim (Bool-cases (ltb m.focus_idx (length m.inputs))) [
      | inl e ↦
          let (a, ea) = get_elem?-of_lt m.inputs m.focus_idx (ground arith) in
          rw (e, handle_special_msg)
            (rw ea (record {
              at_step = refl;
              typed = values-set m.inputs m.focus_idx a ea;
              says = refl;
              waits = refl;
            }))
      | inr e ↦
          rw (e, handle_special_msg)
            (record { at_step = refl; typed = refl; says = refl; waits = refl })
    ]

    answered :
        (m : AuthModel Input) (text : String) (o : Option (AuthModel Input × Cmd))
        → Returns (Sent m) o
        → Returns
            (λ r.
              Returns
                (Shown m.step (map w.value m.inputs) text)
                (handle_special_msg (auth_err text) (r.0)))
            o
    answered m text none sent = elim sent [ ]
    answered m text (some r) sent =
        subst
          (λ s.
            Returns (Shown s (map w.value m.inputs) text)
              (handle_special_msg (auth_err text) (r.0)))
          sent.before
          (subst
            (λ is.
              Returns (Shown r.0.step_before_loading (map w.value is) text)
                (handle_special_msg (auth_err text) (r.0)))
            sent.inputs (refused-Shown (r.0) text))

    -- A form whose fields fit the step can be submitted, and when the attempt is refused it is back
    -- with what was typed and with the error's text, and no longer waits.
    pub refused_attempt :
        (m : AuthModel Input) (text : String)
        → AtForm m.step
        → IsWellFormed m
        → Returns
            (λ r.
              Returns
                (Shown m.step (map w.value m.inputs) text)
                (handle_special_msg (auth_err text) (r.0)))
            (submit_form m)
    unfolding submit_form
    refused_attempt m text at wf =
        answered m text (submit_form m) (submit_by-Sent m.step m at refl wf.fits)
