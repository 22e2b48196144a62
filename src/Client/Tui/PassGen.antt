-- ===== src/Client/Tui/PassGen.antt =====
-- internal/client/tui/passgen.go: the state of the password generator. Signed numbers that are
-- clamped below at 0 or above it are naturals: 0 - 1 and 0 are clamped to the same number.
pub mod Bounds
pub mod Preview
use go_yandex_gophkeeper.Base.{
  str_eq, Bool, true, false, not, List, [], ◌∷◌, String, ℕ, zero, suc, ◌+◌, ◌-◌, ◌/◌, ◌%◌, ◌==◌,
  ◌&&◌, ◌||◌, ltb, leb, if◌then◌else◌, Option, none, some, Result, ok, err, Exec, get_or, length,
}
use go_yandex_gophkeeper.Base.Int.{pos}
use go_yandex_gophkeeper.Crypto.Charset.{PasswordOpts, bytes}
use go_yandex_gophkeeper.Crypto.Generate.{Rand, GenError, panicked, generate_password}
use go_yandex_gophkeeper.Crypto.Passphrase.{PassphraseOpts, generate_passphrase}
use go_yandex_gophkeeper.Client.Tui.Model.{PassGenState, Tab, password, passphrase}

-- The fields of the two tabs; those of the second are counted from 1.
abbrev pub fld_length : ℕ
fld_length = 0

abbrev pub password_fields : ℕ
password_fields = 8

abbrev pub passphrase_fields : ℕ
passphrase_fields = 5

-- `passGenSeps`
abbrev pub pass_gen_seps : List (List ℕ)
pass_gen_seps = bytes "-" ∷ bytes "_" ∷ bytes "." ∷ bytes " " ∷ [] ∷ []

abbrev pub error_text : List ℕ
error_text = bytes "ошибка"

abbrev pub generation_error_text : List ℕ
generation_error_text = bytes "ошибка генерации"

-- `passGenMeetsMinimums`, over ASCII.
abbrev pub is_digit : ℕ → Bool
is_digit c = leb 48 c && leb c 57

abbrev pub is_letter : ℕ → Bool
is_letter c = leb 65 c && leb c 90 || leb 97 c && leb c 122

abbrev pub counted : (ℕ → Bool) → List ℕ → ℕ
counted p [] = 0
counted p (c ∷ cs) = (if p c then 1 else 0) + counted p cs

unfoldable pub meets_minimums : List ℕ → ℕ → ℕ → Bool
meets_minimums pwd min_digits min_symbols =
    leb min_digits (counted is_digit pwd)
    && leb min_symbols (counted (λ c. not (is_digit c) && not (is_letter c)) pwd)

abbrev pub password_opts : PassGenState → PasswordOpts
password_opts s = record {
  length = pos s.length;
  upper = s.use_upper;
  digits = s.use_digits;
  symbols = s.use_symbols;
  no_ambiguous = s.avoid_ambig;
}

abbrev pub passphrase_opts : PassGenState → PassphraseOpts
passphrase_opts s = record {
  words = pos s.word_count;
  separator = get_or pass_gen_seps s.separator_idx [];
  capitalize = s.capitalize;
  include_num = s.include_num;
}

-- The text that is shown for an error; `none` is the panic of `mustRandChar`.
abbrev pub text_or_panic : List ℕ → GenError → Option (List ℕ)
text_or_panic text panicked = none
text_or_panic text e = some text

abbrev pub or_error : List ℕ → Result GenError (List ℕ) × ℕ → Option (List ℕ) × ℕ
or_error text (err e, k) = (text_or_panic text e, k)
or_error text (ok p, k) = (some p, k)

-- The settings of a new generator.
abbrev pub initial : Option ℕ → PassGenState
initial target = record {
  tab = password;
  focus = fld_length;
  length = 20;
  use_upper = true;
  use_lower = true;
  use_digits = true;
  use_symbols = true;
  min_digits = 1;
  min_symbols = 1;
  avoid_ambig = false;
  word_count = 5;
  separator_idx = 0;
  capitalize = true;
  include_num = true;
  preview = [];
  target_field_idx = target;
}

abbrev pub previewed : PassGenState → Option (List ℕ) → Option PassGenState
previewed s none = none
previewed s (some p) = some (record s { preview = p })

module _ ⦃rand : Rand⦄ where
  -- The rounds of `refreshCmd`; `none` is a panic, and the state is the number of draws.
  unfoldable pub rounds : ℕ → PasswordOpts → ℕ → ℕ → List ℕ → ℕ → Option (List ℕ) × ℕ
  unfolding generate_password meets_minimums
  rounds zero o min_d min_s preview k = (some preview, k)
  rounds (suc n) o min_d min_s preview k =
      let (r, k') = generate_password o k in
      elim r [
        | err e ↦ (text_or_panic error_text e, k')
        | ok pwd ↦
            let more = rounds n o min_d min_s pwd k' in
            if meets_minimums pwd min_d min_s then (some pwd, k') else more
      ]

  -- `refreshCmd`
  abbrev refresh_by : Tab → PassGenState → ℕ → Option (List ℕ) × ℕ
  refresh_by password s k = rounds 30 (password_opts s) s.min_digits s.min_symbols [] k
  refresh_by passphrase s k = or_error error_text (generate_passphrase (passphrase_opts s) k)

  unfoldable pub refresh_cmd : PassGenState → ℕ → Option (List ℕ) × ℕ
  unfolding rounds generate_passphrase
  refresh_cmd s k = refresh_by s.tab s k

  -- The rounds of `refresh`, with one more password after the last.
  unfoldable pub sync_rounds : ℕ → PasswordOpts → ℕ → ℕ → ℕ → Option (List ℕ) × ℕ
  unfolding generate_password meets_minimums
  sync_rounds zero o min_d min_s k = or_error generation_error_text (generate_password o k)
  sync_rounds (suc n) o min_d min_s k =
      let (r, k') = generate_password o k in
      elim r [
        | err e ↦ (text_or_panic generation_error_text e, k')
        | ok pwd ↦
            let more = sync_rounds n o min_d min_s k' in
            if meets_minimums pwd min_d min_s then (some pwd, k') else more
      ]

  -- `refresh`
  abbrev preview_by : Tab → PassGenState → ℕ → Option (List ℕ) × ℕ
  preview_by password s k = sync_rounds 30 (password_opts s) s.min_digits s.min_symbols k
  preview_by passphrase s k =
      or_error generation_error_text (generate_passphrase (passphrase_opts s) k)

  unfoldable pub refresh : PassGenState → ℕ → Option PassGenState × ℕ
  unfolding sync_rounds generate_passphrase
  refresh s k = let (p, k') = preview_by s.tab s k in (previewed s p, k')

  -- `newPassGenState`
  unfoldable pub new_pass_gen_state : Option ℕ → ℕ → Option PassGenState × ℕ
  unfolding refresh
  new_pass_gen_state target k = refresh (initial target) k

-- `maxFocus`
abbrev pub max_focus_by : Tab → ℕ
max_focus_by passphrase = passphrase_fields - 1
max_focus_by password = password_fields - 1

unfoldable pub max_focus : PassGenState → ℕ
max_focus s = max_focus_by s.tab

-- The two arguments that `adjustFocused` is called with, -1 and +1.
pub data Delta : Type 0 where
  less more : Delta

abbrev pub plus : Delta → ℕ → ℕ
plus less n = n - 1
plus more n = n + 1

abbrev pub clamp : ℕ → ℕ → ℕ → ℕ
clamp lo hi n = if ltb n lo then lo else if ltb hi n then hi else n

-- `adjustFocused`
abbrev pub adjust_by : Tab → Delta → PassGenState → PassGenState
adjust_by password d s =
    if s.focus == 0
    then record s { length = clamp 4 128 (plus d s.length) }
    else if s.focus == 5
    then record s { min_digits = clamp 0 (s.length / 2) (plus d s.min_digits) }
    else if s.focus == 6
    then record s { min_symbols = clamp 0 (s.length / 2) (plus d s.min_symbols) }
    else s
adjust_by passphrase d s =
    if s.focus == 1
    then record s { word_count = clamp 2 10 (plus d s.word_count) }
    else if s.focus == 2
    then record s {
      separator_idx = plus d (s.separator_idx + length pass_gen_seps) % length pass_gen_seps;
    }
    else s

unfoldable pub adjust_focused : Delta → PassGenState → PassGenState
adjust_focused d s = adjust_by s.tab d s

-- `toggleFocused`
abbrev pub toggle_by : Tab → PassGenState → PassGenState
toggle_by password s =
    if s.focus == 1
    then record s { use_upper = not s.use_upper }
    else if s.focus == 2
    then record s { use_lower = not s.use_lower }
    else if s.focus == 3
    then record s { use_digits = not s.use_digits }
    else if s.focus == 4
    then record s { use_symbols = not s.use_symbols }
    else if s.focus == 7
    then record s { avoid_ambig = not s.avoid_ambig }
    else s
toggle_by passphrase s =
    if s.focus == 3
    then record s { capitalize = not s.capitalize }
    else if s.focus == 4
    then record s { include_num = not s.include_num }
    else s

unfoldable pub toggle_focused : PassGenState → PassGenState
toggle_focused s = toggle_by s.tab s

-- The keys of `handlePassGenKey` that stay in the generator, and whether a new preview is asked for.
unfoldable pub pass_gen_key : String → PassGenState → PassGenState × Bool
unfolding max_focus adjust_focused toggle_focused
pass_gen_key k s =
    if str_eq k "1"
    then (record s { tab = password; focus = 0 }, true)
    else if str_eq k "2"
    then (record s { tab = passphrase; focus = 0 }, true)
    else if str_eq k "r" || str_eq k "ctrl+g"
    then (s, true)
    else if str_eq k "up" || str_eq k "k" || str_eq k "shift+tab"
    then (record s { focus = if ltb 0 s.focus then s.focus - 1 else max_focus s }, false)
    else if str_eq k "down" || str_eq k "j" || str_eq k "tab"
    then (record s { focus = if ltb s.focus (max_focus s) then s.focus + 1 else 0 }, false)
    else if str_eq k "left" || str_eq k "h" || str_eq k "-"
    then (adjust_focused less s, true)
    else if str_eq k "right" || str_eq k "l" || str_eq k "+" || str_eq k "="
    then (adjust_focused more s, true)
    else if str_eq k " "
    then (toggle_focused s, true)
    else (s, false)
