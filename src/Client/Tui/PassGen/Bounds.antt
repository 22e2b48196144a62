-- ===== src/Client/Tui/PassGen/Bounds.antt =====
-- internal/client/tui/passgen.go: the settings stay in range, and what the preview is then.
use go_yandex_gophkeeper.Client.Tui.Panic.{if_holds}
use go_yandex_gophkeeper.Base.{◌≤◌, ◌<◌, arith, ℕ, Bool, String, ◌+◌, if◌then◌else◌, ◌-◌, ltb}
use go_yandex_gophkeeper.Client.Tui.Model.{PassGenState, Tab, password, passphrase}
use go_yandex_gophkeeper.Client.Tui.PassGen.{
  max_focus_by, Delta, less, more, adjust_by, pass_gen_key, adjust_focused, toggle_focused,
  max_focus, toggle_by,
}

-- The ranges of the settings, and the focus not past the last field: 7 in the first tab and 4 in the
-- second, whose fields are 1 to 4.
pub record InRange (s : PassGenState) : Type 0 where
  pub long : 4 ≤ s.length
  pub short : s.length ≤ 128
  pub digits : s.min_digits ≤ 64
  pub symbols : s.min_symbols ≤ 64
  pub many : 2 ≤ s.word_count
  pub few : s.word_count ≤ 10
  pub separator : s.separator_idx < 5
  pub not_past : s.focus ≤ max_focus_by s.tab

adjust_by-InRange : (t : Tab) (d : Delta) (s : PassGenState) → InRange s → InRange (adjust_by t d s)
adjust_by-InRange password less s r = ground arith
adjust_by-InRange password more s r = ground arith
adjust_by-InRange passphrase less s r = ground arith
adjust_by-InRange passphrase more s r = ground arith

toggle_by-InRange : (t : Tab) (s : PassGenState) → InRange s → InRange (toggle_by t s)
toggle_by-InRange password s r = ground arith
toggle_by-InRange passphrase s r = ground arith

adjust_focused-InRange : (d : Delta) (s : PassGenState) → InRange s → InRange (adjust_focused d s)
unfolding adjust_focused
adjust_focused-InRange d s r = adjust_by-InRange s.tab d s r

toggle_focused-InRange : (s : PassGenState) → InRange s → InRange (toggle_focused s)
unfolding toggle_focused
toggle_focused-InRange s r = toggle_by-InRange s.tab s r

focused :
    (s : PassGenState) (f : ℕ)
    → InRange s
    → f ≤ max_focus_by s.tab
    → InRange (record s { focus = f })
focused s f r h = ground arith

tab_first : (s : PassGenState) (t : Tab) → InRange s → InRange (record s { tab = t; focus = 0 })
tab_first s t r = ground arith

record Good (p : PassGenState × Bool) : Type 0 where
  good : InRange (p.0)

up_InRange :
    (s : PassGenState)
    → InRange s
    → InRange (record s { focus = if ltb 0 s.focus then s.focus - 1 else max_focus s })
unfolding max_focus
up_InRange s r = focused s _ r (ground arith)

down_InRange :
    (s : PassGenState)
    → InRange s
    → InRange (record s { focus = if ltb s.focus (max_focus s) then s.focus + 1 else 0 })
unfolding max_focus
down_InRange s r = focused s _ r (ground arith)

key_Good : (k : String) (s : PassGenState) → InRange s → Good (pass_gen_key k s)
unfolding pass_gen_key
key_Good k s r =
    search
      (
        if_holds Good,
        r,
        tab_first s password r,
        tab_first s passphrase r,
        up_InRange s r,
        down_InRange s r,
        adjust_focused-InRange less s r,
        adjust_focused-InRange more s r,
        toggle_focused-InRange s r,
      )
      depth 16

-- Every key of the generator keeps the settings in range: a length from 4 to 128, minimums of at most
-- 64, from 2 to 10 words, one of the five separators, and a focus that is not past the last field of
-- the tab. (A focus of 0 is a field of the first tab only.)
pub pass_gen_key-InRange :
    (k : String) (s : PassGenState) → InRange s → InRange (pass_gen_key k s).0
pass_gen_key-InRange k s r = (key_Good k s r).good
