-- ===== src/Client/Tui/Items/Order.antt =====
-- internal/client/tui/app.go: `<` on strings is an order.
use go_yandex_gophkeeper.Base.{String, ◌≡◌, true, false, arith, refl}
use go_yandex_gophkeeper.Client.Tui.Items.{text_lt}
use go_yandex_gophkeeper.Client.Tui.Sorting.{Order}

text_lt-asym : (s t : String) → text_lt s t ≡ true → text_lt t s ≡ false
unfolding text_lt
text_lt-asym String.[] String.[] h = cc
text_lt-asym String.[] (String.◌∷◌ d t) h = refl
text_lt-asym (String.◌∷◌ c s) String.[] h = cc
text_lt-asym (String.◌∷◌ c s) (String.◌∷◌ d t) h = ground (arith, text_lt-asym s t)

text_lt_trans : (s t u : String) → text_lt s t ≡ false → text_lt t u ≡ false → text_lt s u ≡ false
unfolding text_lt
text_lt_trans String.[] t String.[] h k = refl
text_lt_trans (String.◌∷◌ c s) t String.[] h k = refl
text_lt_trans s String.[] (String.◌∷◌ e u) h k = cc
text_lt_trans String.[] (String.◌∷◌ d t) (String.◌∷◌ e u) h k = cc
text_lt_trans (String.◌∷◌ c s) (String.◌∷◌ d t) (String.◌∷◌ e u) h k =
    ground (arith, text_lt_trans s t u)

pub text_lt-Order : Order text_lt
text_lt-Order = record { asym = text_lt-asym; trans = text_lt_trans }
