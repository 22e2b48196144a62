-- ===== src/Client/Tests/Flags.antt =====
-- Examples of what the client sends when an item is edited or its flag is set.
use go_yandex_gophkeeper.Base.{
  String, Bool, true, false, List, [], ◌∷◌, ℕ, none, some, ok, ◌≡◌, ◌==◌, if◌then◌else◌, refl, ap,
}
use go_yandex_gophkeeper.Server.Handler.Vault.{credential}
use go_yandex_gophkeeper.Client.Tui.Items.{VaultItem, Decoder}
use go_yandex_gophkeeper.Client.Tui.Payloads.{parse_login_payload}
use go_yandex_gophkeeper.Client.Tui.Json.{
  Value, Object, Parsed, Encoder, flag_of, is_flag, is_field,
}
use go_yandex_gophkeeper.Client.Tui.Requests.{Files, update, save_request, set_item_flag}
use go_yandex_gophkeeper.Client.Tui.Requests.Flags.{
  FlagLaws, IsFlag, favorite, archived, trashed, save_request-cleared, ClearedIn,
}
use go_yandex_gophkeeper.Client.Tui.Requests.SetFlag.{set_item_flag_lem}

-- Payloads that have the three flags and nothing else.
abbrev bit : Bool → ℕ
bit b = if b then 1 else 0

abbrev bits : Object → List ℕ
bits o = bit (flag_of "favorite" o) ∷ bit (flag_of "archived" o) ∷ bit (flag_of "trashed" o) ∷ []

abbrev flags_in : List ℕ → Parsed
flags_in (f ∷ a ∷ t ∷ []) = Parsed.object (
    ("favorite", Value.flag (f == 1))
    ∷ ("archived", Value.flag (a == 1))
    ∷ ("trashed", Value.flag (t == 1))
    ∷ [])
flags_in bytes = Parsed.invalid

abbrev object_or_none : Parsed → Object
object_or_none (Parsed.object o) = o
object_or_none p = []

abbrev bit_encoder : Encoder
bit_encoder = record {
  marshal = bits;
  marshal_map = bits;
  marshal_nil = [];
  unmarshal = flags_in;
  history = λ b. [];
}

abbrev bit_decoder : Decoder
bit_decoder = record {
  text_field = λ k b. "";
  flag = λ k b. flag_of k (object_or_none (flags_in b));
  bytes_field = λ k b. [];
  to_lower = λ s. s;
  raw_text = λ b. "";
}

bit_back : (b : Bool) → (bit b == 1) ≡ b
bit_back true = refl
bit_back false = refl

bits_back :
    {k : String} (o : Object)
    → IsFlag k
    → flag_of k (object_or_none (flags_in (bits o))) ≡ flag_of k o
bits_back o favorite = bit_back (flag_of "favorite" o)
bits_back o archived = bit_back (flag_of "archived" o)
bits_back o trashed = bit_back (flag_of "trashed" o)

bit-FlagLaws : FlagLaws bit_decoder bit_encoder
unfolding is_field is_flag
bit-FlagLaws = record {
  no_bytes = λ k. refl;
  not_empty = refl;
  of_struct = λ k o f plain. bits_back o f;
  of_map = λ k o f plain. bits_back o f;
  of_bytes = λ k b o f read plain. ap (λ p. flag_of k (object_or_none p)) read;
  to_map = λ o plain. (object_or_none (flags_in (bits o)), refl, refl);
}

abbrev no_files : Files
no_files = record {
  read_file = λ path. none;
  trim_space = λ s. s;
  base = λ s. s;
  content_type = λ b. "";
}

-- A favorite in the archive.
abbrev starred : VaultItem
starred = record {
  id = "7";
  user_id = "1";
  type = credential;
  payload = 1 ∷ 1 ∷ 0 ∷ [];
  metadata = "mail";
  version = 3;
}

abbrev form_values : List String
form_values = "mail" ∷ "ann" ∷ "pw" ∷ "" ∷ "" ∷ "" ∷ "Work" ∷ []

save_request-cleared_example :
    ClearedIn ⦃json = bit_decoder⦄ ⦃enc = bit_encoder⦄ bit-FlagLaws favorite (
      save_request ⦃enc = bit_encoder⦄ ⦃json = bit_decoder⦄ 9
        (starred ∷ [])
        ⦃files = no_files⦄
        credential
        "7"
        "Login"
        form_values)
save_request-cleared_example =
    save_request-cleared ⦃json = bit_decoder⦄ ⦃enc = bit_encoder⦄ 9 (starred ∷ []) bit-FlagLaws
      favorite ⦃files = no_files⦄ credential "7" "Login" form_values

set_item_flag_lem_example :
    (new : List ℕ) × (set_item_flag ⦃enc = bit_encoder⦄ starred "favorite" false
      ≡ some (update "7" new "mail"))
    × (bit_decoder.flag "archived" new ≡ true)
unfolding is_field is_flag
set_item_flag_lem_example =
    set_item_flag_lem ⦃json = bit_decoder⦄ ⦃enc = bit_encoder⦄ bit-FlagLaws favorite archived
      starred false (object_or_none (flags_in starred.payload)) refl refl

-- The request of the form above is an update of the item.
saved :
    save_request ⦃enc = bit_encoder⦄ ⦃json = bit_decoder⦄ 9
      (starred ∷ [])
      ⦃files = no_files⦄
      credential
      "7"
      "Login"
      form_values
    ≡ ok (update "7" (0 ∷ 0 ∷ 0 ∷ []) "mail")
unfolding save_request parse_login_payload
saved = refl
