-- ===== src/Client/Tui/Requests/SetFlag.antt =====
-- internal/client/tui/app.go: what `setItemFlag` sends.
use go_yandex_gophkeeper.Base.{
  String, Bool, true, false, List, [], if◌then◌else◌, ◌∷◌, ℕ, some, ◌≡◌, str_eq, ◌∙◌, sym, refl,
  arith, eq_iff, ◌||◌, Bool-cases, inl, inr,
}
use mathlib.Core.Path.{subst}
use go_yandex_gophkeeper.Client.Tui.Items.{VaultItem, Decoder}
use go_yandex_gophkeeper.Client.Tui.Json.{
  Value, Object, Parsed, Encoder, insert, delete, flag_of, is_flag, is_field, is_plain,
}
use go_yandex_gophkeeper.Client.Tui.Requests.{update, set_item_flag}
use go_yandex_gophkeeper.Client.Tui.Requests.Flags.{
  FlagLaws, IsFlag, favorite, archived, trashed, flag_of-delete, delete-plain,
}

flag_known : {k : String} → IsFlag k → is_field k || is_flag k ≡ true
unfolding is_field is_flag
flag_known favorite = refl
flag_known archived = refl
flag_known trashed = refl

flag_of-deleted : (k : String) (o : Object) → flag_of k (delete k o) ≡ false
flag_of-deleted k [] = refl
flag_of-deleted k ((j, v) ∷ o) = ground (arith, flag_of-deleted k o)

module _ ⦃json : Decoder⦄ ⦃enc : Encoder⦄ (laws : FlagLaws json enc) {k j : String} (f : IsFlag k)
    (g : IsFlag j) where
  set_changes :
      (b : List ℕ) (o : Object)
      → enc.unmarshal b ≡ Parsed.object o
      → is_plain o ≡ true
      → json.flag j (enc.marshal_map (insert k (Value.flag true) o))
        ≡ (if str_eq k j then true else json.flag j b)
  set_changes b o read plain =
      let known : is_plain (insert k (Value.flag true) o) ≡ true =
        rw (flag_known f) (delete-plain k o plain) in
      laws.of_map j (insert k (Value.flag true) o) g known ∙ elim (Bool-cases (str_eq k j)) [
        | inl e ↦ rw e refl
        | inr e ↦ rw e (flag_of-delete k j o e ∙ sym (laws.of_bytes j b o g read plain))
      ]

  unset_changes :
      (b : List ℕ) (o : Object)
      → enc.unmarshal b ≡ Parsed.object o
      → is_plain o ≡ true
      → json.flag j (enc.marshal_map (delete k o)) ≡ (if str_eq k j then false else json.flag j b)
  unset_changes b o read plain =
      laws.of_map j (delete k o) g (delete-plain k o plain) ∙ elim (Bool-cases (str_eq k j)) [
        | inl e ↦
            rw e
              (subst (λ i. flag_of i (delete k o) ≡ false) ((eq_iff k j).0 e) (flag_of-deleted k o))
        | inr e ↦ rw e (flag_of-delete k j o e ∙ sym (laws.of_bytes j b o g read plain))
      ]

  -- Where the payload of an item is an object of known names, `setItemFlag` sends an update of this
  -- item, with its metadata and a payload in which the flag is as asked and each other flag is as it
  -- was.
  pub set_item_flag_lem :
      (i : VaultItem) (value : Bool) (o : Object)
      → enc.unmarshal i.payload ≡ Parsed.object o
      → is_plain o ≡ true
      → (new : List ℕ) × (set_item_flag i k value ≡ some (update i.id new i.metadata))
        × (json.flag j new ≡ (if str_eq k j then value else json.flag j i.payload))
  unfolding set_item_flag
  set_item_flag_lem i true o read plain = (
    enc.marshal_map (insert k (Value.flag true) o),
    rw read refl,
    set_changes i.payload o read plain,
  )
  set_item_flag_lem i false o read plain =
      (enc.marshal_map (delete k o), rw read refl, unset_changes i.payload o read plain)
