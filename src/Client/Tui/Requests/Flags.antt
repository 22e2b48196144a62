-- ===== src/Client/Tui/Requests/Flags.antt =====
-- internal/client/tui/app.go: the flags of an item after it is edited, and after `setItemFlag`.
use go_yandex_gophkeeper.Base.{
  String, true, false, List, [], ◌∷◌, ◌++◌, ℕ, Option, none, some, Result, ok, err, ◌≡◌, str_eq,
  eq_iff, ◌∙◌, sym, Bool-cases, ltb, length, get_elem?, refl, arith, inl, inr,
}
use go_yandex_gophkeeper.Server.Handler.Vault.{
  ItemType, unspecified, credential, text, binary, card, otp,
}
use go_yandex_gophkeeper.Client.Tui.Items.{VaultItem, Decoder}
use go_yandex_gophkeeper.Client.Tui.Json.{
  Value, Object, Parsed, Encoder, insert, delete, flag_of, is_field, is_bare, is_plain,
}
use go_yandex_gophkeeper.Client.Tui.Requests.{
  Request, create, update, Files, SaveError, present, present_history, object_of, ssh_object,
  file_object, with_folder, marshalled, unavailable, payload_of, save_request, requested,
  request_of, file_request, file_form, max_file_size, last_value,
}

-- The flags of an item.
pub data IsFlag : String → Type 0 where
  favorite : IsFlag "favorite"
  archived : IsFlag "archived"
  trashed : IsFlag "trashed"

-- What the client relies on: the flags of an object of known names are read back from its bytes,
-- also through a map.
pub record FlagLaws (json : Decoder) (enc : Encoder) : Type 0 where
  pub no_bytes : (k : String) → json.flag k [] ≡ false
  pub not_empty : enc.unmarshal [] ≡ Parsed.invalid
  pub of_struct :
      (k : String) (o : Object)
      → IsFlag k
      → is_plain o ≡ true
      → json.flag k (enc.marshal o) ≡ flag_of k o
  pub of_map :
      (k : String) (o : Object)
      → IsFlag k
      → is_plain o ≡ true
      → json.flag k (enc.marshal_map o) ≡ flag_of k o
  pub of_bytes :
      (k : String) (b : List ℕ) (o : Object)
      → IsFlag k
      → enc.unmarshal b ≡ Parsed.object o
      → is_plain o ≡ true
      → json.flag k b ≡ flag_of k o
  pub to_map :
      (o : Object)
      → is_plain o ≡ true
      → (o' : Object) × (enc.unmarshal (enc.marshal o) ≡ Parsed.object o') × (is_plain o' ≡ true)

bare-plain : (o : Object) → is_bare o ≡ true → is_plain o ≡ true
bare-plain [] h = refl
bare-plain ((k, v) ∷ o) h = grind (arith, bare-plain o)

not_field : {k : String} → IsFlag k → is_field k ≡ false
unfolding is_field
not_field favorite = refl
not_field archived = refl
not_field trashed = refl

-- A flag is not the name of a field.
flag_not_field : (j : String) {k : String} → IsFlag k → is_field j ≡ true → str_eq j k ≡ false
flag_not_field j {k} f h = elim (Bool-cases (str_eq j k)) [
  | inl e ↦
      let same : j ≡ k = (eq_iff j k).0 e in
      let no : is_field k ≡ false = not_field f in absurd (cc)
  | inr e ↦ e
]

bare_flag : (k : String) (o : Object) → IsFlag k → is_bare o ≡ true → flag_of k o ≡ false
bare_flag k [] f h = refl
bare_flag k ((j, v) ∷ o) f h = grind (arith, flag_not_field j f, bare_flag k o)

pub flag_of-delete :
    (j k : String) (o : Object) → str_eq j k ≡ false → flag_of k (delete j o) ≡ flag_of k o
flag_of-delete j k [] h = refl
flag_of-delete j k ((i, v) ∷ o) h =
    ground (arith, h, flag_of-delete j k o h, eq_iff i j, eq_iff j k, eq_iff i k)

pub delete-plain : (j : String) (o : Object) → is_plain o ≡ true → is_plain (delete j o) ≡ true
delete-plain j [] h = refl
delete-plain j ((i, v) ∷ o) h = ground (arith, delete-plain j o)

bare-append : (o o' : Object) → is_bare o ≡ true → is_bare o' ≡ true → is_bare (o ++ o') ≡ true
bare-append [] o' h h' = h'
bare-append ((k, v) ∷ o) o' h h' = ground (arith, bare-append o o')

present-bare : (k s : String) → is_field k ≡ true → is_bare (present k s) ≡ true
present-bare k s h = ground arith

history-bare : (h : List (String × ℕ)) → is_bare (present_history h) ≡ true
unfolding is_field
history-bare [] = refl
history-bare (h ∷ hs) = refl

abbrev BareIf : Option Object → Type 0
BareIf none = Unit
BareIf (some o) = is_bare o ≡ true

ssh-BareIf : (vs : List String) → BareIf (ssh_object vs)
unfolding is_field
ssh-BareIf (name ∷ key_type ∷ private_key ∷ public_key ∷ comment ∷ vs) =
    bare-append (present "public_key" public_key) _ (present-bare "public_key" public_key refl)
      (bare-append (present "comment" comment) _ (present-bare "comment" comment refl) refl)
ssh-BareIf vs = tt

abbrev payload_in : Request → List ℕ
payload_in (create typ payload meta) = payload
payload_in (update id payload meta) = payload

module _ ⦃json : Decoder⦄ ⦃enc : Encoder⦄ (laws : FlagLaws json enc) {k : String}
    (f : IsFlag k) where
  -- A payload, or a request, without the flag.
  abbrev Cleared : Option (List ℕ) → Type 0
  Cleared none = Unit
  Cleared (some b) = json.flag k b ≡ false

  abbrev pub ClearedIn : Result SaveError Request → Type 0
  ClearedIn (err e) = Unit
  ClearedIn (ok r) = json.flag k (payload_in r) ≡ false

  struct_cleared : (o : Object) → is_bare o ≡ true → json.flag k (enc.marshal o) ≡ false
  struct_cleared o h = laws.of_struct k o f (bare-plain o h) ∙ bare_flag k o f h

  map_cleared :
      (folder : String) (b : List ℕ) (o : Object)
      → enc.unmarshal b ≡ Parsed.object o
      → is_plain o ≡ true
      → json.flag k b ≡ false
      → json.flag k (enc.marshal_map (insert "folder" (Value.text folder) o)) ≡ false
  unfolding is_field
  map_cleared folder b o read plain h =
      let without = flag_of-delete "folder" k o (flag_not_field "folder" f refl) in
      laws.of_map k (insert "folder" (Value.text folder) o) f (delete-plain "folder" o plain)
      ∙ rw (flag_not_field "folder" f refl) (without ∙ sym (laws.of_bytes k b o f read plain) ∙ h)

  folder-Cleared :
      (folder : String) (o : Object)
      → is_bare o ≡ true
      → Cleared (with_folder folder (enc.marshal o))
  unfolding with_folder
  folder-Cleared folder o h = elim (Bool-cases (str_eq folder "")) [
    | inl e ↦ rw e (struct_cleared o h)
    | inr e ↦
        let (o', read, plain) = laws.to_map o (bare-plain o h) in
        rw (e, read) (map_cleared folder (enc.marshal o) o' read plain (struct_cleared o h))
  ]

  empty-Cleared : (folder : String) → Cleared (with_folder folder [])
  unfolding with_folder
  empty-Cleared folder = elim (Bool-cases (str_eq folder "")) [
    | inl e ↦ rw e (laws.no_bytes k)
    | inr e ↦ rw (e, laws.not_empty) (laws.no_bytes k)
  ]

  request_cleared :
      (typ : ItemType) (id meta : String) (b : List ℕ)
      → json.flag k b ≡ false
      → json.flag k (payload_in (request_of typ id meta b)) ≡ false
  request_cleared typ id meta b h = elim (Bool-cases (str_eq id "")) [
    | inl e ↦ rw e h
    | inr e ↦ rw e h
  ]

  sent :
      (typ : ItemType) (id meta : String) (o : Option (List ℕ))
      → Cleared o
      → ClearedIn
          (elim o [ none ↦ err unavailable | some bytes ↦ ok (request_of typ id meta bytes) ])
  sent typ id meta none h = tt
  sent typ id meta (some b) h = request_cleared typ id meta b h

  object_sent :
      (typ : ItemType) (id meta folder : String) (o : Option Object)
      → BareIf o
      → ClearedIn (requested typ id meta folder (marshalled o))
  object_sent typ id meta folder none h = tt
  object_sent typ id meta folder (some o) h =
      sent typ id meta (with_folder folder (enc.marshal o)) (folder-Cleared folder o h)

module _ ⦃json : Decoder⦄ ⦃enc : Encoder⦄ (now : ℕ) (items : List VaultItem) where
  object-BareIf :
      (typ : ItemType) (id : String) (vs : List String) → BareIf (object_of now items typ id vs)
  unfolding is_field
  object-BareIf credential id (name ∷ user ∷ password ∷ url ∷ totp ∷ notes ∷ vs) =
      bare-append (present "url" url) _ (present-bare "url" url refl) (
        bare-append (present "totp_key" totp) _ (present-bare "totp_key" totp refl) (
          bare-append (present "notes" notes) _ (present-bare "notes" notes refl) (history-bare _)))
  object-BareIf card id (name ∷ holder ∷ number ∷ month ∷ year ∷ cvv ∷ notes ∷ vs) =
      present-bare "notes" notes refl
  object-BareIf text id (name ∷ content ∷ vs) = refl
  object-BareIf binary id (name ∷ first ∷ last ∷ email ∷ phone ∷ company ∷ address ∷ notes ∷ vs) =
      bare-append (present "company" company) _ (present-bare "company" company refl) (
        bare-append (present "address" address) _ (present-bare "address" address refl)
          (present-bare "notes" notes refl))
  object-BareIf otp id (name ∷ secret ∷ issuer ∷ vs) = present-bare "issuer" issuer refl
  object-BareIf typ id vs = tt

  module _ (laws : FlagLaws json enc) {k : String} (f : IsFlag k) where
    payload_sent :
        (typ : ItemType) (id meta folder : String) (vs : List String)
        → ClearedIn laws f (requested typ id meta folder (payload_of now items typ id vs))
    payload_sent unspecified id meta folder vs =
        sent laws f unspecified id meta (with_folder folder []) (empty-Cleared laws f folder)
    payload_sent credential id meta folder vs =
        object_sent laws f credential id meta folder _ (object-BareIf credential id vs)
    payload_sent card id meta folder vs =
        object_sent laws f card id meta folder _ (object-BareIf card id vs)
    payload_sent text id meta folder vs =
        object_sent laws f text id meta folder _ (object-BareIf text id vs)
    payload_sent binary id meta folder vs =
        object_sent laws f binary id meta folder _ (object-BareIf binary id vs)
    payload_sent otp id meta folder vs =
        object_sent laws f otp id meta folder _ (object-BareIf otp id vs)

    module _ ⦃files : Files⦄ where
      file_sent :
          (typ : ItemType) (id name folder path : String) (bytes : Option (List ℕ))
          → ClearedIn laws f (file_request typ id name folder path bytes)
      unfolding is_field
      file_sent typ id name folder path none = tt
      file_sent typ id name folder path (some bytes) =
          elim (Bool-cases (ltb max_file_size (length bytes))) [
            | inl e ↦ rw e tt
            | inr e ↦
                rw e
                  (object_sent laws f typ id name folder (some (file_object name path bytes)) refl)
          ]

      form_sent :
          (typ : ItemType) (id name folder : String) (path : Option String)
          → ClearedIn laws f (file_form typ id name folder path)
      form_sent typ id name folder none = tt
      form_sent typ id name folder (some path) =
          file_sent typ id name folder (files.trim_space path)
            (files.read_file (files.trim_space path))

      -- Whatever form is saved, for a new item or an edited one, and whatever its values are: a payload
      -- that the client sends has none of the flags "favorite", "archived" and "trashed".
      pub save_request-cleared :
          (typ : ItemType) (id title : String) (vs : List String)
          → ClearedIn laws f (save_request now items typ id title vs)
      unfolding save_request
      save_request-cleared typ id title [] = tt
      save_request-cleared typ id title (name ∷ vs) = elim (Bool-cases (str_eq title "File")) [
        | inl e ↦ rw e (form_sent typ id name (last_value name vs) (get_elem? (name ∷ vs) 1))
        | inr e ↦ elim (Bool-cases (str_eq title "SSH Key")) [
          | inl e' ↦
              rw (e, e')
                (object_sent laws f typ id name (last_value name vs) _ (ssh-BareIf (name ∷ vs)))
          | inr e' ↦ rw (e, e') (payload_sent typ id name (last_value name vs) (name ∷ vs))
        ]
      ]
