-- ===== src/Client/Tui/Load.antt =====
-- internal/client/tui/app.go: `loadItems` and `tryLoadCache`.
pub mod Cached
use go_yandex_gophkeeper.Base.{
  String, List, ℕ, Bool, Option, none, some, Result, ok, err, ◌||◌, str_eq, if◌then◌else◌,
}
use go_yandex_gophkeeper.Crypto.Keys.{Primitives}
use go_yandex_gophkeeper.Client.Config.{Config}
use go_yandex_gophkeeper.Client.Tui.Items.{VaultItem}
use go_yandex_gophkeeper.Client.LocalCache
use go_yandex_gophkeeper.Client.LocalCache.{CacheCodec, CacheDisk, CacheError, cache_key}
use go_yandex_gophkeeper.Client.Tui.App.Cmd.{Msg, loaded, offline_loaded}
use go_yandex_gophkeeper.Client.Tui.App.Cmd

-- No cache is kept without a refresh token or a path.
abbrev pub no_cache : Config → Bool
no_cache cfg = str_eq cfg.refresh_token "" || str_eq cfg.vault_path ""

-- The limit of the request.
abbrev pub list_limit : ℕ
list_limit = 1000

-- `ListItemsRequest`, whose type filter and cursor are empty. The server (`ListItems`) is a function
-- from the request to the items and the cursor of a page, or no answer, after an error or a panic.
pub record ListRequest : Type 0 where
  pub limit : ℕ

module _ ⦃codec : CacheCodec⦄ ⦃prim : Primitives⦄ where
  abbrev pub cached : Result CacheError (List VaultItem × ℕ) → Msg
  cached (err e) = Cmd.err "server unavailable"
  cached (ok (items, age)) = offline_loaded items age

  -- `tryLoadCache`, with what is in the file at the path.
  unfoldable pub try_load_cache : Config → CacheDisk → Msg
  unfolding LocalCache.load cache_key
  try_load_cache cfg d =
      if no_cache cfg
      then Cmd.err "server unavailable"
      else cached (LocalCache.load (cache_key cfg.refresh_token) d.file)

  abbrev pub shown : Config → Option (List VaultItem × String) → CacheDisk → Msg × CacheDisk
  shown cfg none d = (try_load_cache cfg d, d)
  shown cfg (some (items, next)) d = (
    loaded items,
    if no_cache cfg then d else (LocalCache.save (cache_key cfg.refresh_token) items d).1,
  )

  -- `loadItems`: one request; the cursor of its answer is not used, and a failure to save is dropped.
  unfoldable pub load_items :
      Config → (ListRequest → Option (List VaultItem × String)) → CacheDisk → Msg × CacheDisk
  unfolding try_load_cache LocalCache.save
  load_items cfg list_items d = shown cfg (list_items (record { limit = list_limit })) d
