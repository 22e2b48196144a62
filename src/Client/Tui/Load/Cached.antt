-- ===== src/Client/Tui/Load/Cached.antt =====
-- internal/client/tui/app.go: `loadItems` when the server answers no more.
use go_yandex_gophkeeper.Base.{String, List, ◌≡◌, Option, none, some, ok, false, ap, refl}
use go_yandex_gophkeeper.Crypto.Keys.{Primitives, PrimitiveLaws}
use go_yandex_gophkeeper.Client.Config.{Config}
use go_yandex_gophkeeper.Client.Tui.Items.{VaultItem}
use go_yandex_gophkeeper.Client.LocalCache
use go_yandex_gophkeeper.Client.LocalCache.{CacheCodec, CacheDisk, cache_key}
use go_yandex_gophkeeper.Client.LocalCache.RoundTrip.{CodecLaws, load-save_cache}
use go_yandex_gophkeeper.Client.Tui.App.Cmd.{loaded, offline_loaded}
use go_yandex_gophkeeper.Client.Tui.Load.{cached, load_items, try_load_cache, no_cache, ListRequest}

module _ ⦃codec : CacheCodec⦄ ⦃prim : Primitives⦄ where
  -- What the server answered to the request for 1000 items is what the client shows, and it is shown
  -- again, with the time of the copy, when the server does not answer the next time, as long as the
  -- settings are the same and the copy could be written.
  pub offline_again :
      (laws : CodecLaws codec) (prim_laws : PrimitiveLaws prim) (cfg : Config)
      (up down : ListRequest → Option (List VaultItem × String)) (items : List VaultItem)
      (next : String) (d : CacheDisk)
      → up (record { limit = 1000 }) ≡ some (items, next)
      → down (record { limit = 1000 }) ≡ none
      → no_cache cfg ≡ false
      → (LocalCache.save (cache_key cfg.refresh_token) items d).0 ≡ ok tt
      → ((load_items cfg up d).0 ≡ loaded items)
        × ((load_items cfg down (load_items cfg up d).1).0 ≡ offline_loaded items d.clock)
  unfolding load_items try_load_cache
  offline_again laws prim_laws cfg up down items next d a b kept h = (
    rw a refl,
    rw (a, b, kept, load_items)
        (ap cached (load-save_cache laws prim_laws (cache_key cfg.refresh_token) items d h)),
  )
