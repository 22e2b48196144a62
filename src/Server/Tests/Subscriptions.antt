-- ===== src/Server/Tests/Subscriptions.antt =====
-- Examples of subscriptions and of a sync stream.
use go_yandex_gophkeeper.Server.Wire.{subscribe_stream_lem}
use go_yandex_gophkeeper.Server.Pages.{matching}
use go_yandex_gophkeeper.Server.Delivery.Channels.{has}
use go_yandex_gophkeeper.Base.{
  ◌&&◌, ◌∷◌, ◌≤◌, ◌≡◌, ◌++◌, some, none, ℕ, [], refl, if◌then◌else◌, ok, ltb, false, length, true,
  take,
}
use go_yandex_gophkeeper.Server.Tests.Demo.{demo, acting_as, demo_world}
use go_yandex_gophkeeper.Server.Handler.Sync.{subscribe_stream, snapshot, sync_filter}
use go_yandex_gophkeeper.Server.Delivery.Race.{notify_cancel, notify_cancel_panics}
use go_yandex_gophkeeper.Server.Delivery.Safety.{
  ReachableHub, later, start, subscribes, reachable-notify, reachable-cancel,
}
use go_yandex_gophkeeper.Server.Service.Sync.{subscribe, notify, cancel, new_hub, cancelled}
use go_yandex_gophkeeper.Server.World.{Env, Hub, delete}

abbrev E : Env
E = demo 900

-- One subscriber of user 1, with channel 0.
abbrev hub1 : Hub
hub1 = (subscribe 1 new_hub).1

hub1-ReachableHub : ReachableHub hub1
hub1-ReachableHub = later start (subscribes 1)

reachable-cancel_example :
    (cancel 1 0 hub1 ≡ some (cancelled 1 0 hub1))
    × (has 0 ((cancelled 1 0 hub1).subscribers 1) ≡ false)
    × (((cancelled 1 0 hub1).chans 0).closed ≡ true)
unfolding subscribe
reachable-cancel_example = reachable-cancel hub1-ReachableHub 1 0 refl

reachable-notify_example :
    (h' : Hub) × (notify 1 (delete 11) hub1 ≡ some h')
    × (h'.subscribers ≡ hub1.subscribers)
    × ((ch : ℕ)
        → h'.chans ch ≡ (
            if has ch (hub1.subscribers 1) && ltb (length (hub1.chans ch).buffer) 32
            then record { buffer = (hub1.chans ch).buffer ++ delete 11 ∷ []; closed = false }
            else hub1.chans ch))
    × ((ch : ℕ) → length (hub1.chans ch).buffer ≤ 32)
    × ((ch : ℕ) → length (h'.chans ch).buffer ≤ 32)
reachable-notify_example = reachable-notify hub1-ReachableHub 1 (delete 11)

notify_cancel_panics_example : notify_cancel 1 0 (delete 11) hub1 ≡ none
unfolding subscribe
notify_cancel_panics_example = notify_cancel_panics hub1-ReachableHub 1 0 (delete 11) [] refl

subscribe_stream_lem_example :
    ((subscribe_stream ⦃env = E⦄ (acting_as 1) ((11, 1) ∷ []) demo_world).0
      ≡ ok (snapshot ((11, 1) ∷ []) (take 50 (matching 1 sync_filter demo_world.db.items)), 0))
    × (length (snapshot ((11, 1) ∷ []) (take 50 (matching 1 sync_filter demo_world.db.items))) ≤ 50)
subscribe_stream_lem_example =
    subscribe_stream_lem ⦃env = E⦄ (acting_as 1) 1 ((11, 1) ∷ []) demo_world refl refl refl
