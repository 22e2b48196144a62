-- ===== src/Server/Delivery/Race.antt =====
-- `notify` reads the list of subscribers under the lock and sends after it has given the lock up.
use go_yandex_gophkeeper.Server.Integrity.{NoClash}
use mathlib.Core.Path.{subst}
use go_yandex_gophkeeper.Server.Delivery.Channels.{has, same_chan, has-append, send_all-closed}
use go_yandex_gophkeeper.Base.{
  ◌∷◌, ◌≡◌, ◌++◌, ℕ, List, drop, [], Option, false, length, none, true, some, arith, refl,
}
use go_yandex_gophkeeper.Server.Delivery.Safety.{
  ReachableHub, ReachableHub-IsWellFormed, cancel-open,
}
use go_yandex_gophkeeper.Server.Service.Sync.{cancel, remove_first, send_all, with_chans, cancelled}
use go_yandex_gophkeeper.Server.World.{Hub, SyncEvent}

-- The array behind a slice after `append(subs[:i], subs[i+1:]...)`: the elements move up, and the
-- last place keeps what it held.
unfoldable pub shifted : ℕ → List ℕ → List ℕ
unfolding remove_first
shifted ch cs = remove_first ch cs ++ drop (length (remove_first ch cs)) cs

-- `notify`, with the cleanup function of `ch` run between its reading of the list and its loop.
unfoldable pub notify_cancel : ℕ → ℕ → SyncEvent → Hub → Option Hub
unfolding cancel send_all shifted
notify_cancel user ch evt h = elim (cancel user ch h) [
  | none ↦ none
  | some h' ↦ with_chans h' (send_all evt (shifted ch (h.subscribers user)) h'.chans)
]

has-shifted :
    (ch : ℕ) (cs : List ℕ) → has ch cs ≡ false → has ch (shifted ch (cs ++ ch ∷ [])) ≡ true
unfolding shifted remove_first
has-shifted ch [] h = ground arith
has-shifted ch (c ∷ cs) h = ground (arith, has-shifted ch cs)

last_fresh : (ch : ℕ) (cs : List ℕ) → NoClash same_chan (cs ++ ch ∷ []) → has ch cs ≡ false
last_fresh ch [] h = refl
last_fresh ch (c ∷ cs) h = ground (arith, last_fresh ch cs, has-append c cs (ch ∷ []))

-- When the newest subscriber of a user leaves between the moment at which `notify` reads the list and
-- its loop, the event is sent to a closed channel: the server panics.
pub notify_cancel_panics :
    {h : Hub} (r : ReachableHub h) (user ch : ℕ) (evt : SyncEvent) (cs : List ℕ)
    → h.subscribers user ≡ cs ++ ch ∷ []
    → notify_cancel user ch evt h ≡ none
unfolding notify_cancel
notify_cancel_panics {h = h} r user ch evt cs e =
    let wf = ReachableHub-IsWellFormed r in
    let fresh = last_fresh ch cs (subst (NoClash same_chan) e (wf.distinct user)) in
    let mine : has ch (h.subscribers user) ≡ true =
      rw e (ground (arith, has-append ch cs (ch ∷ []))) in
    rw (notify_cancel, cancel-open wf user ch mine)
      (rw
        (send_all-closed evt (shifted ch (h.subscribers user)) (cancelled user ch h).chans ch
          (rw e (has-shifted ch cs fresh)) (ground arith))
        refl)
