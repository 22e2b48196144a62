-- ===== src/Server/Delivery/Safety.antt =====
-- The steps of the hub of internal/server/service/sync.go, and its well-formedness.
use mathlib.Core.Path.{subst}
use go_yandex_gophkeeper.Server.Handler.Sync.{ProtoEvent, receive, next_event, left_with}
use go_yandex_gophkeeper.Server.Integrity.{NoClash}
use go_yandex_gophkeeper.Server.Delivery.Channels.{
  has, has-append, same_chan, NoClash-snoc, has-remove_first, offered, send_all-open,
  remove_first_gone, NoClash-remove_first,
}
use go_yandex_gophkeeper.Base.{
  ℕ, ◌≡◌, ◌<◌, ◌∷◌, ◌≤◌, arith, false, true, some, [], Bool-cases, inl, length, inr, if◌then◌else◌,
  refl, ◌∙◌, List, sym, Option, ap, length-append, ◌++◌, ◌&&◌, ltb,
}
use go_yandex_gophkeeper.Server.Service.Sync.{
  cancel, new_hub, subscribe, notify, capacity, cancelled,
}
use go_yandex_gophkeeper.Server.World.{Hub, SyncEvent}

-- The steps of a hub: the function that `Subscribe` returns is called while its channel is
-- subscribed, since each handler calls it once.
pub data HubStep (h : Hub) : Hub → Type 0 where
  subscribes : (user : ℕ) → HubStep h (subscribe user h).1
  cancels :
      (user ch : ℕ) {h' : Hub}
      → has ch (h.subscribers user) ≡ true
      → cancel user ch h ≡ some h'
      → HubStep h h'
  notifies : (user : ℕ) (evt : SyncEvent) {h' : Hub} → notify user evt h ≡ some h' → HubStep h h'
  receives : (ch : ℕ) {e : ProtoEvent} {h' : Hub} → receive ch h ≡ some (e, h') → HubStep h h'

pub data ReachableHub : Hub → Type 0 where
  start : ReachableHub new_hub
  later : {h h' : Hub} → ReachableHub h → HubStep h h' → ReachableHub h'

-- A subscribed channel has been made, is open, is in one place of one user's list, and no channel
-- holds more than its capacity.
pub record IsWellFormed (h : Hub) : Type 0 where
  pub live : (u ch : ℕ) → has ch (h.subscribers u) ≡ true → (h.chans ch).closed ≡ false
  pub made : (u ch : ℕ) → has ch (h.subscribers u) ≡ true → ch < h.made
  pub apart :
      (u v ch : ℕ) → has ch (h.subscribers u) ≡ true → has ch (h.subscribers v) ≡ true → u ≡ v
  pub distinct : (u : ℕ) → NoClash same_chan (h.subscribers u)
  pub bounded : (ch : ℕ) → length (h.chans ch).buffer ≤ capacity

new_hub-IsWellFormed : IsWellFormed new_hub
new_hub-IsWellFormed = record {
  live = λ u ch h. cc;
  made = λ u ch h. absurd (cc);
  apart = λ u v ch h k. absurd (cc);
  distinct = λ u. tt;
  bounded = λ ch. omega arith;
}

next_inj :
    {e e' : ProtoEvent} {h h' : Hub}
    → Path (Option (ProtoEvent × Hub)) (some (e, h)) (some (e', h'))
    → h ≡ h'
next_inj p = cc

hub_inj : {h h' : Hub} → Path (Option Hub) (some h) (some h') → h ≡ h'
hub_inj p = cc

module _ {h : Hub} (wf : IsWellFormed h) where
  fresh : (u : ℕ) → has h.made (h.subscribers u) ≡ false
  fresh u = elim (Bool-cases (has h.made (h.subscribers u))) [
    | inl e ↦ absurd (omega (arith, wf.made u h.made e))
    | inr e ↦ e
  ]

  subscribe-IsWellFormed : (user : ℕ) → IsWellFormed (subscribe user h).1
  unfolding subscribe
  subscribe-IsWellFormed user = record {
    live = λ u ch m.
        ground (arith, wf.live u ch, has-append ch (h.subscribers u) (h.made ∷ []), fresh u);
    made = λ u ch m. ground (arith, wf.made u ch, has-append ch (h.subscribers u) (h.made ∷ []));
    apart = λ u v ch m n. ground (
      arith,
      wf.apart u v ch,
      has-append ch (h.subscribers u) (h.made ∷ []),
      has-append ch (h.subscribers v) (h.made ∷ []),
      fresh u,
      fresh v,
    );
    distinct = λ u. ground (arith, wf.distinct u, NoClash-snoc h.made (h.subscribers u), fresh u);
    bounded = λ ch. ground (arith, wf.bounded ch);
  }

  pub cancel-open :
      (user ch : ℕ)
      → has ch (h.subscribers user) ≡ true
      → cancel user ch h ≡ some (cancelled user ch h)
  unfolding cancel
  cancel-open user ch m = rw (wf.live user ch m) refl

  cancelled-IsWellFormed :
      (user ch : ℕ) → has ch (h.subscribers user) ≡ true → IsWellFormed (cancelled user ch h)
  cancelled-IsWellFormed user ch m = record {
    live = λ u c n. ground (
      arith,
      wf.live u c,
      wf.apart u user c,
      has-remove_first c ch (h.subscribers user),
      remove_first_gone ch (h.subscribers user),
      wf.distinct user,
    );
    made = λ u c n. ground (arith, wf.made u c, has-remove_first c ch (h.subscribers user));
    apart = λ u v c n k. ground (arith, wf.apart u v c, has-remove_first c ch (h.subscribers user));
    distinct = λ u. ground (arith, wf.distinct u, NoClash-remove_first ch (h.subscribers user));
    bounded = λ c. ground (arith, wf.bounded c);
  }

  pub notify-open :
      (user : ℕ) (evt : SyncEvent)
      → (h' : Hub) × (notify user evt h ≡ some h')
        × (h'.subscribers ≡ h.subscribers)
        × (h'.made ≡ h.made)
        × ((ch : ℕ)
            → h'.chans ch
              ≡ (if has ch (h.subscribers user) then offered evt (h.chans ch) else h.chans ch))
  unfolding notify
  notify-open user evt =
      let (chans, e, law) =
        send_all-open evt (h.subscribers user) h.chans (wf.distinct user) (wf.live user) in
      (record h { chans = chans }, rw e refl, refl, refl, law)

  notify-IsWellFormed :
      (user : ℕ) (evt : SyncEvent) {h' : Hub} → notify user evt h ≡ some h' → IsWellFormed h'
  notify-IsWellFormed user evt {h' = h'} e =
      let (h1, e1, subs, made1, law) = notify-open user evt in
      subst IsWellFormed (hub_inj (sym e1 ∙ e)) (record {
        live = λ u c n. ground (arith, law c, wf.live u c, ap (λ s. s u) subs);
        made = λ u c n. ground (arith, wf.made u c, ap (λ s. s u) subs, made1);
        apart = λ u v c n k. ground (arith, wf.apart u v c, ap (λ s. s u) subs, ap (λ s. s v) subs);
        distinct = λ u. subst (λ s. NoClash same_chan (s u)) (sym subs) (wf.distinct u);
        bounded =
            λ c. ground (arith, law c, wf.bounded c, length-append (h.chans c).buffer (evt ∷ []));
      })

  left_with-IsWellFormed :
      (ch : ℕ) (evt : SyncEvent) (rest : List SyncEvent)
      → (h.chans ch).buffer ≡ evt ∷ rest
      → IsWellFormed (left_with ch rest h)
  left_with-IsWellFormed ch evt rest e = record {
    live = λ u c n. ground (arith, wf.live u c);
    made = wf.made;
    apart = wf.apart;
    distinct = wf.distinct;
    bounded = λ c. ground (arith, wf.bounded c, ap length e);
  }

  next_event-IsWellFormed :
      (ch : ℕ) (buffer : List SyncEvent) {e : ProtoEvent} {h' : Hub}
      → (h.chans ch).buffer ≡ buffer
      → next_event ch h buffer ≡ some (e, h')
      → IsWellFormed h'
  next_event-IsWellFormed ch [] b e = absurd (cc)
  next_event-IsWellFormed ch (evt ∷ rest) b e =
      subst IsWellFormed (next_inj e) (left_with-IsWellFormed ch evt rest b)

  receive-IsWellFormed :
      (ch : ℕ) {e : ProtoEvent} {h' : Hub} → receive ch h ≡ some (e, h') → IsWellFormed h'
  unfolding receive
  receive-IsWellFormed ch e = next_event-IsWellFormed ch _ refl e

pub ReachableHub-IsWellFormed : {h : Hub} → ReachableHub h → IsWellFormed h
ReachableHub-IsWellFormed start = new_hub-IsWellFormed
ReachableHub-IsWellFormed (later r (subscribes user)) =
    subscribe-IsWellFormed (ReachableHub-IsWellFormed r) user
ReachableHub-IsWellFormed (later r (cancels user ch m e)) =
    let wf = ReachableHub-IsWellFormed r in
    subst IsWellFormed (hub_inj (sym (cancel-open wf user ch m) ∙ e))
      (cancelled-IsWellFormed wf user ch m)
ReachableHub-IsWellFormed (later r (notifies user evt e)) =
    notify-IsWellFormed (ReachableHub-IsWellFormed r) user evt e
ReachableHub-IsWellFormed (later r (receives ch e)) =
    receive-IsWellFormed (ReachableHub-IsWellFormed r) ch e

-- In every hub that the operations reach, one after another, the function that `Subscribe` returned
-- closes its channel without a panic, and takes it out of the list.
pub reachable-cancel :
    {h : Hub} (r : ReachableHub h) (user ch : ℕ)
    → has ch (h.subscribers user) ≡ true
    → (cancel user ch h ≡ some (cancelled user ch h))
      × (has ch ((cancelled user ch h).subscribers user) ≡ false)
      × (((cancelled user ch h).chans ch).closed ≡ true)
reachable-cancel {h = h} r user ch mine =
    let wf = ReachableHub-IsWellFormed r in
    (
      cancel-open wf user ch mine,
      ground (arith, remove_first_gone ch (h.subscribers user), wf.distinct user),
      ground arith,
    )

-- In every hub that the operations reach, one after another, `notify` panics on no channel; it puts
-- the event behind the others on every channel of the user that is not full, drops it on the full
-- ones, and changes no other channel; and no channel holds more than 32 events, before or after.
pub reachable-notify :
    {h : Hub} (r : ReachableHub h) (user : ℕ) (evt : SyncEvent)
    → (h' : Hub) × (notify user evt h ≡ some h')
      × (h'.subscribers ≡ h.subscribers)
      × ((ch : ℕ)
          → h'.chans ch ≡ (
              if has ch (h.subscribers user) && ltb (length (h.chans ch).buffer) 32
              then record { buffer = (h.chans ch).buffer ++ evt ∷ []; closed = false }
              else h.chans ch))
      × ((ch : ℕ) → length (h.chans ch).buffer ≤ 32)
      × ((ch : ℕ) → length (h'.chans ch).buffer ≤ 32)
reachable-notify r user evt =
    let wf = ReachableHub-IsWellFormed r in
    let (h', e, subs, made, law) = notify-open wf user evt in
    (
      h',
      e,
      subs,
      λ ch. ground (arith, law ch),
      wf.bounded,
      (notify-IsWellFormed wf user evt e).bounded,
    )
