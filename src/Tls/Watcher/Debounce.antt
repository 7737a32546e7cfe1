-- ===== src/Tls/Watcher/Debounce.antt =====
-- The debounced reload of internal/tls/watcher.go.
use tlspxy.Common.{
  ℕ, ◌+◌, ◌≤◌, Bool, true, false, ◌&&◌, ◌||◌, List, [], ◌∷◌, if◌then◌else◌, ◌≡◌, refl, arith,
  Bool-cases, inl, inr,
}
use tlspxy.Tls.CertStore.{CertStore, Loader, reload_all}
use tlspxy.Tls.Watcher.{
  PathOps, FsEvent, Watcher, relevant_event, watch, on_event, on_timer, WatchStep, cancelled, event,
  timer_case, channel_closed, error, expire, Watches, here, next,
}

-- The loop's flag tells exactly whether a reload is pending, and time runs on one timer.
pub record IsWatching {C : Type 0} (w : Watcher C) : Type 0 where
  pub active : w.timer_active ≡ (w.timer.running || w.timer.fired)
  pub single : (w.timer.running && w.timer.fired) ≡ false

module _ {C : Type 0} (ops : PathOps) where
  WatchStep-IsWatching : {w u : Watcher C} → WatchStep ops w u → IsWatching w → IsWatching u
  unfolding on_event on_timer
  WatchStep-IsWatching (cancelled w s) h = ground arith
  WatchStep-IsWatching (event w e s) h = ground arith
  WatchStep-IsWatching (timer_case w load s f) h = ground arith
  WatchStep-IsWatching (channel_closed w s) h = ground arith
  WatchStep-IsWatching (error w s) h = h
  WatchStep-IsWatching (expire w r) h = ground arith

  Watches-keeps : {w u : Watcher C} → IsWatching w → Watches ops w u → IsWatching u
  Watches-keeps h here = h
  Watches-keeps h (next r s) = WatchStep-IsWatching s (Watches-keeps h r)

  -- However the watcher runs, its flag holds exactly while a reload is due, and no expiry of an
  -- earlier window waits beside a running timer.
  pub Watches-IsWatching :
      (cs : CertStore C) {w : Watcher C} → Watches ops (watch ops cs) w → IsWatching w
  unfolding watch
  Watches-IsWatching cs r = Watches-keeps (ground arith) r

  abbrev pub any_relevant : Watcher C → List FsEvent → Bool
  any_relevant w [] = false
  any_relevant w (e ∷ events) = relevant_event ops e w.watched_files w.dirs || any_relevant w events

  abbrev pub on_events : List FsEvent → Watcher C → Watcher C
  on_events [] w = w
  on_events (e ∷ events) w = on_events events (on_event ops e w)

  -- The state once a window has been started and nothing has expired since.
  abbrev pub window_open : Watcher C → Watcher C
  window_open w = record w { timer = record { running = true; fired = false }; timer_active = true }

  on_event_window :
      (w : Watcher C) (e : FsEvent)
      → on_event ops e w
        ≡ (if relevant_event ops e w.watched_files w.dirs then window_open w else w)
  unfolding on_event
  on_event_window w e = ground arith

  any_relevant-window_open :
      (w : Watcher C) (events : List FsEvent)
      → any_relevant (window_open w) events ≡ any_relevant w events
  any_relevant-window_open w [] = refl
  any_relevant-window_open w (e ∷ events) = ground (arith, any_relevant-window_open w events)

  on_events-window_open :
      (w : Watcher C) (events : List FsEvent) → on_events events (window_open w) ≡ window_open w
  on_events-window_open w [] = refl
  on_events-window_open w (e ∷ events) =
      ground (arith, on_event_window (window_open w) e, on_events-window_open w events)

  -- A burst of events opens one window if one of them is relevant, and else changes nothing: no
  -- reload happens in between, and an expiry that was due is dropped.
  pub burst :
      (w : Watcher C) (events : List FsEvent)
      → on_events events w ≡ (if any_relevant w events then window_open w else w)
  burst w [] = refl
  burst w (e ∷ events) =
      ground (arith, on_event_window w e, on_events-window_open w events, burst w events)

  unfoldable pub relevants : {w u : Watcher C} → Watches ops w u → ℕ
  relevants here = 0
  relevants (next r (event w e s)) =
      let n = relevants r in if relevant_event ops e w.watched_files w.dirs then n + 1 else n
  relevants (next r _) = relevants r

  -- From a window that is open, in a run without another relevant event: one reload, when the window
  -- is over, and none before.
  record FollowsWindow (w u : Watcher C) : Type 0 where
    watching : IsWatching u
    counted : u.reloads ≡ (if u.timer_active then w.reloads else w.reloads + 1)
    waits : u.timer_active ≡ true → u.store ≡ w.store

  run-FollowsWindow :
      (w : Watcher C) {o u : Watcher C} (r : Watches ops o u)
      → o ≡ window_open w
      → relevants r ≡ 0
      → FollowsWindow w u
  unfolding relevants on_timer
  run-FollowsWindow w here from quiet =
      rw from (record { watching = ground arith; counted = refl; waits = λ on. refl })
  run-FollowsWindow w (next r (cancelled u s)) from quiet =
      let f = run-FollowsWindow w r from quiet in
      record { watching = ground (arith, f.watching); counted = f.counted; waits = f.waits }
  run-FollowsWindow w (next r (event u e s)) from quiet =
      let same : on_event ops e u ≡ u = ground (arith, on_event_window u e, quiet) in
      rw same (run-FollowsWindow w r from (ground (arith, quiet)))
  run-FollowsWindow w (next r (timer_case u load s f)) from quiet =
      let before = run-FollowsWindow w r from quiet in
      let active : u.timer_active ≡ true = ground (arith, before.watching, f) in
      record {
        watching = ground (arith, before.watching, f);
        counted = ground (arith, before.counted, active);
        waits = λ on. ground (arith, on);
      }
  run-FollowsWindow w (next r (channel_closed u s)) from quiet =
      let f = run-FollowsWindow w r from quiet in
      record { watching = ground (arith, f.watching); counted = f.counted; waits = f.waits }
  run-FollowsWindow w (next r (error u s)) from quiet = run-FollowsWindow w r from quiet
  run-FollowsWindow w (next r (expire u x)) from quiet =
      let f = run-FollowsWindow w r from quiet in
      record { watching = ground (arith, f.watching, x); counted = f.counted; waits = f.waits }

  -- A watcher that runs can go on to the end of its window, if it is open, with one reload.
  reloads_next :
      (load : Loader C) (u : Watcher C)
      → IsWatching u
      → u.stopped ≡ false
      → (v : Watcher C) × Watches ops u v
        × (v.timer_active ≡ false)
        × (v.reloads ≡ (if u.timer_active then u.reloads + 1 else u.reloads))
        × (v.store ≡ (if u.timer_active then (reload_all load u.store).0 else u.store))
  unfolding on_timer
  reloads_next load u h s = elim (Bool-cases u.timer_active) [
    | inr idle ↦ (u, here, idle, ground (arith, idle), ground (arith, idle))
    | inl on ↦ elim (Bool-cases u.timer.fired) [
      | inl due ↦ (
        on_timer load u,
        next here (timer_case u load s due),
        refl,
        ground (arith, on),
        ground (arith, on),
      )
      | inr runs ↦
          let running : u.timer.running ≡ true = ground (arith, h, on, runs) in
          let expired : Watcher C = record u { timer = record { running = false; fired = true } } in
          (
            on_timer load expired,
            next (next here (expire u running)) (timer_case expired load s refl),
            refl,
            ground (arith, on),
            ground (arith, on),
          )
    ]
  ]

  -- A burst of events, one of them relevant, opens one window anew and does nothing else: no
  -- reload, even if an expiry was due. In any run from there without another relevant event, in
  -- which the watcher is not stopped, there has been no reload while the window is open and exactly
  -- one once it is over; and the watcher can go on to the end of the window, by then with exactly
  -- that one reload, by the files as they are then, whether it fails or not.
  pub reload_after_burst :
      (load : Loader C) (w : Watcher C) (events : List FsEvent) {u : Watcher C}
      → any_relevant w events ≡ true
      → (r : Watches ops (on_events events w) u) → relevants r ≡ 0
      → u.stopped ≡ false
      → (on_events events w ≡ window_open w)
        × (u.reloads ≡ (if u.timer_active then w.reloads else w.reloads + 1))
        × ((v : Watcher C) × Watches ops u v
            × (v.timer_active ≡ false)
            × (v.reloads ≡ w.reloads + 1)
            × (v.store ≡ (if u.timer_active then (reload_all load w.store).0 else u.store)))
  reload_after_burst load w events {u} some_relevant r quiet s =
      let opened : on_events events w ≡ window_open w = ground (arith, burst w events) in
      let f = run-FollowsWindow w r opened quiet in
      let (v, run, over, reloads, store) = reloads_next load u f.watching s in
      (
        opened,
        f.counted,
        (
          v,
          run,
          over,
          ground (arith, reloads, f.counted),
          (elim (Bool-cases u.timer_active) [
            | inl on ↦ ground (arith, store, on, f.waits on)
            | inr off ↦ ground (arith, store, off)
          ]),
        ),
      )

  -- A reload that is due counts as one more.
  abbrev due : Watcher C → ℕ
  due w = if w.timer_active then 1 else 0

  reloads_due :
      (cs : CertStore C) {w : Watcher C} (r : Watches ops (watch ops cs) w)
      → w.reloads + due w ≤ relevants r
  unfolding relevants watch on_timer
  reloads_due cs here = omega arith
  reloads_due cs (next r (cancelled w s)) = reloads_due cs r
  reloads_due cs (next r (event w e s)) = ground (arith, reloads_due cs r, on_event_window w e)
  reloads_due cs (next r (timer_case w load s f)) =
      ground (arith, reloads_due cs r, Watches-IsWatching cs r)
  reloads_due cs (next r (channel_closed w s)) = reloads_due cs r
  reloads_due cs (next r (error w s)) = reloads_due cs r
  reloads_due cs (next r (expire w x)) = reloads_due cs r

  -- However the watcher runs, it never reloads more often than relevant events have come.
  pub reloads_bounded :
      (cs : CertStore C) {w : Watcher C} (r : Watches ops (watch ops cs) w)
      → w.reloads ≤ relevants r
  reloads_bounded cs {w} r = omega (arith, reloads_due cs r)
