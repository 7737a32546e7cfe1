-- ===== src/Tls/Watcher.antt =====
-- internal/tls/watcher.go: certificate files are watched, bursts of events are debounced, and one
-- reload follows. fsnotify is a parameter: its events are given, in any order. The paths of Go's
-- filepath (Abs, Clean, Dir) are parameters too. Timers have the meaning of Go 1.23 and later
-- (go.mod says 1.24): after Stop or Reset no earlier expiry is received.
pub mod Coverage
pub mod Debounce
use tlspxy.Common.{
  ℕ, ◌+◌, String, str_eq, Bool, true, false, ◌&&◌, ◌||◌, not, List, [], ◌∷◌, Option, none, some,
  if◌then◌else◌, ◌≡◌,
}
use tlspxy.Common.Result.{Result, ok, err}
use tlspxy.Tls.CertStore.{SniCertEntry, CertStore, Loader, StoreError, reload_all}

-- filepath.Abs (`none` is its error), filepath.Clean and filepath.Dir.
pub record PathOps : Type 0 where
  pub abs : String → Option String
  pub clean : String → String
  pub dir : String → String

unfoldable pub absolute : PathOps → String → String
absolute ops p = elim (ops.abs p) [ none ↦ ops.clean p | some q ↦ q ]

unfoldable pub entry_paths : List SniCertEntry → List String
entry_paths [] = []
entry_paths (e ∷ entries) = e.cert_path ∷ e.key_path ∷ entry_paths entries

-- The loop of certFilePaths: an empty path is skipped.
unfoldable pub absolute_paths : PathOps → List String → List String
unfolding absolute
absolute_paths ops [] = []
absolute_paths ops (p ∷ paths) =
    let rest = absolute_paths ops paths in if str_eq p "" then rest else absolute ops p ∷ rest

-- certFilePaths.
unfoldable pub cert_file_paths : {C : Type 0} → PathOps → CertStore C → List String
unfolding entry_paths absolute_paths
cert_file_paths ops cs =
    absolute_paths ops (cs.cert_path ∷ cs.key_path ∷ entry_paths cs.sni_entries)

-- A Go set of texts, asked for membership only.
abbrev pub has : String → List String → Bool
has s [] = false
has s (t ∷ ts) = str_eq t s || has s ts

unfoldable pub parent_dirs : PathOps → List String → List String
parent_dirs ops [] = []
parent_dirs ops (f ∷ files) = ops.dir f ∷ parent_dirs ops files

-- fsnotify.Event: `create` is the bit fsnotify.Create of Op.
pub record FsEvent : Type 0 where
  pub name : String
  pub create : Bool

-- relevantEvent.
unfoldable pub relevant_event : PathOps → FsEvent → List String → List String → Bool
unfolding absolute
relevant_event ops event watched_files dirs =
    let name = absolute ops event.name in
    if has name watched_files then true else event.create && has (ops.dir name) dirs

-- time.Timer: whether it runs, and whether an expiry waits in its channel.
pub record Timer : Type 0 where
  pub running : Bool
  pub fired : Bool

-- timer.Stop() returns whether it stopped a timer whose expiry nobody had received.
unfoldable pub stop : Timer → Timer × Bool
stop t = (record { running = false; fired = false }, t.running || t.fired)

-- A non-blocking receive from timer.C.
unfoldable pub drain : Timer → Timer
drain t = record t { fired = false }

unfoldable pub reset : Timer → Timer
reset t = record { running = true; fired = false }

-- The goroutine of watchLoop; `reloads` counts its calls of ReloadAll.
pub record Watcher (C : Type 0) : Type 0 where
  pub store : CertStore C
  pub watched_files : List String
  pub dirs : List String
  pub timer : Timer
  pub timer_active : Bool
  pub stopped : Bool
  pub reloads : ℕ

pub data WatchError : Type 0 where
  creating_watcher : WatchError
  watching_directory : String → WatchError

-- Watch adds each directory; Go goes over the set of directories in no fixed order.
unfoldable pub add_dirs : (String → Bool) → List String → Option WatchError
add_dirs add [] = none
add_dirs add (d ∷ dirs) =
    let rest = add_dirs add dirs in if add d then rest else some (watching_directory d)

module _ {C : Type 0} where
  -- The loop that Watch starts, once the directories are added: it starts with a stopped timer.
  unfoldable pub watch : PathOps → CertStore C → Watcher C
  unfolding cert_file_paths parent_dirs
  watch ops cs =
      let files = cert_file_paths ops cs in
      record {
        store = cs;
        watched_files = files;
        dirs = parent_dirs ops files;
        timer = record { running = false; fired = false };
        timer_active = false;
        stopped = false;
        reloads = 0;
      }

  -- Watch: an error where fsnotify starts no watcher (`created`), or where a directory cannot be
  -- added.
  unfoldable pub start_watch :
      Bool → (String → Bool) → PathOps → CertStore C → Result WatchError (Watcher C)
  unfolding watch add_dirs
  start_watch created add ops cs =
      let w = watch ops cs in
      if created
      then elim (add_dirs add w.dirs) [ none ↦ ok w | some problem ↦ err problem ]
      else err creating_watcher

  -- `if timerActive && !timer.Stop() { drain }`: Stop is called only if timerActive holds.
  unfoldable pub stop_active : Watcher C → Timer
  unfolding stop drain
  stop_active w =
      if w.timer_active
      then (let (t, was_running) = stop w.timer in if was_running then t else drain t)
      else w.timer

  -- The case of watcher.Events.
  unfoldable pub on_event : PathOps → FsEvent → Watcher C → Watcher C
  unfolding relevant_event stop_active reset
  on_event ops event w =
      if relevant_event ops event w.watched_files w.dirs
      then record w { timer = reset (stop_active w); timer_active = true }
      else w

  -- The case of timer.C: the expiry is received, and the store reloads, whatever comes of it.
  unfoldable pub on_timer : Loader C → Watcher C → Watcher C
  on_timer load w = record w {
    timer = record w.timer { fired = false };
    timer_active = false;
    store = (reload_all load w.store).0;
    reloads = w.reloads + 1;
  }

  -- What can happen next: a ready case of the select, or time that passes.
  pub data WatchStep (ops : PathOps) : Watcher C → Watcher C → Type 0 where
    cancelled : (w : Watcher C) → w.stopped ≡ false → WatchStep ops w (record w { stopped = true })
    event : (w : Watcher C) (e : FsEvent) → w.stopped ≡ false → WatchStep ops w (on_event ops e w)
    timer_case :
        (w : Watcher C) (load : Loader C)
        → w.stopped ≡ false
        → w.timer.fired ≡ true
        → WatchStep ops w (on_timer load w)
    channel_closed :
        (w : Watcher C) → w.stopped ≡ false → WatchStep ops w (record w { stopped = true })
    error : (w : Watcher C) → w.stopped ≡ false → WatchStep ops w w
    expire :
        (w : Watcher C)
        → w.timer.running ≡ true
        → WatchStep ops w (record w { timer = record { running = false; fired = true } })

  pub data Watches (ops : PathOps) (w : Watcher C) : Watcher C → Type 0 where
    here : Watches ops w w
    next : {u v : Watcher C} → Watches ops w u → WatchStep ops u v → Watches ops w v
