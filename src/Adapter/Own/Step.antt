-- ===== src/Adapter/Own/Step.antt =====
-- src/connection.cc, src/watch.cc, src/tscb-adapter.cc: the calls of libdbus and of the reactor
-- on the watches, with the pointers that libdbus holds.
use dbuscc.Base.{ℕ, ◌≡◌, some, done}
use dbuscc.Watch.{WatchApi, State, unref, toggled, removed}
use dbuscc.Connection.Sources.{add_watch}
use dbuscc.Adapter.{IoEvents, Adapter, on_watch_add, on_io_ready, fire, run_posted}
use dbuscc.Adapter.Own.{plus}

module _ (api : WatchApi) where
  open api use {Raw, World}

  -- A call that returned, with the pointers that libdbus holds before and after. libdbus changes in
  -- any way between the calls, and gives a pointer back that it holds.
  pub data Call : (ℕ → ℕ) → State api Adapter → (ℕ → ℕ) → State api Adapter → Type 0 where
    changes :
        {others : ℕ → ℕ} {s : State api Adapter} (w : World)
        → Call others s others (record s { world = w })
    adds :
        {others : ℕ → ℕ} {s s' : State api Adapter} (r : Raw)
        → add_watch api (on_watch_add api) (some r) s ≡ done s'
        → Call others s (plus others (some s.next)) s'
    toggles :
        {others : ℕ → ℕ} {s s' : State api Adapter} (r : Raw)
        → toggled api (fire api) (some r) s ≡ done s'
        → Call others s others s'
    removes :
        {others : ℕ → ℕ} {s s' : State api Adapter} (r : Raw)
        → removed api (fire api) (some r) s ≡ done s'
        → Call others s others s'
    frees :
        {others others' : ℕ → ℕ} {s s' : State api Adapter} (a : ℕ)
        → ((b : ℕ) → others b ≡ plus others' (some a) b)
        → unref api (some a) s ≡ done s'
        → Call others s others' s'
    runs :
        {others : ℕ → ℕ} {s s' : State api Adapter}
        → run_posted api s ≡ done s'
        → Call others s others s'
    is_ready :
        {others : ℕ → ℕ} {s s' : State api Adapter} (a : ℕ) (e : IoEvents)
        → on_io_ready api a e s ≡ done s'
        → Call others s others s'
