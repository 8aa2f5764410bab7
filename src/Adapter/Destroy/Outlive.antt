-- ===== src/Adapter/Destroy/Outlive.antt =====
-- src/tscb-adapter.cc: what the destructor of the adapter disconnects, and what it leaves to run.
use dbuscc.Base.{
  ℕ, ◌≡◌, refl, Bool, true, false, none, some, [], ◌∷◌, if◌then◌else◌, done, fault, arith,
}
use dbuscc.Watch.{WatchApi, State}
use dbuscc.Connection.Sources.{add_watch}
use dbuscc.Adapter.{Adapter, on_watch_add, on_watch_change}
use dbuscc.Adapter.Io.{change_tracks}
use dbuscc.Adapter.Lifecycle.{ready, ready-IsIdle, add_watch-ready}
use dbuscc.Adapter.Destroy.{
  SignalApi, Hooks, Owner, connect_hooks, destroy, change_through, run_through,
}

-- Whether the three slots of the adapter are connected.
abbrev pub AllConnected : (signals : SignalApi) → Bool → Owner signals → Hooks signals → Type 0
AllConnected signals b o h =
    (signals.connected (o.watch_conn) (h.on_watch_add) ≡ b)
    × (signals.connected (o.timeout_conn) (h.on_timeout_add) ≡ b)
    × (signals.connected (o.dispatch_conn) (h.on_dispatch_state) ≡ b)

module _ (api : WatchApi) where
  run_through-one :
      (alive : Bool) (c a : ℕ) (s s' : State api Adapter)
      → s.env.posted ≡ c ∷ []
      → s.env.contexts c ≡ some (record { watch = some a; conn = none })
      → on_watch_change api c (record s { env = record (s.env) { posted = [] } }) ≡ done s'
      → run_through api alive s ≡ (if alive then done s' else fault)
  unfolding run_through change_through
  run_through-one alive c a s s' one ctx p = rw one (rw ctx (rw p refl))

  -- The constructor of the adapter connects its three slots, and libdbus adds a watch, when nothing
  -- is posted and no slot is connected to an object at the address that it gets. As long as the
  -- adapter lives, the reactor can run the function that was posted for the watch. The destructor
  -- takes the three connections away and leaves the function posted: run after it, the function
  -- uses the adapter that is gone.
  pub posted_outlives :
      (signals : SignalApi) (watch timeout dispatch : signals.Slot) (h : Hooks signals)
      (r : api.Raw) (s : State api Adapter)
      → s.env.slots_of s.next ≡ []
      → s.env.posted ≡ []
      → (s1 s2 : State api Adapter) × (o o' : Owner signals) × (h1 h2 : Hooks signals)
        × (connect_hooks signals watch timeout dispatch h ≡ (o, h1))
        × AllConnected signals true o h1
        × (add_watch api (on_watch_add api) (some r) s ≡ done s1)
        × (run_through api o.alive s1 ≡ done s2)
        × (destroy signals o h1 ≡ (o', h2))
        × AllConnected signals false o h2
        × (run_through api o'.alive s1 ≡ fault)
  unfolding connect_hooks destroy
  posted_outlives signals watch timeout dispatch h r s no_slots none_posted =
      let s1 = ready api r s no_slots none_posted in
      let idle = ready-IsIdle api r s no_slots none_posted in
      let t : State api Adapter = record s1 { env = record (s1.env) { posted = [] } } in
      let (s2, ev, p, rep, _, _, _, _, _) =
        change_tracks api s.next 2 r t idle.count s.env.next none idle.ctx (omega arith) in
      let (o, h1) = connect_hooks signals watch timeout dispatch h in
      let (o', h2) = destroy signals o h1 in
      (
        s1,
        s2,
        o,
        o',
        h1,
        h2,
        refl,
        (
          signals.connected-connect watch (h.on_watch_add),
          signals.connected-connect timeout (h.on_timeout_add),
          signals.connected-connect dispatch (h.on_dispatch_state),
        ),
        add_watch-ready api r s no_slots none_posted,
        run_through-one true s.env.next s.next s1 s2 idle.posted idle.ctx p,
        refl,
        (
          signals.connected-disconnect (o.watch_conn) (h1.on_watch_add),
          signals.connected-disconnect (o.timeout_conn) (h1.on_timeout_add),
          signals.connected-disconnect (o.dispatch_conn) (h1.on_dispatch_state),
        ),
        run_through-one false s.env.next s.next s1 s2 idle.posted idle.ctx p,
      )
