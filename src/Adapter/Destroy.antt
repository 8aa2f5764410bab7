-- ===== src/Adapter/Destroy.antt =====
-- src/tscb-adapter.cc: the slots of the adapter at the three signals of the connection, the
-- destructor that disconnects them, and what still runs through the pointer `this` afterwards.
-- The signals of the connection are the ones of tscb, as config.h has it, and a parameter.
pub mod Outlive
mod Tests
use dbuscc.Base.{
  ℕ, ◌≡◌, Bool, true, false, none, some, [], ◌∷◌, if◌then◌else◌, Outcome, done, fault, ◌>>=◌, deref,
}
use dbuscc.Watch.{WatchApi, State}
use dbuscc.Adapter.{Adapter, on_watch_change}

-- What the adapter uses of tscb::signal and tscb::connection.
pub record SignalApi : Type 1 where
  pub Slot : Type 0
  pub Signal : Type 0
  pub Connection : Type 0
  pub connect : Slot → Signal → Connection × Signal
  pub disconnect : Connection → Signal → Connection × Signal
  pub connected : Connection → Signal → Bool
  pub connected-connect : (f : Slot) (s : Signal) → connected (connect f s).0 (connect f s).1 ≡ true
  pub connected-disconnect : (c : Connection) (s : Signal) → connected c (disconnect c s).1 ≡ false

-- The signals of a connection.
pub record Hooks (signals : SignalApi) : Type 0 where
  pub on_watch_add : signals.Signal
  pub on_timeout_add : signals.Signal
  pub on_dispatch_state : signals.Signal

-- tscb_adapter: its connections to them, and whether it is not destroyed yet.
pub record Owner (signals : SignalApi) : Type 0 where
  pub watch_conn : signals.Connection
  pub timeout_conn : signals.Connection
  pub dispatch_conn : signals.Connection
  pub alive : Bool

module _ (signals : SignalApi) where
  open signals use {Slot, connect, disconnect}

  -- The constructor, up to install_handlers.
  pub connect_hooks :
      (watch timeout dispatch : Slot) → Hooks signals → Owner signals × Hooks signals
  connect_hooks watch timeout dispatch h =
      let (w, s1) = connect watch h.on_watch_add in
      let (t, s2) = connect timeout h.on_timeout_add in
      let (d, s3) = connect dispatch h.on_dispatch_state in
      (
        record { watch_conn = w; timeout_conn = t; dispatch_conn = d; alive = true },
        record { on_watch_add = s1; on_timeout_add = s2; on_dispatch_state = s3 },
      )

  pub destroy : Owner signals → Hooks signals → Owner signals × Hooks signals
  destroy o h =
      let (w, s1) = disconnect o.watch_conn h.on_watch_add in
      let (t, s2) = disconnect o.timeout_conn h.on_timeout_add in
      let (d, s3) = disconnect o.dispatch_conn h.on_dispatch_state in
      (
        record { watch_conn = w; timeout_conn = t; dispatch_conn = d; alive = false },
        record { on_watch_add = s1; on_timeout_add = s2; on_dispatch_state = s3 },
      )

module _ (api : WatchApi) where
  -- on_watch_change through the pointer that was bound: only a new connection to the reactor reads
  -- a member of the adapter.
  pub change_through : Bool → ℕ → State api Adapter → Outcome (State api Adapter)
  change_through alive c s = do
    ctx ← deref (s.env.contexts c)
    elim ctx.conn [
      | some io ↦ on_watch_change api c s
      | none ↦ (do s' ← on_watch_change api c s; if alive then done s' else fault)
    ]

  pub run_through : Bool → State api Adapter → Outcome (State api Adapter)
  unfolding change_through
  run_through alive s = elim s.env.posted [
    | [] ↦ done s
    | c ∷ cs ↦ change_through alive c (record s { env = record (s.env) { posted = cs } })
  ]
