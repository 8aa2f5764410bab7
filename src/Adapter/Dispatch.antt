-- ===== src/Adapter/Dispatch.antt =====
-- src/tscb-adapter.cc and src/connection.cc: how the adapter keeps libdbus dispatching. Of the
-- functions that the reactor has to run only the calls of do_dispatch count here.
pub mod Wakeup
pub mod Drain
pub mod Tests
use dbuscc.Base.{
  ℕ, zero, suc, ◌+◌, Bool, true, false, List, [], ◌∷◌, Outcome, done, ◌>>=◌, if◌then◌else◌,
}
use dbuscc.Connection.{
  ConnectionApi, DispatchStatus, DispatchState, dispatch_data_remains, dispatch_complete,
  dispatch_need_memory, dispatch_state_of, State, install_handlers, dispatch,
}

-- The connection, and how many calls of do_dispatch are posted.
pub record Dispatching (api : ConnectionApi) : Type 0 where
  pub connection : State api
  pub posted : ℕ

abbrev pub is_complete : DispatchState → Bool
is_complete dispatch_complete = true
is_complete _ = false

-- `reported` has the statuses that libdbus passes to dispatch_state_changed while it dispatches.
module _ (api : ConnectionApi) (reported : api.World → ℕ → List DispatchStatus) where
  pub on_dispatch_state : DispatchState → Dispatching api → Dispatching api
  on_dispatch_state state d = if is_complete state then d else record d { posted = d.posted + 1 }

  -- connection::dispatch_state_changed, with the slot of the adapter.
  pub dispatch_state_changed : DispatchStatus → Dispatching api → Outcome (Dispatching api)
  unfolding on_dispatch_state
  dispatch_state_changed new_state d = do
    state ← dispatch_state_of new_state
    done (on_dispatch_state state d)

  pub all_changes : List DispatchStatus → Dispatching api → Outcome (Dispatching api)
  unfolding dispatch_state_changed
  all_changes [] d = done d
  all_changes (x ∷ xs) d = dispatch_state_changed x d >>= all_changes xs

  pub do_dispatch : Dispatching api → Outcome (Dispatching api)
  unfolding all_changes on_dispatch_state
  do_dispatch d = do
    (state, s) ← dispatch api d.connection
    d1 ← all_changes (reported d.connection.world (d.connection.conn.raw)) d
    done (on_dispatch_state state (record d1 { connection = s }))

  -- The constructor of tscb_adapter, after the slots are connected.
  pub start : State api → Outcome (Dispatching api)
  unfolding do_dispatch
  start s = do_dispatch (record { connection = install_handlers api s; posted = 0 })

  -- The reactor runs what is posted, up to so many calls.
  pub run : ℕ → Dispatching api → Outcome (Dispatching api)
  unfolding do_dispatch
  run zero d = done d
  run (suc n) d = elim d.posted [
    | zero ↦ done d
    | suc p ↦ do_dispatch (record d { posted = p }) >>= run n
  ]
