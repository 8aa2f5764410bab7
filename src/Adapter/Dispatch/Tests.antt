-- ===== src/Adapter/Dispatch/Tests.antt =====
-- src/tscb-adapter.cc: the theorems at a libdbus with a queue of messages.
use dbuscc.Base.{
  ℕ, ◌-◌, ◌≡◌, ◌<◌, Bool, true, false, List, [], ◌∷◌, some, done, refl, arith, ◌==◌, if◌then◌else◌,
  inr,
}
use dbuscc.Connection.{
  ConnectionApi, Connection, shared_connection, DispatchStatus, complete, data_remains, State,
  dispatch, install_handlers,
}
use dbuscc.Adapter.Dispatch.{Dispatching, do_dispatch, dispatch_state_changed, start, run}
use dbuscc.Adapter.Dispatch.Wakeup.{here, next, runs, changes, start_wakes}
use dbuscc.Adapter.Dispatch.Drain.{run_drains}

abbrev status_of : ℕ → DispatchStatus
status_of n = if n == 0 then complete else data_remains

-- How many messages are queued, and whether the connection is closed.
abbrev model_api : ConnectionApi
model_api = record {
  World = ℕ × Bool;
  send = λ w c m. (true, w);
  send_with_reply = λ w c m. (true, some m, w);
  set_watch_functions = λ w c. w;
  set_timeout_functions = λ w c. w;
  set_dispatch_status_function = λ w c. w;
  get_dispatch_status = λ w c. status_of w.0;
  dispatch = λ w c. (status_of (w.0 - 1), (w.0 - 1, w.1));
  close = λ w c. (w.0, true);
  unref = λ w c. w;
  is_closed = λ w c. w.1;
  is_closed-close = λ w c. refl;
  is_closed-unref = λ w c. refl;
}

abbrev model_reported : ℕ × Bool → ℕ → List DispatchStatus
model_reported w c = complete ∷ []

-- A connection with handlers and some messages.
abbrev connected : ℕ → State model_api
connected n = record {
  conn = record {
    kind = shared_connection;
    raw = 4;
    watch_handler_installed = true;
    timeout_handler_installed = true;
    dispatch_handler_installed = true;
  };
  world = (n, false);
}

abbrev dispatching : (messages posted : ℕ) → Dispatching model_api
dispatching n p = record { connection = connected n; posted = p }

started : start model_api model_reported (connected 3) ≡ done (dispatching 2 1)
unfolding start install_handlers dispatch
started = refl

ran : do_dispatch model_api model_reported (dispatching 2 0) ≡ done (dispatching 1 1)
unfolding do_dispatch dispatch
ran = refl

arrived :
    dispatch_state_changed model_api model_reported data_remains (dispatching 6 1)
    ≡ done (dispatching 6 2)
unfolding dispatch_state_changed dbuscc.Connection.dispatch_state_of
arrived = refl

start_wakes_example : 0 < (dispatching 6 2).posted
start_wakes_example =
    start_wakes model_api model_reported (λ w c. refl) (connected 3) (dispatching 2 1)
      (dispatching 6 2) started
      (next (runs 0 refl ran) (next (changes (6, false) data_remains refl arrived) here)) (λ e. cc)

run_drains_example :
    (s' : State model_api) × (run model_api model_reported 4 (dispatching 3 1)
      ≡ done (record { connection = s'; posted = 0 }))
    × (s'.world.0 ≡ 0)
run_drains_example =
    run_drains model_api model_reported (λ w c. w.0) (λ w c. refl) (λ w c. refl) (λ w c. inr refl) 4
      (connected 3) 1 (omega arith) (λ _. omega arith)
