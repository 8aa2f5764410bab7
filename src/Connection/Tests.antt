-- ===== src/Connection/Tests.antt =====
-- src/connection.cc: the theorems at a libdbus that counts what it is asked to do.
use dbuscc.Base.{
  ℕ, ◌+◌, ◌≡◌, Bool, true, false, Option, none, some, update, done, abort, refl, arith, ◌==◌,
  if◌then◌else◌,
}
use dbuscc.Connection.{
  ConnectionApi, private_connection, State, call, install_handlers, complete, data_remains,
}
use dbuscc.Connection.Calls.{
  EndsAs, AllInstalled, call_returns_or_aborts, install_handlers_once, destroy_closes,
}

-- What is closed, by connection, and how many calls were made. Message 7 finds the peer gone, and
-- message 8 no memory.
abbrev pub ModelWorld : Type 0
ModelWorld = (ℕ → Bool) × ℕ

abbrev model_send : ModelWorld → ℕ → ℕ → Bool × Option ℕ × ModelWorld
model_send (closed, n) c m =
    if m == 7
    then (true, none, (closed, n + 1))
    else if m == 8
    then (false, none, (closed, n + 1))
    else (true, some (m + 100), (closed, n + 1))

abbrev model_close : ModelWorld → ℕ → ModelWorld
model_close (closed, n) c = (update closed c true, n + 1)

pub closed-close : (w : ModelWorld) (c : ℕ) → (model_close w c).0 c ≡ true
closed-close (closed, n) c = ground arith

abbrev pub model_api : ConnectionApi
model_api = record {
  World = ModelWorld;
  send = λ w c m. (true, (w.0, w.1 + 1));
  send_with_reply = model_send;
  set_watch_functions = λ w c. (w.0, w.1 + 1);
  set_timeout_functions = λ w c. (w.0, w.1 + 1);
  set_dispatch_status_function = λ w c. (w.0, w.1 + 1);
  get_dispatch_status = λ w c. complete;
  dispatch = λ w c. (data_remains, (w.0, w.1 + 1));
  close = model_close;
  unref = λ w c. w;
  is_closed = λ w c. w.0 c;
  is_closed-close = closed-close;
  is_closed-unref = λ w c. refl;
}

abbrev opened : State model_api
opened = record {
  conn = record {
    kind = private_connection;
    raw = 4;
    watch_handler_installed = false;
    timeout_handler_installed = true;
    dispatch_handler_installed = false;
  };
  world = ((λ _. false), 0);
}

called : call model_api (some 9) opened ≡ done (109, record opened { world = ((λ _. false), 1) })
unfolding call
called = refl

handlers : (install_handlers model_api opened).world.1 ≡ 2
unfolding install_handlers
handlers = refl

call_returns_or_aborts_example : call model_api (some 7) opened ≡ abort
call_returns_or_aborts_example = call_returns_or_aborts model_api 7 opened

install_handlers_once-twice :
    let t = install_handlers model_api opened in
    (install_handlers model_api t ≡ t) × (t.conn.raw ≡ 4) × AllInstalled model_api t
install_handlers_once-twice = install_handlers_once model_api opened

destroy_closes_example : EndsAs model_api private_connection opened
destroy_closes_example = destroy_closes model_api opened
