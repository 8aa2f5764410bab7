-- ===== src/Connection/Sources.antt =====
-- src/connection.cc: connection::add_watch and connection::add_timeout, which libdbus calls for
-- a new watch or timeout. The connection that they are called for, their `data`, is not null, as
-- the handlers are installed with `this`; the slots that are connected to its signals
-- on_watch_add and on_timeout_add are the argument `slots`.
use dbuscc.Base.{ℕ, Option, Outcome, ◌>>=◌, assert_ptr}
use dbuscc.Watch.{WatchApi, State, create, release}
use dbuscc.Timeout.{
  TimeoutApi, State as TimeoutState, create as create_timeout, release as release_timeout,
}

-- The watch_ptr that glue::watch::create gives lives to the end of the invocation.
unfoldable pub add_watch :
    (api : WatchApi) {Env : Type 0}
    → (ℕ → State api Env → Outcome (State api Env))
    → Option api.Raw
    → State api Env
    → Outcome (State api Env)
add_watch api slots raw_watch s = do
  raw ← assert_ptr raw_watch
  (a, s1) ← create api raw_watch s
  s2 ← slots a s1
  release api a s2

unfoldable pub add_timeout :
    (api : TimeoutApi) {Env : Type 0}
    → (ℕ → TimeoutState api Env → Outcome (TimeoutState api Env))
    → Option api.Raw
    → TimeoutState api Env
    → Outcome (TimeoutState api Env)
add_timeout api slots raw_timeout s = do
  raw ← assert_ptr raw_timeout
  (a, s1) ← create_timeout api raw_timeout s
  s2 ← slots a s1
  release_timeout api a s2
