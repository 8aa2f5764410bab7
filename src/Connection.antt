-- ===== src/Connection.antt =====
-- src/connection.cc, include/dbuscc/connection.h and include/dbuscc/glue/connection.h: the
-- wrapper of a DBusConnection. libdbus is a parameter. Connections, messages and pending calls
-- of libdbus are addresses.
pub mod Calls
pub mod Sources
pub mod Tests
use dbuscc.Base.{
  ℕ, ◌+◌, ◌≡◌, Bool, true, false, ◌||◌, Option, none, some, List, Outcome, done, abort, ◌>>=◌, ◌>>◌,
  assert_ptr, if◌then◌else◌,
}

-- DBusDispatchStatus; an enum of C may hold a value that has no name.
pub data DispatchStatus : Type 0 where
  data_remains complete need_memory : DispatchStatus
  other : ℕ → DispatchStatus

pub data DispatchState : Type 0 where
  dispatch_data_remains dispatch_complete dispatch_need_memory : DispatchState

-- What the code uses of libdbus: only close closes a connection. A call with reply gives a flag
-- and a pointer to the pending call, which may be null.
pub record ConnectionApi : Type 1 where
  pub World : Type 0
  pub send : World → (conn msg : ℕ) → Bool × World
  pub send_with_reply : World → (conn msg : ℕ) → Bool × Option ℕ × World
  pub set_watch_functions : World → ℕ → World
  pub set_timeout_functions : World → ℕ → World
  pub set_dispatch_status_function : World → ℕ → World
  pub get_dispatch_status : World → ℕ → DispatchStatus
  pub dispatch : World → ℕ → DispatchStatus × World
  pub close : World → ℕ → World
  pub unref : World → ℕ → World
  pub is_closed : World → ℕ → Bool
  pub is_closed-close : (w : World) (c : ℕ) → is_closed (close w c) c ≡ true
  pub is_closed-unref : (w : World) (c : ℕ) → is_closed (unref w c) c ≡ is_closed w c

-- shared_connection and private_connection.
pub data ConnectionKind : Type 0 where
  shared_connection private_connection : ConnectionKind

-- class connection: the members but the three signals.
pub record Connection : Type 0 where
  pub kind : ConnectionKind
  pub raw : ℕ
  pub watch_handler_installed : Bool
  pub timeout_handler_installed : Bool
  pub dispatch_handler_installed : Bool

-- The function dispatch_state of the anonymous namespace.
unfoldable pub dispatch_state_of : DispatchStatus → Outcome DispatchState
dispatch_state_of data_remains = done dispatch_data_remains
dispatch_state_of complete = done dispatch_complete
dispatch_state_of need_memory = done dispatch_need_memory
dispatch_state_of (other n) = abort

-- The constructors, with their assertion, and glue::connection::create_shared and create_private.
unfoldable pub create : ConnectionKind → Option ℕ → Outcome Connection
create kind raw = do
  r ← assert_ptr raw
  done (record {
    kind = kind;
    raw = r;
    watch_handler_installed = false;
    timeout_handler_installed = false;
    dispatch_handler_installed = false;
  })

unfoldable pub create_shared : Option ℕ → Outcome Connection
unfolding create
create_shared raw = create shared_connection raw

unfoldable pub create_private : Option ℕ → Outcome Connection
unfolding create
create_private raw = create private_connection raw

pub record State (api : ConnectionApi) : Type 0 where
  pub conn : Connection
  pub world : api.World

module _ (api : ConnectionApi) where
  close_as : ConnectionKind → State api → Outcome (State api)
  close_as shared_connection s = abort
  close_as private_connection s = done (record s { world = api.close s.world (s.conn.raw) })

  pub close : State api → Outcome (State api)
  unfolding close_as
  close s = close_as s.conn.kind s

  -- The destructor of the derived class, and then the one of the base class.
  destroy_derived : ConnectionKind → State api → Outcome (State api)
  unfolding close_as
  destroy_derived shared_connection s = done s
  destroy_derived private_connection s = close_as private_connection s

  unfoldable pub destroy : State api → Outcome api.World
  unfolding destroy_derived
  destroy s = do s1 ← destroy_derived s.conn.kind s; done (api.unref s1.world (s1.conn.raw))

  -- glue::connection::send; the message is the raw message of the message object.
  pub send : Option ℕ → State api → Outcome (Bool × State api)
  send msg s = do
    m ← assert_ptr msg
    let (ok, w) = api.send s.world (s.conn.raw) m
    done (ok, record s { world = w })

  -- glue::connection::call: null when libdbus has no memory.
  pub raw_call : Option ℕ → State api → Outcome (Option ℕ × State api)
  raw_call msg s = do
    m ← assert_ptr msg
    let (success, pending_return, w) = api.send_with_reply s.world (s.conn.raw) m
    if success
        then (do p ← assert_ptr pending_return; done (some p, record s { world = w }))
        else done (none, record s { world = w })

  -- connection::call, up to the members of the pending call: its constructor asserts the pointer.
  pub call : Option ℕ → State api → Outcome (ℕ × State api)
  unfolding raw_call
  call msg s = do (raw, s1) ← raw_call msg s; p ← assert_ptr raw; done (p, s1)

  install_watch_handler : State api → State api
  install_watch_handler s = if s.conn.watch_handler_installed then s else record s {
    conn = record (s.conn) { watch_handler_installed = true };
    world = api.set_watch_functions s.world (s.conn.raw);
  }

  install_timeout_handler : State api → State api
  install_timeout_handler s = if s.conn.timeout_handler_installed then s else record s {
    conn = record (s.conn) { timeout_handler_installed = true };
    world = api.set_timeout_functions s.world (s.conn.raw);
  }

  install_dispatch_handler : State api → State api
  install_dispatch_handler s = if s.conn.dispatch_handler_installed then s else record s {
    conn = record (s.conn) { dispatch_handler_installed = true };
    world = api.set_dispatch_status_function s.world (s.conn.raw);
  }

  unfoldable pub install_handlers : State api → State api
  unfolding install_watch_handler install_timeout_handler install_dispatch_handler
  install_handlers s = install_dispatch_handler (install_timeout_handler (install_watch_handler s))

  pub dispatch_state : State api → Outcome DispatchState
  unfolding dispatch_state_of
  dispatch_state s = dispatch_state_of (api.get_dispatch_status s.world (s.conn.raw))

  unfoldable pub dispatch : State api → Outcome (DispatchState × State api)
  unfolding dispatch_state_of
  dispatch s = do
    let (status, w) = api.dispatch s.world (s.conn.raw)
    st ← dispatch_state_of status
    done (st, record s { world = w })
