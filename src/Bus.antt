-- ===== src/Bus.antt =====
-- src/bus.cc and include/dbuscc/bus.h: how a connection is opened. libdbus is a parameter, and
-- so is getenv. A call of libdbus gives the connection, which may be null, the error, and its
-- new state.
pub mod Open
pub mod Tests
use dbuscc.Base.{ℕ, Option, none, some, List, [], Outcome, done, ◌>>=◌, c_str}
use dbuscc.Message.Api.{Text}
use dbuscc.Connection.{Connection, create_shared, create_private}

-- bus::Type; an enum of C++ may hold a value that has no name.
pub data BusType : Type 0 where
  type_session type_system type_starter : BusType
  other : ℕ → BusType

pub data DBusBusType : Type 0 where
  bus_session bus_system bus_starter : DBusBusType

pub record BusApi : Type 1 where
  pub World : Type 0
  pub DBusError : Type 0
  pub connection_open : World → Text → DBusError → Option ℕ × DBusError × World
  pub connection_open_private : World → Text → DBusError → Option ℕ × DBusError × World
  pub bus_get : World → DBusBusType → DBusError → Option ℕ × DBusError × World
  pub bus_get_private : World → DBusBusType → DBusError → Option ℕ × DBusError × World
  pub shutdown : World → World

-- The function bus_type of the anonymous namespace.
unfoldable pub bus_type : BusType → DBusBusType
bus_type type_session = bus_session
bus_type type_system = bus_system
bus_type type_starter = bus_starter
bus_type (other n) = bus_session

-- `!conn ? connection_ptr() : ...`.
wrapped : (Option ℕ → Outcome Connection) → Option ℕ → Outcome (Option Connection)
wrapped wrap none = done none
wrapped wrap (some c) = do k ← wrap (some c); done (some k)

module _ (api : BusApi) where
  -- What open gives: the connection_ptr, the error that was passed by reference, and libdbus.
  abbrev pub Opened : Type 0
  Opened = Outcome (Option Connection × api.DBusError × api.World)

  pub open_address : Text → api.DBusError → api.World → Opened
  unfolding wrapped
  open_address address e w = do
    let (conn, e1, w1) = api.connection_open w (c_str address) e
    k ← wrapped create_shared conn
    done (k, e1, w1)

  pub open_private_address : Text → api.DBusError → api.World → Opened
  unfolding wrapped
  open_private_address address e w = do
    let (conn, e1, w1) = api.connection_open_private w (c_str address) e
    k ← wrapped create_private conn
    done (k, e1, w1)

  pub open_bus : BusType → api.DBusError → api.World → Opened
  unfolding wrapped bus_type
  open_bus bus e w = do
    let (conn, e1, w1) = api.bus_get w (bus_type bus) e
    k ← wrapped create_shared conn
    done (k, e1, w1)

  pub open_private_bus : BusType → api.DBusError → api.World → Opened
  unfolding wrapped bus_type
  open_private_bus bus e w = do
    let (conn, e1, w1) = api.bus_get_private w (bus_type bus) e
    k ← wrapped create_private conn
    done (k, e1, w1)

  -- The destructor.
  pub destroy : api.World → api.World
  destroy w = api.shutdown w

-- What getenv has for DBUS_SESSION_BUS_ADDRESS, or the empty string.
abbrev pub session_bus_address : Option Text → Text
session_bus_address none = []
session_bus_address (some addr) = addr
