-- ===== src/Bus/Open.antt =====
-- src/bus.cc: what the four ways to open a connection give.
use dbuscc.Base.{ℕ, ◌≡◌, false, Option, none, some, Outcome, [], ap, ◌∙◌, done, refl, c_str}
use dbuscc.Message.Api.{Text}
use dbuscc.Connection.{
  ConnectionApi, destroy, Connection, ConnectionKind, shared_connection, private_connection,
  create_shared, create_private,
}
use dbuscc.Bus.{
  DBusBusType, bus_session, bus_system, bus_starter, type_session, type_system, type_starter, other,
  BusApi, BusType, bus_type, wrapped, Opened, open_address, open_private_address, open_bus,
  open_private_bus,
}

-- A connection without handlers of a kind, on the raw connection if there is one.
abbrev pub fresh : ConnectionKind → Option ℕ → Option Connection
fresh k none = none
fresh k (some c) = some (record {
  kind = k;
  raw = c;
  watch_handler_installed = false;
  timeout_handler_installed = false;
  dispatch_handler_installed = false;
})

wrapped-shared : (c : Option ℕ) → wrapped create_shared c ≡ done (fresh shared_connection c)
unfolding wrapped create_shared
wrapped-shared none = refl
wrapped-shared (some c) = refl

wrapped-private : (c : Option ℕ) → wrapped create_private c ≡ done (fresh private_connection c)
unfolding wrapped create_private
wrapped-private none = refl
wrapped-private (some c) = refl

module _ (api : BusApi) where
  -- An answer of libdbus as the result for a kind of connection.
  abbrev pub given : ConnectionKind → Option ℕ × api.DBusError × api.World → Opened api
  given k (c, e, w) = done (fresh k c, e, w)

  -- The four functions, with the bus that the code asks for.
  opens :
      (address : Text) (bus : BusType) (e : api.DBusError) (w : api.World)
      → (open_address api address e w
          ≡ given shared_connection (api.connection_open w (c_str address) e))
        × (open_private_address api address e w
            ≡ given private_connection (api.connection_open_private w (c_str address) e))
        × (open_bus api bus e w ≡ given shared_connection (api.bus_get w (bus_type bus) e))
        × (open_private_bus api bus e w
            ≡ given private_connection (api.bus_get_private w (bus_type bus) e))
  unfolding open_address open_private_address open_bus open_private_bus
  opens address bus e w = (
    rw (wrapped-shared (api.connection_open w (c_str address) e).0) refl,
    rw (wrapped-private (api.connection_open_private w (c_str address) e).0) refl,
    rw (wrapped-shared (api.bus_get w (bus_type bus) e).0) refl,
    rw (wrapped-private (api.bus_get_private w (bus_type bus) e).0) refl,
  )

-- The overloads of open and open_private: what a client passes them.
pub data Way : Type 0 where
  by_address : Text → Way
  by_bus : BusType → Way

-- The bus that each type stands for. A value that has no name stands for the session bus.
abbrev bus_of : BusType → DBusBusType
bus_of type_session = bus_session
bus_of type_system = bus_system
bus_of type_starter = bus_starter
bus_of (other n) = bus_session

bus_type-bus_of : (b : BusType) → bus_type b ≡ bus_of b
unfolding bus_type
bus_type-bus_of type_session = refl
bus_type-bus_of type_system = refl
bus_type-bus_of type_starter = refl
bus_type-bus_of (other n) = refl

-- `view` is the state of libdbus as the code of the connection has it.
module _ (api : BusApi) (conn_api : ConnectionApi) (view : api.World → conn_api.World) where
  -- The function of bus for a kind of connection and a way to open it.
  abbrev pub open_as : ConnectionKind → Way → api.DBusError → api.World → Opened api
  open_as shared_connection (by_address a) = open_address api a
  open_as private_connection (by_address a) = open_private_address api a
  open_as shared_connection (by_bus b) = open_bus api b
  open_as private_connection (by_bus b) = open_private_bus api b

  -- What libdbus answers to the call that this is to be.
  abbrev pub answer :
      ConnectionKind → Way → api.DBusError → api.World → Option ℕ × api.DBusError × api.World
  answer shared_connection (by_address a) e w = api.connection_open w (c_str a) e
  answer private_connection (by_address a) e w = api.connection_open_private w (c_str a) e
  answer shared_connection (by_bus b) e w = api.bus_get w (bus_of b) e
  answer private_connection (by_bus b) e w = api.bus_get_private w (bus_of b) e

  -- The last pointer to the connection goes; a null pointer does nothing.
  abbrev pub drop : Option Connection → conn_api.World → Outcome conn_api.World
  drop none w = done w
  drop (some k) w = destroy conn_api (record { conn = k; world = w })

  -- What is to happen to a raw connection in the end.
  abbrev pub let_go : ConnectionKind → Option ℕ → conn_api.World → conn_api.World
  let_go kind none w = w
  let_go shared_connection (some c) w = conn_api.unref w c
  let_go private_connection (some c) w = conn_api.unref (conn_api.close w c) c

  open_as-answer :
      (kind : ConnectionKind) (way : Way) (e : api.DBusError) (w : api.World)
      → open_as kind way e w ≡ given api kind (answer kind way e w)
  open_as-answer shared_connection (by_address a) e w = (opens api a type_session e w).0
  open_as-answer private_connection (by_address a) e w = (opens api a type_session e w).1
  open_as-answer shared_connection (by_bus b) e w =
      (opens api [] b e w).2
      ∙ ap (λ (k : DBusBusType). given api shared_connection (api.bus_get w k e))
          (bus_type-bus_of b)
  open_as-answer private_connection (by_bus b) e w =
      (opens api [] b e w).3
      ∙ ap (λ (k : DBusBusType). given api private_connection (api.bus_get_private w k e))
          (bus_type-bus_of b)

  drop-let_go :
      (kind : ConnectionKind) (c : Option ℕ) (w : conn_api.World)
      → drop (fresh kind c) w ≡ done (let_go kind c w)
  unfolding destroy
  drop-let_go kind none w = refl
  drop-let_go shared_connection (some c) w = refl
  drop-let_go private_connection (some c) w = refl

  -- Opening by an address or by a bus fails no assertion, and asks libdbus for the bus that the
  -- type names, or for the address up to its first zero byte, and for a private connection exactly
  -- in open_private. The result is null exactly when the answer is, and else a connection without
  -- handlers on the raw connection of the answer; the error and libdbus are as libdbus left them.
  -- When the last pointer to the result goes, a connection of open_private is closed and given
  -- back, one of open is only given back, and a null pointer does nothing.
  pub open-destroy :
      (kind : ConnectionKind) (way : Way) (e : api.DBusError) (w : api.World)
      → let (c, e1, w1) = answer kind way e w in
        (k : Option Connection) × (open_as kind way e w ≡ done (k, e1, w1))
        × (k ≡ fresh kind c)
        × (drop k (view w1) ≡ done (let_go kind c (view w1)))
  open-destroy kind way e w = (
    fresh kind ((answer kind way e w).0),
    open_as-answer kind way e w,
    refl,
    drop-let_go kind ((answer kind way e w).0) (view ((answer kind way e w).2)),
  )
