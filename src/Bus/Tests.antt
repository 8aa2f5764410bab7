-- ===== src/Bus/Tests.antt =====
-- src/bus.cc: the theorem at a libdbus that opens connection 4 at one address, and 6 on the
-- system bus.
use dbuscc.Base.{
  ◌+◌, ℕ, ◌≡◌, Bool, true, false, Option, none, some, [], ◌∷◌, done, ◌==◌, if◌then◌else◌,
}
use dbuscc.Message.Api.{Text}
use dbuscc.Connection.{Connection, private_connection}
use dbuscc.Bus.{DBusBusType, bus_system, BusApi, type_system, open_private_bus}
use dbuscc.Bus.Open.{fresh, open-destroy, by_bus, drop}
use dbuscc.Connection.Tests.{ModelWorld, model_api as connection_api}

abbrev found : Text → Option ℕ
found (a ∷ []) = if a == 97 then some 4 else none
found _ = none

-- Connection 6 is on the system bus.
abbrev model_bus : ℕ → DBusBusType → Bool → Option ℕ × Bool × ℕ
model_bus w bus_system e = (some 6, e, w + 1)
model_bus w _ e = (none, true, w)

-- The error is whether one is set.
abbrev model_api : BusApi
model_api = record {
  World = ℕ;
  DBusError = Bool;
  connection_open = λ w a e. (found a, e, w);
  connection_open_private = λ w a e. (found a, e, w);
  bus_get = λ w b e. (none, true, w);
  bus_get_private = model_bus;
  shutdown = λ w. 0;
}

-- Opened and dropped, at the libdbus of the connections that has the same calls so far.
abbrev view : ℕ → ModelWorld
view n = (λ _. false, n)

open-destroy_example :
    (k : Option Connection) × (open_private_bus model_api type_system false 3 ≡ done (k, false, 4))
    × (k ≡ fresh private_connection (some 6))
    × (drop model_api connection_api view k (view 4)
        ≡ done (connection_api.unref (connection_api.close (view 4) 6) 6))
open-destroy_example =
    open-destroy model_api connection_api view private_connection (by_bus type_system) false 3
