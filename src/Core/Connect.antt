-- ===== src/Core/Connect.antt =====
-- src/core/connect/dbusConnect.hpp: `DBusConnect`, the connection to D-Bus, with `SystemDBusConnect`
-- and `RemoteHostDbusConnect`, which differ in how they open the bus. What `sd_bus_open_system` or
-- `sd_bus_open_system_remote` answers is an argument, and so is the text that `strerror` gives. A
-- pointer to a bus is a number; the constructor leaves the pointer `dbusConnect` as it finds the
-- memory. What has been handed to `sd_bus_close` is kept.
pub mod Closed
use Prim.Native.String.{◌++◌}
use obmc_webapp.Prelude.{ℕ, String, Bool, true, false, Option, none, some, List, [], ◌∷◌}
use obmc_webapp.Prelude.Integers.{ℤ}
use obmc_webapp.Core.Exceptions.{
  Exception, obmc_app_exception, logic_error, runtime_error, Result, ok, err,
}

-- `sdbus_connect` is the bus that the object of sdbusplus has been made with.
pub record DbusConnect : Type 0 where
  pub sdbus_connect : Option ℕ
  pub dbus_connect : Option ℕ
  pub closed : List ℕ

-- the constructor
abbrev pub new_connect : Option ℕ → DbusConnect
new_connect memory = record { sdbus_connect = none; dbus_connect = memory; closed = [] }

-- How the call that opens the bus ends: with the bus, or with a negative status.
pub data Opened : Type 0 where
  opened : ℕ → Opened
  failed : ℤ → Opened

abbrev pub lost_error : Exception
lost_error = obmc_app_exception "The DBus connection was lost"

abbrev pub not_initialized_error : Exception
not_initialized_error = logic_error "The dbus connection is not initialized"

abbrev pub initialized_error : Exception
initialized_error = logic_error "The SDBus connection already initialized"

unfoldable pub found_connect : Option ℕ → Result ℕ
found_connect none = err lost_error
found_connect (some bus) = ok bus

unfoldable pub get_connect : DbusConnect → Result ℕ
get_connect c = found_connect c.sdbus_connect

-- the two tests of `initSdBusConnection`, and what it makes
unfoldable pub init_bus : Option ℕ → Option ℕ → DbusConnect → DbusConnect × Result (Unit {0})
init_bus none sdbus c = (c, err not_initialized_error)
init_bus (some bus) (some old) c = (c, err initialized_error)
init_bus (some bus) none c = (record c { sdbus_connect = some bus }, ok tt)

unfoldable pub init_sd_bus_connection : DbusConnect → DbusConnect × Result (Unit {0})
init_sd_bus_connection c = init_bus c.dbus_connect c.sdbus_connect c

-- `connect` of both classes
unfoldable pub connect : (ℤ → String) → Opened → DbusConnect → DbusConnect × Result (Unit {0})
connect strerror (failed status) c =
    (c, err (runtime_error ("Can't establish dbus connection. Reason: " ++ strerror status)))
connect strerror (opened bus) c = init_sd_bus_connection (record c { dbus_connect = some bus })

unfoldable pub close_bus : Option ℕ → DbusConnect → DbusConnect × Bool
close_bus none c = (c, false)
close_bus (some bus) c = (record c { closed = bus ∷ c.closed }, true)

-- `disconnect`, which leaves the pointer to the closed bus
unfoldable pub disconnect : DbusConnect → DbusConnect × Bool
disconnect c = close_bus c.dbus_connect (record c { sdbus_connect = none })

-- the destructor
unfoldable pub destroy_connect : DbusConnect → DbusConnect
destroy_connect c = (disconnect c).0
