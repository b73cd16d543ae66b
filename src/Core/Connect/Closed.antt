-- ===== src/Core/Connect/Closed.antt =====
-- src/core/connect/dbusConnect.hpp: what a connection is after its calls.
use Prim.Native.String.{◌++◌}
use obmc_webapp.Prelude.{ℕ, String, ◌≡◌, refl, true, Option, [], ◌∷◌}
use obmc_webapp.Prelude.Integers.{ℤ}
use obmc_webapp.Core.Exceptions.{runtime_error, ok, err}
use obmc_webapp.Core.Connect.{
  new_connect, opened, failed, lost_error, initialized_error, found_connect, get_connect, init_bus,
  init_sd_bus_connection, connect, close_bus, disconnect, destroy_connect,
}

-- A new connection, whatever the memory held, is the bus that `connect` opens; if the bus cannot be
-- opened, `connect` throws with the reason and there is no connection. Connecting again throws, and
-- the first bus is then never closed. `disconnect` closes the bus, after which there is no
-- connection, and the destructor closes the same bus again.
pub connect-disconnect :
    (strerror : ℤ → String) (memory : Option ℕ) (bus other : ℕ) (status : ℤ)
    → let (c, outcome) = connect strerror (opened bus) (new_connect memory) in
      let (again, refused) = connect strerror (opened other) c in
      let (unopened, reason) = connect strerror (failed status) (new_connect memory) in
      ((outcome ≡ ok tt) × (get_connect c ≡ ok bus))
      × ((reason
            ≡ err (runtime_error ("Can't establish dbus connection. Reason: " ++ strerror status)))
          × (get_connect unopened ≡ err lost_error))
      × ((refused ≡ err initialized_error)
          × (get_connect again ≡ ok bus)
          × ((destroy_connect again).closed ≡ other ∷ []))
      × ((get_connect (disconnect c).0 ≡ err lost_error)
          × ((disconnect c).1 ≡ true)
          × ((destroy_connect (disconnect c).0).closed ≡ bus ∷ bus ∷ []))
unfolding connect init_sd_bus_connection init_bus get_connect found_connect disconnect close_bus
    destroy_connect
connect-disconnect strerror memory bus other status =
    ((refl, refl), (refl, refl), (refl, refl, refl), (refl, refl, refl))
