-- ===== src/Tests/Running.antt =====
-- The theorem on the configuration of the application at a concrete bus, which refuses the match for
-- the removal of the objects of the fourth query.
use obmc_webapp.Prelude.{ℕ, String, some}
use obmc_webapp.Core.Connect.{new_connect}
use obmc_webapp.Core.Exceptions.{runtime_error, Result, ok, err}
use obmc_webapp.System.Setup.{QueryName, sensors_query, ObserverBus}

abbrev counting : String → ℕ
counting pattern = 0

abbrev refusing : QueryName → Result (Unit {0})
refusing sensors_query = err (runtime_error "Failed to add match")
refusing _ = ok tt

abbrev full_bus : ObserverBus
full_bus = record {
  object_observer_connect = record (new_connect (some 1)) { sdbus_connect = some 1 };
  observe_creation = λ query. ok tt;
  observe_removing = refusing;
}
