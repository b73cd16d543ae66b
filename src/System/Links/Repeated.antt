-- ===== src/System/Links/Repeated.antt =====
-- src/system_queries.hpp: the instances of sensors, asked for again.
use obmc_webapp.Prelude.{◌≡◌, [], All}
use obmc_webapp.DBus.Values.{Platform}
use obmc_webapp.DBus.Supply.{Instances}
use obmc_webapp.System.Queries.{sensors_query}

module _ (platform : Platform) where
  -- Instances of the query of sensors without complex ones.
  abbrev pub AreSensors : Instances platform → Type 0
  AreSensors instances =
      All (λ e. (e.1.1.complex_instances ≡ []) × (e.1.0 ≡ (sensors_query platform).view)) instances
