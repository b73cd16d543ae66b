-- ===== src/System/Application/Ending.antt =====
-- src/core/application.cpp: how the configuration ends when brokers cannot be bound.
use obmc_webapp.Prelude.{ℕ, suc, String, ◌≡◌, Bool, true, false, List, [], ◌∷◌, map}
use obmc_webapp.Prelude.Maps.{string_key}
use obmc_webapp.Core.Exceptions.{Result, ok, err}
use obmc_webapp.Core.Router.{RouteHandler}
use obmc_webapp.Core.Entity.{InstanceInterface}
use obmc_webapp.Core.Broker.Threads.{World, start}
use obmc_webapp.System.Setup.{
  QueryName, status_query, version_query, relation_query, sensors_query, server_query,
  chassis_query, baseboard_query, BoundBroker, Bind,
}
use obmc_webapp.System.Application.{
  brokers_task_count, not_started, Application, new_application, configure, brokers_of,
}

abbrev pub observed : QueryName → ℕ → BoundBroker
observed query timeout = record { query = query; watch = true; timeout = timeout }

-- The brokers in the order in which `initEntityMap` binds them.
abbrev pub all_brokers : List BoundBroker
all_brokers =
    observed status_query 0
    ∷ observed version_query 0
    ∷ observed relation_query 0
    ∷ observed sensors_query 300
    ∷ observed server_query 0
    ∷ observed chassis_query 0
    ∷ observed baseboard_query 0
    ∷ []

-- The first exception of a list of outcomes.
abbrev pub first_exception : List (Result (Unit {0})) → Result (Unit {0})
first_exception [] = ok tt
first_exception (err e ∷ rest) = err e
first_exception (ok _ ∷ rest) = first_exception rest

-- How many outcomes come before the first exception.
abbrev pub count_bound : List (Result (Unit {0})) → ℕ
count_bound [] = 0
count_bound (err e ∷ rest) = 0
count_bound (ok _ ∷ rest) = suc (count_bound rest)

-- What becomes of the threads and of the handler of signals.
abbrev pub threads_after : Result (Unit {0}) → World
threads_after (ok _) = start brokers_task_count
threads_after (err e) = not_started

abbrev pub handles_after : Result (Unit {0}) → Bool
handles_after (ok _) = true
handles_after (err e) = false

abbrev pub outcomes : Bind → List (Result (Unit {0}))
outcomes bind = map (λ broker. bind broker.watch broker.query) all_brokers

-- Any outcomes are given by those of the seven queries and those without a watch.
abbrev assembled : (s v r n e c b : Result (Unit {0})) → (QueryName → Result (Unit {0})) → Bind
assembled s v r n e c b unwatched false query = unwatched query
assembled s v r n e c b unwatched true status_query = s
assembled s v r n e c b unwatched true version_query = v
assembled s v r n e c b unwatched true relation_query = r
assembled s v r n e c b unwatched true sensors_query = n
assembled s v r n e c b unwatched true server_query = e
assembled s v r n e c b unwatched true chassis_query = c
assembled s v r n e c b unwatched true baseboard_query = b

abbrev reassembled : Bind → Bind
reassembled bind =
    assembled (bind true status_query) (bind true version_query) (bind true relation_query)
      (bind true sensors_query) (bind true server_query) (bind true chassis_query)
      (bind true baseboard_query) (bind false)

module _ (handlers : RouteHandler) (interface : InstanceInterface)
    (graphql_router : String → handlers.Handler) where
  abbrev pub configuration :
      Bind → Application handlers interface graphql_router × Result (Unit {0})
  configuration bind =
      configure handlers interface graphql_router bind
        (new_application handlers interface graphql_router)

  -- How a configuration ends: its exception, the brokers stored, the threads and the handler of
  -- signals.
  abbrev pub EndsBy :
      List (Result (Unit {0}))
      → Application handlers interface graphql_router × Result (Unit {0})
      → Type 0
  EndsBy results p =
      (p.1 ≡ first_exception results)
      × (brokers_of handlers interface graphql_router p.0.entity_manager ≡ count_bound results)
      × (p.0.dbus_broker_manager ≡ threads_after p.1)
      × (p.0.handles_signals ≡ handles_after p.1)
