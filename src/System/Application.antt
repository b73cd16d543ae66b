-- ===== src/System/Application.antt =====
-- src/core/application.cpp, src/core/application.hpp and src/routes.cpp: `Application`, from its
-- configuration to its end by a signal. The handler of routes is a parameter; fastcgi++, which
-- `start` hands the connections to, is left out.
pub mod Ending
use obmc_webapp.Prelude.{
  ℕ, suc, ◌+◌, String, Bool, true, false, none, List, [], ◌∷◌, ◌++◌, ◌==◌, length, if◌then◌else◌,
}
use obmc_webapp.Core.Exceptions.{Exception, Result, ok, err}
use obmc_webapp.Core.Router.{RouteHandler, Routes, register_uri}
use obmc_webapp.Core.Entity.{InstanceInterface}
use obmc_webapp.Core.Graphql.Factory.{VisitorDict, register_gql_visitors}
use obmc_webapp.Core.Broker.Threads.{World, ended, start, terminate}
use obmc_webapp.System.Setup.{Bind, Built, EntityManager, new_manager, init_entity_map}

-- how many threads ask the brokers
abbrev pub brokers_task_count : ℕ
brokers_task_count = 5

-- `SIGINT`
abbrev pub sigint : ℕ
sigint = 2

-- the manager of brokers before `start`
abbrev pub not_started : World
not_started = record { active = false; phase = λ t. ended; owner = λ b. none; watching = false }

module _ (handlers : RouteHandler) (interface : InstanceInterface)
    (graphql_router : String → handlers.Handler) where
  pub record Application : Type 0 where
    pub routes : Routes handlers
    pub visitors : VisitorDict
    pub entity_manager : EntityManager interface
    pub dbus_broker_manager : World
    pub handles_signals : Bool

  abbrev pub new_application : Application
  new_application = record {
    routes = [];
    visitors = [];
    entity_manager = new_manager interface;
    dbus_broker_manager = not_started;
    handles_signals = false;
  }

  unfoldable pub register_all_routes : Application → Application
  register_all_routes app = record app {
    routes = register_uri handlers "/api/graphql" graphql_router app.routes;
  }

  unfoldable pub init_brokers : Application → Application
  init_brokers app = record app { dbus_broker_manager = start brokers_task_count }

  -- what follows `initEntityMap`
  unfoldable pub configured : Application → Result (Unit {0}) → Application × Result (Unit {0})
  configured app (err e) = (app, err e)
  configured app (ok _) = (record (init_brokers app) { handles_signals = true }, ok tt)

  -- `bind` is `before_bound` of the bus
  unfoldable pub configure : Bind → Application → Application × Result (Unit {0})
  configure bind app =
      let routed = register_all_routes app in
      let ready = record routed { visitors = register_gql_visitors routed.visitors } in
      let (manager, r) = init_entity_map interface bind ready.entity_manager in
      configured (record ready { entity_manager = manager }) r

  -- `Application::terminate`, up to the joining of the threads
  unfoldable pub terminate_brokers : Application → Application
  terminate_brokers app = record app { dbus_broker_manager = terminate app.dbus_broker_manager }

  unfoldable pub handle_signals : ℕ → Application → Application
  handle_signals signal app = if signal == sigint then terminate_brokers app else app

  -- how many brokers have been bound while the entities and providers were built
  abbrev count_brokers : List (String × Built interface) → ℕ
  count_brokers [] = 0
  count_brokers ((name, b) ∷ rest) = length b.brokers + count_brokers rest

  abbrev pub brokers_of : EntityManager interface → ℕ
  brokers_of manager =
      count_brokers manager.supplement_providers + count_brokers manager.entity_dictionary
