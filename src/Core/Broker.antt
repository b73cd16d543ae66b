-- ===== src/Core/Broker.antt =====
-- src/core/broker/broker.hpp and dbus_broker.cpp: when a broker queries the instances of its entity
-- anew. What the query answers is an argument, and so is whether the broker's mutex is held by
-- another thread, and each reading of the clock, in seconds. The listeners that are bound to the
-- instances are in DBus/Watch. The threads of the manager are in Broker/Threads.
pub mod Runs
pub mod Threads
use Prim.Native.String.{◌++◌}
use obmc_webapp.Prelude.{
  ℕ, ◌+◌, String, Bool, true, false, not, ◌&&◌, ◌||◌, List, [], ◌∷◌, ◌==◌, ltb, if◌then◌else◌,
}
use obmc_webapp.Core.Exceptions.{Exception, obmc_app_exception, logic_error, Result, ok, err}
use obmc_webapp.Core.Entity.{InstanceInterface, Entity, set_instances}

pub record Broker : Type 0 where
  pub last_execution_time : ℕ
  pub timeout : ℕ
  pub watch : Bool

-- the constructor
abbrev pub new_broker : ℕ → Bool → Broker
new_broker in_timeout in_watch = record {
  last_execution_time = 0;
  timeout = in_timeout;
  watch = in_watch;
}

unfoldable pub is_timeout : Broker → ℕ → Bool
is_timeout b now =
    let is_never_run = b.last_execution_time == 0 in
    let is_single_shot = b.timeout == 0 in
    let is_actual_timeout = ltb (b.last_execution_time + b.timeout) now in
    is_never_run || (not is_single_shot && is_actual_timeout)

unfoldable pub set_execution_time : ℕ → Broker → Broker
set_execution_time now b = record b { last_execution_time = now }

abbrev pub not_dbus_error : Exception
not_dbus_error =
    logic_error "At the DBusBroker the entity query accepted instance which is not DBusInstance."

module _ (interface : InstanceInterface) where
  open interface use {Instance, is_dbus_instance}

  -- `EntityDbusBroker`: whether a query is registered is its `entityQuery`
  pub record EntityBroker : Type 0 where
    pub broker : Broker
    pub entity : Entity interface
    pub has_query : Bool

  -- the loop that binds the listeners
  unfoldable pub bind_listeners : List Instance → Result (Unit {0})
  bind_listeners [] = ok tt
  bind_listeners (x ∷ rest) =
      let more = bind_listeners rest in if is_dbus_instance x then more else err not_dbus_error

  unfoldable pub watched : Bool → List Instance → Result (Unit {0})
  watched watch instances = if watch then bind_listeners instances else ok tt

  unfoldable pub accept_instances :
      ℕ → List Instance → EntityBroker → Result (Unit {0}) → EntityBroker × Result Bool
  accept_instances done instances b (err e) = (b, err e)
  accept_instances done instances b (ok _) = (
    record b {
      broker = set_execution_time done b.broker;
      entity = set_instances interface instances b.entity;
    },
    ok true,
  )

  unfoldable pub after_query :
      ℕ → EntityBroker → Result (List Instance) → EntityBroker × Result Bool
  after_query done b (err e) = (b, err e)
  after_query done b (ok instances) =
      accept_instances done instances b (watched b.broker.watch instances)

  -- `now` is read by `isTimeout`, and `done` by `setExecutionTime`
  unfoldable pub try_process :
      Bool → Result (List Instance) → ℕ → ℕ → EntityBroker → EntityBroker × Result Bool
  try_process held queried now done b =
      if held
      then (b, ok false)
      else if not (is_timeout b.broker now)
      then (b, ok false)
      else if not b.has_query
      then (b, err (obmc_app_exception ("Query not registried! Entity=" ++ b.entity.name)))
      else after_query done b queried

-- whether any of the manager's brokers is ready
unfoldable pub has_ready_task : List Broker → ℕ → Bool
has_ready_task [] now = false
has_ready_task (b ∷ rest) now = is_timeout b now || has_ready_task rest now
