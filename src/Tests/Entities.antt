-- ===== src/Tests/Entities.antt =====
-- The theorems on entities and brokers at concrete inputs. An instance is a hash and a value.
use obmc_webapp.Prelude.{ℕ, ◌==◌, String, ◌≡◌, ◌≤◌, refl, true, false, none, List, [], ◌∷◌, arith}
use obmc_webapp.Prelude.Maps.{string_key}
use obmc_webapp.Core.Exceptions.{ok}
use obmc_webapp.Core.Entity.{InstanceInterface, Entity, new_entity, get_instance, set_instances}
use obmc_webapp.Core.Entity.Instances.{last_with, get_instance-set_instances}
use obmc_webapp.Core.Entity.Condition.{Rule, relation_compare_equal}
use obmc_webapp.Core.Broker.{EntityBroker, new_broker, try_process}
use obmc_webapp.Core.Broker.Runs.{Run, try_process-Run, Attempt, successes, successes-le_one}

abbrev interface : InstanceInterface
interface = record { Instance = ℕ × String; get_hash = λ x. x.0; is_dbus_instance = λ x. true }

abbrev server : Entity interface
server = new_entity interface "Server"

abbrev found : List (ℕ × String)
found = (7, "old") ∷ (8, "other") ∷ (7, "new") ∷ []

get_instance-set_instances_example :
    get_instance interface 7 (set_instances interface found server)
    ≡ last_with interface 7 found none
get_instance-set_instances_example = get_instance-set_instances interface 7 found server

abbrev once : EntityBroker interface
once = record { broker = new_broker 0 true; entity = server; has_query = true }

try_process-Run_example :
    Run interface once (ok found) 100 101 (try_process interface false (ok found) 100 101 once)
try_process-Run_example = try_process-Run interface false (ok found) 100 101 once

abbrev attempts : List (Attempt interface)
attempts =
    record { held = true; queried = ok found; now = 100; done = 101 }
    ∷ record { held = false; queried = ok found; now = 102; done = 103 }
    ∷ record { held = false; queried = ok found; now = 900; done = 901 }
    ∷ []

successes-le_one_example : successes interface attempts once ≤ 1
successes-le_one_example =
    successes-le_one interface attempts once refl (omega arith, (omega arith, (omega arith, tt)))

abbrev rules : List (Rule ℕ)
rules =
    record { member_name = "Type"; value = 3; compare_callback = relation_compare_equal ℕ ◌==◌ }
    ∷ []

abbrev field_of : String → ℕ
field_of name = 3
