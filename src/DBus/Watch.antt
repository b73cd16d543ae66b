-- ===== src/DBus/Watch.antt =====
-- src/core/entity/dbus_query.cpp and src/core/broker/dbus_broker.cpp: the watching of signals.
-- `bindListeners` gives an instance a `match` for each interface of its query's dictionary, whose
-- callback fills the members of the instance from the values that have changed. A match takes the
-- signals `PropertiesChanged` of one object and one interface (`rules::propertiesChanged` of
-- sdbusplus). An instance is an object that its matches and the entity share: the objects have
-- addresses, and none is ever freed, since each holds the matches whose callbacks hold it.
pub mod Delivered
pub mod Paths
pub mod Filled
pub mod Refilled
pub mod Bound
use obmc_webapp.Prelude.{
  ℕ, suc, String, Bool, ◌&&◌, Option, none, some, List, [], ◌∷◌, ◌++◌, str_eq, if◌then◌else◌,
}
use obmc_webapp.Prelude.Maps.{find, insert_or_assign, nat_key}
use obmc_webapp.Core.Exceptions.{Result, ok, err, ◌and_then◌}
use obmc_webapp.DBus.Values.{Platform}
use obmc_webapp.DBus.Instance.{Targets, Properties, DbusInstance, QueryView, fill_members}
use obmc_webapp.DBus.Supply.{own_hash}

-- A match, with the object that its callback captures.
pub record Listener : Type 0 where
  pub path : String
  pub interface : String
  pub self : ℕ

-- the rule of a match
unfoldable pub accepts : String → String → Listener → Bool
accepts path interface l = str_eq l.path path && str_eq l.interface interface

-- the loop over `targetProperties`
unfoldable pub listeners_of : ℕ → String → Targets → List Listener
listeners_of self path [] = []
listeners_of self path ((interface, members) ∷ rest) =
    record { path = path; interface = interface; self = self } ∷ listeners_of self path rest

module _ (platform : Platform) where
  abbrev pub Objects : Type 0
  Objects = List (ℕ × DbusInstance platform)

  -- The objects, the next free address, the matches, and the instances of the entity: for each
  -- hash the address.
  pub record Watch : Type 0 where
    pub objects : Objects
    pub next : ℕ
    pub listeners : List Listener
    pub instances : List (ℕ × ℕ)

  abbrev pub no_objects : Watch
  no_objects = record { objects = []; next = 0; listeners = []; instances = [] }

  module _ (query : QueryView platform) (targets : Targets) where
    -- an instance of a query's answer, with its listeners bound
    unfoldable pub bind_object : DbusInstance platform → Watch → Watch
    bind_object i w = record w {
      objects = insert_or_assign w.next i w.objects;
      next = suc w.next;
      listeners = w.listeners ++ listeners_of w.next i.object_path targets;
    }

    -- the loop of `tryProcess`
    unfoldable pub bind_objects : List (DbusInstance platform) → Watch → Watch
    bind_objects [] w = w
    bind_objects (i ∷ rest) w = bind_objects rest (bind_object i w)

    -- `setInstances` of the objects from an address on
    unfoldable pub set_objects : ℕ → List (DbusInstance platform) → List (ℕ × ℕ) → List (ℕ × ℕ)
    set_objects self [] m = m
    set_objects self (i ∷ rest) m =
        set_objects (suc self) rest (insert_or_assign (own_hash platform i) self m)

    -- what `tryProcess` does with the answer of the query
    unfoldable pub take_answer : List (DbusInstance platform) → Watch → Watch
    take_answer answer w = record (bind_objects answer w) {
      instances = set_objects w.next answer [];
    }

    unfoldable pub write_object :
        ℕ → DbusInstance platform × Result (Unit {0}) → Objects → Objects × Result (Unit {0})
    write_object self (i, r) objects = (insert_or_assign self i objects, r)

    -- the callback of a match
    unfoldable pub callback :
        ℕ
        → String
        → Properties platform
        → Option (DbusInstance platform)
        → Objects
        → Objects × Result (Unit {0})
    callback self interface changed none objects = (objects, ok tt)
    callback self interface changed (some i) objects =
        write_object self (fill_members platform query targets interface changed i) objects

    -- A signal reaches the matches in the order in which they were made, until a callback throws. The
    -- threads of the brokers, of which each takes the signals of its own connection, stand as one.
    unfoldable pub deliver :
        String
        → String
        → Properties platform
        → List Listener
        → Objects
        → Objects × Result (Unit {0})
    deliver path interface changed [] objects = (objects, ok tt)
    deliver path interface changed (l ∷ rest) objects =
        let later = deliver path interface changed rest in
        if accepts path interface l
        then (callback l.self interface changed (find l.self objects) objects and_then later)
        else later objects

    unfoldable pub signal :
        String → String → Properties platform → Watch → Watch × Result (Unit {0})
    signal path interface changed w =
        let (objects, r) = deliver path interface changed w.listeners w.objects in
        (record w { objects = objects }, r)

    -- What a broker that watches can come to, by answers of its query and by signals.
    pub data Reached : Watch → Type 0 where
      begun : Reached no_objects
      answered :
          (answer : List (DbusInstance platform)) {w : Watch}
          → Reached w
          → Reached (take_answer answer w)
      signalled :
          (path interface : String) (changed : Properties platform) {w : Watch}
          → Reached w
          → Reached (signal path interface changed w).0
