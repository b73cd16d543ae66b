-- ===== src/Lib.antt =====
-- A verification library for the web application of OpenBMC: the service that answers GraphQL
-- requests on a board management controller, behind a web server, through fastcgi++.
--
-- A request takes this way. fastcgi++ hands its bytes to a `Connection` (src/core/connection.cpp),
-- which makes a `Request` of them and a `Router`. The router (src/core/router.cpp) prepares the
-- handler of the URI while the body is there. For the answer it reads the configuration file that
-- bmcweb writes (src/service/configuration.hpp) into the store of sessions
-- (src/service/session.hpp), asks whether the request shows one of the sessions
-- (src/service/authorization.hpp), and then runs the handler, which fills a `Response`
-- (src/core/response.cpp). The connection writes the status line, the headers and the body
-- (src/http/headers.hpp).
--
-- Files:
--   Prelude    shared names: Boolean tests on numbers, list lemmas, association lists for maps,
--              decimal numerals, integers, ranges of numbers
--   Http       src/http/headers.hpp: Status (codes and their classes), Phrase (reason phrases),
--              Headers (names, header lines, the status line)
--   Helpers    src/core/helpers/utils.hpp: Compare (constantTimeStringCompare), Base64
--              (base64Decode), Text (urlEncode, getNameFromLastSegmentObjectPath, toLower, on
--              bytes, and the second also on texts)
--   Core       Exceptions, Request, Response, Router and Connection, one file for each of the files
--              of this name in src/core/, Entity (members, instances, conditions and relations, from
--              src/core/entity/entity.cpp), Broker (isTimeout, tryProcess and the threads, from
--              src/core/broker/), Connect (src/core/connect/dbusConnect.hpp) and Graphql (Json,
--              Builders, Visitors, Factory and Handler, from
--              src/core/route/handlers/graphql_handler.cpp); theorems stand in the folders of the
--              same name
--   Service    Json (what is asked of nlohmann::json), Session (src/service/session.hpp),
--              Authorization (src/service/authorization.hpp), Configuration
--              (src/service/configuration.hpp)
--   DBus       src/core/entity/dbus_query.cpp: Values (of fields and properties), Members and
--              Instance (DBusInstance), Query (the two kinds of queries); Supply (getInstances of
--              an entity with D-Bus instances, src/core/entity/entity.cpp), Watch (the matches of
--              watched instances and the signals that reach them)
--   Providers  Status (getHigherStatus, src/status_provider.hpp)
--   System     Definitions (src/definitions.hpp), Queries (the dictionaries and formatters of
--              src/system_queries.hpp and the providers), Links (linkStatus, linkVersions), Setup
--              (EntityManager with its builder, and initEntityMap of src/core/application.cpp),
--              Served (an entity with D-Bus instances as the GraphQL handler sees it), Application
--              (src/core/application.cpp and src/routes.cpp: configure, with the exceptions that binding
--              a broker has, and the end by a signal)
--   Tests      concrete inputs
--
-- Each operation is a function of the state that it reads to the state that it writes and its
-- answer; an exception is an answer (`Result`), and what was written before it stays written. A
-- function or method of the source has its name in snake_case. The store of sessions, a singleton,
-- is passed on explicitly. The readings of the clock are arguments, in nanoseconds (of a broker: in
-- seconds). Code of others is a parameter: `OpenSsl` for CRYPTO_memcmp with the law of its manual,
-- `JsonReader` for the typed reads of a JSON value, `RouteHandler` for what is registered with the
-- router. A loop over a container is recursion on a list, so that only the printing of a number
-- takes fuel, one round more than the number, which is enough since each round divides it by ten.
-- Sizes of texts are numbers of bytes; the count of received bytes wraps around at 2 ^ 64, and a
-- byte is kept below 256. A timeout is converted to nanoseconds as the machine does it, with a
-- wrap-around at 2 ^ 64. The reference that `getHigherStatus` returns is to a destroyed text, and a
-- read of it gives what `Platform` says.
--
-- Brokers fill the entities that the GraphQL handler answers from: a broker asks its query for the
-- instances when its period has passed, and stores them in its entity. A query asks the mapper of
-- the bus for objects and fills an instance of each from its properties, as the query's dictionary
-- says; the associations of an object become complex instances that its instance holds. When an
-- entity is asked for its instances, the instances of the providers linked to it supplement them.
-- The handler visits a query field by field with a stack of builders.
--
-- The calls over the bus (`Bus`), the registration of observers when a broker is bound
-- (`ObserverBus`), the hash of a text and the type of floating-point numbers
-- (`Platform`), the JSON library of the configuration file (`JsonReader`, `JsonWriter`), and the
-- parsers and the printer of the GraphQL handler are parameters. Instances, which the source shares
-- by pointer, are values that a change writes back to where they are kept; DBus/Watch, where the
-- sharing matters, gives them addresses. A provider stands as the instances that it answers, and the
-- GraphQL handler sees an entity as an interface whose instances stay the same while a query runs.
-- Reading through a null pointer is an
-- outcome of its own (`undefined_behaviour`). The threads of the brokers take turns in any order; a
-- turn lasts until the next test or call. The thread that watches for objects has turns of its own.
--
-- A broker that watches binds a match of D-Bus for each interface to each instance of an answer, and
-- a signal fills the members of the instances that it is about (DBus/Watch). What a match accepts
-- is the documented behaviour of sdbusplus.
--
-- Not modelled: the observers of added and removed objects, which only log, the loop of fastcgi++
-- that `Application::start` runs, the text of the current date (`getFormattedCurrentDate`), and
-- logging. Requests are served one after another: the store of sessions is not guarded by a lock in
-- the source either.
pub mod Prelude
pub mod Http
pub mod Helpers
pub mod Core
pub mod Service
pub mod DBus
pub mod Providers
pub mod System
pub mod Tests
