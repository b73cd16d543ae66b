-- ===== src/Core.antt =====
-- The folder core: what is thrown, the request, the response, the router and the
-- connection, the entities, the brokers, the connection to D-Bus and the answers of GraphQL.
pub mod Exceptions
pub mod Request
pub mod Response
pub mod Router
pub mod Connection
pub mod Entity
pub mod Broker
pub mod Graphql
pub mod Connect
