-- ===== src/Core/Graphql.antt =====
-- src/core/route/handlers/graphql_handler.hpp and .cpp: the answers to queries of GraphQL.
pub mod Json
pub mod Builders
pub mod Visitors
pub mod Factory
pub mod Handler
