-- ===== src/Core/Graphql/Factory.antt =====
-- src/core/route/handlers/graphql_handler.cpp: `VisitorFactory`, which builds the visitor of an
-- operation by its name.
use obmc_webapp.Prelude.{String, Option, List}
use obmc_webapp.Prelude.Maps.{find, emplace, string_key}

-- the classes of visitors that the factory can build
pub data VisitorClass : Type 0 where
  gql_query_visitor : VisitorClass

abbrev pub VisitorDict : Type 0
VisitorDict = List (String × VisitorClass)

unfoldable pub register_visitor : VisitorClass → String → VisitorDict → VisitorDict
register_visitor visitor name dict = emplace name visitor dict

unfoldable pub register_gql_visitors : VisitorDict → VisitorDict
register_gql_visitors dict = register_visitor gql_query_visitor "query" dict

-- `none` is the null pointer
unfoldable pub build_visitor : String → VisitorDict → Option VisitorClass
build_visitor name dict = find name dict
