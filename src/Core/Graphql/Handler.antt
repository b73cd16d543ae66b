-- ===== src/Core/Graphql/Handler.antt =====
-- src/core/route/handlers/graphql_handler.cpp: `GraphqlRouter`. The parsers of JSON and of queries, and
-- the printer of JSON, are parameters. The lock of the parser and the log are left out.
use obmc_webapp.Prelude.{String, Bool, true, Option, none, some, List, len, ◌==◌, if◌then◌else◌}
use obmc_webapp.Http.Status.{Code}
use obmc_webapp.Core.Exceptions.{Result}
use obmc_webapp.Core.Response.{Response, push, set_status}
use obmc_webapp.Core.Graphql.Json.{
  value, object, Object, no_members, push_back, GqlException, ast_error, Outcome, done, thrown,
  internal_error, escaped, undefined_behaviour, ◌then_do◌,
}
use obmc_webapp.Core.Graphql.Builders.{GqlEntity}
use obmc_webapp.Core.Graphql.Visitors.{Operation, visit_document}

-- What the body of a request holds under "query": nothing that parses or no text; the body is of a
-- type that has no keys, of which the library throws; or a text.
pub data Body : Type 0 where
  no_query bad_type : Body
  query_text : String → Body

-- How `preHandlers` ends.
pub data PreHandled : Type 0 where
  handled : Bool → PreHandled
  json_type_error : PreHandled

-- The libraries.
pub record Parsers : Type 0 where
  pub read_body : String → Body
  pub parse_string : String → Option (List Operation)

-- `gqlNode`
abbrev pub Node : Type 0
Node = Option (List Operation)

unfoldable pub pre_handled : Parsers → Body → Node → Node × PreHandled
pre_handled parsers no_query gql_node = (gql_node, handled true)
pre_handled parsers bad_type gql_node = (gql_node, json_type_error)
pre_handled parsers (query_text query) gql_node = (parsers.parse_string query, handled true)

unfoldable pub pre_handlers : Parsers → String → Node → Node × PreHandled
pre_handlers parsers post_buffer gql_node =
    if len post_buffer == 0
    then (gql_node, handled true)
    else pre_handled parsers (parsers.read_body post_buffer) gql_node

module _ (Value : Type 0) (text : String → Value) (get_entity : String → Result (GqlEntity Value))
    (dump : Object Value → String) where
  abbrev text_member : String → String → Object Value → Object Value
  text_member field content o = push_back Value field (value (text content)) o

  -- `whatJson`, and that of `GqlInternalError`
  unfoldable pub what_json : GqlException → Object Value
  what_json e =
      text_member e.field e.content
        (text_member "Description" e.description (text_member "Target" e.target no_members))

  unfoldable pub internal_json : String → Object Value
  internal_json error =
      text_member "Description" error
        (text_member "Target" "Graphql internal impelenetation error" no_members)

  unfoldable pub visited_node : Node → Outcome (Object Value)
  visited_node none = thrown (ast_error "Invalid Grapqh AST. Can't parse comming request")
  visited_node (some document) = visit_document Value get_entity document no_members

  -- the body of the answer, with the exceptions that `run` catches
  unfoldable pub result_of : Outcome (Object Value) → Outcome (Object Value)
  result_of (done o) = done (push_back Value "data" (object o) no_members)
  result_of (thrown e) = done (push_back Value "error" (object (what_json e)) no_members)
  result_of (internal_error message) =
      done (push_back Value "error" (object (internal_json message)) no_members)
  result_of (escaped e) = escaped e
  result_of undefined_behaviour = undefined_behaviour

  unfoldable pub run : Node → Response → Outcome Response
  run gql_node response = result_of (visited_node gql_node) then_do λ result.
      done (set_status Code.ok (push (dump result) response))
