-- ===== src/Tests/Queries.antt =====
-- The theorem on the visitor of GraphQL at a concrete query. Values are texts.
use obmc_webapp.Prelude.{String, ◌≡◌, false, none, some, [], ◌∷◌}
use obmc_webapp.Core.Exceptions.{Result, ok}
use obmc_webapp.Core.Graphql.Json.{no_members, ◌then_do◌}
use obmc_webapp.Core.Graphql.Builders.{GqlEntity, back}
use obmc_webapp.Core.Graphql.Visitors.{
  Selections, no_fields, scalar_field, object_field, visitor_name, query_document,
}
use obmc_webapp.Core.Graphql.Visitors.Entries.{apply_all}
use obmc_webapp.Core.Graphql.Visitors.Contexts.{entries_of}
use obmc_webapp.Core.Graphql.Visitors.Nested.{query_document-entries_of}

-- Every name is an entity with two instances, whose members hold their own names.
abbrev entities : String → Result (GqlEntity String)
entities name = ok (record {
  get_member = λ field. ok tt;
  get_instances = ok (
      record { hash = 1; get_value = λ field. field }
      ∷ record { hash = 2; get_value = λ field. field }
      ∷ []);
})

abbrev names_of_servers : Selections
names_of_servers =
    object_field (some "servers") "Server" (scalar_field none "Name" no_fields) no_fields

query_document-entries_of_example : query_document String entities false names_of_servers ≡ (
    entries_of String entities names_of_servers none then_do λ entries.
    back String (apply_all String entries ((visitor_name String entities, no_members) ∷ [])))
query_document-entries_of_example = query_document-entries_of String entities names_of_servers
