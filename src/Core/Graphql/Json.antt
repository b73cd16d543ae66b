-- ===== src/Core/Graphql/Json.antt =====
-- The values of nlohmann's JSON library that the handlers build, and the exceptions of
-- src/core/route/handlers/graphql_handler.hpp. An object has its members in the order of their names,
-- as a `std::map` has; `push_back` of a pair leaves a member that is there as it is.
use obmc_webapp.Prelude.{
  ◌≡◌, refl, String, Option, none, some, List, [], ◌∷◌, str_eq, if◌then◌else◌,
}
use obmc_webapp.Prelude.Maps.{str_before}
use obmc_webapp.Core.Exceptions.{Exception}

module _ {ℓ} (Value : Type ℓ) where
  mutual
    pub data Json : Type ℓ where
      value : Value → Json
      object : Object → Json
      array : Items → Json

    pub data Object : Type ℓ where
      no_members : Object
      member : String → Json → Object → Object

    pub data Items : Type ℓ where
      no_items : Items
      item : Json → Items → Items

  unfoldable pub push_back : String → Json → Object → Object
  push_back name json no_members = member name json no_members
  push_back name json (member k old rest) =
      let later = push_back name json rest in
      if str_eq k name
      then member k old rest
      else if str_before name k
      then member name json (member k old rest)
      else member k old later

  unfoldable pub member_of : String → Object → Option Json
  member_of name no_members = none
  member_of name (member k json rest) = if str_eq k name then some json else member_of name rest

  unfoldable pub items_of : List Object → Items
  items_of [] = no_items
  items_of (o ∷ rest) = item (object o) (items_of rest)

-- `GqlException`, with the field that a derived class adds
pub record GqlException : Type 0 where
  pub target : String
  pub description : String
  pub field : String
  pub content : String

abbrev pub invalid_argument : String → String → GqlException
invalid_argument arg desc = record {
  target = "Invalid Argument";
  description = desc;
  field = "Argument";
  content = arg;
}

abbrev pub not_supported : String → GqlException
not_supported entity = record {
  target = "Operation";
  description = "Not Supported";
  field = "Operation";
  content = entity;
}

abbrev pub ast_error : String → GqlException
ast_error error = record {
  target = "GraphQL";
  description = "GraphQL AST error";
  field = "AST";
  content = error;
}

-- How a call ends: it returns; it throws an exception that the handler answers, one of its own that
-- has no field more, or any other; or the code reads through a null pointer or from an empty object.
pub data Outcome {ℓ} (A : Type ℓ) : Type ℓ where
  done : A → Outcome A
  thrown : GqlException → Outcome A
  internal_error : String → Outcome A
  escaped : Exception → Outcome A
  undefined_behaviour : Outcome A

infixl 10 ◌then_do◌
abbrev pub ◌then_do◌ {ℓ κ} : {A : Type ℓ} {B : Type κ} → Outcome A → (A → Outcome B) → Outcome B
done a then_do f = f a
thrown e then_do f = thrown e
internal_error e then_do f = internal_error e
escaped e then_do f = escaped e
undefined_behaviour then_do f = undefined_behaviour

pub then_do_assoc {ℓ} :
    {A B C : Type ℓ} (m : Outcome A) (f : A → Outcome B) (g : B → Outcome C)
    → ((m then_do f) then_do g) ≡ (m then_do λ a. f a then_do g)
then_do_assoc (done a) f g = refl
then_do_assoc (thrown e) f g = refl
then_do_assoc (internal_error e) f g = refl
then_do_assoc (escaped e) f g = refl
then_do_assoc undefined_behaviour f g = refl

pub then_do_ext {ℓ} :
    {A B : Type ℓ} (m : Outcome A) (f g : A → Outcome B)
    → ((a : A) → f a ≡ g a)
    → (m then_do f) ≡ (m then_do g)
then_do_ext (done a) f g same = same a
then_do_ext (thrown e) f g same = refl
then_do_ext (internal_error e) f g same = refl
then_do_ext (escaped e) f g same = refl
then_do_ext undefined_behaviour f g same = refl
