-- ===== src/Core/Graphql/Visitors/Entries.antt =====
-- What the loops of a builder do to the object under each key.
use obmc_webapp.Prelude.{
  String, ◌≡◌, refl, sym, ap, ◌∙◌, Bool-cases, inl, inr, List, [], ◌∷◌, str_eq, str_eq_refl,
  if◌then◌else◌,
}
use obmc_webapp.Prelude.Decimal.{to_string}
use obmc_webapp.Prelude.Maps.{str_before}
use obmc_webapp.Core.Graphql.Json.{Json, value, Object, no_members, member, push_back}
use obmc_webapp.Core.Graphql.Builders.{GqlInstance, Fragment, push_at, push_values, push_each}

module _ (Value : Type 0) where
  -- A second member of a name changes nothing.
  push_back_twice :
      (name : String) (json json' : Json Value) (o : Object Value)
      → push_back Value name json' (push_back Value name json o) ≡ push_back Value name json o
  unfolding push_back
  push_back_twice name json json' no_members = rw (str_eq_refl name) refl
  push_back_twice name json json' (member k old rest) = elim (Bool-cases (str_eq k name)) [
    | inl same ↦ rw same (rw same refl)
    | inr other ↦ rw other (elim (Bool-cases (str_before name k)) [
      | inl front ↦ rw front (rw (str_eq_refl name) refl)
      | inr behind ↦
          rw behind (rw (other, behind) (ap (member k old) (push_back_twice name json json' rest)))
    ])
  ]

  -- What a field does to the object under a key.
  abbrev pub Entry : Type 0
  Entry = String → Object Value → Object Value

  -- The member of the first instance of a list that has the key.
  abbrev pub value_entry : List (GqlInstance Value) → String → Entry
  value_entry [] field key o = o
  value_entry (i ∷ rest) field key o =
      if str_eq key (to_string i.hash)
      then push_back Value field (value (i.get_value field)) o
      else value_entry rest field key o

  abbrev pub node_entry : String → Json Value → Entry
  node_entry name json key o = push_back Value name json o

  abbrev pub apply_entry : Entry → Fragment Value → Fragment Value
  apply_entry entry [] = []
  apply_entry entry ((k, o) ∷ rest) = (k, entry k o) ∷ apply_entry entry rest

  abbrev pub apply_all : List Entry → Fragment Value → Fragment Value
  apply_all [] fragment = fragment
  apply_all (entry ∷ rest) fragment = apply_all rest (apply_entry entry fragment)

  pub push_each-apply_entry :
      (name : String) (json : Json Value) (fragment : Fragment Value)
      → push_each Value name json fragment ≡ apply_entry (node_entry name json) fragment
  unfolding push_each
  push_each-apply_entry name json [] = refl
  push_each-apply_entry name json ((k, o) ∷ rest) =
      ap (λ f. (k, push_back Value name json o) ∷ f) (push_each-apply_entry name json rest)

  -- what the loop over the instances does to one object
  abbrev pushed : String → List (GqlInstance Value) → Entry
  pushed field [] key o = o
  pushed field (i ∷ rest) key o = pushed field rest key (
      if str_eq key (to_string i.hash)
      then push_back Value field (value (i.get_value field)) o
      else o)

  pushed_again :
      (field : String) (instances : List (GqlInstance Value)) (key : String) (json : Json Value)
      (o : Object Value)
      → pushed field instances key (push_back Value field json o) ≡ push_back Value field json o
  pushed_again field [] key json o = refl
  pushed_again field (i ∷ rest) key json o = elim (Bool-cases (str_eq key (to_string i.hash))) [
    | inl same ↦
        rw (same, push_back_twice field json (value (i.get_value field)) o)
          (pushed_again field rest key json o)
    | inr other ↦ rw other (pushed_again field rest key json o)
  ]

  pushed-value_entry :
      (field : String) (instances : List (GqlInstance Value)) (key : String) (o : Object Value)
      → pushed field instances key o ≡ value_entry instances field key o
  pushed-value_entry field [] key o = refl
  pushed-value_entry field (i ∷ rest) key o = elim (Bool-cases (str_eq key (to_string i.hash))) [
    | inl same ↦ rw same (pushed_again field rest key (value (i.get_value field)) o)
    | inr other ↦ rw other (pushed-value_entry field rest key o)
  ]

  apply_entry_ext :
      (e e' : Entry) (fragment : Fragment Value)
      → ((key : String) (o : Object Value) → e key o ≡ e' key o)
      → apply_entry e fragment ≡ apply_entry e' fragment
  apply_entry_ext e e' [] same = refl
  apply_entry_ext e e' ((k, o) ∷ rest) same = rw (same k o, apply_entry_ext e e' rest same) refl

  apply_entry-push_at :
      (field : String) (i : GqlInstance Value) (rest : List (GqlInstance Value))
      (fragment : Fragment Value)
      → apply_entry
          (pushed field rest)
          (push_at Value (to_string i.hash) field (value (i.get_value field)) fragment)
        ≡ apply_entry (pushed field (i ∷ rest)) fragment
  unfolding push_at
  apply_entry-push_at field i rest [] = refl
  apply_entry-push_at field i rest ((k, o) ∷ more) = rw (apply_entry-push_at field i rest more) refl

  apply_entry_id : (fragment : Fragment Value) → apply_entry (λ key o. o) fragment ≡ fragment
  apply_entry_id [] = refl
  apply_entry_id ((k, o) ∷ rest) = ap (λ f. (k, o) ∷ f) (apply_entry_id rest)

  push_values-pushed :
      (field : String) (instances : List (GqlInstance Value)) (fragment : Fragment Value)
      → push_values Value field instances fragment ≡ apply_entry (pushed field instances) fragment
  unfolding push_values
  push_values-pushed field [] fragment = sym (apply_entry_id fragment)
  push_values-pushed field (i ∷ rest) fragment =
      push_values-pushed field rest
        (push_at Value (to_string i.hash) field (value (i.get_value field)) fragment)
      ∙ apply_entry-push_at field i rest fragment

  -- The loop over the instances puts in the value of the first one with the key.
  pub push_values-value_entry :
      (field : String) (instances : List (GqlInstance Value)) (fragment : Fragment Value)
      → push_values Value field instances fragment
        ≡ apply_entry (value_entry instances field) fragment
  push_values-value_entry field instances fragment =
      push_values-pushed field instances fragment
      ∙ apply_entry_ext (pushed field instances) (value_entry instances field) fragment
          (pushed-value_entry field instances)
