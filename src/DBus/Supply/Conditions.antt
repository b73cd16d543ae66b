-- ===== src/DBus/Supply/Conditions.antt =====
-- What a condition does to the instances that an entity answers.
use obmc_webapp.Prelude.{ℕ, ◌≡◌, refl, ap, ◌∙◌, Bool, true, false, none, some, List, [], ◌∷◌, ◌++◌}
use obmc_webapp.Core.Exceptions.{Result, ok, err, ◌and_then◌}
use obmc_webapp.DBus.Values.{Platform}
use obmc_webapp.DBus.Instance.{Child, DbusInstance, QueryView, init_default_fields_value}
use obmc_webapp.DBus.Supply.{
  LinkRule, Conditions, Visit, Instances, Answer, supplement_all, check_condition, push_if, visited,
  visit_child, visit_children, visit_instance, prepend, after_instance, get_instances_from,
  get_instances,
}

abbrev pub cons_if {ℓ} : {A : Type ℓ} → Bool → A → List A → List A
cons_if true x list = x ∷ list
cons_if false x list = list

module _ (platform : Platform) (providers : List (List (Child platform) × LinkRule platform))
    (rules : Conditions platform) where
  -- The instances of a list that satisfy the condition, in the list's order.
  abbrev pub satisfying : List (Child platform) → List (Child platform)
  satisfying [] = []
  satisfying (c ∷ rest) = cons_if (check_condition platform (some rules) c) c (satisfying rest)

  -- An answer, less the instances that do not satisfy the condition.
  abbrev pub restricted : Answer platform → Answer platform
  restricted (instances, ok list) = (instances, ok (satisfying list))
  restricted (instances, err e) = (instances, err e)

  abbrev kept : Visit platform × Result (Unit {0}) → Visit platform × Result (Unit {0})
  kept ((i, list), r) = ((i, satisfying list), r)

  push_if-cons_if :
      (b b' : Bool) (c x : Child platform) (list : List (Child platform))
      → push_if platform b c (cons_if b' x list) ≡ cons_if b' x (push_if platform b c list)
  unfolding push_if
  push_if-cons_if true true c x list = refl
  push_if-cons_if true false c x list = refl
  push_if-cons_if false true c x list = refl
  push_if-cons_if false false c x list = refl

  push_if_nil : (b : Bool) (c : Child platform) → push_if platform b c [] ≡ cons_if b c []
  unfolding push_if
  push_if_nil true c = refl
  push_if_nil false c = refl

  prepend-restricted :
      (entry : ℕ × (QueryView platform × DbusInstance platform)) (a : Answer platform)
      → prepend platform entry (restricted a) ≡ restricted (prepend platform entry a)
  unfolding prepend
  prepend-restricted entry (instances, ok list) = refl
  prepend-restricted entry (instances, err e) = refl

  satisfying-append :
      (list : List (Child platform)) (c : Child platform)
      → push_if platform (check_condition platform (some rules) c) c (satisfying list)
        ≡ satisfying (list ++ (c ∷ []))
  satisfying-append [] c = push_if_nil (check_condition platform (some rules) c) c
  satisfying-append (x ∷ rest) c =
      push_if-cons_if (check_condition platform (some rules) c)
        (check_condition platform (some rules) x) c x (satisfying rest)
      ∙ ap (cons_if (check_condition platform (some rules) x) x) (satisfying-append rest c)

  visit_child-kept :
      (hash : ℕ) (p : Child platform × Result (Unit {0})) (i : DbusInstance platform)
      (list : List (Child platform))
      → visit_child platform (some rules) hash p (i, satisfying list)
        ≡ kept (visit_child platform none hash p (i, list))
  unfolding visit_child check_condition push_if
  visit_child-kept hash (c, err e) i list = refl
  visit_child-kept hash (c, ok _) i list = rw (satisfying-append list c) refl

  kept-and_then :
      (p : Visit platform × Result (Unit {0}))
      (more more' : Visit platform → Visit platform × Result (Unit {0}))
      → ((i : DbusInstance platform) (list : List (Child platform))
          → more' (i, satisfying list) ≡ kept (more (i, list)))
      → (kept p and_then more') ≡ kept (p and_then more)
  kept-and_then ((i, list), err e) more more' h = refl
  kept-and_then ((i, list), ok _) more more' h = h i list

  visit_children-kept :
      (children : List (ℕ × Child platform)) (i : DbusInstance platform)
      (list : List (Child platform))
      → visit_children platform providers (some rules) children (i, satisfying list)
        ≡ kept (visit_children platform providers none children (i, list))
  unfolding visit_children
  visit_children-kept [] i list = refl
  visit_children-kept ((hash, c) ∷ rest) i list =
      rw (visit_child-kept hash (supplement_all platform providers c) i list) (
        kept-and_then
          (visit_child platform none hash (supplement_all platform providers c) (i, list))
          (visit_children platform providers none rest)
          (visit_children platform providers (some rules) rest) (visit_children-kept rest))

  after_instance-kept :
      (hash : ℕ) (query : QueryView platform) (rest : Instances platform)
      (p : Visit platform × Result (Unit {0}))
      (more more' : List (Child platform) → Answer platform)
      → ((list : List (Child platform)) → more' (satisfying list) ≡ restricted (more list))
      → after_instance platform hash query rest (kept p) more'
        ≡ restricted (after_instance platform hash query rest p more)
  unfolding after_instance
  after_instance-kept hash query rest ((i, list), err e) more more' h = refl
  after_instance-kept hash query rest ((i, list), ok _) more more' h =
      ap (prepend platform (hash, (query, i))) (h list)
      ∙ prepend-restricted (hash, (query, i)) (more list)

  get_instances_from-restricted :
      (instances : Instances platform) (list : List (Child platform))
      → get_instances_from platform providers (some rules) instances (satisfying list)
        ≡ restricted (get_instances_from platform providers none instances list)
  unfolding get_instances_from visit_instance
  get_instances_from-restricted [] list = refl
  get_instances_from-restricted ((hash, (query, i)) ∷ rest) list =
      let j = init_default_fields_value platform query i in
      rw (visit_children-kept (visited platform j) j list) (
        after_instance-kept hash query rest
          (visit_children platform providers none (visited platform j) (j, list))
          (get_instances_from platform providers none rest)
          (get_instances_from platform providers (some rules) rest)
          (get_instances_from-restricted rest))

  -- With a condition `getInstances` does to the instances what it does without one, throws when
  -- that throws, and else answers the instances of that answer that satisfy the condition, in the
  -- same order.
  pub get_instances-condition :
      (instances : Instances platform)
      → get_instances platform providers (some rules) instances
        ≡ restricted (get_instances platform providers none instances)
  unfolding get_instances
  get_instances-condition instances = get_instances_from-restricted instances []
