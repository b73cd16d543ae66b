-- ===== src/DBus/Supply/Repeated.antt =====
-- src/core/entity/entity.cpp: `getInstances` asked again, where the default values of an instance
-- undo what the providers' rules have made of it.
use obmc_webapp.Prelude.{ℕ, ◌≡◌, refl, ap, ◌∙◌, ==_iff, Option, List, [], ◌∷◌, All}
use obmc_webapp.Prelude.Maps.{nat_key}
use obmc_webapp.Core.Exceptions.{Result, ok, err, ◌and_then◌}
use obmc_webapp.DBus.Values.{Platform}
use obmc_webapp.DBus.Instance.{
  Child, DbusInstance, QueryView, supplement_defaults, init_default_fields_value,
}
use obmc_webapp.DBus.Members.{Members}
use obmc_webapp.DBus.Supply.{
  own_hash, as_child, visited, LinkRule, Conditions, supplement_instance, supplement_all,
  write_back, Visit, visit_child, Instances, prepend, after_instance, visit_children,
  visit_instance, get_instances_from, get_instances,
}
use obmc_webapp.DBus.Supply.Visited.{visited_alone}

module _ (platform : Platform) where
  -- The default values make the same of the members after a step as before it.
  abbrev pub IsUndone :
      Members platform → Child platform → Child platform × Result (Unit {0}) → Type 0
  IsUndone defaults c p =
      supplement_defaults platform defaults p.0.member_instances
      ≡ supplement_defaults platform defaults c.member_instances

  IsUndone-and_then :
      (defaults : Members platform) (c : Child platform) (p : Child platform × Result (Unit {0}))
      (more : Child platform → Child platform × Result (Unit {0}))
      → IsUndone defaults c p
      → ((c' : Child platform) → IsUndone defaults c' (more c'))
      → IsUndone defaults c (p and_then more)
  IsUndone-and_then defaults c (c', err e) more h k = h
  IsUndone-and_then defaults c (c', ok _) more h k = k c' ∙ h

  -- Every rule is undone, whatever instances it links.
  abbrev pub AreUndone :
      Members platform → List (List (Child platform) × LinkRule platform) → Type 0
  AreUndone defaults providers =
      All (λ p. (s c : Child platform) → IsUndone defaults c (p.1 s c)) providers

  supplement_instance-IsUndone :
      (defaults : Members platform) (supplements : List (Child platform)) (rule : LinkRule platform)
      → ((s c : Child platform) → IsUndone defaults c (rule s c))
      → (c : Child platform) → IsUndone defaults c (supplement_instance platform supplements rule c)
  unfolding supplement_instance
  supplement_instance-IsUndone defaults [] rule h c = refl
  supplement_instance-IsUndone defaults (s ∷ rest) rule h c =
      IsUndone-and_then defaults c (rule s c) (supplement_instance platform rest rule) (h s c)
        (supplement_instance-IsUndone defaults rest rule h)

  supplement_all-IsUndone :
      (defaults : Members platform) (providers : List (List (Child platform) × LinkRule platform))
      → AreUndone defaults providers
      → (c : Child platform) → IsUndone defaults c (supplement_all platform providers c)
  unfolding supplement_all
  supplement_all-IsUndone defaults [] h c = refl
  supplement_all-IsUndone defaults ((supplements, rule) ∷ rest) (here, later) c =
      IsUndone-and_then defaults c (supplement_instance platform supplements rule c)
        (supplement_all platform rest)
        (supplement_instance-IsUndone defaults supplements rule here c)
        (supplement_all-IsUndone defaults rest later)

  module _ (providers : List (List (Child platform) × LinkRule platform))
      (condition : Option (Conditions platform)) where
    -- the visit of an instance whose default values are set
    abbrev visit_initialised :
        DbusInstance platform → List (Child platform) → Visit platform × Result (Unit {0})
    visit_initialised j result =
        visit_children platform providers condition (visited platform j) (j, result)

    -- That an instance with its default values set is again what it was before a visit.
    abbrev IsRenewed :
        QueryView platform → DbusInstance platform → Visit platform × Result (Unit {0}) → Type 0
    IsRenewed query j p = init_default_fields_value platform query p.0.0 ≡ j

    init_default_fields_value-write_back :
        (query : QueryView platform) (i j : DbusInstance platform) (c : Child platform)
        → init_default_fields_value platform query i ≡ j
        → supplement_defaults platform query.default_fields_value c.member_instances
          ≡ j.member_instances
        → init_default_fields_value platform query (write_back platform (own_hash platform j) c j)
          ≡ j
    unfolding init_default_fields_value write_back
    init_default_fields_value-write_back query i j c e h =
        rw ((==_iff (own_hash platform j) (own_hash platform j)).1 refl)
          (ap (λ m. record j { member_instances = m }) h)

    visit_child-IsRenewed :
        (query : QueryView platform) (j : DbusInstance platform)
        (p : Child platform × Result (Unit {0})) (result : List (Child platform))
        → init_default_fields_value platform query (write_back platform (own_hash platform j) p.0 j)
          ≡ j
        → IsRenewed query j (
            visit_child platform condition (own_hash platform j) p (j, result)
            and_then visit_children platform providers condition [])
    unfolding visit_child visit_children
    visit_child-IsRenewed query j (c, err e) result h = h
    visit_child-IsRenewed query j (c, ok _) result h = h

    -- The default values of a query are the same set twice, and undo every rule.
    abbrev pub IsRenewing : QueryView platform → Type 0
    IsRenewing query =
        ((m : Members platform)
          → supplement_defaults platform query.default_fields_value
              (supplement_defaults platform query.default_fields_value m)
            ≡ supplement_defaults platform query.default_fields_value m)
        × AreUndone query.default_fields_value providers

    visit_instance-IsRenewed :
        (query : QueryView platform) (i : DbusInstance platform) (result : List (Child platform))
        → i.complex_instances ≡ []
        → IsRenewing query
        → IsRenewed query
            (init_default_fields_value platform query i)
            (visit_instance platform providers condition query i result)
    unfolding visit_instance init_default_fields_value visit_children
    visit_instance-IsRenewed query i result alone (twice, undone) =
        let j = init_default_fields_value platform query i in
        let p = supplement_all platform providers (as_child platform j) in
        rw (visited_alone platform j alone) (
          visit_child-IsRenewed query j p result (
            init_default_fields_value-write_back query j j p.0
              (ap (λ m. record j { member_instances = m }) (twice i.member_instances))
              (supplement_all-IsUndone query.default_fields_value providers undone
                  (as_child platform j)
                ∙ twice i.member_instances)))

    visit_instance_again :
        (query : QueryView platform) (i : DbusInstance platform) (result : List (Child platform))
        → i.complex_instances ≡ []
        → IsRenewing query
        → visit_instance platform providers condition query
            (visit_instance platform providers condition query i result).0.0
            result
          ≡ visit_instance platform providers condition query i result
    unfolding visit_instance
    visit_instance_again query i result alone renewing =
        ap (λ j. visit_initialised j result)
          (visit_instance-IsRenewed query i result alone renewing)

    -- Instances without complex ones, each of a query whose default values renew it.
    abbrev pub AreRenewed : Instances platform → Type 0
    AreRenewed instances = All (λ e. (e.1.1.complex_instances ≡ []) × IsRenewing e.1.0) instances

    after_instance_again :
        (hash : ℕ) (query : QueryView platform) (rest : Instances platform)
        (result : List (Child platform)) (p : Visit platform × Result (Unit {0}))
        → visit_instance platform providers condition query p.0.0 result ≡ p
        → ((l : List (Child platform))
            → get_instances_from platform providers condition
                (get_instances_from platform providers condition rest l).0
                l
              ≡ get_instances_from platform providers condition rest l)
        → get_instances_from platform providers condition
            (after_instance platform hash query rest p
              (get_instances_from platform providers condition rest)).0
            result
          ≡ after_instance platform hash query rest p
              (get_instances_from platform providers condition rest)
    unfolding get_instances_from after_instance prepend
    after_instance_again hash query rest result ((i, l), err e) same again =
        ap
          (λ q.
            after_instance platform hash query rest q
              (get_instances_from platform providers condition rest))
          same
    after_instance_again hash query rest result ((i, l), ok u) same again =
        let a = get_instances_from platform providers condition rest l in
        ap
          (λ q.
            after_instance platform hash query a.0 q
              (get_instances_from platform providers condition a.0))
          same
        ∙ ap (prepend platform (hash, (query, i))) (again l)

    get_instances_from_again :
        (instances : Instances platform) (result : List (Child platform))
        → AreRenewed instances
        → get_instances_from platform providers condition
            (get_instances_from platform providers condition instances result).0
            result
          ≡ get_instances_from platform providers condition instances result
    unfolding get_instances_from
    get_instances_from_again [] result h = refl
    get_instances_from_again ((hash, (query, i)) ∷ rest) result ((alone, renewing), later) =
        after_instance_again hash query rest result
          (visit_instance platform providers condition query i result)
          (visit_instance_again query i result alone renewing)
          (λ l. get_instances_from_again rest l later)

    -- Asked again right after, an entity whose instances have no complex ones answers, or throws,
    -- as the first time, and its instances remain as the first call has left them: if the default
    -- values of their queries, set twice, are as set once, and undo what the rules of the
    -- providers do.
    pub get_instances_again :
        (instances : Instances platform)
        → AreRenewed instances
        → get_instances platform providers condition
            (get_instances platform providers condition instances).0
          ≡ get_instances platform providers condition instances
    unfolding get_instances
    get_instances_again instances h = get_instances_from_again instances [] h
