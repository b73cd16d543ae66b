-- ===== src/System/Links/Typed.antt =====
-- src/system_queries.hpp: the status of a sensor is a text.
use obmc_webapp.Prelude.{
  ℕ, String, ◌≡◌, sym, subst, Bool, true, false, Bool-cases, inl, inr, Option, none, some, List, [],
  ◌∷◌, All, All-append, str_eq,
}
use obmc_webapp.Prelude.Maps.{find, string_key}
use obmc_webapp.Core.Exceptions.{Result, ok, err}
use obmc_webapp.DBus.Values.{Platform, text}
use obmc_webapp.DBus.Instance.{
  Child, DbusInstance, QueryView, supplement_defaults, init_default_fields_value,
}
use obmc_webapp.DBus.Instance.Fields.{find-set_value, find-supplement_or_update}
use obmc_webapp.DBus.Instance.Hashes.{and_then_holds}
use obmc_webapp.DBus.Members.{meta_object_path}
use obmc_webapp.DBus.Supply.{
  own_hash, as_child, Conditions, supplement_instance, supplement_all, check_condition, Visit,
  push_if, visit_child, Instances, Answer, prepend, after_instance, visit_children, visit_instance,
  get_instances_from, get_instances,
}
use obmc_webapp.DBus.Supply.Visited.{visited_alone}
use obmc_webapp.System.Definitions.{field_status, field_object_cauth_path}
use obmc_webapp.System.Queries.{sensors_query}
use obmc_webapp.System.Links.{higher_status, string_field, raise_status, link_texts, link_status}
use obmc_webapp.System.Links.Repeated.{AreSensors}

module _ (platform : Platform) where
  -- The instance has a status, and it is a text.
  abbrev pub HasStatusText : Child platform → Type 0
  HasStatusText c = (s : String) × (find field_status c.member_instances ≡ some (text s))

  raise_status-HasStatusText :
      (r : Result String) (c : Child platform)
      → HasStatusText c
      → HasStatusText (raise_status platform r c).0
  unfolding raise_status
  raise_status-HasStatusText (err e) c h = h
  raise_status-HasStatusText (ok status) c (old, there) = (
    status,
    find-set_value platform field_status field_status (text status) (text old) c.member_instances
        there,
  )

  link_texts-HasStatusText :
      (path causer candidate current : Option String) (c : Child platform)
      → HasStatusText c
      → HasStatusText (link_texts platform path causer candidate current c).0
  unfolding link_texts
  link_texts-HasStatusText (some path) (some causer) (some candidate) (some current) c h =
      elim (Bool-cases (str_eq path causer)) [
        | inl mine ↦
            rw mine (raise_status-HasStatusText (higher_status platform current candidate) c h)
        | inr other ↦ rw other h
      ]
  link_texts-HasStatusText (some path) (some causer) (some candidate) none c h = h
  link_texts-HasStatusText (some path) (some causer) none current c h = h
  link_texts-HasStatusText (some path) none candidate current c h = h
  link_texts-HasStatusText none causer candidate current c h = h

  supplement_instance-HasStatusText :
      (supplements : List (Child platform)) (c : Child platform)
      → HasStatusText c
      → HasStatusText (supplement_instance platform supplements (link_status platform) c).0
  unfolding supplement_instance link_status
  supplement_instance-HasStatusText [] c h = h
  supplement_instance-HasStatusText (s ∷ rest) c h =
      and_then_holds HasStatusText (link_status platform s c)
        (supplement_instance platform rest (link_status platform))
        (link_texts-HasStatusText (string_field platform meta_object_path c.member_instances)
          (string_field platform field_object_cauth_path s.member_instances)
          (string_field platform field_status s.member_instances)
          (string_field platform field_status c.member_instances) c h)
        (supplement_instance-HasStatusText rest)

  module _ (supplements : List (Child platform)) (condition : Option (Conditions platform)) where
    supplement_all-HasStatusText :
        (c : Child platform)
        → HasStatusText c
        → HasStatusText (supplement_all platform ((supplements, link_status platform) ∷ []) c).0
    unfolding supplement_all
    supplement_all-HasStatusText c h =
        and_then_holds HasStatusText
          (supplement_instance platform supplements (link_status platform) c)
          (supplement_all platform []) (supplement_instance-HasStatusText supplements c h)
          (λ c' h'. h')

    abbrev AreTyped : Visit platform → Type 0
    AreTyped v = All HasStatusText v.1

    push_if-AreTyped :
        (b : Bool) (c : Child platform) (result : List (Child platform))
        → HasStatusText c
        → All HasStatusText result
        → All HasStatusText (push_if platform b c result)
    unfolding push_if
    push_if-AreTyped true c result h k = All-append HasStatusText result (c ∷ []) k (h, tt)
    push_if-AreTyped false c result h k = k

    visit_child-AreTyped :
        (hash : ℕ) (p : Child platform × Result (Unit {0})) (v : Visit platform)
        → HasStatusText p.0
        → AreTyped v
        → AreTyped (visit_child platform condition hash p v).0
    unfolding visit_child
    visit_child-AreTyped hash (c, err e) (i, result) h k = k
    visit_child-AreTyped hash (c, ok _) (i, result) h k =
        push_if-AreTyped (check_condition platform condition c) c result h k

    visit_instance-AreTyped :
        (i : DbusInstance platform) (result : List (Child platform))
        → i.complex_instances ≡ []
        → All HasStatusText result
        → AreTyped
            (visit_instance platform
              ((supplements, link_status platform) ∷ [])
              condition
              (sensors_query platform).view
              i
              result).0
    unfolding visit_instance visit_children init_default_fields_value supplement_defaults
    visit_instance-AreTyped i result alone k =
        let j = init_default_fields_value platform (sensors_query platform).view i in
        let c = as_child platform j in
        let p = supplement_all platform ((supplements, link_status platform) ∷ []) c in
        let there =
          find-supplement_or_update platform field_status field_status (text "OK")
            i.member_instances in
        rw (visited_alone platform j alone) (
          and_then_holds AreTyped
            (visit_child platform condition (own_hash platform j) p (j, result))
            (visit_children platform ((supplements, link_status platform) ∷ []) condition [])
            (visit_child-AreTyped (own_hash platform j) p (j, result)
              (supplement_all-HasStatusText c ("OK", there)) k)
            (λ v h. h))

    -- What is answered is typed, unless a rule throws.
    abbrev pub IsTyped : Answer platform → Type 0
    IsTyped (instances, ok list) = All HasStatusText list
    IsTyped (instances, err e) = Unit

    prepend-IsTyped :
        (entry : ℕ × (QueryView platform × DbusInstance platform)) (a : Answer platform)
        → IsTyped a
        → IsTyped (prepend platform entry a)
    unfolding prepend
    prepend-IsTyped entry (instances, ok list) h = h
    prepend-IsTyped entry (instances, err e) h = tt

    after_instance-IsTyped :
        (hash : ℕ) (query : QueryView platform) (rest : Instances platform)
        (p : Visit platform × Result (Unit {0})) (more : List (Child platform) → Answer platform)
        → AreTyped p.0
        → ((result : List (Child platform)) → All HasStatusText result → IsTyped (more result))
        → IsTyped (after_instance platform hash query rest p more)
    unfolding after_instance
    after_instance-IsTyped hash query rest ((i, result), err e) more h k = tt
    after_instance-IsTyped hash query rest ((i, result), ok _) more h k =
        prepend-IsTyped (hash, (query, i)) (more result) (k result h)

    get_instances_from-IsTyped :
        (instances : Instances platform)
        → AreSensors platform instances
        → (result : List (Child platform)) → All HasStatusText result
        → IsTyped (
            get_instances_from platform
              ((supplements, link_status platform) ∷ [])
              condition
              instances
              result)
    unfolding get_instances_from
    get_instances_from-IsTyped [] h result k = k
    get_instances_from-IsTyped ((hash, (query, i)) ∷ rest) ((alone, same), later) result k =
        let providers = (supplements, link_status platform) ∷ [] in
        after_instance-IsTyped hash query rest
          (visit_instance platform providers condition query i result)
          (get_instances_from platform providers condition rest)
          (subst (λ q. AreTyped (visit_instance platform providers condition q i result).0)
            (sym same) (visit_instance-AreTyped i result alone k))
          (get_instances_from-IsTyped rest later)

    -- The entity of sensors, whose instances have the query of sensors and no complex instances,
    -- answers, unless a rule throws, with instances of which each has a status that is a text,
    -- whatever its properties, the instances of the provider of statuses and the condition. The read
    -- of a destroyed text is taken to give a text, any text.
    pub get_instances-IsTyped :
        (instances : Instances platform)
        → AreSensors platform instances
        → IsTyped
            (get_instances platform ((supplements, link_status platform) ∷ []) condition instances)
    unfolding get_instances
    get_instances-IsTyped instances h = get_instances_from-IsTyped instances h [] tt
