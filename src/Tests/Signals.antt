-- ===== src/Tests/Signals.antt =====
-- The theorems on watched instances at concrete inputs: a fan whose value changes.
use obmc_webapp.Prelude.{
  String, ◌≡◌, ◌≢◌, refl, sym, ap, subst, ◌&&◌, false, none, some, [], ◌∷◌, str_eq, str_eq_iff,
  Bool-cases, inl, inr, if◌then◌else◌,
}
use obmc_webapp.Prelude.Maps.{find, insert_or_assign, string_key, nat_key}
use obmc_webapp.Core.Exceptions.{ok}
use obmc_webapp.DBus.Values.{FieldType, double, simple}
use obmc_webapp.DBus.Instance.{
  Properties, DbusInstance, new_instance, run_formatters, format_by, process_formatters,
  members_of_interface, get_property_member_dict, resolve_formatted, fill_member, fill_by,
  resolve_dbus_variant, fill_members,
}
use obmc_webapp.DBus.Members.{
  is_found, has_field, set_value, supplement, supplemented, supplement_or_update,
}
use obmc_webapp.DBus.Watch.{
  Watch, no_objects, accepts, listeners_of, bind_object, bind_objects, take_answer, write_object,
  callback, deliver, signal, begun, answered,
}
use obmc_webapp.DBus.Watch.Delivered.{IsMap, has_interface}
use obmc_webapp.DBus.Watch.Bound.{find-signal}
use obmc_webapp.DBus.Watch.Refilled.{TakesOne, IsChanged, AreSimple, find-fill_members}
use obmc_webapp.System.Queries.{sensors_query, sensors_dictionary, sensor_value_interface}
use obmc_webapp.Tests.Objects.{lengths}

different : (a b : String) → str_eq a b ≡ false → a ≢ b
different a b e h = cc (e, (str_eq_iff a b).1 h)

none-some : {A : Type 0} (a : A) → none ≡ some a → ⊥
none-some a h = cc

abbrev fan : DbusInstance lengths
fan = new_instance lengths "Sensors" "/fan"

abbrev before : Properties lengths
before = ("Value", simple (double 40)) ∷ []

abbrev changed : Properties lengths
changed = ("Value", simple (double 41)) ∷ []

abbrev watched_fan : Watch lengths
watched_fan =
    take_answer lengths (sensors_query lengths).view sensors_dictionary (fan ∷ [])
      (no_objects lengths)

fan_there : find 0 watched_fan.objects ≡ some fan
unfolding take_answer bind_objects bind_object insert_or_assign find
fan_there = refl

sensors-IsMap : IsMap sensors_dictionary
sensors-IsMap =
    ((different _ _ refl, (different _ _ refl, tt)), ((different _ _ refl, tt), (tt, tt)))

delivered :
    (signal lengths
      (sensors_query lengths).view
      sensors_dictionary
      "/fan"
      sensor_value_interface
      changed
      watched_fan).1
    ≡ ok tt
unfolding signal deliver callback write_object accepts listeners_of take_answer bind_objects
    bind_object insert_or_assign find fill_members fill_by fill_member get_property_member_dict
    members_of_interface resolve_formatted process_formatters format_by run_formatters
    resolve_dbus_variant supplement_or_update has_field is_found set_value supplement supplemented
delivered = refl

find-signal_example :
    find 0
      (signal lengths
        (sensors_query lengths).view
        sensors_dictionary
        "/fan"
        sensor_value_interface
        changed
        watched_fan).0.objects
    ≡ some (
        if str_eq fan.object_path "/fan" && has_interface sensor_value_interface sensors_dictionary
        then (fill_members lengths
            (sensors_query lengths).view
            sensors_dictionary
            sensor_value_interface
            changed
            fan).0
        else fan)
find-signal_example =
    find-signal lengths (sensors_query lengths).view sensors_dictionary watched_fan "/fan"
      sensor_value_interface changed 0 fan (answered (fan ∷ []) begun) sensors-IsMap fan_there
      delivered

value-TakesOne :
    TakesOne (get_property_member_dict lengths sensor_value_interface sensors_dictionary)
unfolding get_property_member_dict members_of_interface find
value-TakesOne = ((different _ _ refl, tt), (tt, tt))

value-IsChanged : IsChanged lengths (sensors_query lengths).view before changed changed
unfolding find
value-IsChanged property = elim (Bool-cases (str_eq "Value" property)) [
  | inl same ↦ rw same refl
  | inr other ↦ rw other refl
]

value-AreSimple : AreSimple lengths (sensors_query lengths).view changed
unfolding find process_formatters format_by
value-AreSimple property v h = elim (Bool-cases (str_eq "Value" property)) [
  | inl same ↦
      let there : some (simple (double 41)) ≡ some v = rw same at h in
      let e : simple (double 41) ≡ v = cc in
      subst
        (λ p.
          (w : FieldType lengths) × (process_formatters lengths (sensors_query lengths).view p v
            ≡ ok (simple w)))
        ((str_eq_iff "Value" property).0 same) (double 41, ap ok (sym e))
  | inr other ↦ let no : none ≡ some v = rw other at h in absurd (none-some v no)
]

well_filled :
    let fill =
      fill_members lengths (sensors_query lengths).view sensors_dictionary sensor_value_interface in
    ((fill before fan).1 ≡ ok tt)
    × ((fill changed fan).1 ≡ ok tt)
    × ((fill changed (fill before fan).0).1 ≡ ok tt)
unfolding insert_or_assign find fill_members fill_by fill_member get_property_member_dict
    members_of_interface resolve_formatted process_formatters format_by run_formatters
    resolve_dbus_variant supplement_or_update has_field is_found set_value supplement supplemented
well_filled = (refl, refl, refl)

find-fill_members_example :
    let filled =
      (fill_members lengths
        (sensors_query lengths).view
        sensors_dictionary
        sensor_value_interface
        before
        fan).0 in
    find "Value"
      (fill_members lengths
        (sensors_query lengths).view
        sensors_dictionary
        sensor_value_interface
        changed
        filled).0.member_instances
    ≡ find "Value"
        (fill_members lengths
          (sensors_query lengths).view
          sensors_dictionary
          sensor_value_interface
          changed
          fan).0.member_instances
find-fill_members_example =
    find-fill_members lengths (sensors_query lengths).view sensors_dictionary sensor_value_interface
      "Value" before changed changed fan value-TakesOne value-IsChanged value-AreSimple
      well_filled.0 well_filled.1 well_filled.2
