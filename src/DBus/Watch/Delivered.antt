-- ===== src/DBus/Watch/Delivered.antt =====
-- src/core/entity/dbus_query.cpp: which objects a signal changes.
use obmc_webapp.Prelude.{
  ℕ, String, ◌≡◌, ◌≢◌, refl, sym, ap, subst, ◌∙◌, Bool, true, false, ◌&&◌, ◌||◌, Bool-cases, inl,
  inr, Option, none, some, List, [], ◌∷◌, select, All, ◌==◌, ==_iff, str_eq, str_eq_iff,
}
use obmc_webapp.Prelude.Maps.{find, find-insert_or_assign, nat_key}
use obmc_webapp.Core.Exceptions.{ok, ◌and_then◌}
use obmc_webapp.DBus.Values.{Platform}
use obmc_webapp.DBus.Instance.{Targets, Properties, DbusInstance, QueryView, fill_members}
use obmc_webapp.DBus.Instance.Hashes.{and_then_ok}
use obmc_webapp.DBus.Watch.{
  Listener, accepts, listeners_of, Objects, write_object, callback, deliver,
}

-- The dictionary has the interface.
abbrev pub has_interface : String → Targets → Bool
has_interface interface [] = false
has_interface interface ((k, members) ∷ rest) = str_eq k interface || has_interface interface rest

-- Each interface of a dictionary, a `std::map`, stands there once.
abbrev pub IsMap : Targets → Type 0
IsMap [] = Unit
IsMap ((k, members) ∷ rest) = All (λ t. t.0 ≢ k) rest × IsMap rest

-- The matches whose callbacks hold the object.
abbrev pub held_by : ℕ → List Listener → List Listener
held_by self ls = select (λ l. l.self == self) ls

and_true : (b : Bool) → (b && true) ≡ b
and_true true = refl
and_true false = refl

and_false : (b : Bool) → (b && false) ≡ false
and_false true = refl
and_false false = refl

module _ (platform : Platform) (query : QueryView platform) (targets : Targets)
    (path interface : String) (changed : Properties platform) where
  -- What a callback makes of its object.
  abbrev pub taken : DbusInstance platform → DbusInstance platform
  taken i = (fill_members platform query targets interface changed i).0

  abbrev pub take_if : Bool → Option (DbusInstance platform) → Option (DbusInstance platform)
  take_if true (some i) = some (taken i)
  take_if true none = none
  take_if false o = o

  abbrev pub take_all :
      List Listener → Option (DbusInstance platform) → Option (DbusInstance platform)
  take_all [] o = o
  take_all (l ∷ rest) o = take_all rest (take_if (accepts path interface l) o)

  find-callback :
      (self key : ℕ) (o : Option (DbusInstance platform)) (objects : Objects platform)
      → find self objects ≡ o
      → find key (callback platform query targets self interface changed o objects).0
        ≡ take_if (self == key) (find key objects)
  unfolding callback write_object
  find-callback self key none objects h = elim (Bool-cases (self == key)) [
    | inl own ↦
        let missing : find key objects ≡ none =
          ap (λ k. find k objects) (sym ((==_iff self key).0 own)) ∙ h in
        rw (own, missing) refl
    | inr other ↦ rw other refl
  ]
  find-callback self key (some i) objects h =
      find-insert_or_assign self key (taken i) objects ∙ elim (Bool-cases (self == key)) [
        | inl own ↦
            let there : find key objects ≡ some i =
              ap (λ k. find k objects) (sym ((==_iff self key).0 own)) ∙ h in
            rw (own, there) refl
        | inr other ↦ rw other refl
      ]

  take_all-held_by :
      (key : ℕ) (l : Listener) (rest : List Listener) (o : Option (DbusInstance platform))
      → take_all (held_by key (l ∷ rest)) o
        ≡ take_all (held_by key rest) (take_if (l.self == key && accepts path interface l) o)
  take_all-held_by key l rest o = elim (Bool-cases (l.self == key)) [
    | inl own ↦ rw own refl
    | inr other ↦ rw other refl
  ]

  pub find-deliver :
      (key : ℕ) (ls : List Listener) (objects : Objects platform)
      → (deliver platform query targets path interface changed ls objects).1 ≡ ok tt
      → find key (deliver platform query targets path interface changed ls objects).0
        ≡ take_all (held_by key ls) (find key objects)
  unfolding deliver
  find-deliver key [] objects h = refl
  find-deliver key (l ∷ rest) objects h =
      let later = deliver platform query targets path interface changed rest in
      let held = take_all-held_by key l rest (find key objects) in
      elim (Bool-cases (accepts path interface l)) [
        | inl hit ↦
            let p =
              callback platform query targets l.self interface changed (find l.self objects)
                objects in
            let well : (p and_then later).1 ≡ ok tt = rw hit at h in
            let (fine, same) = and_then_ok p later well in
            rw hit (
              ap (λ r. find key r.0) same
              ∙ find-deliver key rest p.0 (ap (λ r. r.1) (sym same) ∙ well)
              ∙ ap (take_all (held_by key rest)) (
                  find-callback l.self key (find l.self objects) objects refl
                  ∙ ap (λ b. take_if b (find key objects)) (sym (and_true (l.self == key))))
              ∙ sym (rw hit at held))
        | inr miss ↦ rw miss (
            find-deliver key rest objects (rw miss at h)
            ∙ ap (λ b. take_all (held_by key rest) (take_if b (find key objects)))
                (sym (and_false (l.self == key)))
            ∙ sym (rw miss at held))
      ]

  missed :
      (self : ℕ) (p k : String) (ts : Targets) (members : List (String × String))
      (o : Option (DbusInstance platform))
      → str_eq k interface ≡ false
      → take_all (listeners_of self p ((k, members) ∷ ts)) o ≡ take_all (listeners_of self p ts) o
  unfolding listeners_of accepts
  missed self p k ts members o other =
      ap (λ b. take_all (listeners_of self p ts) (take_if (str_eq p path && b) o)) other
      ∙ ap (λ b. take_all (listeners_of self p ts) (take_if b o)) (and_false (str_eq p path))

  take_all_apart :
      (self : ℕ) (p : String) (ts : Targets) (o : Option (DbusInstance platform))
      → All (λ t. t.0 ≢ interface) ts
      → take_all (listeners_of self p ts) o ≡ o
  unfolding listeners_of accepts
  take_all_apart self p [] o h = refl
  take_all_apart self p ((k, members) ∷ rest) o (apart, h) =
      elim (Bool-cases (str_eq k interface)) [
        | inl same ↦ absurd (apart ((str_eq_iff k interface).0 same))
        | inr other ↦ missed self p k rest members o other ∙ take_all_apart self p rest o h
      ]

  -- The matches of one object call back at most once for a signal.
  pub take_all-listeners_of :
      (self : ℕ) (p : String) (ts : Targets) (o : Option (DbusInstance platform))
      → IsMap ts
      → take_all (listeners_of self p ts) o
        ≡ take_if (str_eq p path && has_interface interface ts) o
  unfolding listeners_of accepts
  take_all-listeners_of self p [] o h = rw (and_false (str_eq p path)) refl
  take_all-listeners_of self p ((k, members) ∷ rest) o (apart, h) =
      elim (Bool-cases (str_eq k interface)) [
        | inl same ↦
            ap (λ b. take_all (listeners_of self p rest) (take_if (str_eq p path && b) o)) same
            ∙ ap (λ b. take_all (listeners_of self p rest) (take_if b o)) (and_true (str_eq p path))
            ∙ take_all_apart self p rest (take_if (str_eq p path) o)
                (subst (λ i. All (λ t. t.0 ≢ i) rest) ((str_eq_iff k interface).0 same) apart)
            ∙ rw same (rw (and_true (str_eq p path)) refl)
        | inr other ↦
            missed self p k rest members o other
            ∙ take_all-listeners_of self p rest o h
            ∙ rw other refl
      ]
