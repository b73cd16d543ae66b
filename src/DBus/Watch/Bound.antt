-- ===== src/DBus/Watch/Bound.antt =====
-- src/core/entity/dbus_query.cpp: every object has the matches that `bindListeners` has given it, so
-- that a signal fills the members of the object that it is about, once, and of no other.
use obmc_webapp.Prelude.{
  ℕ, suc, ◌<◌, String, ◌≡◌, refl, sym, ap, subst, ◌∙◌, Bool, true, false, ◌&&◌, Bool-cases, inl,
  inr, Option, none, some, List, [], ◌∷◌, ◌++◌, append-nil, select-append, select_every,
  select_none, All, All-append, arith, ◌==◌, ==_iff, str_eq, if◌then◌else◌,
}
use obmc_webapp.Prelude.Maps.{find, find-insert_or_assign, nat_key}
use obmc_webapp.Core.Exceptions.{ok}
use obmc_webapp.DBus.Values.{Platform}
use obmc_webapp.DBus.Instance.{Targets, Properties, DbusInstance, QueryView, fill_members}
use obmc_webapp.DBus.Instance.Hashes.{and_then_holds}
use obmc_webapp.DBus.Watch.{
  Listener, accepts, listeners_of, Objects, Watch, bind_object, bind_objects, take_answer,
  write_object, callback, deliver, signal, Reached, begun, answered, signalled,
}
use obmc_webapp.DBus.Watch.Paths.{fill_members_path}
use obmc_webapp.DBus.Watch.Delivered.{
  has_interface, IsMap, held_by, taken, take_if, take_all, find-deliver, take_all-listeners_of,
}

some-injective : {A : Type 0} {a b : A} → some a ≡ some b → a ≡ b
some-injective h = cc

none-some : {A : Type 0} {a : A} → none ≡ some a → ⊥
none-some h = cc

All-listeners_of :
    (P : ℕ → Type 0) (self : ℕ) (path : String) (ts : Targets)
    → P self
    → All (λ l. P l.self) (listeners_of self path ts)
unfolding listeners_of
All-listeners_of P self path [] h = tt
All-listeners_of P self path ((k, members) ∷ rest) h = (h, All-listeners_of P self path rest h)

All-below :
    (n : ℕ) (ls : List Listener)
    → All (λ l. l.self < n) ls
    → All (λ l. l.self < suc n) ls × All (λ l. (l.self == n) ≡ false) ls
All-below n [] h = (tt, tt)
All-below n (l ∷ rest) (here, later) =
    let (below, apart) = All-below n rest later in
    ((omega (arith, here), below), (ground (arith, here), apart))

held_by_new :
    (n : ℕ) (path : String) (ts : Targets) (ls : List Listener)
    → All (λ l. (l.self == n) ≡ false) ls
    → held_by n (ls ++ listeners_of n path ts) ≡ listeners_of n path ts
held_by_new n path ts ls apart =
    let own = listeners_of n path ts in
    let mine = All-listeners_of (λ m. (m == n) ≡ true) n path ts ((==_iff n n).1 refl) in
    select-append (λ l. l.self == n) ls own
    ∙ ap (λ l. l ++ held_by n own) (select_none (λ l. l.self == n) ls apart)
    ∙ select_every (λ l. l.self == n) own mine

held_by_old :
    (n self : ℕ) (path : String) (ts : Targets) (ls : List Listener)
    → (n == self) ≡ false
    → held_by self (ls ++ listeners_of n path ts) ≡ held_by self ls
held_by_old n self path ts ls other =
    let added = listeners_of n path ts in
    let apart = All-listeners_of (λ m. (m == self) ≡ false) n path ts other in
    select-append (λ l. l.self == self) ls added
    ∙ ap (λ l. held_by self ls ++ l) (select_none (λ l. l.self == self) added apart)
    ∙ append-nil (held_by self ls)

module _ (platform : Platform) (query : QueryView platform) (targets : Targets) where
  -- The object at an address has an address given before, and the matches of its instance.
  abbrev IsBound : Watch platform → ℕ → DbusInstance platform → Type 0
  IsBound w self i =
      (self < w.next) × (held_by self w.listeners ≡ listeners_of self i.object_path targets)

  abbrev AreBound : Watch platform → Type 0
  AreBound w =
      All (λ l. l.self < w.next) w.listeners
      × ((self : ℕ) (i : DbusInstance platform) → find self w.objects ≡ some i → IsBound w self i)

  AreBound-bind_object :
      (j : DbusInstance platform) (w : Watch platform)
      → AreBound w
      → AreBound (bind_object platform query targets j w)
  unfolding bind_object
  AreBound-bind_object j w (before, bound) =
      let own = listeners_of w.next j.object_path targets in
      let (below, apart) = All-below w.next w.listeners before in
      (
        All-append (λ l. l.self < suc w.next) w.listeners own below
            (All-listeners_of (λ n. n < suc w.next) w.next j.object_path targets (omega arith)),
        λ self i h.
            let there = sym (find-insert_or_assign w.next self j w.objects) ∙ h in
            elim (Bool-cases (w.next == self)) [
              | inl new ↦
                  let same : w.next ≡ self = (==_iff w.next self).0 new in
                  let one : some j ≡ some i = rw new at there in
                  let path : j.object_path ≡ i.object_path =
                    ap (λ k. k.object_path) (some-injective one) in
                  (
                    omega (arith, same),
                    subst
                        (λ n. held_by n (w.listeners ++ own) ≡ listeners_of n i.object_path targets)
                        same
                        (held_by_new w.next j.object_path targets w.listeners apart
                          ∙ ap (λ p. listeners_of w.next p targets) path),
                  )
              | inr old ↦
                  let (less, held) = bound self i (rw old at there) in
                  (
                    omega (arith, less),
                    held_by_old w.next self j.object_path targets w.listeners old ∙ held,
                  )
            ],
      )

  AreBound-bind_objects :
      (answer : List (DbusInstance platform)) (w : Watch platform)
      → AreBound w
      → AreBound (bind_objects platform query targets answer w)
  unfolding bind_objects
  AreBound-bind_objects [] w h = h
  AreBound-bind_objects (i ∷ rest) w h =
      AreBound-bind_objects rest (bind_object platform query targets i w)
        (AreBound-bind_object i w h)

  -- Each object was there before, with the path that it has.
  abbrev Keeps : Objects platform → Objects platform → Type 0
  Keeps old new =
      (self : ℕ) (i : DbusInstance platform)
      → find self new ≡ some i
      → (j : DbusInstance platform) × (find self old ≡ some j) × (j.object_path ≡ i.object_path)

  callback-Keeps :
      (old : Objects platform) (self : ℕ) (interface : String) (changed : Properties platform)
      (o : Option (DbusInstance platform)) (objects : Objects platform)
      → find self objects ≡ o
      → Keeps old objects
      → Keeps old (callback platform query targets self interface changed o objects).0
  unfolding callback write_object
  callback-Keeps old self interface changed none objects e h key k m = h key k m
  callback-Keeps old self interface changed (some i) objects e h key k m =
      let new = taken platform query targets "" interface changed i in
      let there = sym (find-insert_or_assign self key new objects) ∙ m in
      elim (Bool-cases (self == key)) [
        | inl own ↦
            let one : some new ≡ some k = rw own at there in
            let (j, was, path) =
              h key i (ap (λ n. find n objects) (sym ((==_iff self key).0 own)) ∙ e) in
            (
              j,
              was,
              path
                  ∙ sym (fill_members_path platform query targets interface changed i)
                  ∙ ap (λ l. l.object_path) (some-injective one),
            )
        | inr other ↦ h key k (rw other at there)
      ]

  deliver-Keeps :
      (old : Objects platform) (path interface : String) (changed : Properties platform)
      (ls : List Listener) (objects : Objects platform)
      → Keeps old objects
      → Keeps old (deliver platform query targets path interface changed ls objects).0
  unfolding deliver
  deliver-Keeps old path interface changed [] objects h = h
  deliver-Keeps old path interface changed (l ∷ rest) objects h =
      elim (Bool-cases (accepts path interface l)) [
        | inl hit ↦ rw hit (
            and_then_holds (Keeps old)
              (callback platform query targets l.self interface changed (find l.self objects)
                objects)
              (deliver platform query targets path interface changed rest)
              (callback-Keeps old l.self interface changed (find l.self objects) objects refl h)
              (deliver-Keeps old path interface changed rest))
        | inr miss ↦ rw miss (deliver-Keeps old path interface changed rest objects h)
      ]

  AreBound-Reached : (w : Watch platform) → Reached platform query targets w → AreBound w
  unfolding take_answer signal find
  AreBound-Reached _ begun = (tt, λ self i h. absurd (none-some h))
  AreBound-Reached _ (answered answer {w} reached) =
      AreBound-bind_objects answer w (AreBound-Reached w reached)
  AreBound-Reached _ (signalled path interface changed {w} reached) =
      let (before, bound) = AreBound-Reached w reached in
      (
        before,
        λ self i h.
            let (j, was, same) =
              deliver-Keeps w.objects path interface changed w.listeners w.objects
                (λ k l e. (l, e, refl)) self i h in
            let (less, held) = bound self j was in
            (less, held ∙ ap (λ p. listeners_of self p targets) same),
      )

  take_if-some :
      (path interface : String) (changed : Properties platform) (b : Bool)
      (i : DbusInstance platform)
      → take_if platform query targets path interface changed b (some i)
        ≡ some (if b then (fill_members platform query targets interface changed i).0 else i)
  take_if-some path interface changed true i = refl
  take_if-some path interface changed false i = refl

  -- Whatever answers and signals there have been: a signal of changed properties whose callbacks
  -- throw nothing fills, from these properties, the members of every object with the signal's path,
  -- if the dictionary of the query has its interface, and leaves every other object as it was.
  pub find-signal :
      (w : Watch platform) (path interface : String) (changed : Properties platform) (self : ℕ)
      (i : DbusInstance platform)
      → Reached platform query targets w
      → IsMap targets
      → find self w.objects ≡ some i
      → (signal platform query targets path interface changed w).1 ≡ ok tt
      → find self (signal platform query targets path interface changed w).0.objects
        ≡ some (
            if str_eq i.object_path path && has_interface interface targets
            then (fill_members platform query targets interface changed i).0
            else i)
  unfolding signal
  find-signal w path interface changed self i reached map there h =
      let (less, held) = (AreBound-Reached w reached).1 self i there in
      let b = str_eq i.object_path path && has_interface interface targets in
      find-deliver platform query targets path interface changed self w.listeners w.objects h
      ∙ ap (λ ls. take_all platform query targets path interface changed ls (find self w.objects))
          held
      ∙ take_all-listeners_of platform query targets path interface changed self i.object_path
          targets (find self w.objects) map
      ∙ ap (take_if platform query targets path interface changed b) there
      ∙ take_if-some path interface changed b i
