-- ===== src/Prelude/Maps.antt =====
-- `std::map` and `std::unordered_map` as association lists in the order in which a loop visits
-- them. A `std::map` visits its keys in increasing order: an insertion stops in front of the first
-- greater key. What a key compares to is an instance.
use Prim.Native.Nat.{ℕ}
use Prim.Native.String.{String, compare}
use mathlib.Core.Path.{◌≡◌, refl}
use mathlib.Core.Logic.{◌↔◌}
use mathlib.Core.Bool.{Bool, true}
use mathlib.Core.Option.{Option, none, some}
use mathlib.Core.List.{List, [], ◌∷◌}
use native.Mathlib.Omega.{arith}
use text.Mathlib.Text.{◌==◌ as str_eq, is_lt}
use text.Mathlib.TextEquality.{eq_iff}
use obmc_webapp.Prelude.Tests.{if◌then◌else◌, ◌==◌, ==_iff, ltb}

pub record Key {ℓ} (K : Type ℓ) : Type ℓ where
  pub same : K → K → Bool
  pub before : K → K → Bool
  pub same_iff : (a b : K) → (same a b ≡ true) ↔ (a ≡ b)

abbrev pub str_before : String → String → Bool
str_before a b = is_lt (compare a b)

instance abbrev pub string_key : Key String
string_key = record { same = str_eq; before = str_before; same_iff = eq_iff }

instance abbrev pub nat_key : Key ℕ
nat_key = record { same = ◌==◌; before = ltb; same_iff = ==_iff }

module _ {ℓ κ} {K : Type ℓ} {V : Type κ} ⦃o : Key K⦄ where
  open o use {same, before, same_iff}

  unfoldable pub find : K → List (K × V) → Option V
  find k [] = none
  find k ((j, v) ∷ m) = if same j k then some v else find k m

  unfoldable pub insert_or_assign : K → V → List (K × V) → List (K × V)
  insert_or_assign k v [] = (k, v) ∷ []
  insert_or_assign k v ((j, w) ∷ m) =
      let rest = insert_or_assign k v m in
      if same j k then (j, v) ∷ m else if before k j then (k, v) ∷ (j, w) ∷ m else (j, w) ∷ rest

  -- what `emplace` leaves: a key that is there keeps its value
  abbrev keep_or_add : Option V → K → V → List (K × V) → List (K × V)
  keep_or_add none k v m = insert_or_assign k v m
  keep_or_add (some _) k v m = m

  unfoldable pub emplace : K → V → List (K × V) → List (K × V)
  unfolding find insert_or_assign
  emplace k v m = keep_or_add (find k m) k v m

  pub find-insert_or_assign :
      (k j : K) (v : V) (m : List (K × V))
      → find j (insert_or_assign k v m) ≡ (if same k j then some v else find j m)
  unfolding find insert_or_assign
  find-insert_or_assign k j v [] = refl
  find-insert_or_assign k j v ((i, w) ∷ m) =
      ground (arith, same_iff k j, same_iff i k, same_iff i j, find-insert_or_assign k j v m)

  pub find-emplace :
      (k j : K) (v : V) (m : List (K × V))
      → find k m ≡ none
      → find j (emplace k v m) ≡ (if same k j then some v else find j m)
  unfolding emplace
  find-emplace k j v m h = rw h (find-insert_or_assign k j v m)

  pub emplace_of_find : (k : K) (v w : V) (m : List (K × V)) → find k m ≡ some w → emplace k v m ≡ m
  unfolding emplace
  emplace_of_find k v w m h = rw h
