-- ===== src/Core/Broker/Threads.antt =====
-- src/core/broker/dbus_broker.cpp: the threads of `DBusBrokerManager`, which take turns in any order.
-- A turn is what a thread does up to the next test or call. A broker is its number; whether it is due
-- when the loop asks is told with the turn. The thread that watches for the creation and the removal
-- of objects takes turns of its own; what it does with a signal is not told here. A query that
-- throws, which ends the program, is left out.
pub mod Exclusive
pub mod Ending
pub mod Serving
use obmc_webapp.Prelude.{
  ℕ, Bool, true, false, Option, none, some, List, [], ◌∷◌, ◌++◌, ◌&&◌, ◌==◌, ltb, if◌then◌else◌,
}

-- Where a thread of `doCaptureDbus` is: at the test of `while`, with brokers left in the round, within
-- `tryProcess` of a broker whose mutex it holds, or at its end.
pub data Phase : Type 0 where
  at_test ended : Phase
  at_brokers : List ℕ → Phase
  in_process : ℕ → List ℕ → Phase

pub record World : Type 0 where
  pub active : Bool
  pub phase : ℕ → Phase
  pub owner : ℕ → Option ℕ
  -- whether the thread of `doManageringObjects` runs
  pub watching : Bool

unfoldable pub update {ℓ} : {A : Type ℓ} → ℕ → A → (ℕ → A) → ℕ → A
update n a f m = if n == m then a else f m

-- `start` with its number of threads for the brokers, and one more that watches
unfoldable pub start : ℕ → World
start count = record {
  active = true;
  phase = λ t. if ltb t count then at_test else ended;
  owner = λ b. none;
  watching = true;
}

-- a turn of `doManageringObjects`: it waits for signals and processes them, or ends
unfoldable pub watch_turn : World → World
watch_turn w = record w { watching = w.watching && w.active }

-- `terminate` up to the joining of the threads
unfoldable pub terminate : World → World
terminate w = record w { active = false }

-- `bind`, besides what it registers with D-Bus
unfoldable pub bind : ℕ → List ℕ → List ℕ
bind broker brokers = brokers ++ (broker ∷ [])

module _ (brokers : List ℕ) where
  unfoldable pub test : Bool → Phase
  test true = at_brokers brokers
  test false = ended

  unfoldable pub go_to : ℕ → Phase → World → World
  go_to t p w = record w { phase = update t p w.phase }

  -- the try to lock the broker's mutex
  unfoldable pub try_lock : ℕ → ℕ → List ℕ → Option ℕ → World → World
  try_lock t b rest none w = record w {
    phase = update t (in_process b rest) w.phase;
    owner = update b (some t) w.owner;
  }
  try_lock t b rest (some _) w = go_to t (at_brokers rest) w

  unfoldable pub unlock : ℕ → ℕ → List ℕ → World → World
  unlock t b rest w = record w {
    phase = update t (at_brokers rest) w.phase;
    owner = update b none w.owner;
  }

  unfoldable pub move : ℕ → Bool → Phase → World → World
  move t due at_test w = go_to t (test w.active) w
  move t due (at_brokers []) w = go_to t at_test w
  move t true (at_brokers (b ∷ rest)) w = try_lock t b rest (w.owner b) w
  move t false (at_brokers (b ∷ rest)) w = go_to t (at_brokers rest) w
  move t due (in_process b rest) w = unlock t b rest w
  move t due ended w = w

  -- one turn of a thread
  unfoldable pub turn : ℕ → Bool → World → World
  turn t due w = move t due (w.phase t) w

  -- turns in the order in which they happen
  unfoldable pub turns : List (ℕ × Bool) → World → World
  turns [] w = w
  turns ((t, due) ∷ rest) w = turns rest (turn t due w)

  -- What the manager can come to: from a start, by turns and at some time a `terminate`.
  pub data Reached : World → Type 0 where
    started : (count : ℕ) → Reached (start count)
    turned : (t : ℕ) (due : Bool) {w : World} → Reached w → Reached (turn t due w)
    watched : {w : World} → Reached w → Reached (watch_turn w)
    terminated : {w : World} → Reached w → Reached (terminate w)
