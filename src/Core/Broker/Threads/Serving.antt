-- ===== src/Core/Broker/Threads/Serving.antt =====
-- src/core/broker/dbus_broker.cpp: a thread of `doCaptureDbus` that goes on comes to every broker, and
-- a broker that is due is then processed by it or by another thread.
use obmc_webapp.Prelude.{
  ℕ, suc, ◌+◌, ◌*◌, ◌≤◌, ◌≡◌, ◌≢◌, ◌⊎◌, refl, subst, ◌∙◌, Bool, true, false, Bool-cases, inl, inr,
  Option, none, some, List, [], ◌∷◌, arith, length, ◌==◌, ==_iff,
}
use obmc_webapp.Prelude.Membership.{In}
use obmc_webapp.Core.Broker.Threads.{
  Phase, at_test, ended, at_brokers, in_process, World, update, test, go_to, try_lock, move, turn,
  Reached,
}
use obmc_webapp.Core.Broker.Threads.Ending.{
  remaining, count_of, next_phase, head_of, move_phase, bounded,
}

-- A thread is within `tryProcess` of the broker, with its mutex locked.
abbrev pub IsProcessed : ℕ → World → Type 0
IsProcessed b w = (v : ℕ) × (w.owner b ≡ some v)

-- The thread's next turn asks for the broker.
abbrev pub Asks : ℕ → Phase → Type 0
Asks b (at_brokers (c ∷ l)) = c ≡ b
Asks b _ = ⊥

module _ (brokers : List ℕ) where
  -- One of the turns is such that the predicate holds of its thread, of whether the thread finds the
  -- broker due that it asks, and of the state before.
  abbrev pub Eventually : (ℕ → Bool → World → Type 0) → List (ℕ × Bool) → World → Type 0
  Eventually P [] w = ⊥
  Eventually P ((t, due) ∷ rest) w = P t due w ⊎ Eventually P rest (turn brokers t due w)

  -- A turn of `t` that asks for the broker; if it finds the broker due, then after it the broker is
  -- being processed.
  abbrev pub Serves : ℕ → ℕ → ℕ → Bool → World → Type 0
  Serves t b u due w =
      (u ≡ t) × Asks b (w.phase t) × ((due ≡ false) ⊎ IsProcessed b (turn brokers u due w))

  -- From this phase a thread asks for the broker with one of its next `n` turns: in this round, or
  -- in the next.
  abbrev Nears : ℕ → ℕ → Phase → Type 0
  Nears b n at_test = 2 * length brokers + 1 ≤ n
  Nears b n ended = ⊥
  Nears b n (at_brokers l) =
      (In b l × (2 * length l ≤ n)) ⊎ (2 * length l + 2 * length brokers + 2 ≤ n)
  Nears b n (in_process c l) =
      (In b l × (2 * length l + 1 ≤ n)) ⊎ (2 * length l + 2 * length brokers + 3 ≤ n)

  Nears-zero : (b : ℕ) (p : Phase) → Nears b 0 p → ⊥
  Nears-zero b at_test h = omega arith
  Nears-zero b ended h = h
  Nears-zero b (at_brokers []) (inl (m, h)) = m
  Nears-zero b (at_brokers (c ∷ l)) (inl (m, h)) = omega arith
  Nears-zero b (at_brokers l) (inr h) = omega arith
  Nears-zero b (in_process c l) (inl (m, h)) = omega arith
  Nears-zero b (in_process c l) (inr h) = omega arith

  Nears-next_phase :
      (b n : ℕ) (due : Bool) (o : Option ℕ) (p : Phase)
      → In b brokers
      → Nears b (suc n) p
      → Asks b p ⊎ Nears b n (next_phase brokers true due o p)
  unfolding test
  Nears-next_phase b n due o at_test m h = inr (inl (m, omega (arith, h)))
  Nears-next_phase b n due o ended m h = absurd h
  Nears-next_phase b n due o (at_brokers []) m (inl (k, h)) = absurd k
  Nears-next_phase b n due o (at_brokers []) m (inr h) = inr (omega (arith, h))
  Nears-next_phase b n due o (at_brokers (c ∷ l)) m (inl (inl here, h)) = inl here
  Nears-next_phase b n false o (at_brokers (c ∷ l)) m (inl (inr later, h)) =
      inr (inl (later, omega (arith, h)))
  Nears-next_phase b n true none (at_brokers (c ∷ l)) m (inl (inr later, h)) =
      inr (inl (later, omega (arith, h)))
  Nears-next_phase b n true (some v) (at_brokers (c ∷ l)) m (inl (inr later, h)) =
      inr (inl (later, omega (arith, h)))
  Nears-next_phase b n false o (at_brokers (c ∷ l)) m (inr h) = inr (inr (omega (arith, h)))
  Nears-next_phase b n true none (at_brokers (c ∷ l)) m (inr h) = inr (inr (omega (arith, h)))
  Nears-next_phase b n true (some v) (at_brokers (c ∷ l)) m (inr h) = inr (inr (omega (arith, h)))
  Nears-next_phase b n due o (in_process c l) m (inl (k, h)) = inr (inl (k, omega (arith, h)))
  Nears-next_phase b n due o (in_process c l) m (inr h) = inr (inr (omega (arith, h)))

  IsProcessed-try_lock :
      (t b : ℕ) (rest : List ℕ) (o : Option ℕ) (w : World)
      → w.owner b ≡ o
      → IsProcessed b (try_lock brokers t b rest o w)
  unfolding try_lock go_to update
  IsProcessed-try_lock t b rest none w h = (t, rw ((==_iff b b).1 refl) refl)
  IsProcessed-try_lock t b rest (some v) w h = (v, h)

  IsProcessed-move :
      (t b : ℕ) (p : Phase) (w : World) → Asks b p → IsProcessed b (move brokers t true p w)
  unfolding move
  IsProcessed-move t b (at_brokers (c ∷ l)) w e =
      subst (λ c'. IsProcessed c' (try_lock brokers t c l (w.owner c) w)) e
        (IsProcessed-try_lock t c l (w.owner c) w refl)
  IsProcessed-move t b (at_brokers []) w e = absurd e
  IsProcessed-move t b at_test w e = absurd e
  IsProcessed-move t b ended w e = absurd e
  IsProcessed-move t b (in_process c l) w e = absurd e

  -- A turn of the thread that asks for the broker serves it.
  Asks-Serves : (t b : ℕ) (due : Bool) (w : World) → Asks b (w.phase t) → Serves t b t due w
  unfolding turn
  Asks-Serves t b false w asks = (refl, asks, inl refl)
  Asks-Serves t b true w asks = (refl, asks, inr (IsProcessed-move t b (w.phase t) w asks))

  -- A turn of the thread asks for the broker, or brings it nearer.
  turn-Nears :
      (t b n : ℕ) (due : Bool) (w : World)
      → w.active ≡ true
      → In b brokers
      → Nears b (suc n) (w.phase t)
      → Asks b (w.phase t) ⊎ Nears b n ((turn brokers t due w).phase t)
  unfolding turn
  turn-Nears t b n due w on m h =
      let p = w.phase t in
      elim (Nears-next_phase b n due (w.owner (head_of brokers p)) p m h) [
        | inl asks ↦ inl asks
        | inr nearer ↦
            let (moved, same) = move_phase brokers t t due p w refl in
            inr (rw (moved, (==_iff t t).1 refl, on) nearer)
      ]

  turns-Serves :
      (schedule : List (ℕ × Bool)) (t b : ℕ) (w : World)
      → w.active ≡ true
      → In b brokers
      → Nears b (count_of t schedule) (w.phase t)
      → Eventually (Serves t b) schedule w
  unfolding turn
  turns-Serves [] t b w on m h = Nears-zero b (w.phase t) h
  turns-Serves ((u, due) ∷ rest) t b w on m h =
      let (moved, same) = move_phase brokers u t due (w.phase u) w refl in
      elim (Bool-cases (u == t)) [
        | inl own ↦
            let e : u ≡ t = (==_iff u t).0 own in
            let nears : Nears b (suc (count_of t rest)) (w.phase t) = rw own at h in
            elim (turn-Nears t b (count_of t rest) due w on m nears) [
              | inl asks ↦ inl (rw e (Asks-Serves t b due w asks))
              | inr nearer ↦
                  inr (turns-Serves rest t b (turn brokers u due w) (same ∙ on) m (rw e nearer))
            ]
        | inr other ↦ inr (
            turns-Serves rest t b (turn brokers u due w) (same ∙ on) m
              (rw moved (rw other (rw other at h))))
      ]

  -- A running thread is so far from each broker that `4 * length brokers + 2` turns do.
  Nears-bounded :
      (b n : ℕ) (p : Phase)
      → p ≢ ended
      → remaining p ≤ 2 * length brokers + 2
      → 4 * length brokers + 2 ≤ n
      → Nears b n p
  Nears-bounded b n at_test runs h enough = omega arith
  Nears-bounded b n ended runs h enough = runs refl
  Nears-bounded b n (at_brokers l) runs h enough = inr (omega arith)
  Nears-bounded b n (in_process c l) runs h enough = inr (omega arith)

  -- While the manager is not terminated, a thread that has not ended comes to every broker: among
  -- any turns of which four for each broker and two more are the thread's, with those of other
  -- threads in between in any order, is one of the thread that asks for the broker. If it finds the
  -- broker due at that turn, then after it the broker is being processed, by this thread or by
  -- another.
  pub broker-IsProcessed :
      (w : World) (t b : ℕ) (schedule : List (ℕ × Bool))
      → Reached brokers w
      → w.active ≡ true
      → w.phase t ≢ ended
      → In b brokers
      → 4 * length brokers + 2 ≤ count_of t schedule
      → Eventually (Serves t b) schedule w
  broker-IsProcessed w t b schedule reached on runs m enough =
      turns-Serves schedule t b w on m (
        Nears-bounded b (count_of t schedule) (w.phase t) runs (bounded brokers w reached t) enough)
