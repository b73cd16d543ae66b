-- ===== src/Core/Broker/Threads/Ending.antt =====
-- The threads end once the manager is terminated, so that joining them returns.
use obmc_webapp.Prelude.{
  ℕ, suc, ◌+◌, ◌*◌, ◌≤◌, ◌≡◌, refl, sym, ap, ◌∙◌, Bool, true, false, Bool-cases, inl, inr, Option,
  none, some, List, [], ◌∷◌, arith, length, ◌==◌, ==_iff, ltb, if◌then◌else◌,
}
use obmc_webapp.Core.Broker.Threads.{
  Phase, at_test, ended, at_brokers, in_process, World, update, start, terminate, test, go_to,
  try_lock, unlock, move, turn, turns, Reached, started, turned, watched, terminated, watch_turn,
}

-- How many turns a thread takes at most until its end, once the loop is not to go on.
abbrev pub remaining : Phase → ℕ
remaining ended = 0
remaining at_test = 1
remaining (at_brokers l) = 2 * length l + 2
remaining (in_process b l) = 2 * length l + 3

-- How many turns of a list are the thread's.
abbrev pub count_of : ℕ → List (ℕ × Bool) → ℕ
count_of t [] = 0
count_of t ((u, due) ∷ rest) = if u == t then suc (count_of t rest) else count_of t rest

-- A turn of a thread of which no more than `n` remain leaves one less.
abbrev Shorter : Phase → Phase → Type 0
Shorter old new = (n : ℕ) → remaining old ≤ suc n → remaining new ≤ n

-- Once `terminate` has told it to stop, the thread that watches is at its end after its next turn.
watch_turn-terminate : (w : World) → (watch_turn (terminate w)).watching ≡ false
unfolding watch_turn terminate
watch_turn-terminate w = ground arith

module _ (brokers : List ℕ) where
  try_lock-watch_turn :
      (t b : ℕ) (rest : List ℕ) (o : Option ℕ) (w : World)
      → try_lock brokers t b rest o (watch_turn w) ≡ watch_turn (try_lock brokers t b rest o w)
  unfolding try_lock go_to watch_turn
  try_lock-watch_turn t b rest none w = refl
  try_lock-watch_turn t b rest (some u) w = refl

  move-watch_turn :
      (t : ℕ) (due : Bool) (p : Phase) (w : World)
      → move brokers t due p (watch_turn w) ≡ watch_turn (move brokers t due p w)
  unfolding move go_to unlock watch_turn
  move-watch_turn t due at_test w = refl
  move-watch_turn t due (at_brokers []) w = refl
  move-watch_turn t true (at_brokers (b ∷ rest)) w = try_lock-watch_turn t b rest (w.owner b) w
  move-watch_turn t false (at_brokers (b ∷ rest)) w = refl
  move-watch_turn t due (in_process b rest) w = refl
  move-watch_turn t due ended w = refl

  -- The turns of the thread that watches and those of the others do not depend on each other.
  turn-watch_turn :
      (t : ℕ) (due : Bool) (w : World)
      → turn brokers t due (watch_turn w) ≡ watch_turn (turn brokers t due w)
  unfolding turn watch_turn
  turn-watch_turn t due w = move-watch_turn t due (w.phase t) w

  -- the phase that a turn leads to
  abbrev pub next_phase : Bool → Bool → Option ℕ → Phase → Phase
  next_phase active due owner at_test = test brokers active
  next_phase active due owner (at_brokers []) = at_test
  next_phase active true none (at_brokers (b ∷ rest)) = in_process b rest
  next_phase active true (some u) (at_brokers (b ∷ rest)) = at_brokers rest
  next_phase active false owner (at_brokers (b ∷ rest)) = at_brokers rest
  next_phase active due owner (in_process b rest) = at_brokers rest
  next_phase active due owner ended = ended

  remaining-stopped :
      (due : Bool) (owner : Option ℕ) (p : Phase) → Shorter p (next_phase false due owner p)
  unfolding test
  remaining-stopped due owner at_test n h = omega arith
  remaining-stopped due owner (at_brokers []) n h = omega arith
  remaining-stopped true none (at_brokers (b ∷ rest)) n h = omega arith
  remaining-stopped true (some u) (at_brokers (b ∷ rest)) n h = omega arith
  remaining-stopped false owner (at_brokers (b ∷ rest)) n h = omega arith
  remaining-stopped due owner (in_process b rest) n h = omega arith
  remaining-stopped due owner ended n h = omega arith

  -- How many turns remain of any thread.
  abbrev pub bound : ℕ
  bound = 2 * length brokers + 2

  remaining-next_phase :
      (active due : Bool) (owner : Option ℕ) (p : Phase)
      → remaining p ≤ bound
      → remaining (next_phase active due owner p) ≤ bound
  unfolding test
  remaining-next_phase true due owner at_test h = omega arith
  remaining-next_phase false due owner at_test h = omega arith
  remaining-next_phase active due owner (at_brokers []) h = omega arith
  remaining-next_phase active true none (at_brokers (b ∷ rest)) h = omega arith
  remaining-next_phase active true (some u) (at_brokers (b ∷ rest)) h = omega arith
  remaining-next_phase active false owner (at_brokers (b ∷ rest)) h = omega arith
  remaining-next_phase active due owner (in_process b rest) h = omega arith
  remaining-next_phase active due owner ended h = omega arith

  -- the number of the broker that a thread is about to ask for
  abbrev pub head_of : Phase → ℕ
  head_of (at_brokers (b ∷ rest)) = b
  head_of (at_brokers []) = 0
  head_of at_test = 0
  head_of ended = 0
  head_of (in_process b rest) = 0

  -- What a turn of `t` makes of the phase of `u`.
  abbrev pub IsMoved : ℕ → ℕ → Phase → World → World → Type 0
  IsMoved t u p w w' = (w'.phase u ≡ (if t == u then p else w.phase u)) × (w'.active ≡ w.active)

  try_lock_phase :
      (t u b : ℕ) (rest : List ℕ) (o : Option ℕ) (w : World)
      → IsMoved t u
          (next_phase w.active true o (at_brokers (b ∷ rest)))
          w
          (try_lock brokers t b rest o w)
  unfolding try_lock go_to update
  try_lock_phase t u b rest none w = (refl, refl)
  try_lock_phase t u b rest (some v) w = (refl, refl)

  pub move_phase :
      (t u : ℕ) (due : Bool) (p : Phase) (w : World)
      → w.phase t ≡ p
      → IsMoved t u (next_phase w.active due (w.owner (head_of p)) p) w (move brokers t due p w)
  unfolding move go_to unlock update
  move_phase t u due at_test w h = (refl, refl)
  move_phase t u due (at_brokers []) w h = (refl, refl)
  move_phase t u true (at_brokers (b ∷ rest)) w h = try_lock_phase t u b rest (w.owner b) w
  move_phase t u false (at_brokers (b ∷ rest)) w h = (refl, refl)
  move_phase t u due (in_process b rest) w h = (refl, refl)
  move_phase t u due ended w h = elim (Bool-cases (t == u)) [
    | inl same ↦ (rw same (ap w.phase (sym ((==_iff t u).0 same)) ∙ h), refl)
    | inr other ↦ (rw other refl, refl)
  ]

  remaining_zero : (p : Phase) → remaining p ≤ 0 → p ≡ ended
  remaining_zero at_test h = absurd (omega arith)
  remaining_zero ended h = refl
  remaining_zero (at_brokers l) h = absurd (omega arith)
  remaining_zero (in_process b l) h = absurd (omega arith)

  turns_ended :
      (schedule : List (ℕ × Bool)) (t : ℕ) (w : World)
      → w.active ≡ false
      → remaining (w.phase t) ≤ count_of t schedule
      → (turns brokers schedule w).phase t ≡ ended
  unfolding turns turn
  turns_ended [] t w stop h = remaining_zero (w.phase t) h
  turns_ended ((u, due) ∷ rest) t w stop h =
      let (moved, same) = move_phase u t due (w.phase u) w refl in
      turns_ended rest t (move brokers u due (w.phase u) w) (same ∙ stop)
        (elim (Bool-cases (u == t)) [
          | inl own ↦ rw moved (
              rw own (
                rw stop (
                  remaining-stopped due (w.owner (head_of (w.phase u))) (w.phase u)
                    (count_of t rest) (rw ((==_iff u t).0 own) (rw own at h)))))
          | inr other ↦ rw moved (rw other (rw other at h))
        ])

  pub bounded : (w : World) → Reached brokers w → (t : ℕ) → remaining (w.phase t) ≤ bound
  unfolding start terminate turn watch_turn
  bounded _ (started count) t = elim (Bool-cases (ltb t count)) [
    | inl fresh ↦ rw fresh (omega arith)
    | inr other ↦ rw other (omega arith)
  ]
  bounded _ (turned u due {w} reached) t =
      let (moved, same) = move_phase u t due (w.phase u) w refl in
      rw moved (elim (Bool-cases (u == t)) [
        | inl own ↦ rw own (
            remaining-next_phase w.active due (w.owner (head_of (w.phase u))) (w.phase u)
              (bounded w reached u))
        | inr other ↦ rw other (bounded w reached t)
      ])
  bounded _ (watched {w} reached) t = bounded w reached t
  bounded _ (terminated {w} reached) t = bounded w reached t

  -- Once `terminate` has told the threads to stop, a thread is at its end after any turns of theirs
  -- among which it has two for each broker and two more; the turns of the other threads may come in
  -- between in any order.
  pub terminate_ended :
      (w : World) (t : ℕ) (schedule : List (ℕ × Bool))
      → Reached brokers w
      → bound ≤ count_of t schedule
      → (turns brokers schedule (terminate w)).phase t ≡ ended
  unfolding terminate
  terminate_ended w t schedule reached enough =
      turns_ended schedule t (terminate w) refl
        (let few = bounded w reached t in omega (arith, few))
