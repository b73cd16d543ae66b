-- ===== src/Core/Broker/Threads/Exclusive.antt =====
-- No two threads process one broker at once.
use obmc_webapp.Prelude.{
  ℕ, ◌≡◌, refl, sym, ap, ◌∙◌, Bool, true, false, Bool-cases, inl, inr, Option, none, some, List, [],
  ◌∷◌, arith, ◌==◌, ==_iff, ltb, if◌then◌else◌,
}
use obmc_webapp.Core.Broker.Threads.{
  Phase, at_test, ended, at_brokers, in_process, World, update, start, terminate, test, go_to,
  try_lock, unlock, move, turn, Reached, started, turned, watched, terminated, watch_turn,
}

-- A thread that processes a broker owns its mutex.
abbrev Owned : World → Type 0
Owned w = (u b : ℕ) (rest : List ℕ) → w.phase u ≡ in_process b rest → w.owner b ≡ some u

abbrev NotIn : Phase → Type 0
NotIn p = (b : ℕ) (rest : List ℕ) → p ≡ in_process b rest → ⊥

none-some : {u : ℕ} → ◌≡◌ {A = Option ℕ} none (some u) → ⊥
none-some h = cc

not_both : {t u : ℕ} → some t ≡ some u → (t == u) ≡ false → ⊥
not_both {t} {u} h k = let same : t ≡ u = cc in ground (arith, ==_iff t u)

module _ (brokers : List ℕ) where
  Owned-go_to : (t : ℕ) (p : Phase) (w : World) → NotIn p → Owned w → Owned (go_to brokers t p w)
  unfolding go_to update
  Owned-go_to t p w out owned u b rest h = elim (Bool-cases (t == u)) [
    | inl same ↦ absurd (out b rest (rw same at h))
    | inr other ↦ owned u b rest (rw other at h)
  ]

  Owned-try_lock :
      (t b : ℕ) (rest : List ℕ) (o : Option ℕ) (w : World)
      → w.owner b ≡ o
      → Owned w
      → Owned (try_lock brokers t b rest o w)
  unfolding try_lock update
  Owned-try_lock t b rest none w free owned u c later h = elim (Bool-cases (t == u)) [
    | inl same ↦
        let k : in_process b rest ≡ in_process c later = rw same at h in
        let both : b ≡ c = cc in rw ((==_iff b c).1 both) (ap some ((==_iff t u).0 same))
    | inr other ↦
        let mine : w.owner c ≡ some u = owned u c later (rw other at h) in
        elim (Bool-cases (b == c)) [
          | inl both ↦ absurd (none-some (sym free ∙ ap w.owner ((==_iff b c).0 both) ∙ mine))
          | inr apart ↦ rw apart mine
        ]
  ]
  Owned-try_lock t b rest (some v) w taken owned u c later h =
      Owned-go_to t (at_brokers rest) w (λ c' later' k. cc) owned u c later h

  Owned-unlock :
      (t b : ℕ) (rest : List ℕ) (w : World)
      → w.owner b ≡ some t
      → Owned w
      → Owned (unlock brokers t b rest w)
  unfolding unlock update
  Owned-unlock t b rest w mine owned u c later h = elim (Bool-cases (t == u)) [
    | inl same ↦ let k : at_brokers rest ≡ in_process c later = rw same at h in cc
    | inr other ↦
        let his : w.owner c ≡ some u = owned u c later (rw other at h) in
        elim (Bool-cases (b == c)) [
          | inl both ↦ absurd (not_both (sym mine ∙ ap w.owner ((==_iff b c).0 both) ∙ his) other)
          | inr apart ↦ rw apart his
        ]
  ]

  NotIn-test : (active : Bool) → NotIn (test brokers active)
  unfolding test
  NotIn-test true b rest h = cc
  NotIn-test false b rest h = cc

  NotIn-started : (fresh : Bool) → NotIn (if fresh then at_test else ended)
  NotIn-started true b rest h = cc
  NotIn-started false b rest h = cc

  Owned-move :
      (t : ℕ) (due : Bool) (p : Phase) (w : World)
      → w.phase t ≡ p
      → Owned w
      → Owned (move brokers t due p w)
  unfolding move
  Owned-move t due at_test w h owned =
      Owned-go_to t (test brokers w.active) w (NotIn-test w.active) owned
  Owned-move t due (at_brokers []) w h owned = Owned-go_to t at_test w (λ c later k. cc) owned
  Owned-move t true (at_brokers (b ∷ rest)) w h owned =
      Owned-try_lock t b rest (w.owner b) w refl owned
  Owned-move t false (at_brokers (b ∷ rest)) w h owned =
      Owned-go_to t (at_brokers rest) w (λ c later k. cc) owned
  Owned-move t due (in_process b rest) w h owned = Owned-unlock t b rest w (owned t b rest h) owned
  Owned-move t due ended w h owned = owned

  Owned-Reached : (w : World) → Reached brokers w → Owned w
  unfolding start terminate turn watch_turn
  Owned-Reached _ (started count) = λ u b rest h. absurd (NotIn-started (ltb u count) b rest h)
  Owned-Reached _ (turned t due {w} reached) =
      Owned-move t due (w.phase t) w refl (Owned-Reached w reached)
  Owned-Reached _ (watched {w} reached) = Owned-Reached w reached
  Owned-Reached _ (terminated {w} reached) = Owned-Reached w reached

  -- Whatever turns the threads take, two that process the same broker at the same time are one.
  pub Reached-exclusive :
      (w : World) (t u b : ℕ) (rest later : List ℕ)
      → Reached brokers w
      → w.phase t ≡ in_process b rest
      → w.phase u ≡ in_process b later
      → t ≡ u
  Reached-exclusive w t u b rest later reached h k =
      let mine = Owned-Reached w reached t b rest h in
      let his = Owned-Reached w reached u b later k in cc
