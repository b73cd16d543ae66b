-- ===== src/Core/Broker/Runs.antt =====
-- How often a broker runs, and what a run leaves.
use obmc_webapp.Prelude.{
  ℕ, suc, ◌≤◌, ◌<◌, ◌≡◌, ◌≢◌, refl, ap, ◌∙◌, inl, inr, ◌⊎◌, Bool, true, false, not, List, [], ◌∷◌,
  All, arith, Bool-cases, if◌then◌else◌,
}
use obmc_webapp.Core.Exceptions.{Result, ok, err}
use obmc_webapp.Core.Entity.{InstanceInterface, set_instances}
use obmc_webapp.Core.Broker.{
  Broker, is_timeout, set_execution_time, EntityBroker, watched, accept_instances, after_query,
  try_process,
}

module _ (interface : InstanceInterface) where
  open interface use {Instance}

  -- What a call of `tryProcess` comes to.
  pub data Run (b : EntityBroker interface) (queried : Result (List Instance)) (now done : ℕ)
      : EntityBroker interface × Result Bool → Type 0 where
    stays : (answer : Result Bool) → answer ≢ ok true → Run b queried now done (b, answer)
    runs :
        (instances : List Instance)
        → queried ≡ ok instances
        → is_timeout b.broker now ≡ true
        → Run b queried now done (
          record b {
            broker = record b.broker { last_execution_time = done };
            entity = set_instances interface instances b.entity;
          },
          ok true,
        )

  accept_instances-Run :
      (b : EntityBroker interface) (instances : List Instance) (now done : ℕ)
      (r : Result (Unit {0}))
      → is_timeout b.broker now ≡ true
      → Run b (ok instances) now done (accept_instances interface done instances b r)
  unfolding accept_instances set_execution_time
  accept_instances-Run b instances now done (err e) ready = stays (err e) (λ h. cc)
  accept_instances-Run b instances now done (ok _) ready = runs instances refl ready

  after_query-Run :
      (b : EntityBroker interface) (queried : Result (List Instance)) (now done : ℕ)
      → is_timeout b.broker now ≡ true
      → Run b queried now done (after_query interface done b queried)
  unfolding after_query
  after_query-Run b (err e) now done ready = stays (err e) (λ h. cc)
  after_query-Run b (ok instances) now done ready =
      accept_instances-Run b instances now done (watched interface b.broker.watch instances) ready

  -- A call of `tryProcess` either answers something other than true and leaves the broker and its
  -- entity as they were, or answers true, in which case the broker was ready, and the entity now
  -- has the instances that the query gave, and the broker the time of the run.
  pub try_process-Run :
      (held : Bool) (queried : Result (List Instance)) (now done : ℕ) (b : EntityBroker interface)
      → Run b queried now done (try_process interface held queried now done b)
  unfolding try_process
  try_process-Run true queried now done b = stays (ok false) (λ h. cc)
  try_process-Run false queried now done b = elim (Bool-cases (is_timeout b.broker now)) [
    | inr early ↦ rw early (stays (ok false) (λ h. cc))
    | inl ready ↦ rw ready (
        if-Run b.has_query (λ there. after_query-Run b queried now done ready)
          (λ missing. stays _ (λ h. cc)))
  ]
    where
      if-Run :
          (test : Bool) {yes no : EntityBroker interface × Result Bool}
          → (test ≡ true → Run b queried now done yes)
          → (test ≡ false → Run b queried now done no)
          → Run b queried now done (if not test then no else yes)
      if-Run true f g = f refl
      if-Run false f g = g refl

  -- One call of `tryProcess`, with what it meets.
  pub record Attempt : Type 0 where
    pub held : Bool
    pub queried : Result (List Instance)
    pub now : ℕ
    pub done : ℕ

  -- The number of calls that answer true, of calls one after another.
  count_run : EntityBroker interface × Result Bool → ℕ → ℕ
  count_run (b, ok true) n = suc n
  count_run (b, ok false) n = n
  count_run (b, err e) n = n

  pub successes : List Attempt → EntityBroker interface → ℕ
  successes [] b = 0
  successes (a ∷ rest) b =
      let r = try_process interface a.held a.queried a.now a.done b in
      count_run r (successes rest r.0)

  count_run_other :
      (b : EntityBroker interface) (answer : Result Bool) (n : ℕ)
      → answer ≢ ok true
      → count_run (b, answer) n ≡ n
  unfolding count_run
  count_run_other b (ok true) n other = absurd (other refl)
  count_run_other b (ok false) n other = refl
  count_run_other b (err e) n other = refl

  -- A call counts exactly if it runs, and then sets the time.
  count_run_cases :
      (b : EntityBroker interface) (queried : Result (List Instance)) (now done : ℕ)
      (r : EntityBroker interface × Result Bool) (n : ℕ)
      → Run b queried now done r
      → ((r.0 ≡ b) × (count_run r n ≡ n))
        ⊎ ((count_run r n ≡ suc n)
            × (r.0.broker.timeout ≡ b.broker.timeout)
            × (r.0.broker.last_execution_time ≡ done)
            × (is_timeout b.broker now ≡ true))
  unfolding count_run
  count_run_cases b queried now done _ n (stays answer other) =
      inl (refl, count_run_other b answer n other)
  count_run_cases b queried now done _ n (runs instances given ready) =
      inr (refl, refl, refl, ready)

  no_run_again :
      (b : Broker) (now : ℕ) → b.timeout ≡ 0 → 0 < b.last_execution_time → is_timeout b now ≡ false
  unfolding is_timeout
  no_run_again b now single past = ground arith

  -- A broker without a period that has run does not run again.
  successes_past :
      (attempts : List Attempt) (b : EntityBroker interface)
      → b.broker.timeout ≡ 0
      → 0 < b.broker.last_execution_time
      → successes attempts b ≡ 0
  unfolding successes
  successes_past [] b single past = refl
  successes_past (a ∷ rest) b single past =
      let r = try_process interface a.held a.queried a.now a.done b in
      elim (count_run_cases b a.queried a.now a.done r (successes rest r.0)
        (try_process-Run a.held a.queried a.now a.done b)) [
          | inl (same, counted) ↦
              counted ∙ ap (successes rest) same ∙ successes_past rest b single past
          | inr (_, _, _, ready) ↦ absurd (cc (ready, no_run_again b.broker a.now single past))
        ]

  -- A broker without a period (`timeout` 0) runs at most once, however often `tryProcess` is
  -- called, whatever its queries answer and whoever holds its mutex, if the clock never reads zero.
  pub successes-le_one :
      (attempts : List Attempt) (b : EntityBroker interface)
      → b.broker.timeout ≡ 0
      → All (λ a. 0 < a.done) attempts
      → successes attempts b ≤ 1
  unfolding successes
  successes-le_one [] b single clock = omega arith
  successes-le_one (a ∷ rest) b single (clock, clocks) =
      let r = try_process interface a.held a.queried a.now a.done b in
      elim (count_run_cases b a.queried a.now a.done r (successes rest r.0)
        (try_process-Run a.held a.queried a.now a.done b)) [
          | inl (same, counted) ↦
              rw (counted ∙ ap (successes rest) same) (successes-le_one rest b single clocks)
          | inr (counted, period, at, _) ↦
              let after = successes_past rest r.0 (period ∙ single) (rw at clock) in
              rw (counted ∙ ap suc after) (omega arith)
        ]
