-- ===== src/Tests/Threads.antt =====
-- The theorems on the threads of the brokers at a concrete run: two threads and one broker.
use obmc_webapp.Prelude.{ℕ, ◌≡◌, refl, sym, ◌∙◌, inl, Bool, true, false, List, [], ◌∷◌, arith}
use obmc_webapp.Core.Broker.Threads.{
  World, ended, at_brokers, in_process, update, start, terminate, test, go_to, try_lock, move, turn,
  turns, Reached, started, turned,
}
use obmc_webapp.Core.Broker.Threads.Exclusive.{Reached-exclusive}
use obmc_webapp.Core.Broker.Threads.Ending.{terminate_ended}
use obmc_webapp.Core.Broker.Threads.Serving.{Serves, Eventually, broker-IsProcessed}

abbrev one : List ℕ
one = 7 ∷ []

-- the first thread is within the broker, and the second at its round
abbrev busy : World
busy = turn one 1 false (turn one 0 true (turn one 0 false (start 2)))

abbrev busy-Reached : Reached one busy
busy-Reached = turned 1 false (turned 0 true (turned 0 false (started 2)))

within : busy.phase 0 ≡ in_process 7 []
unfolding turn move test go_to try_lock update start
within = refl

Reached-exclusive_example : ◌≡◌ {A = ℕ} 0 0
Reached-exclusive_example = Reached-exclusive one busy 0 0 7 [] [] busy-Reached within within

abbrev schedule : List (ℕ × Bool)
schedule =
    (0, true)
    ∷ (1, true)
    ∷ (0, false)
    ∷ (1, true)
    ∷ (1, false)
    ∷ (1, true)
    ∷ (0, true)
    ∷ (1, true)
    ∷ []

terminate_ended_example : (turns one schedule (terminate busy)).phase 1 ≡ ended
terminate_ended_example = terminate_ended one busy 1 schedule busy-Reached (omega arith)

abbrev some_due : List (ℕ × Bool)
some_due = (1, true) ∷ (0, false) ∷ (1, false) ∷ (1, true) ∷ (1, false) ∷ (1, true) ∷ (1, true) ∷ []

busy_active : busy.active ≡ true
unfolding turn move test go_to try_lock update start
busy_active = refl

second_runs : busy.phase 1 ≡ at_brokers one
unfolding turn move test go_to try_lock update start
second_runs = refl

broker-IsProcessed_example : Eventually one (Serves one 1 7) some_due busy
broker-IsProcessed_example =
    broker-IsProcessed one busy 1 7 some_due busy-Reached busy_active
      (λ h. let e : at_brokers one ≡ ended = sym second_runs ∙ h in cc) (inl refl) (omega arith)
