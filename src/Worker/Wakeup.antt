-- ===== src/Worker/Wakeup.antt =====
-- `runWakeupLoop` of services/worker/internal/engine/engine.go: one run for each wake-up, and one for
-- each time that none comes. Logs and the gauge of the queue's length are left out.
pub mod Settles
use langopen.Prelude.{ℕ, ◌-◌, String, Bool, Option, List, [], ◌∷◌}
use langopen.Json.{Json}
use langopen.Db.Sql.{Error, Result, ok, err}
use langopen.Redis.{Redis, World, run_sql}
use langopen.Worker.Execute.{PendingRun, Settings, Allocation, Executor, execute_run}
use langopen.Worker.Fetch.{fetch_next_pending_run}

-- What `BLPop` answers: a wake-up, an answer that is too short, `redis.Nil` or the end of the two
-- seconds, the end of the context, another error.
pub data Popped : Type 0 where
  woken malformed nothing context_cancelled pop_failed : Popped

abbrev pub take_wakeup : World → World
take_wakeup w = record w { redis = record (w.redis) { wakeups = w.redis.wakeups - 1 } }

module _ (show : Json → String) (describe : Error → String)
    (cipher : Option (String → Result String)) (new_id : String → ℕ → String) (settings : Settings)
    (allocate : String → Allocation) (execute : Option Executor) where
  pub execute_fetched : Result PendingRun → World → World
  execute_fetched (err e) w = w
  execute_fetched (ok run) w = execute_run new_id settings allocate execute run w

  unfoldable pub fetch_and_execute : World → World
  unfolding execute_fetched run_sql
  fetch_and_execute w =
      let (r, w') = run_sql (fetch_next_pending_run show describe cipher w.clock) w in
      execute_fetched r w'

  -- The `for`, over what is popped: where the list ends, the context is done.
  unfoldable pub wakeup_loop : List Popped → World → World
  wakeup_loop [] w = w
  wakeup_loop (woken ∷ pops) w = wakeup_loop pops (fetch_and_execute (take_wakeup w))
  wakeup_loop (malformed ∷ pops) w = wakeup_loop pops (fetch_and_execute w)
  wakeup_loop (nothing ∷ pops) w = wakeup_loop pops (fetch_and_execute w)
  wakeup_loop (context_cancelled ∷ pops) w = w
  wakeup_loop (pop_failed ∷ pops) w = wakeup_loop pops w
