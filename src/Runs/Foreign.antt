-- ===== src/Runs/Foreign.antt =====
-- Cancelling a run that is not in the key's project.
use langopen.Prelude.{String, true, false, ◌||◌, some, ◌==◌, ◌≡◌, refl, any, arith, eq_refl}
use langopen.Prelude.Text.{trim_space}
use langopen.Db.Sql.{err, no_rows, statement, ◌>>=◌, transaction}
use langopen.Db.Tables.{run_in_scope}
use langopen.Redis.{World, command, redis_trip, run_sql}
use langopen.Runs.{cancel_run_in_postgres}
use langopen.Runs.Cancel.{
  or_interrupt, set_cancel, notify, answered_cancel, cancel_known, cancel_run,
}
use langopen.Worker.Execute.{current_cancel_action}
use langopen.Worker.Execute.Steps.{Quiet}

refused :
    (p id action : String) (w : World)
    → Quiet w
    → any (λ row. run_in_scope p id row w.conn.db) w.conn.db.runs ≡ false
    → ((run_sql (cancel_run_in_postgres w.clock p id action) w).0 ≡ err no_rows)
      × ((run_sql (cancel_run_in_postgres w.clock p id action) w).1.conn.db ≡ w.conn.db)
unfolding cancel_run_in_postgres transaction statement ◌>>=◌ run_sql
refused p id action w q foreign =
    (ground (arith, q.postgres, foreign), ground (arith, q.postgres, foreign))

-- The world once the cancel key is set.
abbrev told : String → String → World → World
told id action w = record w { redis = notify (set_cancel id action w.redis) }

told_key :
    (id action : String) (w : World) → Quiet w → (told id action w).redis.cancel id ≡ some action
unfolding notify set_cancel command redis_trip
told_key id action w q = rw (q.redis, eq_refl id) refl

told-Quiet : (id action : String) (w : World) → Quiet w → Quiet (told id action w)
unfolding notify set_cancel command redis_trip
told-Quiet id action w q = record { postgres = q.postgres; redis = rw q.redis refl }

-- A request to cancel a run that is not in the scope of its key, where no server fails and the action
-- is left out or known: the answer is 404 and the tables are as they were, and yet the worker that
-- executes the run reads the action from the cancel key.
pub foreign_cancel_lands :
    (p id action : String) (w : World)
    → Quiet w
    → (or_interrupt action == "interrupt" || or_interrupt action == "rollback") ≡ true
    → any (λ row. run_in_scope p id row w.conn.db) w.conn.db.runs ≡ false
    → ((cancel_run p id action w).0 ≡ 404)
      × ((cancel_run p id action w).1.conn.db ≡ w.conn.db)
      × ((current_cancel_action id (cancel_run p id action w).1).0
          ≡ trim_space (or_interrupt action))
unfolding cancel_run cancel_known answered_cancel current_cancel_action run_sql redis_trip
foreign_cancel_lands p id action w q known foreign =
    let chosen = or_interrupt action in
    let w' = told id chosen w in
    let q' = told-Quiet id chosen w q in
    let (missing, same) = refused p id chosen w' q' foreign in
    rw (known, missing, same, q'.redis, told_key id chosen w q) (refl, refl, refl)
