-- ===== src/Runs/Cancel.antt =====
-- `cancelRun` of services/api-server/internal/server/server.go, with Postgres and Redis: the cancel
-- key for the worker, the transaction, and the answer. The audit log is left out. The cancel channel
-- has no subscriber, so a message on it only takes a round trip.
use langopen.Prelude.{ℕ, String, ◌||◌, not, some, ◌==◌, if◌then◌else◌}
use langopen.Db.Sql.{Result, ok, err, no_rows}
use langopen.Redis.{Redis, World, command, at_key, delete_buffer, run_sql}
use langopen.Runs.{cancel_run_in_postgres}

-- `Set` of the cancel key; it does not expire here.
unfoldable pub set_cancel : String → String → Redis → Redis
unfolding command
set_cancel run_id action r =
    command (λ s. record s { cancel = at_key run_id (some action) s.cancel }) r

-- `Publish` on the cancel channel.
unfoldable pub notify : Redis → Redis
unfolding command
notify r = command (λ s. s) r

abbrev pub answer_code : Result (Unit {0}) → ℕ
answer_code (ok _) = 200
answer_code (err no_rows) = 404
answer_code (err _) = 500

-- What follows the transaction.
unfoldable pub answered_cancel : String → String → Result (Unit {0}) → World → ℕ × World
answered_cancel run_id action (err e) w = (answer_code (err e), w)
answered_cancel run_id action (ok _) w =
    let dropped = record w { redis = delete_buffer run_id w.redis } in
    if action == "rollback" then (200, dropped) else (200, w)

abbrev pub or_interrupt : String → String
or_interrupt action = if action == "" then "interrupt" else action

unfoldable pub cancel_known : String → String → String → World → ℕ × World
unfolding set_cancel notify run_sql answered_cancel
cancel_known project_id run_id action w =
    let told = record w { redis = notify (set_cancel run_id action w.redis) } in
    let (r, w') = run_sql (cancel_run_in_postgres w.clock project_id run_id action) told in
    answered_cancel run_id action r w'

-- The status code of the answer, and the world after it.
unfoldable pub cancel_run : String → String → String → World → ℕ × World
unfolding cancel_known
cancel_run project_id run_id action w =
    let chosen = or_interrupt action in
    if not (chosen == "interrupt" || chosen == "rollback")
    then (400, w)
    else cancel_known project_id run_id chosen w
