-- ===== src/Worker.antt =====
-- The worker (services/worker/internal/engine/engine.go): the commands on Postgres and Redis that
-- its three loops share. Children: the outbox of webhooks, the cron dispatcher, the fetch of a
-- pending run, its execution, and the name of its sandbox.
pub mod Webhooks
pub mod Crons
pub mod Sandbox
pub mod Runner
pub mod Execute
pub mod Fetch
pub mod Wakeup
use langopen.Prelude.{
  ℕ, ◌+◌, ◌-◌, ◌*◌, ◌^◌, String, Bool, true, false, ◌||◌, ◌&&◌, not, Option, none, some, List, [],
  ◌∷◌, ◌++◌, ◌==◌, if◌then◌else◌, any,
}
use langopen.Prelude.Text.{trim_space}
use langopen.Json.{Json, object, end, field, text}
use langopen.Contracts.{RunStatus, success, error, timeout, interrupted}
use langopen.Db.{RunRow, DeliveryRow, CronExecutionRow, Db, waiting}
use langopen.Db.Sql.{
  Error, Result, ok, err, Sql, pure, ◌>>=◌, ◌>>◌, statement, query, exec, transaction,
}
use langopen.Db.Tables.{
  update_run, delete_checkpoints, delete_run, delivery_of, execution_of, has_id,
}

-- `$2 IN ('success','error','timeout','interrupted')`.
unfoldable pub completes : RunStatus → Bool
completes success = true
completes error = true
completes timeout = true
completes interrupted = true
completes _ = false

abbrev pub or_now : Option ℕ → ℕ → ℕ
or_now none now = now
or_now (some t) now = t

unfoldable pub with_result : ℕ → RunStatus → Json → Json → RunRow → RunRow
unfolding completes
with_result now status output error_payload row = record row {
  status = status;
  output_json = some output;
  error_json = some error_payload;
  started_at = some (or_now row.started_at now);
  completed_at = if completes status then some now else row.completed_at;
  updated_at = now;
}

-- `updateRunResult`; a Go nil is `null`.
unfoldable pub update_run_result : ℕ → String → RunStatus → Json → Json → Sql (Unit {0})
update_run_result now run_id status output error_payload =
    exec (update_run run_id (with_result now status output error_payload))

unfoldable pub set_execution_status :
    String → String → List CronExecutionRow → List CronExecutionRow
set_execution_status run_id status [] = []
set_execution_status run_id status (row ∷ rows) =
    (if execution_of run_id row then record row { status = status } else row)
    ∷ set_execution_status run_id status rows

-- `updateCronExecutionStatus`.
unfoldable pub update_cron_execution_status : String → String → Sql (Unit {0})
update_cron_execution_status run_id status =
    exec (λ d.
      ok (record d { cron_executions = set_execution_status run_id status d.cron_executions }))

-- `rollbackRun`.
unfoldable pub rollback_run : String → Sql (Unit {0})
rollback_run run_id = transaction (do exec (delete_checkpoints run_id); exec (delete_run run_id))
