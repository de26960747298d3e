-- ===== src/Db/Tables.antt =====
-- What the statements on `runs` and the tables that refer to it do, with the foreign keys of
-- db/migrations/001_init.sql: checkpoints go with their run, webhook deliveries and cron executions
-- keep it.
use langopen.Prelude.{
  String, Bool, true, false, ◌&&◌, ◌||◌, not, Option, none, some, List, [], ◌∷◌, ◌==◌, leb,
  if◌then◌else◌, keep, any,
}
use langopen.Contracts.{RunStatus, pending, running}
use langopen.Db.{
  RunRow, ThreadRow, AssistantRow, DeploymentRow, CheckpointRow, DeliveryRow, CronExecutionRow, Db,
}
use langopen.Db.Sql.{Result, ok, err, foreign_key, unique_violation}

abbrev pub is_active : RunStatus → Bool
is_active pending = true
is_active running = true
is_active _ = false

-- A nullable column equal to a value.
abbrev pub is_some_of : Option String → String → Bool
is_some_of none s = false
is_some_of (some t) s = t == s

-- `UPDATE runs SET … WHERE id=$1`.
unfoldable pub update_rows : String → (RunRow → RunRow) → List RunRow → List RunRow
update_rows id f [] = []
update_rows id f (row ∷ rows) = (if row.id == id then f row else row) ∷ update_rows id f rows

abbrev pub update_run : String → (RunRow → RunRow) → Db → Result Db
update_run id f d = ok (record d { runs = update_rows id f d.runs })

unfoldable pub without_run : String → List RunRow → List RunRow
without_run id [] = []
without_run id (row ∷ rows) =
    let rest = without_run id rows in if row.id == id then rest else row ∷ rest

abbrev pub delivery_of : String → DeliveryRow → Bool
delivery_of id row = row.run_id == id

abbrev pub execution_of : String → CronExecutionRow → Bool
execution_of id row = is_some_of row.run_id id

abbrev pub checkpoint_of : String → CheckpointRow → Bool
checkpoint_of id row = row.run_id == id

-- Whether a row of another table keeps the run from being deleted.
unfoldable pub is_referenced : String → Db → Bool
is_referenced id d = any (delivery_of id) d.deliveries || any (execution_of id) d.cron_executions

-- `DELETE FROM checkpoints WHERE run_id=$1`.
unfoldable pub delete_checkpoints : String → Db → Result Db
delete_checkpoints id d =
    ok (record d { checkpoints = keep (λ row. not (checkpoint_of id row)) d.checkpoints })

-- `DELETE FROM webhook_deliveries WHERE run_id=$1`.
unfoldable pub delete_deliveries : String → Db → Result Db
delete_deliveries id d =
    ok (record d { deliveries = keep (λ row. not (delivery_of id row)) d.deliveries })

abbrev pub has_id : String → RunRow → Bool
has_id id row = row.id == id

-- `DELETE FROM runs WHERE id=$1`.
unfoldable pub delete_run : String → Db → Result Db
unfolding is_referenced
delete_run id d =
    if any (has_id id) d.runs && is_referenced id d
    then err foreign_key
    else ok (record d {
      runs = without_run id d.runs;
      checkpoints = keep (λ row. not (checkpoint_of id row)) d.checkpoints;
    })

abbrev pub thread_missing : Option String → List ThreadRow → Bool
thread_missing none threads = false
thread_missing (some id) threads = not (any (λ (t : ThreadRow). t.id == id) threads)

-- `INSERT INTO runs`.
unfoldable pub insert_run : RunRow → Db → Result Db
insert_run row d =
    if any (has_id row.id) d.runs
    then err unique_violation
    else if thread_missing row.thread_id d.threads
    then err foreign_key
    else if not (any (λ (a : AssistantRow). a.id == row.assistant_id) d.assistants)
    then err foreign_key
    else ok (record d { runs = row ∷ d.runs })

-- `INSERT INTO threads`.
unfoldable pub insert_thread : ThreadRow → Db → Result Db
insert_thread row d =
    if any (λ (t : ThreadRow). t.id == row.id) d.threads
    then err unique_violation
    else if not (any (λ (a : AssistantRow). a.id == row.assistant_id) d.assistants)
    then err foreign_key
    else ok (record d { threads = row ∷ d.threads })

abbrev pub better : RunRow → Option RunRow → Option RunRow
better row none = some row
better row (some best) = if leb row.created_at best.created_at then some row else some best

-- `WHERE … ORDER BY created_at ASC LIMIT 1`.
unfoldable pub oldest : (RunRow → Bool) → List RunRow → Option RunRow
oldest p [] = none
oldest p (row ∷ rows) = let best = oldest p rows in if p row then better row best else best

-- `assistants a JOIN deployments d ON d.id = a.deployment_id WHERE a.id=$1 AND d.project_id=$2`.
unfoldable pub assistant_in_project : String → String → Db → Bool
assistant_in_project assistant_id project_id d =
    any
      (λ (a : AssistantRow).
        a.id == assistant_id
        && any (λ (p : DeploymentRow). p.id == a.deployment_id && p.project_id == project_id)
            d.deployments)
      d.assistants

-- `threads t JOIN assistants … WHERE t.id=$1 AND d.project_id=$2`.
unfoldable pub thread_in_project : String → String → Db → Bool
unfolding assistant_in_project
thread_in_project thread_id project_id d =
    any (λ (t : ThreadRow). t.id == thread_id && assistant_in_project t.assistant_id project_id d)
      d.threads

unfoldable pub thread_exists : String → Db → Bool
thread_exists thread_id d = any (λ (t : ThreadRow). t.id == thread_id) d.threads

-- `runs r JOIN assistants … WHERE r.id=$1 AND d.project_id=$2`, and without a project
-- `runs WHERE id=$1`.
unfoldable pub run_in_scope : String → String → RunRow → Db → Bool
unfolding assistant_in_project
run_in_scope project_id run_id row d =
    row.id == run_id && (project_id == "" || assistant_in_project row.assistant_id project_id d)
