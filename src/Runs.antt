-- ===== src/Runs.antt =====
-- The run life cycle of the API server over Postgres
-- (services/api-server/internal/server/server.go): creation under a multitask strategy,
-- cancellation and deletion, each one transaction.
pub mod Created
pub mod Accepted
pub mod Multitask
pub mod Scope
pub mod Removal
pub mod Cancel
pub mod Foreign
pub mod Wait
pub mod Handlers
pub mod Waits
pub mod Patience
use langopen.Prelude.{
  ℕ, String, Bool, true, false, ◌&&◌, ◌||◌, not, Option, none, some, List, ◌==◌, if◌then◌else◌, any,
}
use langopen.Json.{Json, object, end}
use langopen.Contracts.{
  RunStatus, MultitaskStrategy, pending, interrupted, reject, rollback, interrupt, enqueue,
  other_strategy,
}
use langopen.Db.{RunRow, ThreadRow, Db}
use langopen.Db.Sql.{
  Error, Result, ok, err, Sql, pure, raise, ◌>>=◌, ◌>>◌, statement, query, exec, transaction,
  no_rows, run_conflict, project_scope,
}
use langopen.Db.Tables.{
  is_active, is_some_of, update_run, delete_checkpoints, delete_deliveries, delete_run, insert_run,
  insert_thread, oldest, assistant_in_project, thread_in_project, thread_exists, run_in_scope,
}

-- contracts.Run, as far as the API server fills it in at creation.
pub record Run : Type 0 where
  pub id : String
  pub thread_id : String
  pub assistant_id : String
  pub status : RunStatus
  pub strategy : MultitaskStrategy
  pub stream_resumable : Bool
  pub created_at : ℕ
  pub updated_at : ℕ

abbrev pub new_run : String → String → String → MultitaskStrategy → Bool → ℕ → Run
new_run id thread_id assistant_id strategy resumable now = record {
  id = id;
  thread_id = thread_id;
  assistant_id = assistant_id;
  status = pending;
  strategy = strategy;
  stream_resumable = resumable;
  created_at = now;
  updated_at = now;
}

-- The row of `INSERT INTO runs`; the columns that it does not name have their defaults.
abbrev pub row_of : Run → Option String → String → RunRow
row_of run thread_id webhook_url = record {
  id = run.id;
  thread_id = thread_id;
  assistant_id = run.assistant_id;
  status = run.status;
  strategy = run.strategy;
  stream_resumable = run.stream_resumable;
  webhook_url = some webhook_url;
  input_json = object end;
  output_json = none;
  error_json = none;
  metadata_json = object end;
  checkpoint_id = none;
  started_at = none;
  completed_at = none;
  created_at = run.created_at;
  updated_at = run.updated_at;
}

-- The project of the key must own the assistant.
pub check_assistant : String → String → Sql (Unit {0})
check_assistant project_id assistant_id = if project_id == "" then pure tt else do
  allowed ← query (assistant_in_project assistant_id project_id)
  if allowed then pure tt else raise project_scope

-- The second look at a thread that the scoped query did not find.
pub check_foreign_thread : String → String → Sql (Unit {0})
check_foreign_thread project_id thread_id = if project_id == "" then pure tt else do
  exists_global ← query (thread_exists thread_id)
  if exists_global then raise project_scope else pure tt

-- A thread that is not in scope is made, unless it is another project's.
pub make_thread : String → String → String → ℕ → Sql (Unit {0})
unfolding check_foreign_thread
make_thread project_id thread_id assistant_id now = do
  check_foreign_thread project_id thread_id
  exec (insert_thread (record { id = thread_id; assistant_id = assistant_id; updated_at = now }))

-- The thread is in scope, or is made.
pub ensure_thread : String → String → String → ℕ → Sql (Unit {0})
unfolding make_thread
ensure_thread project_id thread_id assistant_id now = do
  exists ← query (λ d.
      if project_id == ""
      then thread_exists thread_id d
      else thread_in_project thread_id project_id d)
  if exists then pure tt else make_thread project_id thread_id assistant_id now

abbrev pub is_active_on : String → RunRow → Bool
is_active_on thread_id row = is_some_of row.thread_id thread_id && is_active row.status

abbrev pub set_interrupted : ℕ → RunRow → RunRow
set_interrupted now row = record row { status = interrupted; updated_at = now }

-- The `switch strategy` over the active run that was found.
pub displace : MultitaskStrategy → ℕ → String → Sql (Unit {0})
displace reject now active_id = raise run_conflict
displace interrupt now active_id = exec (update_run active_id (set_interrupted now))
displace rollback now active_id = do
  exec (delete_checkpoints active_id)
  exec (delete_run active_id)
displace enqueue now active_id = pure tt
displace (other_strategy _) now active_id = pure tt

-- `if activeRunID != ""`.
pub resolve_active : MultitaskStrategy → ℕ → Option RunRow → Sql (Unit {0})
unfolding displace
resolve_active strategy now none = pure tt
resolve_active strategy now (some row) =
    if row.id == "" then pure tt else displace strategy now row.id

-- What `createRunInPostgres` does between `BeginTx` and `Commit`. `run_id` is the new id, `now` the
-- time.
pub create_body :
    String → ℕ → String → String → String → MultitaskStrategy → Bool → String → Sql Run
create_body run_id now project_id thread_id assistant_id strategy resumable webhook_url = do
  check_assistant project_id assistant_id
  ensure_thread project_id thread_id assistant_id now
  active ← query (λ d. oldest (is_active_on thread_id) d.runs)
  resolve_active strategy now active
  let run = new_run run_id thread_id assistant_id strategy resumable now
  exec (insert_run (row_of run (some thread_id) webhook_url))
  pure run

unfoldable pub create_run_in_postgres :
    String → ℕ → String → String → String → MultitaskStrategy → Bool → String → Sql Run
unfolding create_body check_assistant ensure_thread resolve_active
create_run_in_postgres run_id now project_id thread_id assistant_id strategy resumable webhook_url =
    transaction
      (create_body run_id now project_id thread_id assistant_id strategy resumable webhook_url)

-- `createStatelessRunInPostgres`: two statements, no transaction and no thread.
unfoldable pub create_stateless_run_in_postgres :
    String → ℕ → String → String → MultitaskStrategy → Bool → String → Sql Run
unfolding check_assistant
create_stateless_run_in_postgres run_id now project_id assistant_id strategy resumable webhook_url =
    do
      check_assistant project_id assistant_id
      let run = new_run run_id "" assistant_id strategy resumable now
      exec (insert_run (row_of run none webhook_url))
      pure run

-- The branch of `cancelRunInPostgres` on its action.
pub cancel_row : String → ℕ → String → Sql (Unit {0})
cancel_row action now run_id =
    if action == "interrupt"
    then exec (update_run run_id (set_interrupted now))
    else do exec (delete_checkpoints run_id); exec (delete_run run_id)

unfoldable pub cancel_run_in_postgres : ℕ → String → String → String → Sql (Unit {0})
unfolding cancel_row
cancel_run_in_postgres now project_id run_id action = transaction (do
  exists ← query (λ d. any (λ row. run_in_scope project_id run_id row d) d.runs)
  if exists then cancel_row action now run_id else raise no_rows)

abbrev pub on_thread : String → RunRow → Bool
on_thread expected_thread_id row =
    expected_thread_id == "" || is_some_of row.thread_id expected_thread_id

pub delete_rows : String → Sql (Unit {0})
delete_rows run_id = do
  exec (delete_deliveries run_id)
  exec (delete_checkpoints run_id)
  exec (delete_run run_id)

unfoldable pub delete_run_from_postgres : String → String → String → Sql (Unit {0})
unfolding delete_rows
delete_run_from_postgres project_id run_id expected_thread_id = transaction (do
  exists ← query (λ d.
      any (λ row. run_in_scope project_id run_id row d && on_thread expected_thread_id row) d.runs)
  if exists then delete_rows run_id else raise no_rows)
