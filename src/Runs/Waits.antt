-- ===== src/Runs/Waits.antt =====
-- The handlers of services/api-server/internal/server/server.go that show a run and that wait for
-- one. The looks of a wait over Postgres are a parameter.
use langopen.Prelude.{
  ℕ, String, Bool, true, false, Option, none, some, List, ◌==◌, if◌then◌else◌, find,
}
use langopen.Prelude.Int.{ℤ}
use langopen.Prelude.Text.{trim_space}
use langopen.Contracts.{RunStatus, pending, running, success}
use langopen.Db.{RunRow}
use langopen.Db.Sql.{Result, ok, err, no_rows}
use langopen.Redis.{run_sql}
use langopen.Runs.Handlers.{
  RunRequest, MemoryRun, Server, over_postgres, in_memory, Answer, answered, shown_row,
  shown_memory, refused, has_run_id, set_memory, create_run_record, held_at,
}
use langopen.Runs.Wait.{
  Waited, terminal, Looks, get_run_from_postgres, wait_for_run_terminal, wait_timeout,
}

abbrev pub row_answer : Result RunRow → Answer
row_answer (ok row) = shown_row 200 row
row_answer (err no_rows) = refused 404 "run_not_found"
row_answer (err _) = refused 500 "db_query_failed"

abbrev pub memory_answer : Option MemoryRun → Answer
memory_answer none = refused 404 "run_not_found"
memory_answer (some r) = shown_memory 200 r

-- The handler `getRun`.
unfoldable pub get_run : String → String → Server → Answer × Server
unfolding run_sql
get_run project_id run_id (over_postgres w) =
    let (r, w') = run_sql (get_run_from_postgres project_id run_id) w in
    (row_answer r, over_postgres w')
get_run project_id run_id (in_memory now runs) =
    (memory_answer (find (has_run_id run_id) runs), in_memory now runs)

-- How the handlers that wait answer.
abbrev pub wait_answer : Option Waited → Answer
wait_answer (some (terminal row)) = shown_row 200 row
wait_answer _ = refused 504 "wait_timeout"

abbrev pub ended_now : ℕ → MemoryRun → MemoryRun
ended_now now r = record r {
  run = record (r.run) { status = success; updated_at = now };
  completed_at = some now;
}

abbrev pub is_waiting : RunStatus → Bool
is_waiting pending = true
is_waiting running = true
is_waiting _ = false

abbrev pub end_memory : ℕ → Option MemoryRun → List MemoryRun → Answer × List MemoryRun
end_memory now none runs = (refused 504 "wait_timeout", runs)
end_memory now (some r) runs =
    if is_waiting r.run.status
    then (shown_memory 200 (ended_now now r), set_memory (ended_now now r) runs)
    else (shown_memory 200 r, runs)

-- The branch of `waitForRunTerminal` without Postgres: a run that no worker will take succeeds.
unfoldable pub wait_in_memory : ℕ → String → List MemoryRun → Answer × List MemoryRun
unfolding set_memory
wait_in_memory now run_id runs = end_memory now (find (has_run_id run_id) runs) runs

module _ (fuel : ℕ) (atoi : String → Option ℤ) (looks : Looks) (started : ℕ) where
  abbrev pub wait_on : String → String → String → Server → Answer × Server
  wait_on timeout_seconds project_id run_id (in_memory now runs) =
      held_at now (wait_in_memory now run_id runs)
  wait_on timeout_seconds project_id run_id (over_postgres w) = (
    wait_answer (
        wait_for_run_terminal fuel project_id run_id looks started
          (wait_timeout atoi timeout_seconds)),
    over_postgres w,
  )

  abbrev pub wait_created : String → String → Answer × Server → Answer × Server
  wait_created timeout_seconds project_id (answered code run, s) =
      wait_on timeout_seconds project_id run.id s
  wait_created timeout_seconds project_id (other, s) = (other, s)

  -- The handler `createRunWait`.
  unfoldable pub create_run_wait :
      String → String → String → String → RunRequest → Server → Answer × Server
  unfolding wait_in_memory
  create_run_wait timeout_seconds run_id project_id thread_id req s =
      wait_created timeout_seconds project_id (create_run_record run_id project_id thread_id req s)

  -- The handler `createStatelessRunWait`.
  unfoldable pub create_stateless_run_wait :
      String → String → String → RunRequest → Server → Answer × Server
  unfolding wait_in_memory
  create_stateless_run_wait timeout_seconds run_id project_id req s =
      wait_created timeout_seconds project_id (create_run_record run_id project_id "" req s)

  -- The handler `waitForExistingRun`.
  unfoldable pub wait_for_existing_run : String → String → String → Server → Answer × Server
  unfolding wait_in_memory
  wait_for_existing_run timeout_seconds project_id raw s =
      let run_id = trim_space raw in
      if run_id == ""
      then (refused 400 "invalid_run_id", s)
      else wait_on timeout_seconds project_id run_id s
