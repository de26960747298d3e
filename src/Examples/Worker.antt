-- ===== src/Examples/Worker.antt =====
-- The worker at the example database.
use langopen.Prelude.{
  ◌++◌, ◌≤◌, ◌≡◌, refl, String, Bool, true, false, ◌&&◌, none, some, List, [], ◌∷◌, any, length,
}
use langopen.Prelude.Int.{pos}
use langopen.Prelude.Text.{trim_space}
use langopen.Json.{Json, null, end}
use langopen.Contracts.{pending, other_status}
use langopen.Db.{RunRow}
use langopen.Db.Sql.{Error, Result, ok, err, foreign_key, healthy, statement, ◌>>=◌, transaction}
use langopen.Db.Tables.{is_referenced, oldest, update_rows, has_id}
use langopen.Redis.{run_sql}
use langopen.Stream.{live_loop}
use langopen.Worker.{rollback_run}
use langopen.Worker.Execute.{
  PendingRun, ExecutorEvent, Settings, Allocation, allocated, Executor, emit_all, roll_back,
}
use langopen.Worker.Execute.Ids.{
  numbered_from, emitted-numbered_from, arrived, unbuffered_lost, rollback_stuck,
}
use langopen.Worker.Fetch.{
  fetch_next_pending_run, fetchable, set_running, is_pending, next_pending,
  load_deployment_runtime_env, attempt, pending_run, Target, decrypt_all,
}
use langopen.Worker.Fetch.Laws.{First, fetched-First}
use langopen.Worker.Execute.{current_cancel_action}
use langopen.Db.Tables.{run_in_scope, assistant_in_project}
use langopen.Runs.Cancel.{cancel_run}
use langopen.Runs.Foreign.{foreign_cancel_lands}
use langopen.Examples.Tables.{new_id, busy, waiting_db, run_row, world}

abbrev pub fetched_run : String → Bool → PendingRun
fetched_run id resumable = record {
  id = id;
  thread_id = "t1";
  assistant_id = "a1";
  stream_resumable = resumable;
  input = null;
  command = null;
  configurable = null;
  metadata = end;
  checkpoint_id = "";
  graph_id = "g1";
  repo_path = ".";
  repo_url = "u1";
  git_ref = "main";
  runtime_metadata = end;
  runtime_env = [];
  deployment_id = "d1";
  project_id = "p1";
  env_decrypt_err = "";
}

abbrev tokens : List ExecutorEvent
tokens = record { name = "token"; payload = null } ∷ record { name = "token"; payload = null } ∷ []

abbrev runner : Executor
runner run w = (
  (record { status = other_status ""; output = null; error_payload = null; events = tokens }, none),
  w,
)

abbrev settings : Settings
settings = record { mode_b = true; sandbox_enabled = true; sandbox_strict = true }

abbrev claim : String → Allocation
claim id = allocated id

emitted-numbered_from_example :
    (emit_all (fetched_run "r1" true) tokens (world busy)).redis.buffer "r1"
    ≡ (world busy).redis.buffer "r1" ++ numbered_from 1 tokens
emitted-numbered_from_example =
    emitted-numbered_from (fetched_run "r1" true) tokens (world busy)
      (record { postgres = refl; redis = refl }) refl

unbuffered_lost_example :
    length (
      live_loop
        (pos 0)
        (pos 0)
        (arrived (emit_all (fetched_run "r1" false) tokens (world busy)).redis.published []))
    ≤ 1
unbuffered_lost_example =
    unbuffered_lost (fetched_run "r1" false) tokens (world busy)
      (record { postgres = refl; redis = refl }) refl refl refl

rollback_stuck_example :
    ((run_sql (rollback_run "r2") (world busy)).0 ≡ err foreign_key)
    × ((roll_back new_id (fetched_run "r2" true) (world busy)).conn.db ≡ busy)
    × ((roll_back new_id (fetched_run "r2" true) (world busy)).redis ≡ (world busy).redis)
unfolding is_referenced
rollback_stuck_example =
    rollback_stuck new_id (fetched_run "r2" true) (world busy)
      (record { postgres = refl; redis = refl }) refl refl

abbrev show : Json → String
show v = "value"

abbrev describe : Error → String
describe e = "error"

abbrev plain : String → Result String
plain s = ok s

abbrev target : Target
target = record {
  graph_id = "g1";
  deployment_id = "d1";
  project_id = "p1";
  repo_path = ".";
  repo_url = "u1";
  git_ref = "main";
}

fetched-First_example :
    (row : RunRow) × (row.id ≡ "r1")
    × (row.status ≡ pending)
    × First (fetchable waiting_db) waiting_db.runs row
    × ((fetch_next_pending_run show describe (some plain) 9 (healthy waiting_db)).1.db.runs
        ≡ update_rows "r1" (set_running 9) waiting_db.runs)
    × (any
          (λ r. has_id "r1" r && is_pending r.status)
          (fetch_next_pending_run show describe (some plain) 9 (healthy waiting_db)).1.db.runs
        ≡ false)
unfolding fetch_next_pending_run transaction statement ◌>>=◌ next_pending attempt pending_run oldest
    load_deployment_runtime_env trim_space decrypt_all
fetched-First_example =
    fetched-First show describe (some plain) 9 waiting_db
      (pending_run show describe (run_row "r1" pending 5) target (ok [])) refl

foreign_cancel_lands_example :
    ((cancel_run "p2" "r1" "rollback" (world busy)).0 ≡ 404)
    × ((cancel_run "p2" "r1" "rollback" (world busy)).1.conn.db ≡ busy)
    × ((current_cancel_action "r1" (cancel_run "p2" "r1" "rollback" (world busy)).1).0 ≡ "rollback")
unfolding run_in_scope assistant_in_project trim_space
foreign_cancel_lands_example =
    foreign_cancel_lands "p2" "r1" "rollback" (world busy)
      (record { postgres = refl; redis = refl }) refl refl
