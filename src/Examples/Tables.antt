-- ===== src/Examples/Tables.antt =====
-- The database of the examples: project p1 with one assistant, a thread with a running and a
-- finished run, a webhook delivery that failed twice, and a cron job that never ran.
use langopen.Prelude.{
  ℕ, String, true, false, none, some, List, [], ◌∷◌, ◌==◌, ◌≡◌, ◌≢◌, eq_iff, arith,
}
use langopen.Json.{object, end, text, field}
use langopen.Contracts.{RunStatus, pending, running, success, interrupt}
use langopen.Db.{RunRow, Db, retry}
use langopen.Redis.{Redis, World}
use langopen.Db.Sql.{healthy}

abbrev pub run_row : String → RunStatus → ℕ → RunRow
run_row id status created = record {
  id = id;
  thread_id = some "t1";
  assistant_id = "a1";
  status = status;
  strategy = interrupt;
  stream_resumable = true;
  webhook_url = some "http://hook";
  input_json = object end;
  output_json = none;
  error_json = none;
  metadata_json = object (field "configurable" (object (field "git_ref" (text "v2") end)) end);
  checkpoint_id = none;
  started_at = none;
  completed_at = none;
  created_at = created;
  updated_at = created;
}

abbrev pub tables : List RunRow → Db
tables rows = record {
  runs = rows;
  threads = record { id = "t1"; assistant_id = "a1"; updated_at = 1 } ∷ [];
  assistants = record { id = "a1"; deployment_id = "d1"; graph_id = "g1" } ∷ [];
  deployments =
      record { id = "d1"; project_id = "p1"; repo_path = "."; repo_url = "u1"; git_ref = "main" }
      ∷ [];
  checkpoints = [];
  deliveries =
      record {
        id = "w1";
        run_id = "r2";
        url = "http://hook";
        status = retry;
        attempts = 2;
        last_error = none;
        created_at = 3;
        updated_at = 4;
      }
      ∷ [];
  crons = record { id = "c1"; assistant_id = "a1"; schedule = "* * * * *"; enabled = true } ∷ [];
  cron_executions = [];
  variables = [];
}

-- Every id is its prefix.
abbrev pub new_id : String → ℕ → String
new_id prefix n = prefix

-- r1 is at work, r2 is done.
abbrev pub busy : Db
busy = tables (run_row "r1" running 5 ∷ run_row "r2" success 2 ∷ [])

-- r1 waits.
abbrev pub waiting_db : Db
waiting_db = tables (run_row "r1" pending 5 ∷ run_row "r2" success 2 ∷ [])

abbrev pub no_keys : Redis
no_keys = record { wakeups = 0; cancel = λ _. none; buffer = λ _. []; published = []; faults = [] }

abbrev pub world : Db → World
world d = record { conn = healthy d; redis = no_keys; clock = 9000000000000; drawn = 0 }

-- The same with `action` under the cancel key of every run.
abbrev pub cancelling : String → Db → World
cancelling action d = record (world d) { redis = record no_keys { cancel = λ _. some action } }

pub differ : (a b : String) → (a == b) ≡ false → a ≢ b
differ a b h e = ground (arith, h, eq_iff a b, e)
