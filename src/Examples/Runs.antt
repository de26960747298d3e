-- ===== src/Examples/Runs.antt =====
-- Creating, cancelling and deleting runs of the example database.
use langopen.Prelude.Text.{trim_space}
use langopen.Json.{text, null, nil}
use langopen.Redis.{run_sql}
use langopen.Runs.Handlers.{RunRequest, over_postgres, create_run}
use langopen.Runs.Accepted.{up_world, IsAccepted, create_run-IsAccepted}
use langopen.Prelude.{none, ◌≡◌, refl, ◌⊎◌, true, false, ◌&&◌, some, any, arith}
use langopen.Contracts.{interrupt, reject, enqueue}
use langopen.Db.Sql.{Error, err, foreign_key, healthy, statement, ◌>>=◌, transaction}
use langopen.Db.Tables.{
  oldest, is_referenced, assistant_in_project, thread_in_project, thread_exists, run_in_scope,
  insert_run, update_rows, without_run, delete_run, delete_checkpoints, delete_deliveries,
}
use langopen.Runs.{
  Run, new_run, row_of, is_active_on, create_run_in_postgres, cancel_run_in_postgres,
  delete_run_from_postgres, on_thread,
}
use langopen.Runs.Multitask.{one_active_run, active_count}
use langopen.Runs.Scope.{created_in_scope, reject_refuses}
use langopen.Runs.Removal.{deleted-Gone, Gone, rollback_blocked}
use langopen.Examples.Tables.{busy, no_keys, run_row, differ}
use langopen.Contracts

abbrev r3 : Run
r3 = new_run "r3" "t1" "a1" interrupt true 7

one_active_run_example :
    (active_count "t1"
        (create_run_in_postgres "r3" 7 "p1" "t1" "a1" interrupt true "" (healthy busy)).1.db.runs
      ≡ 1)
    × (oldest
          (is_active_on "t1")
          (create_run_in_postgres "r3" 7 "p1" "t1" "a1" interrupt true "" (healthy busy)).1.db.runs
        ≡ some (row_of r3 (some "t1") ""))
unfolding create_run_in_postgres transaction statement ◌>>=◌ oldest assistant_in_project
    thread_in_project insert_run update_rows
one_active_run_example =
    one_active_run "r3" 7 "p1" "t1" "a1" interrupt true "" (healthy busy) r3 tt
      (differ "r1" "" refl, (differ "r2" "" refl, tt)) (omega arith) refl

created_in_scope_example :
    (assistant_in_project "a1" "p1" busy ≡ true)
    × ((thread_in_project "t1" "p1" busy ≡ true) ⊎ (thread_exists "t1" busy ≡ false))
unfolding create_run_in_postgres transaction statement ◌>>=◌ oldest assistant_in_project
    thread_in_project insert_run update_rows
created_in_scope_example =
    created_in_scope "r3" 7 "p1" "t1" "a1" interrupt true "" (healthy busy) r3 (differ "p1" "" refl)
      refl

reject_refuses_example :
    ((e : Error) × ((create_run_in_postgres "r3" 7 "p1" "t1" "a1" reject true "" (healthy busy)).0
        ≡ err e))
    × ((create_run_in_postgres "r3" 7 "p1" "t1" "a1" reject true "" (healthy busy)).1.db ≡ busy)
unfolding oldest
reject_refuses_example =
    reject_refuses "r3" 7 "p1" "t1" "a1" true "" (healthy busy) (run_row "r1" Contracts.running 5)
      refl (differ "r1" "" refl)

deleted-Gone_example :
    (any (λ row. run_in_scope "p1" "r2" row busy && on_thread "t1" row) busy.runs ≡ true)
    × Gone "r2" (delete_run_from_postgres "p1" "r2" "t1" (healthy busy)).1.db
    × ((delete_run_from_postgres "p1" "r2" "t1" (healthy busy)).1.db.runs
        ≡ without_run "r2" busy.runs)
unfolding delete_run_from_postgres transaction statement ◌>>=◌ run_in_scope assistant_in_project
    delete_run delete_checkpoints delete_deliveries is_referenced
deleted-Gone_example = deleted-Gone "p1" "r2" "t1" (healthy busy) refl

rollback_blocked_example :
    (cancel_run_in_postgres 7 "p1" "r2" "rollback" (healthy busy)).0 ≡ err foreign_key
    × ((cancel_run_in_postgres 7 "p1" "r2" "rollback" (healthy busy)).1.db ≡ busy)
unfolding run_in_scope assistant_in_project is_referenced
rollback_blocked_example = rollback_blocked 7 "p1" "r2" busy refl refl refl

abbrev asked : RunRequest
asked = record {
  assistant_id = "a1";
  multitask_strategy = " interrupt";
  stream_resumable = none;
  webhook_url = "";
  input = text "hello";
  command = null;
  configurable = null;
  metadata = none;
  stream_mode = null;
  checkpoint_id = "";
  on_disconnect = "";
  interrupt_before = none;
  interrupt_after = some nil;
}

create_run-IsAccepted_example :
    IsAccepted "r3" "t1" asked busy no_keys 7 r3
      (create_run "r3" "p1" "t1" asked (over_postgres (up_world busy no_keys 7 0))).1
unfolding create_run create_run_in_postgres transaction statement ◌>>=◌ oldest assistant_in_project
    thread_in_project insert_run update_rows run_sql Contracts.is_valid_multitask_strategy
    Contracts.multitask_strategy trim_space
create_run-IsAccepted_example =
    create_run-IsAccepted "r3" "p1" "t1" asked busy no_keys 7 0 r3 refl refl
