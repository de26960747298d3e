-- ===== src/Runs/Handlers.antt =====
-- The handlers of services/api-server/internal/server/server.go that create runs,
-- of requests that were decoded: over Postgres and Redis, or over the map that stands in for both.
-- The audit log is left out.
use langopen.Prelude.{
  ℕ, ◌+◌, String, Bool, true, not, Option, none, some, List, [], ◌∷◌, ◌==◌, if◌then◌else◌,
}
use langopen.Prelude.Text.{trim_space}
use langopen.Json.{Json, null, Items, Fields, object, array, text, field, end}
use langopen.Contracts.{MultitaskStrategy, multitask_strategy, is_valid_multitask_strategy}
use langopen.Db.{RunRow}
use langopen.Db.Sql.{Error, Result, ok, err, Sql, exec, run_conflict, project_scope}
use langopen.Db.Tables.{update_run}
use langopen.Redis.{World, command, run_sql}
use langopen.Runs.{Run, new_run, create_run_in_postgres, create_stateless_run_in_postgres}

-- `createRunRequest`; a slice that is absent is nil, `none`.
pub record RunRequest : Type 0 where
  pub assistant_id : String
  pub multitask_strategy : String
  pub stream_resumable : Option Bool
  pub webhook_url : String
  pub input : Json
  pub command : Json
  pub configurable : Json
  pub metadata : Option Json
  pub stream_mode : Json
  pub checkpoint_id : String
  pub on_disconnect : String
  pub interrupt_before : Option Items
  pub interrupt_after : Option Items

abbrev pub own_metadata : Option Json → Fields
own_metadata none = end
own_metadata (some m) = field "metadata" m end

-- A slice, which encoding/json writes as null where it is nil.
abbrev pub slice : Option Items → Json
slice none = null
slice (some items) = array items

unfoldable pub run_request_metadata : RunRequest → Fields
run_request_metadata req = field "configurable" req.configurable (
    field "stream_mode" req.stream_mode (
      field "on_disconnect" (text (trim_space req.on_disconnect)) (
        field "interrupt_before" (slice req.interrupt_before) (
          field "interrupt_after" (slice req.interrupt_after)
            (field "command" req.command (own_metadata req.metadata))))))

abbrev pub if_given : String → Option String
if_given s = if s == "" then none else some s

abbrev pub set_request : RunRequest → ℕ → RunRow → RunRow
set_request req now row = record row {
  input_json = req.input;
  metadata_json = object (run_request_metadata req);
  checkpoint_id = if_given (trim_space req.checkpoint_id);
  updated_at = now;
}

unfoldable pub persist_run_request_in_postgres : String → RunRequest → ℕ → Sql (Unit {0})
unfolding run_request_metadata
persist_run_request_in_postgres run_id req now = exec (update_run run_id (set_request req now))

-- A run of the map, with what `applyRunRequestToRun` sets.
pub record MemoryRun : Type 0 where
  pub run : Run
  pub input : Json
  pub metadata : Fields
  pub checkpoint_id : String
  pub completed_at : Option ℕ

unfoldable pub apply_run_request_to_run : Run → RunRequest → MemoryRun
unfolding run_request_metadata
apply_run_request_to_run run req = record {
  run = run;
  input = req.input;
  metadata = run_request_metadata req;
  checkpoint_id = trim_space req.checkpoint_id;
  completed_at = none;
}

abbrev pub has_run_id : String → MemoryRun → Bool
has_run_id id r = r.run.id == id

-- A write of the map.
unfoldable pub set_memory : MemoryRun → List MemoryRun → List MemoryRun
set_memory new [] = new ∷ []
set_memory new (r ∷ rs) =
    let later = set_memory new rs in if r.run.id == new.run.id then new ∷ rs else r ∷ later

-- `s.pg` and `s.redis`, or the map.
pub data Server : Type 0 where
  over_postgres : World → Server
  in_memory : ℕ → List MemoryRun → Server

-- The status code and, where the answer is a run, the run.
pub data Answer : Type 0 where
  answered : ℕ → Run → Answer
  shown_row : ℕ → RunRow → Answer
  shown_memory : ℕ → MemoryRun → Answer
  refused : ℕ → String → Answer

abbrev pub chosen_assistant : RunRequest → String
chosen_assistant req = if req.assistant_id == "" then "asst_default" else req.assistant_id

abbrev pub chosen_strategy : RunRequest → MultitaskStrategy
chosen_strategy req =
    let name = trim_space req.multitask_strategy in
    multitask_strategy (if name == "" then "enqueue" else name)

abbrev pub chosen_resumable : Option Bool → Bool
chosen_resumable none = true
chosen_resumable (some b) = b

-- `LPush` of "wake", whose error is dropped.
unfoldable pub wake : World → World
unfolding command
wake w = record w { redis = command (λ r. record r { wakeups = r.wakeups + 1 }) w.redis }

-- The request is saved after the worker has been woken; an error is dropped.
unfoldable pub wake_and_save : String → RunRequest → World → World
unfolding wake persist_run_request_in_postgres run_sql
wake_and_save run_id req w =
    let woken = wake w in (run_sql (persist_run_request_in_postgres run_id req woken.clock) woken).1

abbrev pub conflict_answer : Error → Answer
conflict_answer run_conflict = refused 409 "run_conflict"
conflict_answer project_scope = refused 403 "project_scope_violation"
conflict_answer _ = refused 500 "create_run_failed"

abbrev pub scope_answer : Error → Answer
scope_answer project_scope = refused 403 "project_scope_violation"
scope_answer _ = refused 500 "create_run_failed"

abbrev pub record_answer : Error → Answer
record_answer run_conflict = refused 409 "create_run_failed"
record_answer project_scope = refused 403 "create_run_failed"
record_answer _ = refused 500 "create_run_failed"

-- What follows the creation of the rows.
abbrev pub after_rows : (Error → Answer) → RunRequest → Result Run → World → Answer × World
after_rows refuse req (err e) w = (refuse e, w)
after_rows refuse req (ok run) w = (answered 201 run, wake_and_save run.id req w)

-- `createRunInMemory`, and the second write of the run with its request.
unfoldable pub create_run_in_memory :
    String → String → RunRequest → ℕ → List MemoryRun → Answer × List MemoryRun
unfolding apply_run_request_to_run set_memory
create_run_in_memory run_id thread_id req now runs =
    let run =
      new_run run_id thread_id (chosen_assistant req) (chosen_strategy req)
        (chosen_resumable req.stream_resumable) now in
    (answered 201 run, set_memory (apply_run_request_to_run run req) runs)

abbrev pub over : Answer × World → Answer × Server
over (a, w) = (a, over_postgres w)

abbrev pub held_at : ℕ → Answer × List MemoryRun → Answer × Server
held_at now (a, runs) = (a, in_memory now runs)

-- On a thread, or without one.
abbrev pub create_on_thread :
    (Error → Answer) → String → String → String → RunRequest → Server → Answer × Server
create_on_thread refuse run_id project_id thread_id req (in_memory now runs) =
    held_at now (create_run_in_memory run_id thread_id req now runs)
create_on_thread refuse run_id project_id thread_id req (over_postgres w) =
    let (r, w') =
      run_sql
        (create_run_in_postgres run_id w.clock project_id thread_id (chosen_assistant req)
          (chosen_strategy req) (chosen_resumable req.stream_resumable)
          (trim_space req.webhook_url))
        w in
    over (after_rows refuse req r w')

abbrev pub create_without_thread :
    (Error → Answer) → String → String → RunRequest → Server → Answer × Server
create_without_thread refuse run_id project_id req (in_memory now runs) =
    held_at now (create_run_in_memory run_id "" req now runs)
create_without_thread refuse run_id project_id req (over_postgres w) =
    let (r, w') =
      run_sql
        (create_stateless_run_in_postgres run_id w.clock project_id (chosen_assistant req)
          (chosen_strategy req) (chosen_resumable req.stream_resumable)
          (trim_space req.webhook_url))
        w in
    over (after_rows refuse req r w')

abbrev pub invalid_strategy : Answer
invalid_strategy = refused 400 "invalid_multitask_strategy"

-- The handler `createRun`; `run_id` is the new id.
unfoldable pub create_run : String → String → String → RunRequest → Server → Answer × Server
unfolding wake_and_save create_run_in_memory run_sql
create_run run_id project_id thread_id req s =
    if not (is_valid_multitask_strategy (chosen_strategy req))
    then (invalid_strategy, s)
    else create_on_thread conflict_answer run_id project_id thread_id req s

-- The handler `createStatelessRun`.
unfoldable pub create_stateless_run : String → String → RunRequest → Server → Answer × Server
unfolding wake_and_save create_run_in_memory run_sql
create_stateless_run run_id project_id req s =
    if not (is_valid_multitask_strategy (chosen_strategy req))
    then (invalid_strategy, s)
    else create_without_thread scope_answer run_id project_id req s

-- `createRunRecord`, which the handlers that wait share.
unfoldable pub create_run_record : String → String → String → RunRequest → Server → Answer × Server
unfolding wake_and_save create_run_in_memory run_sql
create_run_record run_id project_id thread_id req s =
    if not (is_valid_multitask_strategy (chosen_strategy req))
    then (refused 400 "create_run_failed", s)
    else if thread_id == ""
    then create_without_thread record_answer run_id project_id req s
    else create_on_thread record_answer run_id project_id thread_id req s
