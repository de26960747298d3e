-- ===== src/Worker/Execute.antt =====
-- The execution of a run: `executeRun`, `emitStreamEvent`, `nextEventID` and `currentCancelAction`
-- of services/worker/internal/engine/engine.go. The executor and the sandbox allocator are
-- parameters: what they call is Kubernetes and the runtime runner. While the executor runs, the
-- world may change, which is part of what it answers. Logs and metrics are left out.
pub mod Steps
pub mod Exits
pub mod Ends
pub mod Ids
use langopen.Prelude.{
  ℕ, suc, ◌+◌, String, Bool, true, false, ◌||◌, ◌&&◌, not, Option, none, some, List, [], ◌∷◌, ◌==◌,
  if◌then◌else◌, length,
}
use langopen.Prelude.Int.{ℤ, pos}
use langopen.Prelude.Text.{trim_space}
use langopen.Json.{Json, null, bool, text, object, end, field, Fields}
use langopen.Contracts.{RunStatus, success, error, interrupted, other_status, run_status_text}
use langopen.Stream.{StreamEvent, mk_event}
use langopen.Db.Sql.{Result, ok, err, Sql}
use langopen.Redis.{
  Redis, World, Message, redis_trip, publish, push_event, expire, delete_buffer, delete_cancel,
  run_sql,
}
use langopen.Worker.{update_run_result, update_cron_execution_status, rollback_run}
use langopen.Worker.Webhooks.{enqueue_webhook_for_run}

pub record PendingRun : Type 0 where
  pub id : String
  pub thread_id : String
  pub assistant_id : String
  pub stream_resumable : Bool
  pub input : Json
  pub command : Json
  pub configurable : Json
  pub metadata : Fields
  pub checkpoint_id : String
  pub graph_id : String
  pub repo_path : String
  pub repo_url : String
  pub git_ref : String
  pub runtime_metadata : Fields
  pub runtime_env : List (String × String)
  pub deployment_id : String
  pub project_id : String
  pub env_decrypt_err : String

pub record ExecutorEvent : Type 0 where
  pub name : String
  pub payload : Json

pub record ExecuteResult : Type 0 where
  pub status : RunStatus
  pub output : Json
  pub error_payload : Json
  pub events : List ExecutorEvent

-- The error is dropped: `_ =`.
unfoldable pub act : Sql (Unit {0}) → World → World
unfolding run_sql
act m w = (run_sql m w).1

-- `nextEventID`: whether `LLen` fails, and the time in nanoseconds.
unfoldable pub next_event_id : Bool → ℕ → List StreamEvent → ℤ
next_event_id true now buffered = pos now
next_event_id false now buffered = pos (length buffered + 1)

unfoldable pub buffer_event : Bool → String → StreamEvent → Redis → Redis
unfolding push_event expire
buffer_event true id ev r = expire (push_event id ev r)
buffer_event false id ev r = r

unfoldable pub emit_stream_event : PendingRun → String → Json → World → World
unfolding next_event_id redis_trip publish buffer_event
emit_stream_event run name payload w =
    let (fails, r) = redis_trip w.redis in
    let ev = mk_event (next_event_id fails w.clock (r.buffer run.id)) name payload in
    record w {
      redis =
          buffer_event run.stream_resumable run.id ev
            (publish (record { run_id = run.id; event = ev }) r);
    }

abbrev pub action_of : Bool → Option String → String
action_of true found = ""
action_of false none = ""
action_of false (some action) = trim_space action

-- `currentCancelAction`.
unfoldable pub current_cancel_action : String → World → String × World
unfolding redis_trip
current_cancel_action run_id w =
    let (fails, r) = redis_trip w.redis in
    (action_of fails (r.cancel run_id), record w { redis = r })

abbrev pub status_payload : PendingRun → String → Json
status_payload run status = object (field "run_id" (text run.id) (field "status" (text status) end))

abbrev pub failure_payload : PendingRun → RunStatus → Json → Json
failure_payload run status e = object (
    field "run_id" (text run.id)
      (field "status" (text (run_status_text status)) (field "error" e end)))

abbrev pub error_message : String → Json
error_message s = object (field "message" (text s) end)

abbrev pub or_success : RunStatus → RunStatus
or_success (other_status s) = if s == "" then success else other_status s
or_success status = status

-- What the result becomes by `execErr` and by an empty status.
abbrev pub with_error : ExecuteResult → Option String → ExecuteResult
with_error result none = result
with_error result (some e) = record result { status = error; error_payload = error_message e }

unfoldable pub settled_result : ExecuteResult → Option String → ExecuteResult
settled_result result exec_err =
    let r = with_error result exec_err in record r { status = or_success r.status }

unfoldable pub emit_all : PendingRun → List ExecutorEvent → World → World
unfolding emit_stream_event
emit_all run [] w = w
emit_all run (ev ∷ evs) w =
    let name = trim_space ev.name in
    emit_all run evs (if name == "" then w else emit_stream_event run name ev.payload w)

-- The last `switch`: the event that tells the end.
unfoldable pub final_event : PendingRun → RunStatus → Json → World → World
unfolding emit_stream_event
final_event run interrupted e =
    emit_stream_event run "run_interrupted" (status_payload run "interrupted")
final_event run success e = emit_stream_event run "run_completed" (status_payload run "success")
final_event run status e = emit_stream_event run "run_failed" (failure_payload run status e)

pub record Settings : Type 0 where
  pub mode_b : Bool
  pub sandbox_enabled : Bool
  pub sandbox_strict : Bool

-- What `allocateSandboxClaim` answers: an error, or the name of the claim.
pub data Allocation : Type 0 where
  refused : String → Allocation
  allocated : String → Allocation

abbrev pub sandbox_payload : PendingRun → String → Fields → Json
sandbox_payload run sandbox_id rest = object (
    field "run_id" (text run.id)
      (field "sandbox_id" (text sandbox_id) (field "mode" (text "mode_b") rest)))

abbrev pub no_sandbox : Json
no_sandbox = error_message "mode_b requires sandbox integration but sandbox is disabled/unavailable"

abbrev pub no_sandbox_payload : PendingRun → Json
no_sandbox_payload run = object (
    field "run_id" (text run.id) (
      field "status" (text "error") (
        field "message"
          (text "mode_b requires sandbox integration but sandbox is disabled/unavailable") end)))

abbrev pub decrypt_payload : PendingRun → Json
decrypt_payload run = object (
    field "type" (text "deployment_env_decrypt_failed")
      (field "message" (text run.env_decrypt_err) (field "run_id" (text run.id) end)))

-- `runExecutor`: what `Execute` returns, and the world when it does.
abbrev pub Executor : Type 0
Executor = PendingRun → World → (ExecuteResult × Option String) × World

module _ (new_id : String → ℕ → String) where
  -- `enqueueWebhookForRun`, with the next id; its error is only logged.
  unfoldable pub enqueue_webhook : PendingRun → World → World
  unfolding act
  enqueue_webhook run w =
      act (enqueue_webhook_for_run w.clock (new_id "wh" w.drawn) run.id)
        (record w { drawn = w.drawn + 1 })

  -- The exits that ignore the error of the update.
  unfoldable pub fail_run : PendingRun → Json → String → Json → World → World
  unfolding act emit_stream_event enqueue_webhook
  fail_run run error_payload event payload w =
      let updated = act (update_run_result w.clock run.id error null error_payload) w in
      let counted = act (update_cron_execution_status run.id "error") updated in
      enqueue_webhook run (emit_stream_event run event payload counted)

  pub rolled_back : PendingRun → Result (Unit {0}) → World → World
  unfolding act emit_stream_event
  rolled_back run (err e) w = w
  rolled_back run (ok _) w =
      let counted = act (update_cron_execution_status run.id "rolled_back") w in
      let told =
        emit_stream_event run "run_rolled_back" (status_payload run "rolled_back") counted in
      record told { redis = delete_buffer run.id told.redis }

  -- `action == "rollback"`.
  unfoldable pub roll_back : PendingRun → World → World
  unfolding rolled_back run_sql
  roll_back run w = let (r, w') = run_sql (rollback_run run.id) w in rolled_back run r w'

  pub updated : PendingRun → RunStatus → Json → Result (Unit {0}) → World → World
  unfolding act final_event enqueue_webhook
  updated run status e (err _) w = w
  updated run status e (ok _) w =
      let counted = act (update_cron_execution_status run.id (run_status_text status)) w in
      enqueue_webhook run (final_event run status e counted)

  -- The exits that stop at an error of the update.
  unfoldable pub end_run : PendingRun → RunStatus → Json → Json → World → World
  unfolding updated run_sql
  end_run run status output e w =
      let (r, w') = run_sql (update_run_result w.clock run.id status output e) w in
      updated run status e r w'

  module _ (settings : Settings) (allocate : String → Allocation) (execute : Option Executor) where
    -- After the executor: `action` is what the cancel key says by then.
    pub conclude : PendingRun → ExecuteResult → String → World → World
    unfolding roll_back end_run emit_all
    conclude run result action w =
        if action == "rollback"
        then roll_back run w
        else let stopped = action == "interrupt" in
          let status = if stopped then interrupted else result.status in
          let e = if stopped then null else result.error_payload in
          end_run run status result.output e (emit_all run result.events w)

    pub executed : PendingRun → (ExecuteResult × Option String) × World → World
    unfolding conclude current_cancel_action
    executed run ((result, exec_err), w) =
        let (action, w') = current_cancel_action run.id w in
        conclude run (settled_result result exec_err) action w'

    pub run_executor : Option Executor → PendingRun → World → World
    unfolding executed fail_run
    run_executor none run w =
        let e = error_message "executor is not configured" in
        fail_run run e "run_failed" (failure_payload run error e) w
    run_executor (some execute_it) run w = executed run (execute_it run w)

    -- `action` is what the cancel key says before the executor is called.
    pub act_on : PendingRun → String → World → World
    unfolding roll_back end_run run_executor
    act_on run action w =
        if action == "rollback"
        then roll_back run w
        else if action == "interrupt"
        then end_run run interrupted null null w
        else run_executor execute run w

    -- From `run_started` on.
    pub start_run : PendingRun → World → World
    unfolding emit_stream_event fail_run current_cancel_action act_on
    start_run run w =
        let started = emit_stream_event run "run_started" (status_payload run "running") w in
        let (action, w') = current_cancel_action run.id started in
        let e = decrypt_payload run in
        if run.env_decrypt_err == ""
        then act_on run action w'
        else fail_run run e "run_failed" (failure_payload run error e) started

    pub allocated_run : PendingRun → Allocation → World → World
    unfolding start_run fail_run emit_stream_event
    allocated_run run (refused e) w =
        fail_run run null "run_sandbox_allocation_failed"
          (object (field "run_id" (text run.id) (field "error" (text e) end))) w
    allocated_run run (allocated sandbox_id) w =
        start_run run
          (emit_stream_event run "run_sandbox_allocated" (sandbox_payload run sandbox_id end) w)

    -- What `executeRun` does before its deferred calls.
    pub execute_body : PendingRun → World → World
    unfolding allocated_run start_run fail_run emit_stream_event
    execute_body run w =
        if not settings.mode_b
        then start_run run w
        else if settings.sandbox_enabled
        then allocated_run run (allocate run.id) w
        else if settings.sandbox_strict
        then fail_run run no_sandbox "run_failed" (no_sandbox_payload run) w
        else start_run run (
            emit_stream_event run "run_sandbox_allocated"
              (sandbox_payload run (new_id "sandbox" w.drawn) (field "simulated" (bool true) end))
              (record w { drawn = w.drawn + 1 }))

    -- `executeRun`: the cancel key goes at every exit.
    unfoldable pub execute_run : PendingRun → World → World
    execute_run run w =
        let done = execute_body run w in record done { redis = delete_cancel run.id done.redis }
