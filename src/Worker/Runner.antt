-- ===== src/Worker/Runner.antt =====
-- The executors of services/worker/internal/engine/engine.go: `simulatedExecutor`, and the request and
-- the response of `runtimeRunnerExecutor`. The HTTP client, the decoding of JSON and Go's formatting
-- are parameters.
pub mod Results
use langopen.Prelude.{
  ℕ, String, Bool, true, false, Option, none, some, List, [], ◌∷◌, ◌==◌, leb, if◌then◌else◌,
}
use langopen.Prelude.Text.{trim_space}
use langopen.Json.{Json, null, text, object, Fields, end, field, insert}
use langopen.Contracts.{RunStatus, success, other_status, run_status}
use langopen.Worker.Execute.{PendingRun, ExecutorEvent, ExecuteResult, or_success}

-- `simulatedExecutor.Execute`.
unfoldable pub simulated : PendingRun → ExecuteResult
simulated run = record {
  status = success;
  output = object (field "message" (text "simulated execution") end);
  error_payload = null;
  events = record { name = "token"; payload = object (field "token" (text "hello") end) } ∷ [];
}

abbrev pub copy_onto : Fields → Fields → Fields
copy_onto end onto = onto
copy_onto (field k v m) onto = copy_onto m (if trim_space k == "" then onto else insert k v onto)

-- `runtimeMeta`: the run's own entries win.
unfoldable pub runtime_meta : PendingRun → Fields
unfolding insert
runtime_meta run = copy_onto run.runtime_metadata (
    field "repo_url" (text run.repo_url) (
      field "git_ref" (text run.git_ref)
        (field "repo_path" (text run.repo_path) (field "graph_id" (text run.graph_id) end))))

abbrev pub env_fields : List (String × String) → Fields
env_fields [] = end
env_fields ((k, v) ∷ env) = field k (text v) (env_fields env)

-- `payload`.
unfoldable pub request_body : PendingRun → Json
unfolding runtime_meta
request_body run = object (
    field "run_id" (text run.id) (
      field "thread_id" (text run.thread_id) (
        field "assistant_id" (text run.assistant_id) (
          field "input" run.input (
            field "command" run.command (
              field "configurable" run.configurable (
                field "metadata" (object run.metadata) (
                  field "checkpoint_id" (text run.checkpoint_id) (
                    field "runtime_metadata" (object (runtime_meta run))
                      (field "runtime_env" (object (env_fields run.runtime_env)) end))))))))))

-- `parsed`; what the response leaves out is empty.
pub record Parsed : Type 0 where
  pub status : String
  pub output : Json
  pub error_payload : Json
  pub events : List ExecutorEvent

abbrev pub nothing_parsed : Parsed
nothing_parsed = record { status = ""; output = null; error_payload = null; events = [] }

-- No response, or a status code and the body.
pub data Response : Type 0 where
  no_response : String → Response
  responded : ℕ → String → Response

abbrev pub no_result : ExecuteResult
no_result = record { status = other_status ""; output = null; error_payload = null; events = [] }

-- The events with a name, which is trimmed.
unfoldable pub named_events : List ExecutorEvent → List ExecutorEvent
named_events [] = []
named_events (item ∷ items) =
    let rest = named_events items in
    let name = trim_space item.name in
    if name == "" then rest else record { name = name; payload = item.payload } ∷ rest

unfoldable pub result_of : Parsed → ExecuteResult
unfolding named_events
result_of parsed = record {
  status = or_success (run_status (trim_space parsed.status));
  output = parsed.output;
  error_payload = parsed.error_payload;
  events = named_events parsed.events;
}

abbrev pub decoded : Option Parsed → ExecuteResult × Option String
decoded none = (no_result, some "decode runtime-runner response")
decoded (some parsed) = (result_of parsed, none)

abbrev pub read_body : (String → Option Parsed) → String → Option Parsed
read_body decode raw = if raw == "" then some nothing_parsed else decode raw

-- `runtimeRunnerExecutor.Execute` once the client has answered; `refusal` is the text of the error
-- for a status code.
pub response_result :
    (String → Option Parsed) → (ℕ → String → String) → Response → ExecuteResult × Option String
unfolding result_of
response_result decode refusal (no_response e) = (no_result, some e)
response_result decode refusal (responded code raw) =
    if leb 400 code
    then (no_result, some (refusal code (trim_space raw)))
    else decoded (read_body decode raw)

-- `runtimeRunnerExecutor.Execute`.
unfoldable pub run_remotely :
    (Json → Response)
    → (String → Option Parsed)
    → (ℕ → String → String)
    → PendingRun
    → ExecuteResult × Option String
unfolding response_result request_body
run_remotely post decode refusal run = response_result decode refusal (post (request_body run))
