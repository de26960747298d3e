-- ===== src/Worker/Runner/Results.antt =====
-- What the runtime runner's answers become.
use langopen.Prelude.{
  ℕ, String, false, Option, none, some, List, [], ◌∷◌, ◌==◌, leb, ◌≡◌, refl, ◌⊎◌, inl, inr,
  Bool-cases, Option-cases, All,
}
use langopen.Prelude.Text.{trim_space}
use langopen.Json.{Json}
use langopen.Contracts.{error}
use langopen.Worker.Execute.{PendingRun, ExecutorEvent, ExecuteResult, settled_result}
use langopen.Worker.Runner.{
  Parsed, Response, no_response, responded, named_events, result_of, decoded, read_body,
  response_result, run_remotely, request_body,
}

abbrev pub Named : ExecutorEvent → Type 0
Named ev = (ev.name == "") ≡ false

named_events-Named : (items : List ExecutorEvent) → All Named (named_events items)
unfolding named_events
named_events-Named [] = tt
named_events-Named (item ∷ items) = elim (Bool-cases (trim_space item.name == "")) [
  | inl e ↦ rw e (named_events-Named items)
  | inr e ↦ rw e (e, named_events-Named items)
]

decoded-Named : (parsed : Option Parsed) → All Named (decoded parsed).0.events
unfolding result_of
decoded-Named none = tt
decoded-Named (some parsed) = named_events-Named parsed.events

response-Named :
    (decode : String → Option Parsed) (refusal : ℕ → String → String) (response : Response)
    → All Named (response_result decode refusal response).0.events
unfolding response_result
response-Named decode refusal (no_response e) = tt
response-Named decode refusal (responded code raw) = elim (Bool-cases (leb 400 code)) [
  | inl e ↦ rw e tt
  | inr e ↦ rw e (decoded-Named (read_body decode raw))
]

status_error :
    (result : ExecuteResult) (e : String) → (settled_result result (some e)).status ≡ error
unfolding settled_result
status_error result e = refl

-- Whatever the runtime runner answers, the events of a result have names, and a result with an error
-- settles as one: the run is reported as failed.
pub remote_results :
    (post : Json → Response) (decode : String → Option Parsed) (refusal : ℕ → String → String)
    (run : PendingRun)
    → All Named (run_remotely post decode refusal run).0.events
      × (((run_remotely post decode refusal run).1 ≡ none)
          ⊎ ((settled_result
                (run_remotely post decode refusal run).0
                (run_remotely post decode refusal run).1).status
              ≡ error))
unfolding run_remotely
remote_results post decode refusal run =
    let answer = run_remotely post decode refusal run in
    (
      response-Named decode refusal (post (request_body run)),
      elim (Option-cases answer.1) [
        | inl e ↦ inl e
        | inr (e, h) ↦ inr (rw h (status_error answer.0 e))
      ],
    )
