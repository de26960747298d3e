-- ===== src/Worker/Execute/Ends.antt =====
-- How an execution ends: the run has a status and its stream is told so, or the run is gone and its
-- stream is told so, or its rollback was refused.
use langopen.Prelude.{String, true, false, Option, none, some, ◌==◌, ◌≡◌, ◌⊎◌}
use langopen.Json.{Json}
use langopen.Contracts.{RunStatus, error, interrupted}
use langopen.Redis.{World}
use langopen.Worker.Execute.{
  PendingRun, Allocation, refused, Settings, action_of, Executor, settled_result,
}
use langopen.Worker.Execute.Steps.{held}
use langopen.Worker.Execute.Exits.{Settled, RolledBack}

-- The run needs a sandbox, and does not get one.
abbrev pub NoSandbox : Settings → (String → Allocation) → String → Type 0
NoSandbox settings allocate id =
    (settings.mode_b ≡ true)
    × (((settings.sandbox_enabled ≡ true) × (e : String) × (allocate id ≡ refused e))
        ⊎ ((settings.sandbox_enabled ≡ false) × (settings.sandbox_strict ≡ true)))

module _ (run : PendingRun) (execute : Option Executor) (Barred : Type 0)
    (first : Option String) where
  -- The executor answers this status; an error of it reads as the status error, and an empty
  -- status as success.
  pub record Reported (status : RunStatus) : Type 0 where
    pub called : Executor
    pub configured : execute ≡ some called
    pub world : World
    pub answered : status ≡ (settled_result (called run world).0.0 (called run world).0.1).status

  -- The cancel key asks for an action: at the start, where it is `first`, or when the executor has
  -- answered.
  abbrev pub Asked : String → Type 0
  Asked action =
      (action_of false first ≡ action)
      ⊎ ((called : Executor) × (execute ≡ some called)
          × (w : World) × (action_of false ((called run w).1.redis.cancel run.id) ≡ action))

  -- There is no executor, or the environment was not decrypted, or the run was barred.
  abbrev pub Unable : Type 0
  Unable = (execute ≡ none) ⊎ (((run.env_decrypt_err == "") ≡ false) ⊎ Barred)

  -- Why the run has its status.
  pub data Reason : RunStatus → Type 0 where
    failed : Unable → Reason error
    stopped : Asked "interrupt" → Reason interrupted
    reported : {status : RunStatus} → Reported status → Reason status

  -- What an execution comes to.
  pub data Ending (w : World) : Type 0 where
    settled : (status : RunStatus) → Reason status → Settled run.id status w → Ending w
    taken_back : Asked "rollback" → RolledBack run.id w → Ending w
    rollback_refused : Asked "rollback" → held run.id w ≡ true → Ending w
