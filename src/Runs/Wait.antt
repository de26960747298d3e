-- ===== src/Runs/Wait.antt =====
-- `waitTimeout`, `getRunFromPostgres` and `waitForRunTerminal` of
-- services/api-server/internal/server/server.go, over Postgres. Times are nanoseconds. Between two
-- looks the other services act: what a look finds is a function of its number, as is the clock.
use langopen.Prelude.{
  ℕ, zero, suc, ◌+◌, ◌*◌, String, Bool, Option, none, some, ◌==◌, find, ltb, leb, if◌then◌else◌,
}
use langopen.Prelude.Int.{ℤ, pos, negsuc}
use langopen.Prelude.Text.{trim_space}
use langopen.Contracts.{is_terminal_run_status}
use langopen.Db.{RunRow}
use langopen.Db.Sql.{Error, Result, ok, err, Sql, Conn, query_row}
use langopen.Db.Tables.{run_in_scope}

abbrev pub second : ℕ
second = 1000000000

abbrev pub poll_pause : ℕ
poll_pause = 200000000

abbrev pub clamped : Option ℤ → ℕ
clamped none = 30
clamped (some (negsuc n)) = 30
clamped (some (pos n)) = if leb n 0 then 30 else if ltb 300 n then 300 else n

-- `waitTimeout`; `atoi` is `strconv.Atoi`.
unfoldable pub wait_timeout : (String → Option ℤ) → String → ℕ
wait_timeout atoi raw =
    let value = trim_space raw in if value == "" then 30 * second else clamped (atoi value) * second

unfoldable pub get_run_from_postgres : String → String → Sql RunRow
get_run_from_postgres project_id run_id =
    query_row (λ d. find (λ row. run_in_scope project_id run_id row d) d.runs)

-- How a wait ends.
pub data Waited : Type 0 where
  terminal : RunRow → Waited
  lookup_failed : Error → Waited
  timed_out : Waited
  cancelled : Waited

-- What the loop meets: the connection and the time at each look, and whether the request has been
-- given up in the pause that follows it.
pub record Looks : Type 0 where
  pub conn : ℕ → Conn
  pub clock : ℕ → ℕ
  pub given_up : ℕ → Bool

module _ (project_id run_id : String) (looks : Looks) (deadline : ℕ) where
  -- One look: the end of the wait, if it ends there.
  abbrev pub look_at : ℕ → Result RunRow → Option Waited
  look_at i (err e) = some (lookup_failed e)
  look_at i (ok run) =
      if is_terminal_run_status run.status
      then some (terminal run)
      else if ltb deadline (looks.clock i)
      then some timed_out
      else if looks.given_up i
      then some cancelled
      else none

  abbrev pub or_later : Option Waited → Option Waited → Option Waited
  or_later (some r) later = some r
  or_later none later = later

  -- `none` is a loop that has not ended yet.
  unfoldable pub wait_loop : ℕ → ℕ → Option Waited
  wait_loop zero i = none
  wait_loop (suc fuel) i =
      or_later (look_at i (get_run_from_postgres project_id run_id (looks.conn i)).0)
        (wait_loop fuel (suc i))

-- `started` is the clock when the deadline is set.
unfoldable pub wait_for_run_terminal : ℕ → String → String → Looks → ℕ → ℕ → Option Waited
unfolding wait_loop
wait_for_run_terminal fuel project_id run_id looks started timeout =
    wait_loop project_id run_id looks (started + timeout) fuel 0
