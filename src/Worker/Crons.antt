-- ===== src/Worker/Crons.antt =====
-- The cron dispatcher: `dispatchDueCrons`, `dispatchCronJob` and `createRunForCron` of
-- services/worker/internal/engine/engine.go. `cron.ParseStandard` is a parameter: a schedule that
-- parses gives the next time after a given one.
pub mod Laws
use langopen.Prelude.{
  ℕ, zero, suc, ◌+◌, ◌-◌, ◌*◌, String, Bool, true, false, ◌||◌, ◌&&◌, not, Option, none, some, List,
  [], ◌∷◌, ◌==◌, if◌then◌else◌, any, keep, ltb, leb, nat_eq,
}
use langopen.Json.{Json, object, end}
use langopen.Contracts.{pending, enqueue}
use langopen.Db.{RunRow, AssistantRow, CronRow, CronExecutionRow, Db}
use langopen.Db.Sql.{
  trip, unavailable, Error, Result, ok, err, message, unavailable, unique_violation, foreign_key,
  Conn, trip, Sql, pure, raise, continue, ◌>>=◌, ◌>>◌, statement, query, exec, transaction,
}
use langopen.Db.Tables.{insert_run, has_id}
use langopen.Redis.{Redis, World, redis_trip, effect, run_sql}

abbrev pub cron_run : ℕ → String → String → RunRow
cron_run now run_id assistant_id = record {
  id = run_id;
  thread_id = none;
  assistant_id = assistant_id;
  status = pending;
  strategy = enqueue;
  stream_resumable = false;
  webhook_url = none;
  input_json = object end;
  output_json = none;
  error_json = none;
  metadata_json = object end;
  checkpoint_id = none;
  started_at = none;
  completed_at = none;
  created_at = now;
  updated_at = now;
}

abbrev pub execution_at : String → ℕ → CronExecutionRow → Bool
execution_at cron_id scheduled_for row =
    row.cron_job_id == cron_id && nat_eq row.scheduled_for scheduled_for

abbrev pub new_execution : String → String → String → ℕ → CronExecutionRow
new_execution id cron_id run_id scheduled_for = record {
  id = id;
  cron_job_id = cron_id;
  run_id = some run_id;
  scheduled_for = scheduled_for;
  status = "queued";
}

-- `INSERT INTO cron_executions`.
unfoldable pub insert_execution : CronExecutionRow → String → Db → Result Db
insert_execution row run_id d =
    if any (λ (r : CronExecutionRow). r.id == row.id) d.cron_executions
    then err unique_violation
    else if not
        (any (λ (c : CronRow). c.id == row.cron_job_id) d.crons && any (has_id run_id) d.runs)
    then err foreign_key
    else ok (record d { cron_executions = row ∷ d.cron_executions })

abbrev pub insert_both : ℕ → String → String → String → String → ℕ → Sql Bool
insert_both now run_id execution_id cron_id assistant_id scheduled_for = do
  exec (insert_run (cron_run now run_id assistant_id))
  exec (insert_execution (new_execution execution_id cron_id run_id scheduled_for) run_id)
  pure true

-- What `createRunForCron` does after `BeginTx`: whether it gets to `Commit`.
pub cron_body : ℕ → String → String → String → String → ℕ → Sql Bool
cron_body now run_id execution_id cron_id assistant_id scheduled_for = do
  exists ← query (λ d. any (execution_at cron_id scheduled_for) d.cron_executions)
  if exists
      then pure false
      else insert_both now run_id execution_id cron_id assistant_id scheduled_for

-- `Commit` of a body that answered true; otherwise only the deferred `Rollback`.
abbrev pub finish_made : Db → Result Bool → Conn → Result Bool × Conn
finish_made before (err e) c = (err e, record { db = before; faults = c.faults })
finish_made before (ok false) c = (ok false, record { db = before; faults = c.faults })
finish_made before (ok true) c =
    let (fails, fs) = trip c.faults in
    if fails
    then (err unavailable, record { db = before; faults = fs })
    else (ok true, record { db = c.db; faults = fs })

unfoldable pub create_cron_rows : ℕ → String → String → String → String → ℕ → Sql Bool
unfolding cron_body
create_cron_rows now run_id execution_id cron_id assistant_id scheduled_for c =
    let (fails, fs) = trip c.faults in
    if fails
    then (err unavailable, record { db = c.db; faults = fs })
    else let (r, c') =
        cron_body now run_id execution_id cron_id assistant_id scheduled_for
          (record { db = c.db; faults = fs }) in
      finish_made c.db r c'

-- `LPush` of a wake-up on the queue; its error is the caller's.
abbrev pub sent : Bool → Redis → Result (Unit {0}) × Redis
sent true r = (err unavailable, r)
sent false r = (ok tt, record r { wakeups = r.wakeups + 1 })

-- `rows.Next`: whether reading the next row fails.
abbrev pub next_row : World → Bool × World
next_row w =
    let (fails, fs) = trip w.conn.faults in
    (fails, record w { conn = record { db = w.conn.db; faults = fs } })

unfoldable pub wake : World → Result (Unit {0}) × World
unfolding redis_trip
wake w =
    let (fails, r) = redis_trip w.redis in
    let (answer, r') = sent fails r in (answer, record w { redis = r' })

abbrev pub then_wake : Result Bool → World → Result (Unit {0}) × World
then_wake (err e) w = (err e, w)
then_wake (ok false) w = (ok tt, w)
then_wake (ok true) w = wake w

-- `if err := …; err != nil { return err }`.
abbrev pub if_ok :
    Result (Unit {0}) × World → (World → Result (Unit {0}) × World) → Result (Unit {0}) × World
if_ok (err e, w) k = (err e, w)
if_ok (ok _, w) k = k w

abbrev pub baseline_of : ℕ → Option ℕ → ℕ
baseline_of now none = now - 3600 * 1000000000
baseline_of now (some t) = t

abbrev pub later : ℕ → Option ℕ → Option ℕ
later t none = some t
later t (some u) = if leb t u then some u else some t

-- `SELECT MAX(scheduled_for) FROM cron_executions WHERE cron_job_id=$1`.
unfoldable pub last_scheduled : String → List CronExecutionRow → Option ℕ
last_scheduled cron_id [] = none
last_scheduled cron_id (row ∷ rows) =
    let last = last_scheduled cron_id rows in
    if row.cron_job_id == cron_id then later row.scheduled_for last else last

-- `new_id` is `contracts.NewID`, whose second argument counts the ids made before
-- (two for each call, also where no row is inserted).
module _ (new_id : String → ℕ → String) where
  unfoldable pub create_run_for_cron : String → String → ℕ → World → Result (Unit {0}) × World
  unfolding create_cron_rows run_sql
  create_run_for_cron cron_id assistant_id scheduled_for w =
      let (r, w') =
        run_sql
          (create_cron_rows w.clock (new_id "run" w.drawn) (new_id "cronexec" (w.drawn + 1)) cron_id
            assistant_id scheduled_for)
          (record w { drawn = w.drawn + 2 }) in
      then_wake r w'

  -- The loop `for range 12`, with the rounds left.
  unfoldable pub dispatch_ticks :
      (ℕ → ℕ) → String → String → ℕ → ℕ → ℕ → World → Result (Unit {0}) × World
  dispatch_ticks next cron_id assistant_id now zero baseline w = (ok tt, w)
  dispatch_ticks next cron_id assistant_id now (suc rounds) baseline w =
      if ltb now (next baseline)
      then (ok tt, w)
      else if_ok (create_run_for_cron cron_id assistant_id (next baseline) w)
          (dispatch_ticks next cron_id assistant_id now rounds (next baseline))

  pub from_baseline :
      (ℕ → ℕ) → String → String → ℕ → Result (Option ℕ) → World → Result (Unit {0}) × World
  from_baseline next cron_id assistant_id now (err e) w = (err e, w)
  from_baseline next cron_id assistant_id now (ok last) w =
      dispatch_ticks next cron_id assistant_id now 12 (baseline_of now last) w

  pub dispatch_parsed : Option (ℕ → ℕ) → String → String → ℕ → World → Result (Unit {0}) × World
  unfolding run_sql
  dispatch_parsed none cron_id assistant_id now w = (err (message "invalid schedule"), w)
  dispatch_parsed (some next) cron_id assistant_id now w =
      let (r, w') = run_sql (query (λ d. last_scheduled cron_id d.cron_executions)) w in
      from_baseline next cron_id assistant_id now r w'

  -- `dispatchCronJob`, for a schedule that `parse` reads or refuses.
  unfoldable pub dispatch_cron_job :
      (String → Option (ℕ → ℕ)) → CronRow → ℕ → World → Result (Unit {0}) × World
  unfolding dispatch_parsed from_baseline
  dispatch_cron_job parse job now w =
      dispatch_parsed (parse job.schedule) job.id job.assistant_id now w

  -- The rows are read as they are dispatched, where reading one can fail, which is what `rows.Err`
  -- then tells; an error of the dispatch of one is logged.
  unfoldable pub dispatch_jobs :
      (String → Option (ℕ → ℕ)) → ℕ → List CronRow → World → Result (Unit {0}) × World
  dispatch_jobs parse now [] w =
      let (fails, w') = next_row w in (if fails then err unavailable else ok tt, w')
  dispatch_jobs parse now (job ∷ jobs) w =
      let (fails, w') = next_row w in
      let rest = dispatch_jobs parse now jobs (dispatch_cron_job parse job now w').1 in
      if fails then (err unavailable, w') else rest

  pub dispatch_found :
      (String → Option (ℕ → ℕ)) → ℕ → Result (List CronRow) → World → Result (Unit {0}) × World
  unfolding dispatch_jobs
  dispatch_found parse now (err e) w = (err e, w)
  dispatch_found parse now (ok jobs) w = dispatch_jobs parse now jobs w

  -- `dispatchDueCrons`.
  unfoldable pub dispatch_due_crons :
      (String → Option (ℕ → ℕ)) → ℕ → World → Result (Unit {0}) × World
  unfolding dispatch_found run_sql
  dispatch_due_crons parse now w =
      let (r, w') = run_sql (query (λ d. keep (λ (job : CronRow). job.enabled) d.crons)) w in
      dispatch_found parse now r w'
