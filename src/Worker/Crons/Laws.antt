-- ===== src/Worker/Crons/Laws.antt =====
-- What the cron dispatcher leaves: which executions there are.
use langopen.Prelude.{
  ℕ, zero, suc, ◌+◌, ◌≤◌, String, Bool, false, Option, none, some, List, [], ◌∷◌, any, keep, ltb,
  count, count_none, length, ◌≡◌, ap, arith, Bool-cases, ◌⊎◌, inl, inr, eq_iff, All,
}
use langopen.Db.{CronRow, CronExecutionRow, Db}
use langopen.Db.Sql.{Result, ok, err, Result-cases, Conn, query, statement, ◌>>=◌}
use langopen.Db.Tables.{insert_run}
use langopen.Redis.{World, run_sql, redis_trip}
use langopen.Worker.Crons.{
  execution_at, insert_execution, cron_body, create_cron_rows, then_wake, wake, create_run_for_cron,
  dispatch_ticks, from_baseline, dispatch_parsed, dispatch_cron_job, dispatch_jobs, dispatch_found,
  next_row, dispatch_due_crons, new_execution, last_scheduled,
}

-- One transaction adds nothing, or a row for a time that had none.
body_adds :
    (now : ℕ) (run_id id cron_id assistant_id : String) (t : ℕ) (d : Db) (fs : List Bool)
    → let end =
        create_cron_rows now run_id id cron_id assistant_id t (record { db = d; faults = fs }) in
      (end.1.db.cron_executions ≡ d.cron_executions)
      ⊎ ((any (execution_at cron_id t) d.cron_executions ≡ false)
          × (end.1.db.cron_executions ≡ new_execution id cron_id run_id t ∷ d.cron_executions))
unfolding create_cron_rows cron_body statement ◌>>=◌ insert_execution insert_run
body_adds now run_id id cron_id assistant_id t d fs = ground arith

abbrev pub rows_of : World → List CronExecutionRow
rows_of w = w.conn.db.cron_executions

wake_keeps : (r : Result Bool) (w : World) → (then_wake r w).1.conn ≡ w.conn
unfolding wake redis_trip
wake_keeps r w = ground arith

create_rows :
    (new_id : String → ℕ → String) (cron_id assistant_id : String) (t : ℕ) (w : World)
    → rows_of (create_run_for_cron new_id cron_id assistant_id t w).1
      ≡ (create_cron_rows w.clock
          (new_id "run" w.drawn)
          (new_id "cronexec" (w.drawn + 1))
          cron_id
          assistant_id
          t
          w.conn).1.db.cron_executions
unfolding create_run_for_cron run_sql
create_rows new_id cron_id assistant_id t w =
    ap (λ (c : Conn). c.db.cron_executions)
      (wake_keeps
        (create_cron_rows w.clock (new_id "run" w.drawn) (new_id "cronexec" (w.drawn + 1)) cron_id
          assistant_id t w.conn).0
        _)

query_rows : {A : Type 0} (f : Db → A) (w : World) → rows_of (run_sql (query f) w).1 ≡ rows_of w
unfolding run_sql statement
query_rows f w = ground arith

-- What holds of the executions at all times holds after the dispatcher, if it holds after each row
-- that the dispatcher may add.
module _ (new_id : String → ℕ → String) (now : ℕ) (P : List CronExecutionRow → Type 0)
    (adds : (rows : List CronExecutionRow) (id cron_id run_id : String) (t : ℕ)
      → any (execution_at cron_id t) rows ≡ false
      → t ≤ now
      → P rows
      → P (new_execution id cron_id run_id t ∷ rows)) where
  read_rows :
      {A : Type 0} (f : Db → A) (w : World) → P (rows_of w) → P (rows_of (run_sql (query f) w).1)
  read_rows f w k = rw (query_rows f w) k

  create_keeps :
      (cron_id assistant_id : String) (t : ℕ) (w : World)
      → t ≤ now
      → P (rows_of w)
      → P (rows_of (create_run_for_cron new_id cron_id assistant_id t w).1)
  create_keeps cron_id assistant_id t w h k =
      elim (body_adds w.clock (new_id "run" w.drawn) (new_id "cronexec" (w.drawn + 1)) cron_id
        assistant_id t w.conn.db w.conn.faults) [
          | inl same ↦ rw (create_rows new_id cron_id assistant_id t w, same) k
          | inr (free, more) ↦
              rw (create_rows new_id cron_id assistant_id t w, more) (adds _ _ _ _ t free h k)
        ]

  ticks_keep :
      (next : ℕ → ℕ) (cron_id assistant_id : String) (rounds baseline : ℕ) (w : World)
      → P (rows_of w)
      → P (rows_of (dispatch_ticks new_id next cron_id assistant_id now rounds baseline w).1)
  unfolding dispatch_ticks
  ticks_keep next cron_id assistant_id zero baseline w k = k
  ticks_keep next cron_id assistant_id (suc rounds) baseline w k =
      elim (Bool-cases (ltb now (next baseline))) [
        | inl late ↦ rw late k
        | inr due ↦
            let made =
              create_keeps cron_id assistant_id (next baseline) w (ground (arith, due)) k in
            elim (Result-cases
              (create_run_for_cron new_id cron_id assistant_id (next baseline) w).0) [
                | inl (_, e) ↦
                    rw (due, e) (ticks_keep next cron_id assistant_id rounds (next baseline) _ made)
                | inr (_, e) ↦ rw (due, e) made
              ]
      ]

  found_keeps :
      (next : ℕ → ℕ) (cron_id assistant_id : String) (r : Result (Option ℕ)) (w : World)
      → P (rows_of w)
      → P (rows_of (from_baseline new_id next cron_id assistant_id now r w).1)
  unfolding from_baseline
  found_keeps next cron_id assistant_id (err e) w k = k
  found_keeps next cron_id assistant_id (ok last) w k =
      ticks_keep next cron_id assistant_id 12 _ w k

  parsed_keeps :
      (next : Option (ℕ → ℕ)) (cron_id assistant_id : String) (w : World)
      → P (rows_of w)
      → P (rows_of (dispatch_parsed new_id next cron_id assistant_id now w).1)
  unfolding dispatch_parsed
  parsed_keeps none cron_id assistant_id w k = k
  parsed_keeps (some next) cron_id assistant_id w k =
      found_keeps next cron_id assistant_id
        (run_sql (query (λ d. last_scheduled cron_id d.cron_executions)) w).0
        (run_sql (query (λ d. last_scheduled cron_id d.cron_executions)) w).1 (read_rows _ w k)

  jobs_keep :
      (parse : String → Option (ℕ → ℕ)) (jobs : List CronRow) (w : World)
      → P (rows_of w)
      → P (rows_of (dispatch_jobs new_id parse now jobs w).1)
  unfolding dispatch_jobs dispatch_cron_job
  jobs_keep parse [] w k = k
  jobs_keep parse (job ∷ jobs) w k = elim (Bool-cases (next_row w).0) [
    | inl fails ↦ rw fails k
    | inr read ↦ rw read (
        jobs_keep parse jobs (dispatch_cron_job new_id parse job now (next_row w).1).1
          (parsed_keeps (parse job.schedule) job.id job.assistant_id (next_row w).1 k))
  ]

  rounds_keep :
      (parse : String → Option (ℕ → ℕ)) (r : Result (List CronRow)) (w : World)
      → P (rows_of w)
      → P (rows_of (dispatch_found new_id parse now r w).1)
  unfolding dispatch_found
  rounds_keep parse (err e) w k = k
  rounds_keep parse (ok jobs) w k = jobs_keep parse jobs w k

  dispatch_keeps :
      (parse : String → Option (ℕ → ℕ)) (w : World)
      → P (rows_of w)
      → P (rows_of (dispatch_due_crons new_id parse now w).1)
  unfolding dispatch_due_crons
  dispatch_keeps parse w k =
      rounds_keep parse (run_sql (query (λ d. keep (λ (job : CronRow). job.enabled) d.crons)) w).0
        (run_sql (query (λ d. keep (λ (job : CronRow). job.enabled) d.crons)) w).1 (read_rows _ w k)

-- No cron has two executions for one time.
abbrev pub OnceEach : List CronExecutionRow → Type 0
OnceEach rows = (cron_id : String) (t : ℕ) → count (execution_at cron_id t) rows ≤ 1

once_added :
    (rows : List CronExecutionRow) (id cron_id run_id : String) (t : ℕ)
    → any (execution_at cron_id t) rows ≡ false
    → OnceEach rows
    → OnceEach (new_execution id cron_id run_id t ∷ rows)
once_added rows id cron_id run_id t free h c u =
    ground (arith, h c u, count_none (execution_at cron_id t) rows free, eq_iff cron_id c)

-- Whatever fails and whatever the schedules are, dispatching keeps this: no cron has two executions
-- for the same time.
pub dispatched_once :
    (new_id : String → ℕ → String) (parse : String → Option (ℕ → ℕ)) (now : ℕ) (w : World)
    → OnceEach w.conn.db.cron_executions
    → OnceEach (dispatch_due_crons new_id parse now w).1.conn.db.cron_executions
dispatched_once new_id parse now w h =
    dispatch_keeps new_id now OnceEach
      (λ rows id cron_id run_id t free due. once_added rows id cron_id run_id t free) parse w h

abbrev pub NotAfter : ℕ → CronExecutionRow → Type 0
NotAfter now row = row.scheduled_for ≤ now

-- Whatever fails and whatever the schedules are, dispatching makes no execution for a time that is
-- still to come.
pub dispatched_due :
    (new_id : String → ℕ → String) (parse : String → Option (ℕ → ℕ)) (now : ℕ) (w : World)
    → All (NotAfter now) w.conn.db.cron_executions
    → All (NotAfter now) (dispatch_due_crons new_id parse now w).1.conn.db.cron_executions
dispatched_due new_id parse now w h =
    dispatch_keeps new_id now (All (NotAfter now)) (λ rows id cron_id run_id t free due k. (due, k))
      parse w h

create_grows :
    (new_id : String → ℕ → String) (cron_id assistant_id : String) (t : ℕ) (w : World)
    → length (rows_of (create_run_for_cron new_id cron_id assistant_id t w).1)
      ≤ length (rows_of w) + 1
create_grows new_id cron_id assistant_id t w =
    elim (body_adds w.clock (new_id "run" w.drawn) (new_id "cronexec" (w.drawn + 1)) cron_id
      assistant_id t w.conn.db w.conn.faults) [
        | inl same ↦ rw (create_rows new_id cron_id assistant_id t w, same) (omega arith)
        | inr (free, more) ↦ rw (create_rows new_id cron_id assistant_id t w, more) (omega arith)
      ]

ticks_grow :
    (new_id : String → ℕ → String) (next : ℕ → ℕ) (cron_id assistant_id : String)
    (now rounds baseline : ℕ) (w : World)
    → length (rows_of (dispatch_ticks new_id next cron_id assistant_id now rounds baseline w).1)
      ≤ length (rows_of w) + rounds
unfolding dispatch_ticks
ticks_grow new_id next cron_id assistant_id now zero baseline w = omega arith
ticks_grow new_id next cron_id assistant_id now (suc rounds) baseline w =
    let made = create_run_for_cron new_id cron_id assistant_id (next baseline) w in
    let one = create_grows new_id cron_id assistant_id (next baseline) w in
    elim (Bool-cases (ltb now (next baseline))) [
      | inl late ↦ rw late (omega arith)
      | inr due ↦ elim (Result-cases made.0) [
        | inl (_, e) ↦
            rw (due, e)
              (omega (
                arith,
                one,
                ticks_grow new_id next cron_id assistant_id now rounds (next baseline) made.1,
              ))
        | inr (_, e) ↦ rw (due, e) (omega (arith, one))
      ]
    ]

found_grow :
    (new_id : String → ℕ → String) (next : ℕ → ℕ) (cron_id assistant_id : String) (now : ℕ)
    (r : Result (Option ℕ)) (w : World)
    → length (rows_of (from_baseline new_id next cron_id assistant_id now r w).1)
      ≤ length (rows_of w) + 12
unfolding from_baseline
found_grow new_id next cron_id assistant_id now (err e) w = omega arith
found_grow new_id next cron_id assistant_id now (ok last) w =
    ticks_grow new_id next cron_id assistant_id now 12 _ w

parsed_grow :
    (new_id : String → ℕ → String) (next : Option (ℕ → ℕ)) (cron_id assistant_id : String) (now : ℕ)
    (w : World)
    → length (rows_of (dispatch_parsed new_id next cron_id assistant_id now w).1)
      ≤ length (rows_of w) + 12
unfolding dispatch_parsed
parsed_grow new_id none cron_id assistant_id now w = omega arith
parsed_grow new_id (some next) cron_id assistant_id now w =
    let last = run_sql (query (λ d. last_scheduled cron_id d.cron_executions)) w in
    omega (
      arith,
      found_grow new_id next cron_id assistant_id now last.0 last.1,
      ap length (query_rows (λ d. last_scheduled cron_id d.cron_executions) w),
    )

-- One visit to a cron job makes at most 12 executions, however far behind its schedule it is.
pub catch_up_bounded :
    (new_id : String → ℕ → String) (parse : String → Option (ℕ → ℕ)) (job : CronRow) (now : ℕ)
    (w : World)
    → length (dispatch_cron_job new_id parse job now w).1.conn.db.cron_executions
      ≤ length w.conn.db.cron_executions + 12
unfolding dispatch_cron_job
catch_up_bounded new_id parse job now w =
    parsed_grow new_id (parse job.schedule) job.id job.assistant_id now w
