-- ===== src/Worker/Execute/Steps.antt =====
-- What each step of an execution changes: the statuses in `runs`, and the newest message of a channel.
use langopen.Prelude.{
  ◌⊎◌, All, ℕ, String, Bool, true, false, ◌&&◌, List, [], ◌∷◌, ◌==◌, ◌≡◌, refl, arith, any,
  Bool-cases, inl, inr, eq_refl,
}
use langopen.Json.{Json}
use langopen.Contracts.{RunStatus}
use langopen.Stream.{StreamEvent, mk_event, is_terminal_stream_event}
use langopen.Db.{RunRow}
use langopen.Db.Sql.{ok, err, foreign_key, trip, statement, ◌>>=◌, transaction}
use langopen.Db.Tables.{
  has_id, update_rows, is_referenced, without_run, delete_run, delete_checkpoints,
}
use langopen.Redis.{
  Redis, World, Message, redis_trip, command, publish, push_event, expire, delete_buffer,
  delete_cancel, run_sql,
}
use langopen.Worker.{with_result, update_run_result, update_cron_execution_status, rollback_run}
use langopen.Worker.Webhooks.Laws.{enqueue_runs}
use langopen.Worker.Execute.{
  PendingRun, act, buffer_event, next_event_id, emit_stream_event, enqueue_webhook,
}

-- Each row of the run has the status.
abbrev pub Stands : String → RunStatus → List RunRow → Type 0
Stands id status = All (λ row. (has_id id row ≡ false) ⊎ (row.status ≡ status))

-- The run has no row.
abbrev pub Absent : String → List RunRow → Type 0
Absent id = All (λ row. has_id id row ≡ false)

abbrev pub newest_ends : String → List Message → Bool
newest_ends id [] = false
newest_ends id (m ∷ ms) = m.run_id == id && is_terminal_stream_event m.event.event

-- The newest message is on the run's channel and ends its stream.
unfoldable pub is_announced : String → World → Bool
is_announced id w = newest_ends id w.redis.published

-- Neither server fails from here on.
pub record Quiet (w : World) : Type 0 where
  pub postgres : w.conn.faults ≡ []
  pub redis : w.redis.faults ≡ []

updated-Stands :
    (now : ℕ) (id : String) (status : RunStatus) (o e : Json) (rows : List RunRow)
    → Stands id status (update_rows id (with_result now status o e) rows)
unfolding update_rows with_result
updated-Stands now id status o e [] = tt
updated-Stands now id status o e (row ∷ rows) = elim (Bool-cases (row.id == id)) [
  | inl same ↦ rw same (inr refl, updated-Stands now id status o e rows)
  | inr other ↦ rw other (inl other, updated-Stands now id status o e rows)
]

pub update_ok :
    (now : ℕ) (id : String) (status : RunStatus) (o e : Json) (w : World)
    → Quiet w
    → (run_sql (update_run_result now id status o e) w).0 ≡ ok tt
unfolding run_sql update_run_result statement
update_ok now id status o e w q = ground (arith, q.postgres)

pub update-Stands :
    (now : ℕ) (id : String) (status : RunStatus) (o e : Json) (w : World)
    → Quiet w
    → Stands id status (run_sql (update_run_result now id status o e) w).1.conn.db.runs
unfolding run_sql update_run_result statement
update-Stands now id status o e w q =
    rw q.postgres (updated-Stands now id status o e w.conn.db.runs)

pub update-Quiet :
    (now : ℕ) (id : String) (status : RunStatus) (o e : Json) (w : World)
    → Quiet w
    → Quiet (run_sql (update_run_result now id status o e) w).1
unfolding run_sql update_run_result statement
update-Quiet now id status o e w q = record {
  postgres = ground (arith, q.postgres);
  redis = q.redis;
}

pub count_runs :
    (id status : String) (w : World)
    → (act (update_cron_execution_status id status) w).conn.db.runs ≡ w.conn.db.runs
unfolding act run_sql update_cron_execution_status statement
count_runs id status w = ground arith

pub count-Quiet :
    (id status : String) (w : World)
    → Quiet w
    → Quiet (act (update_cron_execution_status id status) w)
unfolding act run_sql update_cron_execution_status statement
count-Quiet id status w q = record { postgres = ground (arith, q.postgres); redis = q.redis }

publish_heads :
    (m : Message) (r : Redis) → r.faults ≡ [] → (publish m r).published ≡ m ∷ r.published
unfolding publish command redis_trip
publish_heads m r h = ground (arith, h)

buffer_keeps :
    (b : Bool) (id : String) (ev : StreamEvent) (r : Redis)
    → (buffer_event b id ev r).published ≡ r.published
unfolding buffer_event push_event expire command redis_trip
buffer_keeps b id ev r = ground arith

trip_quiet : (r : Redis) → r.faults ≡ [] → (redis_trip r).1.faults ≡ []
unfolding redis_trip
trip_quiet r h = ground (arith, h)

pub emit_announces :
    (run : PendingRun) (name : String) (payload : Json) (w : World)
    → Quiet w
    → is_terminal_stream_event name ≡ true
    → is_announced run.id (emit_stream_event run name payload w) ≡ true
unfolding emit_stream_event is_announced mk_event
emit_announces run name payload w q h =
    rw
      (
        buffer_keeps run.stream_resumable run.id
            (mk_event
              (next_event_id (redis_trip w.redis).0 w.clock ((redis_trip w.redis).1.buffer run.id))
              name payload)
            _,
        publish_heads _ (redis_trip w.redis).1 (trip_quiet w.redis q.redis),
        eq_refl run.id,
        h,
      )
      refl

pub emit-Quiet :
    (run : PendingRun) (name : String) (payload : Json) (w : World)
    → Quiet w
    → Quiet (emit_stream_event run name payload w)
unfolding emit_stream_event publish buffer_event push_event expire command redis_trip
emit-Quiet run name payload w q = record { postgres = q.postgres; redis = ground (arith, q.redis) }

pub enqueue_keeps :
    (new_id : String → ℕ → String) (run : PendingRun) (w : World)
    → (enqueue_webhook new_id run w).conn.db.runs ≡ w.conn.db.runs
unfolding enqueue_webhook act run_sql
enqueue_keeps new_id run w = enqueue_runs w.clock (new_id "wh" w.drawn) run.id w.conn

pub emit_cancel :
    (run : PendingRun) (name : String) (payload : Json) (w : World)
    → (emit_stream_event run name payload w).redis.cancel ≡ w.redis.cancel
unfolding emit_stream_event publish buffer_event push_event expire command redis_trip
emit_cancel run name payload w = ground arith

pub enqueue_announces :
    (new_id : String → ℕ → String) (run : PendingRun) (w : World)
    → is_announced run.id w ≡ true
    → is_announced run.id (enqueue_webhook new_id run w) ≡ true
unfolding enqueue_webhook act run_sql is_announced
enqueue_announces new_id run w h = h

pub gone-Absent : (id : String) (rows : List RunRow) → Absent id (without_run id rows)
unfolding without_run
gone-Absent id [] = tt
gone-Absent id (row ∷ rows) = elim (Bool-cases (row.id == id)) [
  | inl same ↦ rw same (gone-Absent id rows)
  | inr other ↦ rw other (other, gone-Absent id rows)
]

-- A row that something refers to.
abbrev pub held : String → World → Bool
held id w = any (has_id id) w.conn.db.runs && is_referenced id w.conn.db

-- A run that has no row, or that nothing refers to, is rolled back.
pub rollback_ok :
    (id : String) (w : World)
    → Quiet w
    → held id w ≡ false
    → (run_sql (rollback_run id) w).0 ≡ ok tt
unfolding run_sql rollback_run transaction statement ◌>>=◌ delete_run delete_checkpoints
    is_referenced
rollback_ok id w q free = ground (arith, q.postgres, free)

pub rollback-Absent :
    (id : String) (w : World)
    → Quiet w
    → held id w ≡ false
    → Absent id (run_sql (rollback_run id) w).1.conn.db.runs
unfolding run_sql rollback_run transaction statement ◌>>=◌ delete_run delete_checkpoints
    is_referenced
rollback-Absent id w q free = rw (q.postgres, free) (gone-Absent id w.conn.db.runs)

pub rollback-Quiet :
    (id : String) (w : World) → Quiet w → held id w ≡ false → Quiet (run_sql (rollback_run id) w).1
unfolding run_sql rollback_run transaction statement ◌>>=◌ delete_run delete_checkpoints
    is_referenced
rollback-Quiet id w q free = record { postgres = ground (arith, q.postgres, free); redis = q.redis }

-- A row that something refers to stays, and so does all else in the tables.
pub rollback_refused :
    (id : String) (w : World)
    → Quiet w
    → held id w ≡ true
    → ((run_sql (rollback_run id) w).0 ≡ err foreign_key)
      × ((run_sql (rollback_run id) w).1.conn.db ≡ w.conn.db)
unfolding run_sql rollback_run transaction statement ◌>>=◌ delete_run delete_checkpoints
    is_referenced
rollback_refused id w q h = (ground (arith, q.postgres, h), ground (arith, q.postgres, h))

pub drop_announces :
    (id : String) (w : World)
    → is_announced id w ≡ true
    → is_announced id (record w { redis = delete_buffer id w.redis }) ≡ true
unfolding is_announced delete_buffer command redis_trip
drop_announces id w h = elim (Bool-cases (trip w.redis.faults).0) [
  | inl fails ↦ rw fails h
  | inr gets_through ↦ rw gets_through h
]

pub uncancel_announces :
    (id : String) (w : World)
    → is_announced id w ≡ true
    → is_announced id (record w { redis = delete_cancel id w.redis }) ≡ true
unfolding is_announced delete_cancel command redis_trip
uncancel_announces id w h = elim (Bool-cases (trip w.redis.faults).0) [
  | inl fails ↦ rw fails h
  | inr gets_through ↦ rw gets_through h
]
