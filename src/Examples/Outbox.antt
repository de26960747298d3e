-- ===== src/Examples/Outbox.antt =====
-- Webhooks and crons of the worker at the example database.
use langopen.Prelude.{ℕ, ◌+◌, ◌≤◌, String, true, Option, some, arith, All, count, length}
use langopen.Json.{Json}
use langopen.Db.{CronRow}
use langopen.Db.Sql.{healthy}
use langopen.Db.Tables.{delivery_of}
use langopen.Worker.Webhooks.{Reply, answered, process_webhook_outbox, enqueue_webhook_for_run}
use langopen.Worker.Webhooks.Laws.{RowTried, attempts_bounded, delivered_once}
use langopen.Worker.Crons.{dispatch_due_crons, dispatch_cron_job}
use langopen.Worker.Crons.Laws.{OnceEach, dispatched_once, catch_up_bounded}
use langopen.Examples.Tables.{new_id, busy, world}

abbrev overflowed : ℕ → ℕ
overflowed n = 0

abbrev unavailable_hook : String → Json → Reply
unavailable_hook url body = answered 503

abbrev format : ℕ → String
format n = "time"

attempts_bounded_example :
    All
      (RowTried 3)
      (process_webhook_outbox overflowed unavailable_hook format format 3 9000000000000
        (healthy busy)).1.db.deliveries
attempts_bounded_example =
    attempts_bounded overflowed unavailable_hook format format 3 9000000000000 (healthy busy)
      ((omega arith, omega arith), tt)

one_delivery : (other : String) → count (delivery_of other) busy.deliveries ≤ 1
one_delivery other = ground arith

delivered_once_example :
    count (delivery_of "r1") (enqueue_webhook_for_run 9 "w2" "r1" (healthy busy)).1.db.deliveries
    ≤ 1
delivered_once_example = delivered_once 9 "w2" "r1" (healthy busy) one_delivery "r1"

abbrev every_minute : String → Option (ℕ → ℕ)
every_minute schedule = some (λ t. t + 60000000000)

dispatched_once_example :
    OnceEach
      (dispatch_due_crons new_id every_minute 9000000000000 (world busy)).1.conn.db.cron_executions
dispatched_once_example =
    dispatched_once new_id every_minute 9000000000000 (world busy) (λ cron_id t. omega arith)

abbrev minutely : CronRow
minutely = record { id = "c1"; assistant_id = "a1"; schedule = "* * * * *"; enabled = true }

catch_up_bounded_example :
    length
      (dispatch_cron_job new_id every_minute minutely 9000000000000
        (world busy)).1.conn.db.cron_executions
    ≤ 0 + 12
catch_up_bounded_example = catch_up_bounded new_id every_minute minutely 9000000000000 (world busy)
