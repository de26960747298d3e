-- ===== src/Worker/Webhooks.antt =====
-- The outbox of webhooks: `enqueueWebhookForRun`, `processWebhookOutbox`, `deliverWebhook`,
-- `fetchRunStatus` and `backoffDuration` of services/worker/internal/engine/engine.go. The HTTP
-- client and Go's formatting are parameters.
pub mod Laws
use langopen.Prelude.{
  ℕ, zero, suc, ◌+◌, ◌*◌, ◌^◌, String, Bool, true, false, ◌||◌, ◌&&◌, not, Option, none, some, List,
  [], ◌∷◌, ◌==◌, if◌then◌else◌, any, keep, take, find, ltb, leb,
}
use langopen.Prelude.Text.{trim_space}
use langopen.Json.{Json, object, end, field, text}
use langopen.Contracts.{run_status_text}
use langopen.Db.{RunRow, DeliveryRow, DeliveryStatus, waiting, retry, delivered, dead_letter, Db}
use langopen.Db.Sql.{
  Error, Result, ok, err, message, unique_violation, foreign_key, Conn, Sql, pure, raise, continue,
  ◌>>=◌, ◌>>◌, statement, query, exec,
}
use langopen.Db.Tables.{delivery_of, has_id}

abbrev pub new_delivery : ℕ → String → String → String → DeliveryRow
new_delivery now id run_id url = record {
  id = id;
  run_id = run_id;
  url = url;
  status = waiting;
  attempts = 0;
  last_error = none;
  created_at = now;
  updated_at = now;
}

-- `INSERT INTO webhook_deliveries`.
unfoldable pub insert_delivery : DeliveryRow → Db → Result Db
insert_delivery row d =
    if any (λ (r : DeliveryRow). r.id == row.id) d.deliveries
    then err unique_violation
    else if not (any (has_id row.run_id) d.runs)
    then err foreign_key
    else ok (record d { deliveries = row ∷ d.deliveries })

-- What follows the look for an earlier delivery.
pub enqueue_new : ℕ → String → String → String → Sql (Unit {0})
enqueue_new now id run_id url = do
  delivery_exists ← query (λ d. any (delivery_of run_id) d.deliveries)
  if delivery_exists
      then pure tt
      else exec (insert_delivery (new_delivery now id run_id (trim_space url)))

pub enqueue_for : ℕ → String → String → Option RunRow → Sql (Unit {0})
unfolding enqueue_new
enqueue_for now id run_id none = pure tt
enqueue_for now id run_id (some row) = elim row.webhook_url [
  | none ↦ pure tt
  | some url ↦ if trim_space url == "" then pure tt else enqueue_new now id run_id url
]

-- `enqueueWebhookForRun`; `id` is the new delivery's.
unfoldable pub enqueue_webhook_for_run : ℕ → String → String → Sql (Unit {0})
unfolding enqueue_for
enqueue_webhook_for_run now id run_id = do
  row ← query (λ d. find (has_id run_id) d.runs)
  enqueue_for now id run_id row

-- `backoffDuration` in nanoseconds, from 0 attempts on. `overflowed` is what Go's conversion to int
-- gives for powers from 2^63 on, where the language leaves it to the implementation, and 0 where
-- that is negative: neither backs off.
unfoldable pub backoff_duration : (ℕ → ℕ) → ℕ → ℕ
backoff_duration overflowed zero = 0
backoff_duration overflowed (suc n) =
    let seconds = if ltb n 62 then 2 ^ suc n else overflowed (suc n) in
    (if ltb 300 seconds then 300 else seconds) * 1000000000

-- What `http.NewRequest` and `Do` answer: no request, no response, or a status code.
pub data Reply : Type 0 where
  bad_request : String → Reply
  failed : String → Reply
  answered : ℕ → Reply

abbrev pub is_open : DeliveryStatus → Bool
is_open waiting = true
is_open retry = true
is_open _ = false

abbrev pub older : DeliveryRow → List DeliveryRow → List DeliveryRow
older row [] = row ∷ []
older row (r ∷ rows) =
    if leb row.created_at r.created_at then row ∷ r ∷ rows else r ∷ older row rows

-- `ORDER BY created_at ASC`.
abbrev pub by_age : List DeliveryRow → List DeliveryRow
by_age [] = []
by_age (row ∷ rows) = older row (by_age rows)

-- Whether the row is skipped until later.
unfoldable pub backs_off : (ℕ → ℕ) → ℕ → DeliveryRow → Bool
unfolding backoff_duration
backs_off overflowed now row = elim row.status [
  | retry ↦ ltb now (row.updated_at + backoff_duration overflowed row.attempts)
  | _ ↦ false
]

unfoldable pub outbox : (ℕ → ℕ) → ℕ → List DeliveryRow → List DeliveryRow
outbox overflowed now rows =
    keep (λ row. not (backs_off overflowed now row))
      (take 50 (by_age (keep (λ (row : DeliveryRow). is_open row.status) rows)))

unfoldable pub update_delivery :
    String → DeliveryStatus → ℕ → Option String → ℕ → List DeliveryRow → List DeliveryRow
update_delivery id status attempts last_error now [] = []
update_delivery id status attempts last_error now (row ∷ rows) =
    (if row.id == id
      then record row {
        status = status;
        attempts = attempts;
        last_error = last_error;
        updated_at = now;
      }
      else row)
    ∷ update_delivery id status attempts last_error now rows

abbrev pub set_delivery : String → DeliveryStatus → ℕ → Option String → ℕ → Sql (Unit {0})
set_delivery id status attempts last_error now = exec (λ d.
    ok (record d { deliveries = update_delivery id status attempts last_error now d.deliveries }))

abbrev pub status_or_rolled_back : Option RunRow → String
status_or_rolled_back none = "rolled_back"
status_or_rolled_back (some row) = run_status_text row.status

unfoldable pub fetch_run_status : String → Sql String
fetch_run_status run_id = query (λ d. status_or_rolled_back (find (has_id run_id) d.runs))

-- `runStatus, _ :=`.
abbrev pub text_or_empty : Result String → String
text_or_empty (ok s) = s
text_or_empty (err e) = ""

unfoldable pub or_empty : Sql String → (String → Sql (Unit {0})) → Sql (Unit {0})
or_empty m f c = let (r, c') = m c in f (text_or_empty r) c'

-- `payload`, with `now.Format(time.RFC3339Nano)` as text.
abbrev pub payload : String → DeliveryRow → String → Json
payload now item run_status = object (
    field "run_id" (text item.run_id)
      (field "status" (text run_status) (field "delivered" (text now) end)))

module _ (overflowed : ℕ → ℕ) (post : String → Json → Reply)
    (format_time format_status : ℕ → String) (max_attempts : ℕ) where
  abbrev pub next_status : ℕ → DeliveryStatus
  next_status next_attempts = if leb max_attempts next_attempts then dead_letter else retry

  pub record_reply : ℕ → DeliveryRow → Reply → Sql (Unit {0})
  record_reply now item (bad_request e) = raise (message e)
  record_reply now item (failed e) =
      set_delivery item.id (next_status (item.attempts + 1)) (item.attempts + 1) (some e) now
  record_reply now item (answered code) =
      if leb 200 code && ltb code 300
      then set_delivery item.id delivered (item.attempts + 1) none now
      else set_delivery item.id (next_status (item.attempts + 1)) (item.attempts + 1)
          (some (format_status code)) now

  unfoldable pub deliver_webhook : ℕ → DeliveryRow → Sql (Unit {0})
  unfolding or_empty record_reply
  deliver_webhook now item = or_empty (fetch_run_status item.run_id) (λ run_status.
      record_reply now item (post item.url (payload (format_time now) item run_status)))

  -- The loop over the items; an error is logged.
  deliver_all : ℕ → List DeliveryRow → Sql (Unit {0})
  deliver_all now [] c = (ok tt, c)
  deliver_all now (item ∷ items) c = deliver_all now items (deliver_webhook now item c).1

  unfoldable pub process_webhook_outbox : ℕ → Sql (Unit {0})
  unfolding deliver_all
  process_webhook_outbox now = do
    items ← query (λ d. outbox overflowed now d.deliveries)
    deliver_all now items
