-- ===== src/Worker/Webhooks/Laws.antt =====
-- Deliveries of the outbox: how often each is tried, and how many a run has.
use langopen.Prelude.{
  count, count_none, ℕ, zero, suc, ◌+◌, ◌≤◌, ◌<◌, ◌^◌, ◌*◌, ◌-◌, String, Bool, true, ◌&&◌, Option,
  none, some, List, [], ◌∷◌, ◌==◌, if◌then◌else◌, keep, ltb, leb, ◌≡◌, arith, All, All-take,
  Bool-cases, Option-cases, inl, inr, eq_iff, ◌⊎◌,
}
use langopen.Prelude.Text.{trim_space}
use langopen.Json.{Json}
use langopen.Db.{RunRow, DeliveryRow, DeliveryStatus, waiting, retry, delivered, dead_letter}
use langopen.Db.Sql.{ok, Conn, trip, ◌>>=◌, statement, exec}
use langopen.Db.Tables.{delivery_of}
use langopen.Worker.Webhooks.{
  payload, text_or_empty, Reply, bad_request, failed, answered, older, by_age, is_open, outbox,
  update_delivery, or_empty, fetch_run_status, record_reply, deliver_webhook, deliver_all,
  process_webhook_outbox, backoff_duration, insert_delivery, enqueue_new, enqueue_for,
  enqueue_webhook_for_run,
}

-- What the attempts say of a delivery: none while it waits, fewer than the maximum while it is
-- tried again, and at the end no more than the maximum, or one where the maximum is 0.
abbrev pub Tried : ℕ → DeliveryStatus → ℕ → Type 0
Tried max_attempts waiting n = n ≡ 0
Tried max_attempts retry n = (1 ≤ n) × (n < max_attempts)
Tried max_attempts delivered n = (1 ≤ n) × (n ≤ max_attempts + (1 - max_attempts))
Tried max_attempts dead_letter n = n ≡ max_attempts + (1 - max_attempts)

abbrev pub RowTried : ℕ → DeliveryRow → Type 0
RowTried max_attempts row = Tried max_attempts row.status row.attempts

-- An item that is open may be tried once more.
abbrev Tryable : ℕ → DeliveryRow → Type 0
Tryable max_attempts row = (row.attempts ≡ 0) ⊎ (row.attempts < max_attempts)

tryable : (m : ℕ) (s : DeliveryStatus) (n : ℕ) → Tried m s n → is_open s ≡ true → (n ≡ 0) ⊎ (n < m)
tryable m waiting n h e = inl h
tryable m retry n h e = inr h.1
tryable m delivered n h e = cc
tryable m dead_letter n h e = cc

open-Tryable :
    (m : ℕ) (rows : List DeliveryRow)
    → All (RowTried m) rows
    → All (Tryable m) (keep (λ (row : DeliveryRow). is_open row.status) rows)
open-Tryable m [] h = tt
open-Tryable m (row ∷ rows) (good, h) = elim (Bool-cases (is_open row.status)) [
  | inl e ↦ rw e (tryable m row.status row.attempts good e, open-Tryable m rows h)
  | inr e ↦ rw e (open-Tryable m rows h)
]

module _ (P : DeliveryRow → Type 0) where
  All-older :
      (row : DeliveryRow) (rows : List DeliveryRow) → P row → All P rows → All P (older row rows)
  All-older row [] p h = (p, tt)
  All-older row (r ∷ rows) p h = elim (Bool-cases (leb row.created_at r.created_at)) [
    | inl e ↦ rw e (p, h)
    | inr e ↦ rw e (h.0, All-older row rows p h.1)
  ]

  All-by_age : (rows : List DeliveryRow) → All P rows → All P (by_age rows)
  All-by_age [] h = tt
  All-by_age (row ∷ rows) (p, h) = All-older row (by_age rows) p (All-by_age rows h)

  All-passing :
      (p : DeliveryRow → Bool) (rows : List DeliveryRow) → All P rows → All P (keep p rows)
  All-passing p [] h = tt
  All-passing p (row ∷ rows) (k, h) = elim (Bool-cases (p row)) [
    | inl e ↦ rw e (k, All-passing p rows h)
    | inr e ↦ rw e (All-passing p rows h)
  ]

outbox-Tryable :
    (overflowed : ℕ → ℕ) (now m : ℕ) (rows : List DeliveryRow)
    → All (RowTried m) rows
    → All (Tryable m) (outbox overflowed now rows)
unfolding outbox
outbox-Tryable overflowed now m rows h =
    All-passing (Tryable m) _ _
      (All-take (Tryable m) 50 _ (All-by_age (Tryable m) _ (open-Tryable m rows h)))

update-Tried :
    (m : ℕ) (id : String) (s : DeliveryStatus) (n : ℕ) (e : Option String) (now : ℕ)
    (rows : List DeliveryRow)
    → Tried m s n
    → All (RowTried m) rows
    → All (RowTried m) (update_delivery id s n e now rows)
unfolding update_delivery
update-Tried m id s n e now [] t h = tt
update-Tried m id s n e now (row ∷ rows) t (good, h) = elim (Bool-cases (row.id == id)) [
  | inl same ↦ rw same (t, update-Tried m id s n e now rows t h)
  | inr other ↦ rw other (good, update-Tried m id s n e now rows t h)
]

-- The state of the outbox, over any connection.
abbrev pub OutboxTried : ℕ → Conn → Type 0
OutboxTried m c = All (RowTried m) c.db.deliveries

set-Tried :
    (m : ℕ) (id : String) (s : DeliveryStatus) (n : ℕ) (e : Option String) (now : ℕ) (c : Conn)
    → Tried m s n
    → OutboxTried m c
    → OutboxTried m
        (exec (λ d. ok (record d { deliveries = update_delivery id s n e now d.deliveries })) c).1
unfolding statement
set-Tried m id s n e now c t h = elim (Bool-cases (trip c.faults).0) [
  | inl fails ↦ rw fails h
  | inr gets_through ↦ rw gets_through (update-Tried m id s n e now c.db.deliveries t h)
]

more_tries :
    (m n : ℕ) → (n ≡ 0) ⊎ (n < m) → Tried m (if leb m (n + 1) then dead_letter else retry) (n + 1)
more_tries m n h = ground arith

status_keeps : (id : String) (c : Conn) → (fetch_run_status id c).1.db ≡ c.db
unfolding fetch_run_status statement
status_keeps id c = ground arith

module _ (overflowed : ℕ → ℕ) (post : String → Json → Reply)
    (format_time format_status : ℕ → String) (m : ℕ) where
  record_tried :
      (now : ℕ) (item : DeliveryRow) (reply : Reply) (c : Conn)
      → Tryable m item
      → OutboxTried m c
      → OutboxTried m (record_reply overflowed post format_time format_status m now item reply c).1
  unfolding record_reply
  record_tried now item (bad_request e) c t h = h
  record_tried now item (failed e) c t h =
      set-Tried m item.id _ (item.attempts + 1) (some e) now c (more_tries m item.attempts t) h
  record_tried now item (answered code) c t h = elim (Bool-cases (leb 200 code && ltb code 300)) [
    | inl good ↦
        rw good (set-Tried m item.id delivered (item.attempts + 1) none now c (ground arith) h)
    | inr bad ↦ rw bad (
        set-Tried m item.id _ (item.attempts + 1) (some (format_status code)) now c
          (more_tries m item.attempts t) h)
  ]

  deliver_tried :
      (now : ℕ) (item : DeliveryRow) (c : Conn)
      → Tryable m item
      → OutboxTried m c
      → OutboxTried m (deliver_webhook overflowed post format_time format_status m now item c).1
  unfolding deliver_webhook or_empty
  deliver_tried now item c t h =
      record_tried now item
        (post item.url
          (payload (format_time now) item (text_or_empty (fetch_run_status item.run_id c).0)))
        (fetch_run_status item.run_id c).1 t (rw (status_keeps item.run_id c) h)

  all_tried :
      (now : ℕ) (items : List DeliveryRow) (c : Conn)
      → All (Tryable m) items
      → OutboxTried m c
      → OutboxTried m (deliver_all overflowed post format_time format_status m now items c).1
  unfolding deliver_all
  all_tried now [] c t h = h
  all_tried now (item ∷ items) c (t, ts) h = all_tried now items _ ts (deliver_tried now item c t h)

  -- Whatever fails, and whatever the HTTP client answers, a round of the outbox keeps this of every
  -- delivery: no attempt was made while it waits, fewer than the maximum while it is to be tried
  -- again, at least one and at most the maximum (one where that is 0) when it succeeded, and
  -- exactly that many when it is a dead letter.
  pub attempts_bounded :
      (now : ℕ) (c : Conn)
      → All (RowTried m) c.db.deliveries
      → All
          (RowTried m)
          (process_webhook_outbox overflowed post format_time format_status m now c).1.db.deliveries
  unfolding process_webhook_outbox statement ◌>>=◌
  attempts_bounded now c h = elim (Bool-cases (trip c.faults).0) [
    | inl fails ↦ rw fails h
    | inr gets_through ↦
        rw gets_through (all_tried now _ _ (outbox-Tryable overflowed now m c.db.deliveries h) h)
  ]

enqueue_new_once :
    (now : ℕ) (id run_id url : String) (c : Conn) (other : String)
    → count (delivery_of other) c.db.deliveries ≤ 1
    → count (delivery_of other) (enqueue_new now id run_id url c).1.db.deliveries ≤ 1
unfolding enqueue_new statement ◌>>=◌ insert_delivery
enqueue_new_once now id run_id url c other h =
    ground (arith, h, count_none (delivery_of run_id) c.db.deliveries, eq_iff run_id other)

enqueue_for_once :
    (now : ℕ) (id run_id : String) (row : Option RunRow) (c : Conn) (other : String)
    → count (delivery_of other) c.db.deliveries ≤ 1
    → count (delivery_of other) (enqueue_for now id run_id row c).1.db.deliveries ≤ 1
unfolding enqueue_for
enqueue_for_once now id run_id none c other h = h
enqueue_for_once now id run_id (some row) c other h = elim (Option-cases row.webhook_url) [
  | inl e ↦ rw e h
  | inr (url, e) ↦ rw e (elim (Bool-cases (trim_space url == "")) [
    | inl blank ↦ rw blank h
    | inr shown ↦ rw shown (enqueue_new_once now id run_id url c other h)
  ])
]

-- Whatever fails, enqueueing a webhook leaves every run with at most one delivery.
pub delivered_once :
    (now : ℕ) (id run_id : String) (c : Conn)
    → ((other : String) → count (delivery_of other) c.db.deliveries ≤ 1)
    → (other : String)
    → count (delivery_of other) (enqueue_webhook_for_run now id run_id c).1.db.deliveries ≤ 1
unfolding enqueue_webhook_for_run statement ◌>>=◌ enqueue_for
delivered_once now id run_id c h other = elim (Bool-cases (trip c.faults).0) [
  | inl fails ↦ rw fails (h other)
  | inr gets_through ↦ rw gets_through (enqueue_for_once now id run_id _ _ other (h other))
]

power_grows : (a b : ℕ) → a ≤ b → 2 ^ a ≤ 2 ^ b
power_grows a zero h = ground arith
power_grows zero (suc b) h = omega (arith, power_grows zero b (omega arith))
power_grows (suc a) (suc b) h = omega (arith, power_grows a b (omega (arith, h)))

-- For up to 62 attempts, the wait before the next one does not shrink as attempts are made, and it
-- is at most 300 seconds.
pub backoff_grows :
    (overflowed : ℕ → ℕ) (a b : ℕ)
    → a ≤ b
    → b ≤ 62
    → (backoff_duration overflowed a ≤ backoff_duration overflowed b)
      × (backoff_duration overflowed b ≤ 300 * 1000000000)
unfolding backoff_duration
backoff_grows overflowed zero zero h k = ground arith
backoff_grows overflowed zero (suc b) h k = ground arith
backoff_grows overflowed (suc a) zero h k = ground arith
backoff_grows overflowed (suc a) (suc b) h k = ground (arith, power_grows (suc a) (suc b))

-- It touches no run.
pub enqueue_runs :
    (now : ℕ) (id run_id : String) (c : Conn)
    → (enqueue_webhook_for_run now id run_id c).1.db.runs ≡ c.db.runs
unfolding enqueue_webhook_for_run enqueue_for enqueue_new insert_delivery statement ◌>>=◌
enqueue_runs now id run_id c = ground arith
