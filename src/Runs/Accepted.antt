-- ===== src/Runs/Accepted.antt =====
-- What `createRun` leaves, of services/api-server/internal/server/server.go: the run with its
-- request in the table, and the worker woken.
use langopen.Json.{Json, Items, Fields, null, array, object, text, field, end}
use langopen.Contracts.{pending}
use langopen.Prelude.{
  none, ◌==◌, if◌then◌else◌, Option, ℕ, ◌+◌, String, ◌≡◌, ◌≢◌, refl, sym, ap, ◌∙◌, Bool, false,
  some, List, [], ◌∷◌, any, eq_refl, arith, Bool-cases, inl, inr,
}
use langopen.Prelude.Text.{trim_space}
use langopen.Contracts.{MultitaskStrategy, is_valid_multitask_strategy}
use langopen.Db.{RunRow, Db}
use langopen.Db.Sql.{Error, Result, ok, Conn, healthy, statement, Result-cases}
use langopen.Db.Laws.{Repeats-transaction}
use langopen.Db.Tables.{has_id, update_rows, insert_run, oldest}
use langopen.Redis.{Redis, World, command, redis_trip, run_sql}
use langopen.Runs.{Run, row_of, is_active_on, create_run_in_postgres}
use langopen.Runs.Created.{
  Created, created_run, create_body-Repeats, create_run-Created, runs-Created, runs-insert_run,
  displaced,
}
use langopen.Runs.Handlers.{
  run_request_metadata, slice, own_metadata, RunRequest, Server, over_postgres, answered,
  set_request, persist_run_request_in_postgres, chosen_assistant, chosen_strategy, chosen_resumable,
  conflict_answer, after_rows, wake, wake_and_save, over, create_on_thread, create_run,
}

-- A world whose Postgres answers every round trip.
abbrev pub up_world : Db → Redis → ℕ → ℕ → World
up_world d r now drawn = record { conn = healthy d; redis = r; clock = now; drawn = drawn }

abbrev pub the_run : String → String → RunRequest → ℕ → Run
the_run run_id t req now =
    created_run run_id t (chosen_assistant req) (chosen_strategy req)
      (chosen_resumable req.stream_resumable) now

abbrev or_null : Option Items → Json
or_null none = null
or_null (some items) = array items

abbrev stated_metadata : Option Json → Fields
stated_metadata none = end
stated_metadata (some m) = field "metadata" m end

-- What of the request the run's metadata has, under which keys.
abbrev pub asked_metadata : RunRequest → Fields
asked_metadata req = field "configurable" req.configurable (
    field "stream_mode" req.stream_mode (
      field "on_disconnect" (text (trim_space req.on_disconnect)) (
        field "interrupt_before" (or_null req.interrupt_before) (
          field "interrupt_after" (or_null req.interrupt_after)
            (field "command" req.command (stated_metadata req.metadata))))))

-- The row of a run that was accepted at the time `now`.
abbrev pub accepted_row : String → String → RunRequest → ℕ → RunRow
accepted_row run_id t req now = record {
  id = run_id;
  thread_id = some t;
  assistant_id = chosen_assistant req;
  status = pending;
  strategy = chosen_strategy req;
  stream_resumable = chosen_resumable req.stream_resumable;
  webhook_url = some (trim_space req.webhook_url);
  input_json = req.input;
  output_json = none;
  error_json = none;
  metadata_json = object (asked_metadata req);
  checkpoint_id =
      if trim_space req.checkpoint_id == "" then none else some (trim_space req.checkpoint_id);
  started_at = none;
  completed_at = none;
  created_at = now;
  updated_at = now;
}

-- The rows of `runs` after a run was accepted.
abbrev pub accepted_rows : String → String → RunRequest → ℕ → List RunRow → List RunRow
accepted_rows run_id t req now rows =
    accepted_row run_id t req now
    ∷ displaced (chosen_strategy req) now (oldest (is_active_on t) rows) rows

pub record IsAccepted (run_id t : String) (req : RunRequest) (d : Db) (r : Redis) (now : ℕ)
    (run : Run) (s : Server) : Type 0 where
  pub described : run ≡ the_run run_id t req now
  pub after : World
  pub served : s ≡ over_postgres after
  pub queued : after.conn.db.runs ≡ accepted_rows run_id t req now d.runs
  pub woken : after.redis.wakeups ≡ r.wakeups + 1

update_rows-fresh :
    (id : String) (f : RunRow → RunRow) (rows : List RunRow)
    → any (has_id id) rows ≡ false
    → update_rows id f rows ≡ rows
unfolding update_rows
update_rows-fresh id f [] h = refl
update_rows-fresh id f (row ∷ rows) h = ground (arith, update_rows-fresh id f rows)

inserted_fresh :
    (row : RunRow) (d e : Db) → insert_run row d ≡ ok e → any (has_id row.id) d.runs ≡ false
unfolding insert_run
inserted_fresh row d e h = ground arith

abbrev others : List RunRow → List RunRow
others [] = []
others (row ∷ rows) = rows

-- The id of the new run is in none of the other rows.
Created-fresh :
    (now : ℕ) (p t a : String) (s : MultitaskStrategy) (row : RunRow) (d e : Db)
    → Created now p t a s row d e
    → any (has_id row.id) (displaced s now (oldest (is_active_on t) d.runs) d.runs) ≡ false
Created-fresh now p t a s row d e c =
    ap (λ rows. any (has_id row.id) (others rows))
      (sym (runs-Created now p t a s row d e c) ∙ runs-insert_run row c.resolved e c.inserted)
    ∙ inserted_fresh row c.resolved e c.inserted

saved_rows :
    (req : RunRequest) (now : ℕ) (p t a : String) (s : MultitaskStrategy) (row : RunRow) (d e : Db)
    → Created now p t a s row d e
    → update_rows row.id (set_request req now) e.runs
      ≡ set_request req now row ∷ displaced s now (oldest (is_active_on t) d.runs) d.runs
unfolding update_rows
saved_rows req now p t a s row d e c =
    rw (runs-Created now p t a s row d e c, eq_refl row.id)
      (ap (◌∷◌ (set_request req now row))
        (update_rows-fresh row.id _ _ (Created-fresh now p t a s row d e c)))

woken_once :
    (d : Db) (r : Redis) (now drawn : ℕ)
    → r.faults ≡ []
    → (wake (up_world d r now drawn)).redis.wakeups ≡ r.wakeups + 1
unfolding wake command redis_trip
woken_once d r now drawn h = rw h refl

conflict-refused : (e : Error) (n : ℕ) (run : Run) → conflict_answer e ≢ answered n run
conflict-refused e n run h = ground arith

same_slice : (s : Option Items) → slice s ≡ or_null s
same_slice none = refl
same_slice (some items) = refl

same_metadata : (m : Option Json) → own_metadata m ≡ stated_metadata m
same_metadata none = refl
same_metadata (some m) = refl

stated_row :
    (run_id t : String) (req : RunRequest) (now : ℕ)
    → set_request req now (row_of (the_run run_id t req now) (some t) (trim_space req.webhook_url))
      ≡ accepted_row run_id t req now
unfolding run_request_metadata
stated_row run_id t req now =
    rw (same_slice req.interrupt_before, same_slice req.interrupt_after, same_metadata req.metadata)
      refl

-- `createRun` once the rows are there.
after-IsAccepted :
    (run_id p t : String) (req : RunRequest) (d e : Db) (r : Redis) (now drawn : ℕ) (run : Run)
    → r.faults ≡ []
    → run ≡ the_run run_id t req now
    → Created now p t
        (chosen_assistant req)
        (chosen_strategy req)
        (row_of (the_run run_id t req now) (some t) (trim_space req.webhook_url))
        d
        e
    → IsAccepted run_id t req d r now run
        (over (after_rows conflict_answer req (ok run) (up_world e r now drawn))).1
unfolding wake_and_save run_sql persist_run_request_in_postgres statement run_request_metadata
after-IsAccepted run_id p t req d e r now drawn run h same c = record {
  described = same;
  after = wake_and_save run.id req (up_world e r now drawn);
  served = refl;
  queued = rw same (
      saved_rows req now p t _ _ _ d e c
      ∙ ap
          (λ row. row ∷ displaced (chosen_strategy req) now (oldest (is_active_on t) d.runs) d.runs)
          (stated_row run_id t req now));
  woken = woken_once e r now drawn h;
}

answered_same : {n : ℕ} {a b : Run} → answered n a ≡ answered n b → a ≡ b
answered_same e = cc

-- The creation over a Postgres that answers leaves one that answers.
created-healthy :
    (id : String) (now : ℕ) (p t a : String) (s : MultitaskStrategy) (b : Bool) (url : String)
    (d : Db) (run : Run)
    → (create_run_in_postgres id now p t a s b url (healthy d)).0 ≡ ok run
    → create_run_in_postgres id now p t a s b url (healthy d)
      ≡ (ok run, healthy (create_run_in_postgres id now p t a s b url (healthy d)).1.db)
unfolding create_run_in_postgres
created-healthy id now p t a s b url d run h =
    (Repeats-transaction _ (create_body-Repeats id now p t a s b url)).at (healthy d) run h

answer-IsAccepted :
    (run_id p t : String) (req : RunRequest) (d e : Db) (r : Redis) (now drawn : ℕ) (made run : Run)
    (created : Result Run × Conn)
    → r.faults ≡ []
    → created ≡ (ok made, healthy e)
    → made ≡ the_run run_id t req now
    → Created now p t
        (chosen_assistant req)
        (chosen_strategy req)
        (row_of (the_run run_id t req now) (some t) (trim_space req.webhook_url))
        d
        e
    → let answer = over (
        after_rows conflict_answer req created.0
          (record { conn = created.1; redis = r; clock = now; drawn = drawn })) in
      answer.0 ≡ answered 201 run → IsAccepted run_id t req d r now run answer.1
unfolding wake_and_save
answer-IsAccepted run_id p t req d e r now drawn made run created h whole same c a =
    let shown : made ≡ run = answered_same (rw whole at a) in
    rw (whole, sym shown) (after-IsAccepted run_id p t req d e r now drawn made h same c)

rows-IsAccepted :
    (run_id p t : String) (req : RunRequest) (d : Db) (r : Redis) (now drawn : ℕ) (run : Run)
    → r.faults ≡ []
    → let answer =
        create_on_thread conflict_answer run_id p t req (over_postgres (up_world d r now drawn)) in
      answer.0 ≡ answered 201 run → IsAccepted run_id t req d r now run answer.1
unfolding run_sql
rows-IsAccepted run_id p t req d r now drawn run h a =
    let created =
      create_run_in_postgres run_id now p t (chosen_assistant req) (chosen_strategy req)
        (chosen_resumable req.stream_resumable) (trim_space req.webhook_url) (healthy d) in
    elim (Result-cases created.0) [
      | inl (made, e) ↦
          let (same, c) = create_run-Created run_id now p t _ _ _ _ (healthy d) made e in
          answer-IsAccepted run_id p t req d created.1.db r now drawn made run created h
            (created-healthy run_id now p t _ _ _ _ d made e) same c a
      | inr (x, e) ↦ absurd (conflict-refused x 201 run (rw e at a))
    ]

-- A run that `createRun` accepts is queued with its request: over servers that answer every round
-- trip, the first row of `runs` is the run of the answer with the input and the metadata of the
-- request, the rows after it are those from before, with the thread's active run dealt with as the
-- strategy says, and the worker has one wake-up more.
pub create_run-IsAccepted :
    (run_id p t : String) (req : RunRequest) (d : Db) (r : Redis) (now drawn : ℕ) (run : Run)
    → r.faults ≡ []
    → (create_run run_id p t req (over_postgres (up_world d r now drawn))).0 ≡ answered 201 run
    → IsAccepted run_id t req d r now run
        (create_run run_id p t req (over_postgres (up_world d r now drawn))).1
unfolding create_run
create_run-IsAccepted run_id p t req d r now drawn run h a =
    elim (Bool-cases (is_valid_multitask_strategy (chosen_strategy req))) [
      | inl v ↦ rw v (rows-IsAccepted run_id p t req d r now drawn run h (rw v at a))
      | inr v ↦ cc
    ]
