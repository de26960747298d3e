-- ===== src/Worker/Execute/Ids.antt =====
-- The ids of a run's events: in the buffer of a resumable run, and on the channel of one that is not.
use langopen.Prelude.{
  length-append, ◌∙◌, ap, if◌then◌else◌, ℕ, suc, ◌+◌, ◌≤◌, String, true, false, none, some, List,
  [], ◌∷◌, ◌++◌, ◌==◌, ◌≡◌, refl, sym, arith, any, Bool-cases, inl, inr, eq_refl, length, All,
}
use langopen.Prelude.Int.{pos}
use langopen.Prelude.Text.{trim_space}
use langopen.Json.{Json}
use langopen.Stream.{StreamEvent, mk_event, Signal, message, live_loop, is_terminal_stream_event}
use langopen.Db.Sql.{err, foreign_key, statement, ◌>>=◌, transaction}
use langopen.Db.Tables.{is_referenced, has_id, delete_run, delete_checkpoints}
use langopen.Redis.{World, Message, run_sql, redis_trip, command, publish, push_event, expire}
use langopen.Worker.{rollback_run}
use langopen.Worker.Execute.{
  PendingRun, ExecutorEvent, next_event_id, buffer_event, emit_stream_event, emit_all, roll_back,
  rolled_back,
}
use langopen.Worker.Execute.Steps.{Quiet, emit-Quiet}

emit_buffer :
    (run : PendingRun) (name : String) (payload : Json) (w : World)
    → Quiet w
    → run.stream_resumable ≡ true
    → (emit_stream_event run name payload w).redis.buffer run.id
      ≡ w.redis.buffer run.id
        ++ mk_event (pos (length (w.redis.buffer run.id) + 1)) name payload ∷ []
unfolding emit_stream_event publish buffer_event push_event expire command redis_trip next_event_id
emit_buffer run name payload w q resumable = rw (q.redis, resumable, eq_refl run.id) refl

-- The executor's events that have names, with the ids `n`, `n + 1`, … in their order.
unfoldable pub numbered_from : ℕ → List ExecutorEvent → List StreamEvent
numbered_from n [] = []
numbered_from n (ev ∷ evs) =
    let name = trim_space ev.name in
    let rest = numbered_from n evs in
    let later = numbered_from (suc n) evs in
    if name == "" then rest else mk_event (pos n) name ev.payload ∷ later

append_nil : (xs : List StreamEvent) → xs ++ [] ≡ xs
append_nil [] = refl
append_nil (v ∷ xs) = ap (◌∷◌ v) (append_nil xs)

append-snoc :
    (xs : List StreamEvent) (x : StreamEvent) (ys : List StreamEvent)
    → (xs ++ x ∷ []) ++ ys ≡ xs ++ x ∷ ys
append-snoc [] x ys = refl
append-snoc (v ∷ xs) x ys = ap (◌∷◌ v) (append-snoc xs x ys)

length-snoc :
    (xs : List StreamEvent) (x : StreamEvent) → length (xs ++ x ∷ []) + 1 ≡ suc (length xs + 1)
length-snoc xs x = omega (arith, length-append xs (x ∷ []))

one_more :
    (buffered : List StreamEvent) (name : String) (payload : Json) (evs : List ExecutorEvent)
    → (buffered ++ mk_event (pos (length buffered + 1)) name payload ∷ [])
        ++ numbered_from
            (length (buffered ++ mk_event (pos (length buffered + 1)) name payload ∷ []) + 1)
            evs
      ≡ buffered
        ++ mk_event (pos (length buffered + 1)) name payload
          ∷ numbered_from (suc (length buffered + 1)) evs
one_more buffered name payload evs =
    let ev = mk_event (pos (length buffered + 1)) name payload in
    ap (λ n. (buffered ++ ev ∷ []) ++ numbered_from n evs) (length-snoc buffered ev)
    ∙ append-snoc buffered ev (numbered_from (suc (length buffered + 1)) evs)

emit_all-blank :
    (run : PendingRun) (ev : ExecutorEvent) (evs : List ExecutorEvent) (w : World)
    → (trim_space ev.name == "") ≡ true
    → emit_all run (ev ∷ evs) w ≡ emit_all run evs w
unfolding emit_all
emit_all-blank run ev evs w h = rw h refl

emit_all-named :
    (run : PendingRun) (ev : ExecutorEvent) (evs : List ExecutorEvent) (w : World)
    → (trim_space ev.name == "") ≡ false
    → emit_all run (ev ∷ evs) w
      ≡ emit_all run evs (emit_stream_event run (trim_space ev.name) ev.payload w)
unfolding emit_all
emit_all-named run ev evs w h = rw h refl

-- The executor's events, written while Redis does not fail, are appended to the buffer of a
-- resumable run, whatever stands in it: those that have names, in their order, with ids that count
-- on from the number of events that were there.
pub emitted-numbered_from :
    (run : PendingRun) (evs : List ExecutorEvent) (w : World)
    → Quiet w
    → run.stream_resumable ≡ true
    → (emit_all run evs w).redis.buffer run.id
      ≡ w.redis.buffer run.id ++ numbered_from (length (w.redis.buffer run.id) + 1) evs
unfolding emit_all numbered_from
emitted-numbered_from run [] w q r = sym (append_nil (w.redis.buffer run.id))
emitted-numbered_from run (ev ∷ evs) w q r = elim (Bool-cases (trim_space ev.name == "")) [
  | inl blank ↦
      ap (λ v. v.redis.buffer run.id) (emit_all-blank run ev evs w blank)
      ∙ rw blank (emitted-numbered_from run evs w q r)
  | inr named ↦
      let name = trim_space ev.name in
      let w' = emit_stream_event run name ev.payload w in
      ap (λ v. v.redis.buffer run.id) (emit_all-named run ev evs w named)
      ∙ emitted-numbered_from run evs w' (emit-Quiet run name ev.payload w q) r
      ∙ ap (λ b. b ++ numbered_from (length b + 1) evs) (emit_buffer run name ev.payload w q r)
      ∙ rw named (one_more (w.redis.buffer run.id) name ev.payload evs)
]

-- The messages as a subscriber of the channel receives them, oldest first.
abbrev pub arrived : List Message → List Signal → List Signal
arrived [] later = later
arrived (m ∷ ms) later = arrived ms (message (some m.event) ∷ later)

abbrev pub IsFirst : Signal → Type 0
IsFirst (message (some ev)) = ev.id ≡ pos 1
IsFirst _ = Unit

abbrev pub MessageIsFirst : Message → Type 0
MessageIsFirst m = m.event.id ≡ pos 1

-- Nothing of a run that is not resumable is buffered, so each of its events is numbered 1.
record Unbuffered (run : PendingRun) (w : World) : Type 0 where
  quiet : Quiet w
  resumable : run.stream_resumable ≡ false
  empty : w.redis.buffer run.id ≡ []
  first : All MessageIsFirst w.redis.published

emit-Unbuffered :
    (run : PendingRun) (name : String) (payload : Json) (w : World)
    → Unbuffered run w
    → Unbuffered run (emit_stream_event run name payload w)
unfolding emit_stream_event publish buffer_event command redis_trip next_event_id mk_event
emit-Unbuffered run name payload w u = record {
  quiet = emit-Quiet run name payload w u.quiet;
  resumable = u.resumable;
  empty = rw (u.quiet.redis, u.resumable) u.empty;
  first = rw (u.quiet.redis, u.resumable, u.empty) (refl, u.first);
}

all-Unbuffered :
    (run : PendingRun) (evs : List ExecutorEvent) (w : World)
    → Unbuffered run w
    → Unbuffered run (emit_all run evs w)
unfolding emit_all
all-Unbuffered run [] w u = u
all-Unbuffered run (ev ∷ evs) w u = elim (Bool-cases (trim_space ev.name == "")) [
  | inl blank ↦ rw blank (all-Unbuffered run evs w u)
  | inr named ↦
      rw named (all-Unbuffered run evs _ (emit-Unbuffered run (trim_space ev.name) ev.payload w u))
]

after_first : (signals : List Signal) → All IsFirst signals → live_loop (pos 0) (pos 1) signals ≡ []
unfolding live_loop
after_first [] h = refl
after_first (message none ∷ signals) (_, h) = after_first signals h
after_first (message (some ev) ∷ signals) (e, h) = rw (e, after_first signals h) refl
after_first (s ∷ signals) h = refl

at_most_one :
    (signals : List Signal) → All IsFirst signals → length (live_loop (pos 0) (pos 0) signals) ≤ 1
unfolding live_loop
at_most_one [] h = omega arith
at_most_one (message none ∷ signals) (_, h) = at_most_one signals h
at_most_one (message (some ev) ∷ signals) (e, h) =
    elim (Bool-cases (is_terminal_stream_event ev.event)) [
      | inl t ↦ rw (e, t) (omega arith)
      | inr t ↦ rw (e, t, after_first signals h) (omega arith)
    ]
at_most_one (s ∷ signals) h = omega arith

arrived-IsFirst :
    (ms : List Message) (later : List Signal)
    → All MessageIsFirst ms
    → All IsFirst later
    → All IsFirst (arrived ms later)
arrived-IsFirst [] later h k = k
arrived-IsFirst (m ∷ ms) later (e, h) k =
    arrived-IsFirst ms (message (some m.event) ∷ later) h (e, k)

-- A client that listens from the start to a run that is not resumable gets at most one of the
-- executor's events, however many there are, where Redis does not fail and nothing of the run was
-- buffered or published before.
pub unbuffered_lost :
    (run : PendingRun) (evs : List ExecutorEvent) (w : World)
    → Quiet w
    → run.stream_resumable ≡ false
    → w.redis.buffer run.id ≡ []
    → w.redis.published ≡ []
    → length (live_loop (pos 0) (pos 0) (arrived (emit_all run evs w).redis.published [])) ≤ 1
unbuffered_lost run evs w q resumable empty fresh =
    let u : Unbuffered run w = record {
      quiet = q;
      resumable = resumable;
      empty = empty;
      first = rw fresh tt;
    } in
    at_most_one _ (arrived-IsFirst _ [] (all-Unbuffered run evs w u).first tt)

-- A rollback of a run that a delivery or a cron execution refers to does nothing, where Postgres does not
-- fail: the tables are as they were and no message tells the end.
pub rollback_stuck :
    (new_id : String → ℕ → String) (run : PendingRun) (w : World)
    → Quiet w
    → any (has_id run.id) w.conn.db.runs ≡ true
    → is_referenced run.id w.conn.db ≡ true
    → (((run_sql (rollback_run run.id) w).0 ≡ err foreign_key)
        × ((roll_back new_id run w).conn.db ≡ w.conn.db)
        × ((roll_back new_id run w).redis ≡ w.redis))
unfolding roll_back rolled_back run_sql rollback_run transaction statement ◌>>=◌ delete_run
    delete_checkpoints
rollback_stuck new_id run w q found held = (
  ground (arith, q.postgres, found, held),
  ground (arith, q.postgres, found, held),
  ground (arith, q.postgres, found, held),
)
