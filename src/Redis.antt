-- ===== src/Redis.antt =====
-- Redis as the services use it: the wake-up queue, the cancel key of a run, and the buffer and the
-- channel of its events. Round trips fail as those of Postgres do. Keys do not expire: the model
-- covers a run for less than `RUN_STREAM_BUFFER_TTL_SECONDS`.
use langopen.Prelude.{
  ℕ, String, Bool, true, false, Option, none, List, [], ◌∷◌, ◌++◌, ◌==◌, if◌then◌else◌,
}
use langopen.Stream.{StreamEvent}
use langopen.Db.Sql.{Conn, Sql, Result, trip}

pub record Message : Type 0 where
  pub run_id : String
  pub event : StreamEvent

-- `cancel`, `buffer` and the channels are keyed by run id; the newest message is first.
pub record Redis : Type 0 where
  pub wakeups : ℕ
  pub cancel : String → Option String
  pub buffer : String → List StreamEvent
  pub published : List Message
  pub faults : List Bool

-- What a step of the worker acts on. `clock` is the time that it reads, `drawn` the number of ids
-- that `contracts.NewID` has made.
pub record World : Type 0 where
  pub conn : Conn
  pub redis : Redis
  pub clock : ℕ
  pub drawn : ℕ

-- One round trip: false where it failed.
unfoldable pub redis_trip : Redis → Bool × Redis
redis_trip r = let (fails, fs) = trip r.faults in (fails, record r { faults = fs })

abbrev pub effect : Bool → (Redis → Redis) → Redis → Redis
effect true f r = r
effect false f r = f r

-- A command whose answer is dropped.
unfoldable pub command : (Redis → Redis) → Redis → Redis
unfolding redis_trip
command f r = let (fails, r') = redis_trip r in effect fails f r'

unfoldable pub publish : Message → Redis → Redis
unfolding command
publish m r = command (λ s. record s { published = m ∷ s.published }) r

abbrev pub at_key : {A : Type 0} → String → A → (String → A) → String → A
at_key k v f j = if j == k then v else f j

-- `RPush` on the buffer of a run.
unfoldable pub push_event : String → StreamEvent → Redis → Redis
unfolding command
push_event id ev r =
    command (λ s. record s { buffer = at_key id (s.buffer id ++ ev ∷ []) s.buffer }) r

-- `Expire`, which changes nothing that the model holds.
unfoldable pub expire : Redis → Redis
unfolding command
expire r = command (λ s. s) r

unfoldable pub delete_buffer : String → Redis → Redis
unfolding command
delete_buffer id r = command (λ s. record s { buffer = at_key id [] s.buffer }) r

unfoldable pub delete_cancel : String → Redis → Redis
unfolding command
delete_cancel id r = command (λ s. record s { cancel = at_key id none s.cancel }) r

-- A round trip to Postgres.
unfoldable pub run_sql : {A : Type 0} → Sql A → World → Result A × World
run_sql m w = let (r, c) = m w.conn in (r, record w { conn = c })
