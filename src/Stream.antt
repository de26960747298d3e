-- ===== src/Stream.antt =====
-- Server-sent events of the API server (services/api-server/internal/server/server.go): where a
-- client resumes, which buffered events it gets, and the live phase over a Redis subscription.
pub mod Decimal
pub mod Resume
pub mod Order
use langopen.Prelude.{
  ℕ, zero, suc, ◌+◌, ◌-◌, ◌*◌, ◌≤◌, ◌<◌, String, Bool, true, false, ◌&&◌, ◌||◌, Option, none, some,
  List, [], ◌∷◌, ◌++◌, ◌==◌, ltb, leb, nat_eq, if◌then◌else◌, keep, not,
}
use langopen.Prelude.Int.{ℤ, pos, negsuc, ltb_ℤ, leb_ℤ, max_int64, inc_int64}
use langopen.Prelude.Text.{Codes, codes, codes_eq, to_lower, trim_codes}
use langopen.Json.{Json}

-- `id` is an int64; `payload` is the JSON document of `Data`.
pub record StreamEvent : Type 0 where
  pub id : ℤ
  pub event : String
  pub payload : Json

unfoldable pub mk_event : ℤ → String → Json → StreamEvent
mk_event id event payload = record { id = id; event = event; payload = payload }

-- The digits of `strconv.ParseInt`, with no bound yet.
unfoldable pub scan_digits : Codes → ℕ → Option ℕ
scan_digits [] n = some n
scan_digits (c ∷ s) n =
    if leb b'0' c && leb c b'9' then scan_digits s (n * 10 + (c - b'0')) else none

abbrev digits_of : Codes → Option ℕ
digits_of [] = none
digits_of (c ∷ s) = scan_digits (c ∷ s) 0

abbrev pos_int64 : Option ℕ → Option ℤ
pos_int64 none = none
pos_int64 (some n) = if leb n max_int64 then some (pos n) else none

abbrev neg_int64 : Option ℕ → Option ℤ
neg_int64 none = none
neg_int64 (some zero) = some (pos 0)
neg_int64 (some (suc n)) = if leb n max_int64 then some (negsuc n) else none

-- `strconv.ParseInt(s, 10, 64)`; `none` is any of its errors.
unfoldable pub parse_int : Codes → Option ℤ
unfolding scan_digits
parse_int [] = none
parse_int (c ∷ s) =
    if nat_eq c b'+'
    then pos_int64 (digits_of s)
    else if nat_eq c b'-'
    then neg_int64 (digits_of s)
    else pos_int64 (digits_of (c ∷ s))

abbrev after_last : Option ℤ → ℤ
after_last none = pos 0
after_last (some v) = inc_int64 v

-- `parseStartFrom`: the smallest id that the client still wants.
unfoldable pub parse_start_from : Codes → ℤ
unfolding parse_int codes_eq
parse_start_from last_id =
    if codes_eq last_id [] || codes_eq last_id (codes "-1")
    then pos 0
    else after_last (parse_int last_id)

unfoldable pub filter_events_from : List StreamEvent → ℤ → List StreamEvent
filter_events_from events start_from = keep (λ ev. not (ltb_ℤ ev.id start_from)) events

-- `isTerminalStreamEvent`.
unfoldable pub is_terminal_stream_event : String → Bool
unfolding trim_codes to_lower codes_eq
is_terminal_stream_event event =
    let word = trim_codes (to_lower (codes event)) in
    codes_eq word (codes "run_completed")
    || codes_eq word (codes "run_interrupted")
    || codes_eq word (codes "run_rolled_back")
    || codes_eq word (codes "run_failed")
    || codes_eq word (codes "run_sandbox_allocation_failed")

-- The loop of `streamSSE`: the events written. After each write the request may be found cancelled;
-- `gone` lists those answers, and is false when it has run out.
sse_loop : List StreamEvent → List Bool → List StreamEvent
sse_loop [] gone = []
sse_loop (ev ∷ rest) [] = ev ∷ sse_loop rest []
sse_loop (ev ∷ rest) (stop ∷ gone) = elim stop [ true ↦ ev ∷ [] | false ↦ ev ∷ sse_loop rest gone ]

unfoldable pub stream_sse : List StreamEvent → ℤ → List Bool → List StreamEvent
unfolding sse_loop filter_events_from
stream_sse events start_from gone = sse_loop (filter_events_from events start_from) gone

-- What the `select` of `streamSSEWithPubSub` can receive. A message whose payload is no JSON event
-- is `message none`.
pub data Signal : Type 0 where
  request_done idle_timeout channel_closed : Signal
  message : Option StreamEvent → Signal

-- The `for` over the subscription, from `last_event_id`: the events written. The list of signals is
-- what arrives; where it ends, the loop is still waiting.
unfoldable pub live_loop : ℤ → ℤ → List Signal → List StreamEvent
live_loop start_from last [] = []
live_loop start_from last (request_done ∷ _) = []
live_loop start_from last (idle_timeout ∷ _) = []
live_loop start_from last (channel_closed ∷ _) = []
live_loop start_from last (message none ∷ signals) = live_loop start_from last signals
live_loop start_from last (message (some ev) ∷ signals) =
    let skipped = live_loop start_from last signals in
    let rest = live_loop start_from ev.id signals in
    if leb_ℤ ev.id last || ltb_ℤ ev.id start_from
    then skipped
    else if is_terminal_stream_event ev.event
    then ev ∷ []
    else ev ∷ rest

-- The buffered phase; what follows it is `live last`, unless a terminal event ends the stream.
unfoldable pub initial_loop : List StreamEvent → ℤ → (ℤ → List StreamEvent) → List StreamEvent
initial_loop [] last live = live last
initial_loop (ev ∷ rest) last live =
    let more = initial_loop rest ev.id live in
    if is_terminal_stream_event ev.event then ev ∷ [] else ev ∷ more

-- `streamSSEWithPubSub`: the events written, for the buffer read and the signals that arrive.
unfoldable pub stream_sse_with_pub_sub : List StreamEvent → ℤ → List Signal → List StreamEvent
unfolding initial_loop live_loop filter_events_from
stream_sse_with_pub_sub events start_from signals =
    initial_loop (filter_events_from events start_from) (pos 0)
      (λ last. live_loop start_from last signals)
