-- ===== src/Stream/Order.antt =====
-- What a subscriber is sent: the order of the ids, and where the stream stops.
use langopen.Prelude.{
  ◌≡◌, refl, ◌⊎◌, inl, inr, false, List, [], ◌∷◌, arith, Bool-cases, All, All-keep,
}
use langopen.Prelude.Int.{ℤ, pos, ◌<ℤ◌, ◌≤ℤ◌, ltb_ℤ}
use langopen.Stream.{
  StreamEvent, Signal, request_done, idle_timeout, channel_closed, message, filter_events_from,
  live_loop, initial_loop, stream_sse_with_pub_sub, is_terminal_stream_event,
}
use mathlib.Core.Option.{none, some}

-- The ids ascend strictly, from above `low`.
abbrev pub Above : ℤ → List StreamEvent → Type 0
Above low [] = Unit
Above low (ev ∷ rest) = (low <ℤ ev.id) × Above ev.id rest

-- Only the last event can be terminal.
abbrev pub TerminalLast : List StreamEvent → Type 0
TerminalLast [] = Unit
TerminalLast (ev ∷ rest) =
    ((rest ≡ []) ⊎ (is_terminal_stream_event ev.event ≡ false)) × TerminalLast rest

abbrev pub From : ℤ → StreamEvent → Type 0
From start_from ev = start_from ≤ℤ ev.id

pub Above-lower : (a b : ℤ) (evs : List StreamEvent) → a ≤ℤ b → Above b evs → Above a evs
Above-lower a b [] h up = tt
Above-lower a b (ev ∷ rest) h up = (omega arith, up.1)

pub filter-Above :
    (low start_from : ℤ) (evs : List StreamEvent)
    → Above low evs
    → Above low (filter_events_from evs start_from)
unfolding filter_events_from
filter-Above low start_from [] up = tt
filter-Above low start_from (ev ∷ rest) up = elim (Bool-cases (ltb_ℤ ev.id start_from)) [
  | inl early ↦
      rw early
        (Above-lower low ev.id _ (omega (arith, up.0)) (filter-Above ev.id start_from rest up.1))
  | inr wanted ↦ rw wanted (up.0, filter-Above ev.id start_from rest up.1)
]

live_loop-Above :
    (start_from last : ℤ) (signals : List Signal) → Above last (live_loop start_from last signals)
unfolding live_loop
live_loop-Above start_from last [] = tt
live_loop-Above start_from last (request_done ∷ _) = tt
live_loop-Above start_from last (idle_timeout ∷ _) = tt
live_loop-Above start_from last (channel_closed ∷ _) = tt
live_loop-Above start_from last (message none ∷ signals) = live_loop-Above start_from last signals
live_loop-Above start_from last (message (some ev) ∷ signals) =
    ground
      (arith, live_loop-Above start_from last signals, live_loop-Above start_from ev.id signals)

initial_loop-Above :
    (live : ℤ → List StreamEvent)
    → ((last : ℤ) → Above last (live last))
    → (low : ℤ) (evs : List StreamEvent) → Above low evs
    → Above low (initial_loop evs low live)
unfolding initial_loop
initial_loop-Above live up low [] h = up low
initial_loop-Above live up low (ev ∷ rest) h =
    ground (arith, initial_loop-Above live up ev.id rest h.1, h.0)

-- If the ids in the buffer are positive and ascend strictly, then so do the ids that a subscriber
-- is sent, buffered and live ones together, whatever arrives on the channel: no event twice, none
-- out of order.
pub stream_ascending :
    (events : List StreamEvent) (start_from : ℤ) (signals : List Signal)
    → Above (pos 0) events
    → Above (pos 0) (stream_sse_with_pub_sub events start_from signals)
unfolding stream_sse_with_pub_sub
stream_ascending events start_from signals up =
    initial_loop-Above (λ last. live_loop start_from last signals)
      (λ last. live_loop-Above start_from last signals) (pos 0)
      (filter_events_from events start_from) (filter-Above (pos 0) start_from events up)

live_loop-From :
    (start_from last : ℤ) (signals : List Signal)
    → All (From start_from) (live_loop start_from last signals)
unfolding live_loop
live_loop-From start_from last [] = tt
live_loop-From start_from last (request_done ∷ _) = tt
live_loop-From start_from last (idle_timeout ∷ _) = tt
live_loop-From start_from last (channel_closed ∷ _) = tt
live_loop-From start_from last (message none ∷ signals) = live_loop-From start_from last signals
live_loop-From start_from last (message (some ev) ∷ signals) =
    ground (arith, live_loop-From start_from last signals, live_loop-From start_from ev.id signals)

live_loop-TerminalLast :
    (start_from last : ℤ) (signals : List Signal) → TerminalLast (live_loop start_from last signals)
unfolding live_loop
live_loop-TerminalLast start_from last [] = tt
live_loop-TerminalLast start_from last (request_done ∷ _) = tt
live_loop-TerminalLast start_from last (idle_timeout ∷ _) = tt
live_loop-TerminalLast start_from last (channel_closed ∷ _) = tt
live_loop-TerminalLast start_from last (message none ∷ signals) =
    live_loop-TerminalLast start_from last signals
live_loop-TerminalLast start_from last (message (some ev) ∷ signals) =
    elim (Bool-cases (is_terminal_stream_event ev.event)) [
      | inl t ↦ ground (arith, live_loop-TerminalLast start_from last signals)
      | inr t ↦ ground (
        arith,
        live_loop-TerminalLast start_from last signals,
        live_loop-TerminalLast start_from ev.id signals,
      )
    ]

initial_loop-All {κ} :
    (P : StreamEvent → Type κ) (live : ℤ → List StreamEvent)
    → ((last : ℤ) → All P (live last))
    → (low : ℤ) (evs : List StreamEvent) → All P evs
    → All P (initial_loop evs low live)
unfolding initial_loop
initial_loop-All P live h low [] a = h low
initial_loop-All P live h low (ev ∷ rest) a =
    elim (Bool-cases (is_terminal_stream_event ev.event)) [
      | inl t ↦ rw t (a.0, tt)
      | inr t ↦ rw t (a.0, initial_loop-All P live h ev.id rest a.1)
    ]

initial_loop-TerminalLast :
    (live : ℤ → List StreamEvent)
    → ((last : ℤ) → TerminalLast (live last))
    → (low : ℤ) (evs : List StreamEvent) → TerminalLast (initial_loop evs low live)
unfolding initial_loop
initial_loop-TerminalLast live h low [] = h low
initial_loop-TerminalLast live h low (ev ∷ rest) =
    elim (Bool-cases (is_terminal_stream_event ev.event)) [
      | inl t ↦ rw t (inl refl, tt)
      | inr t ↦ rw t (inr t, initial_loop-TerminalLast live h ev.id rest)
    ]

pub filter-From :
    (start_from : ℤ) (evs : List StreamEvent)
    → All (From start_from) (filter_events_from evs start_from)
unfolding filter_events_from
filter-From start_from evs = All-keep (From start_from) _ (λ ev h. ground arith) evs

-- Whatever the buffer holds and whatever arrives: no event below the point of resumption is sent,
-- and nothing is sent after a terminal event.
pub stream_stops :
    (events : List StreamEvent) (start_from : ℤ) (signals : List Signal)
    → All (λ ev. start_from ≤ℤ ev.id) (stream_sse_with_pub_sub events start_from signals)
      × TerminalLast (stream_sse_with_pub_sub events start_from signals)
unfolding stream_sse_with_pub_sub
stream_stops events start_from signals = (
  initial_loop-All (From start_from) _ (λ last. live_loop-From start_from last signals) (pos 0) _
      (filter-From start_from events),
  initial_loop-TerminalLast _ (λ last. live_loop-TerminalLast start_from last signals) (pos 0) _,
)
