-- ===== src/Examples/Streams.antt =====
-- A stream of two events, cut after the first.
use langopen.Prelude.{ℕ, ◌≡◌, refl, String, true, List, [], ◌∷◌, ◌++◌, arith, All}
use langopen.Prelude.Int.{pos, ◌≤ℤ◌}
use langopen.Json.{null}
use langopen.Stream.{
  StreamEvent, message, stream_sse, stream_sse_with_pub_sub, parse_start_from, filter_events_from,
}
use langopen.Stream.Decimal.{format_id, parse_start_from-format_id}
use langopen.Stream.Order.{Above, TerminalLast, stream_ascending, stream_stops}
use langopen.Stream.Resume.{resume_complete}
use langopen.Prelude.{some}

abbrev event : ℕ → String → StreamEvent
event n name = record { id = pos n; event = name; payload = null }

abbrev first : StreamEvent
first = event 1 "run_started"

abbrev last : StreamEvent
last = event 2 "run_completed"

abbrev both : List StreamEvent
both = first ∷ last ∷ []

resume_complete_example :
    stream_sse both (pos 0) (true ∷ []) ++ stream_sse both (parse_start_from (format_id (pos 1))) []
    ≡ stream_sse both (pos 0) []
unfolding stream_sse filter_events_from
resume_complete_example =
    resume_complete (pos 0) both (pos 0) (true ∷ []) [] first 1 (omega arith, (omega arith, tt))
      refl refl (omega arith)

stream_ascending_example :
    Above (pos 0) (stream_sse_with_pub_sub both (pos 1) (message (some (event 3 "late")) ∷ []))
stream_ascending_example =
    stream_ascending both (pos 1) (message (some (event 3 "late")) ∷ [])
      (omega arith, (omega arith, tt))

stream_stops_example :
    All (λ ev. pos 2 ≤ℤ ev.id) (stream_sse_with_pub_sub both (pos 2) (message (some last) ∷ []))
    × TerminalLast (stream_sse_with_pub_sub both (pos 2) (message (some last) ∷ []))
stream_stops_example = stream_stops both (pos 2) (message (some last) ∷ [])

parse_start_from-format_id_example : parse_start_from (format_id (pos 41)) ≡ pos 42
parse_start_from-format_id_example = parse_start_from-format_id 41 (omega arith)
