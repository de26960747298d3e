-- ===== src/Stream/Resume.antt =====
-- A client that loses its connection and reconnects with `Last-Event-ID`.
use langopen.Prelude.{
  ℕ, ◌+◌, ◌<◌, ◌≡◌, refl, sym, ap, ◌∙◌, Bool, true, false, List, [], ◌∷◌, ◌++◌, arith, ◌≤◌, All,
  All-right,
}
use langopen.Prelude.Int.{ℤ, pos, pos_part, neg_part, ◌<ℤ◌, ◌≤ℤ◌, max_int64}
use langopen.Stream.{StreamEvent, filter_events_from, sse_loop, stream_sse, parse_start_from}
use langopen.Stream.Decimal.{format_id, parse_start_from-format_id}
use langopen.Stream.Order.{Above, From, filter-Above, filter-From}

-- Nothing is filtered out of what lies above `low`, if the bound is at most one more.
filter_all :
    (s low : ℤ) (evs : List StreamEvent)
    → pos_part s + neg_part low ≤ pos_part low + neg_part s + 1
    → Above low evs
    → filter_events_from evs s ≡ evs
unfolding filter_events_from
filter_all s low [] h up = refl
filter_all s low (ev ∷ rest) h up =
    ground (arith, filter_all s ev.id rest (omega (arith, up.0)) up.1, up.0)

Above-middle :
    (low : ℤ) (before : List StreamEvent) (ev : StreamEvent) (after : List StreamEvent)
    → Above low (before ++ ev ∷ after)
    → (low <ℤ ev.id) × Above ev.id after
Above-middle low [] ev after up = up
Above-middle low (x ∷ before) ev after up =
    let (lt, rest) = Above-middle x.id before ev after up.1 in (omega (arith, up.0), rest)

filter_rest :
    (n : ℕ) (low : ℤ) (before : List StreamEvent) (ev : StreamEvent) (after : List StreamEvent)
    → ev.id ≡ pos n
    → Above low (before ++ ev ∷ after)
    → filter_events_from (before ++ ev ∷ after) (pos (n + 1)) ≡ after
unfolding filter_events_from
filter_rest n low [] ev after e up =
    ground (arith, e, filter_all (pos (n + 1)) ev.id after (rw e (omega arith)) up.1)
filter_rest n low (x ∷ before) ev after e up =
    ground
      (arith, e, Above-middle x.id before ev after up.1, filter_rest n x.id before ev after e up.1)

filter-filter :
    (s t : ℤ) (evs : List StreamEvent)
    → s ≤ℤ t
    → filter_events_from (filter_events_from evs s) t ≡ filter_events_from evs t
unfolding filter_events_from
filter-filter s t [] h = refl
filter-filter s t (ev ∷ rest) h = ground (arith, filter-filter s t rest h)

-- What one connection writes is the beginning of what it was to write.
sse_loop_prefix :
    (evs : List StreamEvent) (gone : List Bool)
    → (rest : List StreamEvent) × (evs ≡ sse_loop evs gone ++ rest)
unfolding sse_loop
sse_loop_prefix [] gone = ([], refl)
sse_loop_prefix (ev ∷ evs) [] = let (rest, e) = sse_loop_prefix evs [] in (rest, ap (◌∷◌ ev) e)
sse_loop_prefix (ev ∷ evs) (true ∷ gone) = (evs, refl)
sse_loop_prefix (ev ∷ evs) (false ∷ gone) =
    let (rest, e) = sse_loop_prefix evs gone in (rest, ap (◌∷◌ ev) e)

sse_loop_connected : (evs : List StreamEvent) → sse_loop evs [] ≡ evs
unfolding sse_loop
sse_loop_connected [] = refl
sse_loop_connected (ev ∷ evs) = ap (◌∷◌ ev) (sse_loop_connected evs)

snoc_regroup :
    (before : List StreamEvent) (ev : StreamEvent) (rest : List StreamEvent)
    → (before ++ ev ∷ []) ++ rest ≡ before ++ ev ∷ rest
snoc_regroup [] ev rest = refl
snoc_regroup (x ∷ before) ev rest = ap (◌∷◌ x) (snoc_regroup before ev rest)

-- The second connection's events, once the first one's are known to be `before` and `ev`.
filter_resumed :
    (low : ℤ) (events : List StreamEvent) (start_from : ℤ) (before : List StreamEvent)
    (ev : StreamEvent) (rest : List StreamEvent) (n : ℕ)
    → Above low events
    → filter_events_from events start_from ≡ before ++ ev ∷ rest
    → ev.id ≡ pos n
    → filter_events_from events (pos (n + 1)) ≡ rest
filter_resumed low events start_from before ev rest n up shape e =
    sym (filter-filter start_from (pos (n + 1)) events later)
    ∙ ap (λ evs. filter_events_from evs (pos (n + 1))) shape
    ∙ filter_rest n low before ev rest e (rw (← shape) (filter-Above low start_from events up))
  where
    wanted : All (From start_from) (before ++ ev ∷ rest)
    wanted = rw (← shape) (filter-From start_from events)

    later : start_from ≤ℤ pos (n + 1)
    later =
        let h = (All-right (From start_from) before (ev ∷ rest) wanted).0 in ground (arith, h, e)

-- Where the buffered ids ascend: if a connection that starts at `start_from` ends after `ev`, wherever
-- it is cut, and the id of `ev` is not negative and below the largest int64, then a second one with
-- that id in `Last-Event-ID`, which is not cut, writes exactly the events that the first was still to
-- write.
pub resume_complete :
    (low : ℤ) (events : List StreamEvent) (start_from : ℤ) (gone : List Bool)
    (before : List StreamEvent) (ev : StreamEvent) (n : ℕ)
    → Above low events
    → stream_sse events start_from gone ≡ before ++ ev ∷ []
    → ev.id ≡ pos n
    → n < max_int64
    → stream_sse events start_from gone ++ stream_sse events (parse_start_from (format_id ev.id)) []
      ≡ stream_sse events start_from []
unfolding stream_sse
resume_complete low events start_from gone before ev n up cut e h =
    let whole = filter_events_from events start_from in
    let (rest, split) = sse_loop_prefix whole gone in
    let shape : whole ≡ before ++ ev ∷ rest =
      split ∙ ap (λ evs. evs ++ rest) cut ∙ snoc_regroup before ev rest in
    ap (λ s. sse_loop whole gone ++ sse_loop (filter_events_from events s) [])
      (ap (λ id. parse_start_from (format_id id)) e ∙ parse_start_from-format_id n h)
    ∙ ap (λ evs. sse_loop whole gone ++ evs)
        (sse_loop_connected _ ∙ filter_resumed low events start_from before ev rest n up shape e)
    ∙ sym split
    ∙ sym (sse_loop_connected whole)
