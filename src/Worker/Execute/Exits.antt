-- ===== src/Worker/Execute/Exits.antt =====
-- The exits of an execution, one by one: what they leave of the run's rows, and the message they leave.
use langopen.Prelude.{
  ℕ, String, true, false, List, [], ◌∷◌, ◌==◌, ◌≡◌, refl, sym, ◌∙◌, arith, Bool-cases, inl, inr,
}
use mathlib.Core.Path.{subst}
use langopen.Prelude.Text.{trim_space}
use langopen.Json.{Json, null}
use langopen.Contracts.{RunStatus, success, error, interrupted, run_status_text}
use langopen.Stream.{is_terminal_stream_event}
use langopen.Redis.{World, run_sql, redis_trip}
use langopen.Worker.{update_run_result, update_cron_execution_status, rollback_run}
use langopen.Worker.Execute.{
  PendingRun, ExecutorEvent, act, emit_stream_event, current_cancel_action, action_of, emit_all,
  final_event, fail_run, rolled_back, roll_back, updated, end_run, status_payload,
}
use langopen.Worker.Execute.Steps.{
  Stands, Absent, held, is_announced, Quiet, update_ok, update-Stands, update-Quiet, count_runs,
  count-Quiet, emit_announces, emit-Quiet, enqueue_keeps, enqueue_announces, rollback_ok,
  rollback-Absent, rollback-Quiet, rollback_refused, drop_announces,
}

-- Each row of the run has the status, and the newest message tells that the run's stream ends.
pub record Settled (id : String) (status : RunStatus) (w : World) : Type 0 where
  pub stands : Stands id status w.conn.db.runs
  pub announced : is_announced id w ≡ true

-- The run has no row, and the newest message tells that its stream ends.
pub record RolledBack (id : String) (w : World) : Type 0 where
  pub absent : Absent id w.conn.db.runs
  pub announced : is_announced id w ≡ true

final_announces :
    (run : PendingRun) (status : RunStatus) (e : Json) (w : World)
    → Quiet w
    → is_announced run.id (final_event run status e w) ≡ true
unfolding final_event is_terminal_stream_event
final_announces run interrupted e w q = emit_announces run "run_interrupted" _ w q refl
final_announces run success e w q = emit_announces run "run_completed" _ w q refl
final_announces run status e w q = emit_announces run "run_failed" _ w q refl

final_keeps :
    (run : PendingRun) (status : RunStatus) (e : Json) (w : World)
    → (final_event run status e w).conn.db.runs ≡ w.conn.db.runs
unfolding final_event emit_stream_event
final_keeps run interrupted e w = refl
final_keeps run success e w = refl
final_keeps run status e w = refl

pub all-Quiet :
    (run : PendingRun) (evs : List ExecutorEvent) (w : World) → Quiet w → Quiet (emit_all run evs w)
unfolding emit_all
all-Quiet run [] w q = q
all-Quiet run (ev ∷ evs) w q = elim (Bool-cases (trim_space ev.name == "")) [
  | inl blank ↦ rw blank (all-Quiet run evs w q)
  | inr named ↦ rw named (all-Quiet run evs _ (emit-Quiet run (trim_space ev.name) ev.payload w q))
]

pub look-Quiet : (id : String) (w : World) → Quiet w → Quiet (current_cancel_action id w).1
unfolding current_cancel_action redis_trip
look-Quiet id w q = record { postgres = q.postgres; redis = ground (arith, q.redis) }

-- Where Redis does not fail, the action is that of the cancel key.
pub looked :
    (id : String) (w : World)
    → Quiet w
    → (current_cancel_action id w).0 ≡ action_of false (w.redis.cancel id)
unfolding current_cancel_action redis_trip
looked id w q = rw q.redis refl

module _ (new_id : String → ℕ → String) (run : PendingRun) where
  pub fail-Settled :
      (e : Json) (event : String) (payload : Json) (w : World)
      → Quiet w
      → is_terminal_stream_event event ≡ true
      → Settled run.id error (fail_run new_id run e event payload w)
  unfolding fail_run act emit_stream_event
  fail-Settled e event payload w q h =
      let after = (run_sql (update_run_result w.clock run.id error null e) w).1 in
      let kept = update-Quiet w.clock run.id error null e w q in
      let counted = act (update_cron_execution_status run.id "error") after in
      let told = emit_stream_event run event payload counted in
      record {
        stands =
            subst (Stands run.id error)
              (sym (enqueue_keeps new_id run told ∙ count_runs run.id "error" after))
              (update-Stands w.clock run.id error null e w q);
        announced =
            enqueue_announces new_id run _
              (emit_announces run event payload counted (count-Quiet run.id "error" after kept) h);
      }

  pub end-Settled :
      (status : RunStatus) (o e : Json) (w : World)
      → Quiet w
      → Settled run.id status (end_run new_id run status o e w)
  unfolding end_run updated
  end-Settled status o e w q =
      let after = (run_sql (update_run_result w.clock run.id status o e) w).1 in
      let kept = update-Quiet w.clock run.id status o e w q in
      let counted = act (update_cron_execution_status run.id (run_status_text status)) after in
      let told = final_event run status e counted in
      rw (update_ok w.clock run.id status o e w q) (record {
        stands =
            subst (Stands run.id status)
              (sym (
                enqueue_keeps new_id run told
                ∙ final_keeps run status e counted
                ∙ count_runs run.id (run_status_text status) after))
              (update-Stands w.clock run.id status o e w q);
        announced =
            enqueue_announces new_id run _
              (final_announces run status e counted (count-Quiet run.id _ after kept));
      })

  pub rollback-RolledBack :
      (w : World) → Quiet w → held run.id w ≡ false → RolledBack run.id (roll_back new_id run w)
  unfolding roll_back rolled_back is_terminal_stream_event emit_stream_event
  rollback-RolledBack w q free =
      let after = (run_sql (rollback_run run.id) w).1 in
      let kept = rollback-Quiet run.id w q free in
      let counted = act (update_cron_execution_status run.id "rolled_back") after in
      let told = status_payload run "rolled_back" in
      rw (rollback_ok run.id w q free) (record {
        absent =
            subst (Absent run.id) (sym (count_runs run.id "rolled_back" after))
              (rollback-Absent run.id w q free);
        announced = drop_announces run.id (emit_stream_event run "run_rolled_back" told counted) (
            emit_announces run "run_rolled_back" told counted
              (count-Quiet run.id "rolled_back" after kept) refl);
      })

  pub rollback-held :
      (w : World) → Quiet w → held run.id w ≡ true → held run.id (roll_back new_id run w) ≡ true
  unfolding roll_back rolled_back
  rollback-held w q h = let (bad, same) = rollback_refused run.id w q h in rw (bad, same) h
