-- ===== src/Runs/Created.antt =====
-- `createRunInPostgres`, taken apart: what each of its statements left, if it returned a run.
use langopen.Prelude.{
  ℕ, String, ◌≡◌, ◌≢◌, ap, ◌∙◌, Bool, Option, none, some, List, ◌∷◌, ◌==◌, if◌then◌else◌, arith,
  Bool-cases, inl, inr,
}
use langopen.Contracts.{
  MultitaskStrategy, pending, reject, rollback, interrupt, enqueue, other_strategy,
}
use langopen.Db.{RunRow, Db}
use langopen.Db.Sql.{ok, Conn, healthy, statement, ◌>>=◌, with_unit, pure, query}
use langopen.Db.Laws.{Repeats, Repeats-statement, repeats_rules, healthy_bind, transaction_inverts}
use langopen.Db.Tables.{
  update_rows, without_run, delete_checkpoints, delete_run, insert_run, insert_thread, oldest,
}
use langopen.Runs.{
  Run, row_of, is_active_on, set_interrupted, check_assistant, ensure_thread, make_thread,
  check_foreign_thread, displace, resolve_active, create_body, create_run_in_postgres,
}

abbrev pub displaced_by : MultitaskStrategy → ℕ → String → List RunRow → List RunRow
displaced_by interrupt now id rows = update_rows id (set_interrupted now) rows
displaced_by rollback now id rows = without_run id rows
displaced_by _ now id rows = rows

-- The rows of `runs` once the active run that was found has been dealt with.
abbrev pub displaced : MultitaskStrategy → ℕ → Option RunRow → List RunRow → List RunRow
displaced strategy now none rows = rows
displaced strategy now (some row) rows =
    if row.id == "" then rows else displaced_by strategy now row.id rows

pub runs-insert_run : (row : RunRow) (d d' : Db) → insert_run row d ≡ ok d' → d'.runs ≡ row ∷ d.runs
unfolding insert_run
runs-insert_run row d d' h = ground arith

ensure_thread-Repeats : (p t a : String) (now : ℕ) → Repeats (ensure_thread p t a now)
unfolding ensure_thread make_thread check_foreign_thread
ensure_thread-Repeats p t a now = search repeats_rules depth 12

resolve_active-Repeats :
    (s : MultitaskStrategy) (now : ℕ) (o : Option RunRow) → Repeats (resolve_active s now o)
unfolding resolve_active displace
resolve_active-Repeats s now none = search repeats_rules
resolve_active-Repeats reject now (some row) = search repeats_rules
resolve_active-Repeats rollback now (some row) = search repeats_rules
resolve_active-Repeats interrupt now (some row) = search repeats_rules
resolve_active-Repeats enqueue now (some row) = search repeats_rules
resolve_active-Repeats (other_strategy _) now (some row) = search repeats_rules

-- What each part leaves of `runs`.
pub runs-ensure_thread :
    (p t a : String) (now : ℕ) (d d' : Db)
    → ensure_thread p t a now (healthy d) ≡ (ok tt, healthy d')
    → d'.runs ≡ d.runs
unfolding ensure_thread make_thread check_foreign_thread statement ◌>>=◌ insert_thread
runs-ensure_thread p t a now d d' h = ground arith

runs-rollback :
    (now : ℕ) (id : String) (d d' : Db)
    → displace rollback now id (healthy d) ≡ (ok tt, healthy d')
    → d'.runs ≡ without_run id d.runs
unfolding displace statement ◌>>=◌ delete_checkpoints delete_run
runs-rollback now id d d' h = ground arith

pub runs-displace :
    (s : MultitaskStrategy) (now : ℕ) (id : String) (d d' : Db)
    → displace s now id (healthy d) ≡ (ok tt, healthy d')
    → (d'.runs ≡ displaced_by s now id d.runs) × (s ≢ reject)
unfolding displace statement
runs-displace reject now id d d' h = cc
runs-displace rollback now id d d' h = (runs-rollback now id d d' h, λ e. cc e)
runs-displace interrupt now id d d' h = ground arith
runs-displace enqueue now id d d' h = ground arith
runs-displace (other_strategy _) now id d d' h = ground arith

pub runs-resolve_active :
    (s : MultitaskStrategy) (now : ℕ) (o : Option RunRow) (d d' : Db)
    → resolve_active s now o (healthy d) ≡ (ok tt, healthy d')
    → d'.runs ≡ displaced s now o d.runs
unfolding resolve_active
runs-resolve_active s now none d d' h = ground arith
runs-resolve_active s now (some row) d d' h = elim (Bool-cases (row.id == "")) [
  | inl e ↦ ground (arith, e)
  | inr e ↦ rw e (runs-displace s now row.id d d' (rw e at h)).0
]

pub check_assistant-Repeats : (p a : String) → Repeats (check_assistant p a)
unfolding check_assistant
check_assistant-Repeats p a = search repeats_rules depth 12

pub runs-check_assistant :
    (p a : String) (d d' : Db) → check_assistant p a (healthy d) ≡ (ok tt, healthy d') → d' ≡ d
unfolding check_assistant statement ◌>>=◌
runs-check_assistant p a d d' h = ground arith

pub create_body-Repeats :
    (id : String) (now : ℕ) (p t a : String) (s : MultitaskStrategy) (b : Bool) (url : String)
    → Repeats (create_body id now p t a s b url)
unfolding create_body
create_body-Repeats id now p t a s b url =
    search (repeats_rules, check_assistant-Repeats, ensure_thread-Repeats, resolve_active-Repeats)
      depth 16

-- The parts of a successful creation: the tables after the thread is there, and those after the
-- active run has been dealt with.
pub record Created (now : ℕ) (p t a : String) (s : MultitaskStrategy) (row : RunRow) (d e : Db)
    : Type 0 where
  pub checked : Db
  pub allowed : check_assistant p a (healthy d) ≡ (ok tt, healthy checked)
  pub threaded : Db
  pub made : ensure_thread p t a now (healthy checked) ≡ (ok tt, healthy threaded)
  pub resolved : Db
  pub dealt :
      resolve_active s now (oldest (is_active_on t) threaded.runs) (healthy threaded)
      ≡ (ok tt, healthy resolved)
  pub inserted : insert_run row resolved ≡ ok e

create_tail :
    (row : RunRow) (run run' : Run) (d e : Db)
    → (statement (λ d. with_unit (insert_run row d)) >>= λ _. pure run) (healthy d)
      ≡ (ok run', healthy e)
    → (insert_run row d ≡ ok e) × (run' ≡ run)
unfolding statement ◌>>=◌
create_tail row run run' d e h = ground arith

abbrev pub created_run : String → String → String → MultitaskStrategy → Bool → ℕ → Run
created_run id t a s b now = record {
  id = id;
  thread_id = t;
  assistant_id = a;
  status = pending;
  strategy = s;
  stream_resumable = b;
  created_at = now;
  updated_at = now;
}

dealt_of :
    (s : MultitaskStrategy) (now : ℕ) (p : RunRow → Bool) (o : Option RunRow) (d d' e : Db)
    → query (λ d. oldest p d.runs) (healthy d) ≡ (ok o, healthy d')
    → resolve_active s now o (healthy d') ≡ (ok tt, healthy e)
    → resolve_active s now (oldest p d.runs) (healthy d) ≡ (ok tt, healthy e)
unfolding statement
dealt_of s now p o d d' e q h = ground arith

pub create_body-Created :
    (id : String) (now : ℕ) (p t a : String) (s : MultitaskStrategy) (b : Bool) (url : String)
    (d e : Db) (run : Run)
    → create_body id now p t a s b url (healthy d) ≡ (ok run, healthy e)
    → (run ≡ created_run id t a s b now)
      × Created now p t a s (row_of (created_run id t a s b now) (some t) url) d e
unfolding create_body
create_body-Created id now p t a s b url d e run h =
    healthy_bind _ _ d e run (check_assistant-Repeats p a) h λ u₁ d₁ e₁ h₁.
      healthy_bind _ _ d₁ e run (ensure_thread-Repeats p t a now) h₁ λ u₂ d₂ e₂ h₂.
        healthy_bind _ _ d₂ e run (Repeats-statement _) h₂ λ o d₃ e₃ h₃.
          healthy_bind _ _ d₃ e run (resolve_active-Repeats s now o) h₃ λ u₄ d₄ e₄ h₄.
            let (inserted, same) = create_tail _ _ run d₄ e h₄ in
            (
              same,
              record {
                checked = d₁;
                allowed = e₁;
                threaded = d₂;
                made = e₂;
                resolved = d₄;
                dealt = dealt_of s now (is_active_on t) o d₂ d₃ d₄ e₃ e₄;
                inserted = inserted;
              },
            )

-- The thread's creation leaves the runs alone.
pub runs-threaded :
    (now : ℕ) (p t a : String) (s : MultitaskStrategy) (row : RunRow) (d e : Db)
    (c : Created now p t a s row d e)
    → c.threaded.runs ≡ d.runs
runs-threaded now p t a s row d e c =
    runs-ensure_thread p t a now c.checked c.threaded c.made
    ∙ ap (λ (x : Db). x.runs) (runs-check_assistant p a d c.checked c.allowed)

pub runs-Created :
    (now : ℕ) (p t a : String) (s : MultitaskStrategy) (row : RunRow) (d e : Db)
    → Created now p t a s row d e
    → e.runs ≡ row ∷ displaced s now (oldest (is_active_on t) d.runs) d.runs
runs-Created now p t a s row d e c =
    runs-insert_run row c.resolved e c.inserted
    ∙ ap (◌∷◌ row) (
        runs-resolve_active s now _ c.threaded c.resolved c.dealt
        ∙ ap (λ rows. displaced s now (oldest (is_active_on t) rows) rows)
            (runs-threaded now p t a s row d e c))

-- A creation that returned a run, over any connection.
pub create_run-Created :
    (id : String) (now : ℕ) (p t a : String) (s : MultitaskStrategy) (b : Bool) (url : String)
    (c : Conn) (run : Run)
    → (create_run_in_postgres id now p t a s b url c).0 ≡ ok run
    → (run ≡ created_run id t a s b now)
      × Created now p t a s
          (row_of (created_run id t a s b now) (some t) url)
          c.db
          (create_run_in_postgres id now p t a s b url c).1.db
unfolding create_run_in_postgres
create_run-Created id now p t a s b url c run h =
    create_body-Created id now p t a s b url c.db _ run
      (transaction_inverts _ (create_body-Repeats id now p t a s b url) c run h)
