-- ===== src/Runs/Scope.antt =====
-- A key's project bounds what it can create runs on, and `reject` refuses without a trace.
use langopen.Prelude.{
  ℕ, String, ◌≡◌, ◌≢◌, ◌⊎◌, inl, inr, Bool, true, false, some, none, ◌∷◌, arith, eq_iff, ap, refl,
  sym, ◌∙◌,
}
use langopen.Contracts.{MultitaskStrategy, reject}
use langopen.Db.{RunRow, Db}
use langopen.Db.Sql.{
  Error, ok, err, Conn, healthy, statement, ◌>>=◌, transaction_atomic, Result-cases,
}
use langopen.Db.Tables.{insert_run, oldest, assistant_in_project, thread_in_project, thread_exists}
use langopen.Runs.{
  Run, create_stateless_run_in_postgres, row_of, is_active_on, check_assistant,
  check_foreign_thread, make_thread, ensure_thread, create_run_in_postgres,
}
use langopen.Runs.Created.{create_run-Created, runs-check_assistant, runs-threaded}
use langopen.Runs.Multitask.{not_rejected}

scoped_assistant :
    (p a : String) (d e : Db)
    → p ≢ ""
    → check_assistant p a (healthy d) ≡ (ok tt, healthy e)
    → assistant_in_project a p d ≡ true
unfolding check_assistant statement ◌>>=◌
scoped_assistant p a d e named h = ground (arith, h, eq_iff p "")

scoped_thread :
    (p t a : String) (now : ℕ) (d e : Db)
    → p ≢ ""
    → ensure_thread p t a now (healthy d) ≡ (ok tt, healthy e)
    → (thread_in_project t p d ≡ true) ⊎ (thread_exists t d ≡ false)
unfolding ensure_thread make_thread check_foreign_thread statement ◌>>=◌
scoped_thread p t a now d e named h = ground (arith, h, eq_iff p "")

-- With the key of a project, a run is only created on an assistant of that project and on a thread
-- that is the project's or that did not exist.
pub created_in_scope :
    (id : String) (now : ℕ) (p t a : String) (s : MultitaskStrategy) (b : Bool) (url : String)
    (c : Conn) (run : Run)
    → p ≢ ""
    → (create_run_in_postgres id now p t a s b url c).0 ≡ ok run
    → (assistant_in_project a p c.db ≡ true)
      × ((thread_in_project t p c.db ≡ true) ⊎ (thread_exists t c.db ≡ false))
created_in_scope id now p t a s b url c run named h =
    let (_, made) = create_run-Created id now p t a s b url c run h in
    let same = runs-check_assistant p a c.db made.checked made.allowed in
    (
      scoped_assistant p a c.db made.checked named made.allowed,
      scoped_thread p t a now c.db made.threaded named
          (ap (λ d. ensure_thread p t a now (healthy d)) (sym same) ∙ made.made),
    )

-- `reject`, on a thread whose oldest active run has a proper id: no run is returned, over whatever
-- connection, and nothing has changed.
pub reject_refuses :
    (id : String) (now : ℕ) (p t a : String) (b : Bool) (url : String) (c : Conn) (row : RunRow)
    → oldest (is_active_on t) c.db.runs ≡ some row
    → row.id ≢ ""
    → ((e : Error) × ((create_run_in_postgres id now p t a reject b url c).0 ≡ err e))
      × ((create_run_in_postgres id now p t a reject b url c).1.db ≡ c.db)
reject_refuses id now p t a b url c row found named =
    elim (Result-cases (create_run_in_postgres id now p t a reject b url c).0) [
      | inl (run, h) ↦
          let (_, made) = create_run-Created id now p t a reject b url c run h in
          let same = runs-threaded now p t a reject _ c.db _ made in
          absurd (
            not_rejected reject now row made.threaded made.resolved named
              (rw (ap (oldest (is_active_on t)) same ∙ found) at made.dealt) refl)
      | inr (e, h) ↦ ((e, h), unfold create_run_in_postgres in transaction_atomic _ c h)
    ]

-- With the key of a project, a run without a thread is only created on an assistant of that project,
-- as the one row that is new, over whatever connection.
pub stateless_in_scope :
    (id : String) (now : ℕ) (p a : String) (s : MultitaskStrategy) (b : Bool) (url : String)
    (c : Conn) (run : Run)
    → p ≢ ""
    → (create_stateless_run_in_postgres id now p a s b url c).0 ≡ ok run
    → (assistant_in_project a p c.db ≡ true)
      × ((create_stateless_run_in_postgres id now p a s b url c).1.db.runs
          ≡ row_of run none url ∷ c.db.runs)
unfolding create_stateless_run_in_postgres check_assistant statement ◌>>=◌ insert_run
stateless_in_scope id now p a s b url c run named h = ground (arith, h, eq_iff p "", named)
