-- ===== src/Runs/Multitask.antt =====
-- `multitask_strategy`: how many active runs a thread has once a run has been created on it.
use langopen.Prelude.{
  ℕ, ◌≤◌, ◌<◌, String, ◌≡◌, refl, ◌≢◌, ◌∙◌, Bool, true, Option, none, some, List, [], ◌∷◌, ◌==◌,
  arith, eq_iff, eq_refl, Bool-cases, Option-cases, inl, inr, ◌&&◌, All, keep, length, ◌⊎◌, leb,
}
use langopen.Contracts.{MultitaskStrategy, reject, rollback, interrupt, enqueue, other_strategy}
use langopen.Db.{RunRow, Db}
use langopen.Db.Sql.{ok, Conn, healthy}
use langopen.Db.Tables.{update_rows, without_run, oldest}
use langopen.Runs.{
  Run, row_of, is_active_on, set_interrupted, displace, resolve_active, create_run_in_postgres,
}
use langopen.Runs.Created.{
  displaced, displaced_by, created_run, runs-threaded, runs-Created, create_run-Created,
}

-- The runs of a thread that are pending or running.
abbrev pub active_count : String → List RunRow → ℕ
active_count t rows = length (keep (is_active_on t) rows)

oldest-none :
    (t : String) (rows : List RunRow)
    → oldest (is_active_on t) rows ≡ none
    → active_count t rows ≡ 0
unfolding oldest
oldest-none t [] h = refl
oldest-none t (row ∷ rows) h = ground (arith, oldest-none t rows)

-- One of the rows is the active run with the id.
abbrev HasActive : String → String → List RunRow → Type 0
HasActive t id [] = ⊥
HasActive t id (row ∷ rows) = ((is_active_on t row ≡ true) × (row.id ≡ id)) ⊎ HasActive t id rows

oldest-some :
    (t : String) (rows : List RunRow) (found : RunRow)
    → oldest (is_active_on t) rows ≡ some found
    → HasActive t found.id rows
unfolding oldest
oldest-some t [] found h = cc
oldest-some t (row ∷ rows) found h = elim (Bool-cases (is_active_on t row)) [
  | inl active ↦ elim (Option-cases (oldest (is_active_on t) rows)) [
    | inl none_left ↦ inl (active, ground (arith, active, none_left, h))
    | inr (best, e) ↦ elim (Bool-cases (leb row.created_at best.created_at)) [
      | inl first ↦ inl (active, ground (arith, active, e, first, h))
      | inr later ↦ inr (oldest-some t rows found (ground (arith, active, e, later, h)))
    ]
  ]
  | inr idle ↦ inr (oldest-some t rows found (rw idle at h))
]

-- To interrupt or to remove rows makes none active.
update_le :
    (t : String) (now : ℕ) (id : String) (rows : List RunRow)
    → active_count t (update_rows id (set_interrupted now) rows) ≤ active_count t rows
unfolding update_rows
update_le t now id [] = omega arith
update_le t now id (row ∷ rows) = ground (arith, update_le t now id rows)

without_le :
    (t : String) (id : String) (rows : List RunRow)
    → active_count t (without_run id rows) ≤ active_count t rows
unfolding without_run
without_le t id [] = omega arith
without_le t id (row ∷ rows) = ground (arith, without_le t id rows)

update_lt :
    (t : String) (now : ℕ) (id : String) (rows : List RunRow)
    → HasActive t id rows
    → active_count t (update_rows id (set_interrupted now) rows) < active_count t rows
unfolding update_rows
update_lt t now id [] h = absurd h
update_lt t now id (row ∷ rows) (inl (active, same)) =
    ground (arith, update_le t now id rows, active, eq_iff row.id id)
update_lt t now id (row ∷ rows) (inr later) = ground (arith, update_lt t now id rows later)

without_lt :
    (t : String) (id : String) (rows : List RunRow)
    → HasActive t id rows
    → active_count t (without_run id rows) < active_count t rows
unfolding without_run
without_lt t id [] h = absurd h
without_lt t id (row ∷ rows) (inl (active, same)) =
    ground (arith, without_le t id rows, active, eq_iff row.id id)
without_lt t id (row ∷ rows) (inr later) = ground (arith, without_lt t id rows later)

HasActive-id :
    (t id : String) (rows : List RunRow) → HasActive t id rows → All (λ r. r.id ≢ "") rows → id ≢ ""
HasActive-id t id [] h named = absurd h
HasActive-id t id (row ∷ rows) (inl (active, same)) named = λ e. named.0 (same ∙ e)
HasActive-id t id (row ∷ rows) (inr later) named = HasActive-id t id rows later named.1

-- Only `reject`, `interrupt` and `rollback` deal with the active run that they find.
abbrev pub Settles : MultitaskStrategy → Type 0
Settles enqueue = ⊥
Settles (other_strategy _) = ⊥
Settles _ = Unit

displaced_lt :
    (t : String) (s : MultitaskStrategy) (now : ℕ) (id : String) (rows : List RunRow)
    → Settles s
    → s ≢ reject
    → HasActive t id rows
    → active_count t (displaced_by s now id rows) < active_count t rows
displaced_lt t reject now id rows k ne h = absurd (ne refl)
displaced_lt t rollback now id rows k ne h = without_lt t id rows h
displaced_lt t interrupt now id rows k ne h = update_lt t now id rows h
displaced_lt t enqueue now id rows k ne h = absurd k
displaced_lt t (other_strategy _) now id rows k ne h = absurd k

pub not_rejected :
    (s : MultitaskStrategy) (now : ℕ) (row : RunRow) (d e : Db)
    → row.id ≢ ""
    → resolve_active s now (some row) (healthy d) ≡ (ok tt, healthy e)
    → s ≢ reject
unfolding resolve_active displace
not_rejected s now row d e ne h r = ground (arith, r, eq_iff row.id "")

eq_active : (t : String) → (t == t && true) ≡ true
eq_active t = rw (eq_refl t)

idle_oldest :
    (t : String) (rows : List RunRow)
    → active_count t rows ≡ 0
    → oldest (is_active_on t) rows ≡ none
unfolding oldest
idle_oldest t [] h = refl
idle_oldest t (row ∷ rows) h = ground (arith, idle_oldest t rows)

settled_cases :
    (t : String) (s : MultitaskStrategy) (now : ℕ) (o : Option RunRow) (d e : Db)
    → oldest (is_active_on t) d.runs ≡ o
    → Settles s
    → All (λ r. r.id ≢ "") d.runs
    → active_count t d.runs ≤ 1
    → resolve_active s now o (healthy d) ≡ (ok tt, healthy e)
    → active_count t (displaced s now o d.runs) ≡ 0
settled_cases t s now none d e found k named few r = oldest-none t d.runs found
settled_cases t s now (some row) d e found k named few r =
    let active = oldest-some t d.runs row found in
    let ne = HasActive-id t row.id d.runs active named in
    let fewer = displaced_lt t s now row.id d.runs k (not_rejected s now row d e ne r) active in
    elim (Bool-cases (row.id == "")) [
      | inl same ↦ absurd (ne ((eq_iff row.id "").0 same))
      | inr other ↦ rw other (omega (arith, fewer))
    ]

with_new :
    (t : String) (row : RunRow) (rows : List RunRow)
    → is_active_on t row ≡ true
    → active_count t rows ≡ 0
    → (active_count t (row ∷ rows) ≡ 1) × (oldest (is_active_on t) (row ∷ rows) ≡ some row)
unfolding oldest
with_new t row rows active idle = ground (arith, active, idle, idle_oldest t rows idle)

-- A thread with at most one active run, on which a run is created with `reject`, `interrupt` or
-- `rollback`, has exactly one afterwards, which is the new one: if the creation returns a run, over
-- whatever connection, and no row has the empty id.
pub one_active_run :
    (id : String) (now : ℕ) (p t a : String) (s : MultitaskStrategy) (b : Bool) (url : String)
    (c : Conn) (run : Run)
    → Settles s
    → All (λ r. r.id ≢ "") c.db.runs
    → active_count t c.db.runs ≤ 1
    → (create_run_in_postgres id now p t a s b url c).0 ≡ ok run
    → (active_count t (create_run_in_postgres id now p t a s b url c).1.db.runs ≡ 1)
      × (oldest (is_active_on t) (create_run_in_postgres id now p t a s b url c).1.db.runs
          ≡ some (row_of run (some t) url))
one_active_run id now p t a s b url c run k named few h =
    let (same, created) = create_run-Created id now p t a s b url c run h in
    let row = row_of (created_run id t a s b now) (some t) url in
    let threads_only = runs-threaded now p t a s row c.db _ created in
    let settled =
      settled_cases t s now _ created.threaded created.resolved refl k (rw threads_only named)
        (rw threads_only few) created.dealt in
    rw (runs-Created now p t a s row c.db _ created, same)
      (with_new t row _ (eq_active t) (rw threads_only at settled))
