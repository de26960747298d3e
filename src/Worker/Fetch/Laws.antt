-- ===== src/Worker/Fetch/Laws.antt =====
-- Which run a fetch takes, and how it leaves it.
use langopen.Prelude.{
  ℕ, ◌≤◌, String, Bool, true, false, ◌&&◌, Option, none, some, List, [], ◌∷◌, any, ◌≡◌, refl, ap,
  ◌∙◌, arith, Bool-cases, Option-cases, inl, inr, leb, ltb, eq_refl,
}
use mathlib.Core.Path.{subst}
use langopen.Json.{Json}
use langopen.Contracts.{pending}
use langopen.Db.{RunRow, Db}
use langopen.Db.Sql.{Error, Result, ok, healthy, statement, ◌>>=◌, transaction}
use langopen.Db.Tables.{update_rows, oldest, has_id}
use langopen.Worker.Fetch.{
  is_pending, fetchable, next_pending, load_deployment_runtime_env, decrypt_variables, attempt,
  fetch_body, fetch_next_pending_run, set_running, pending_run, with_target,
}
use langopen.Worker.Execute.{PendingRun}

abbrev pub older_than : (RunRow → Bool) → ℕ → RunRow → Bool
older_than p t r = p r && ltb r.created_at t

-- A row that passes, stands in the list, and is as old as any that passes.
pub record First (p : RunRow → Bool) (rows : List RunRow) (row : RunRow) : Type 0 where
  pub passes : p row ≡ true
  pub present : any (has_id row.id) rows ≡ true
  pub none_older : any (older_than p row.created_at) rows ≡ false

none_passes :
    (p : RunRow → Bool) (rows : List RunRow) (t : ℕ)
    → oldest p rows ≡ none
    → any (older_than p t) rows ≡ false
unfolding oldest
none_passes p [] t h = refl
none_passes p (r ∷ rows) t h = elim (Bool-cases (p r)) [
  | inr np ↦ rw np (none_passes p rows t (rw np at h))
  | inl good ↦ ground (arith, h, good)
]

none_before :
    (p : RunRow → Bool) (rows : List RunRow) (a b : ℕ)
    → a ≤ b
    → any (older_than p b) rows ≡ false
    → any (older_than p a) rows ≡ false
none_before p [] a b h k = refl
none_before p (r ∷ rows) a b h k = ground (arith, h, k, none_before p rows a b h)

-- `oldest` answers such a row.
oldest-First :
    (p : RunRow → Bool) (rows : List RunRow) (row : RunRow)
    → oldest p rows ≡ some row
    → First p rows row
unfolding oldest
oldest-First p [] row h = cc
oldest-First p (r ∷ rows) row h = elim (Bool-cases (p r)) [
  | inr np ↦
      let f = oldest-First p rows row (rw np at h) in
      record {
        passes = f.passes;
        present = ground (arith, f.present);
        none_older = rw np f.none_older;
      }
  | inl good ↦ elim (Option-cases (oldest p rows)) [
    | inl e ↦
        let same : r ≡ row = ground (arith, h, good, e) in
        subst (First p (r ∷ rows)) same (record {
          passes = good;
          present = rw (eq_refl r.id) refl;
          none_older = ground (arith, none_passes p rows r.created_at e);
        })
    | inr (best, e) ↦
        let f = oldest-First p rows best e in
        elim (Bool-cases (leb r.created_at best.created_at)) [
          | inl first ↦
              let same : r ≡ row = ground (arith, h, good, e, first) in
              subst (First p (r ∷ rows)) same (record {
                passes = good;
                present = rw (eq_refl r.id) refl;
                none_older =
                    ground
                      (arith, none_before p rows r.created_at best.created_at, first, f.none_older);
              })
          | inr later ↦
              let same : best ≡ row = ground (arith, h, good, e, later) in
              subst (First p (r ∷ rows)) same (record {
                passes = f.passes;
                present = ground (arith, f.present);
                none_older = ground (arith, later, f.none_older);
              })
        ]
  ]
]

loaded_calm :
    (cipher : Option (String → Result String)) (id : String) (d : Db)
    → (load_deployment_runtime_env cipher id (healthy d)).1 ≡ healthy d
unfolding load_deployment_runtime_env statement ◌>>=◌ decrypt_variables
loaded_calm cipher id d = ground arith

pub fetched :
    (show : Json → String) (describe : Error → String) (cipher : Option (String → Result String))
    (now : ℕ) (d : Db) (row : RunRow)
    → oldest (fetchable d) d.runs ≡ some row
    → fetch_next_pending_run show describe cipher now (healthy d) ≡ (
      ok (
          pending_run show describe row
            (with_target d row).1
            (load_deployment_runtime_env cipher (with_target d row).1.deployment_id (healthy d)).0),
      healthy (record d { runs = update_rows row.id (set_running now) d.runs }),
    )
unfolding fetch_next_pending_run fetch_body transaction statement ◌>>=◌ next_pending attempt
    pending_run
fetched show describe cipher now d row e =
    rw (e, loaded_calm cipher (with_target d row).1.deployment_id d) refl

no_fetch :
    {C : Type 0} (show : Json → String) (describe : Error → String)
    (cipher : Option (String → Result String)) (now : ℕ) (d : Db) (run : PendingRun)
    → oldest (fetchable d) d.runs ≡ none
    → (fetch_next_pending_run show describe cipher now (healthy d)).0 ≡ ok run
    → C
unfolding fetch_next_pending_run fetch_body transaction statement ◌>>=◌ next_pending
no_fetch show describe cipher now d run e h = cc (rw e at h)

-- A row that passed as pending does not pass once the fetch has marked it.
marked_running :
    (id : String) (now : ℕ) (rows : List RunRow)
    → any (λ row. has_id id row && is_pending row.status) (update_rows id (set_running now) rows)
      ≡ false
unfolding update_rows
marked_running id now [] = refl
marked_running id now (row ∷ rows) = ground (arith, marked_running id now rows)

was_pending : (d : Db) (row : RunRow) → fetchable d row ≡ true → row.status ≡ pending
was_pending d row h = ground (arith, h)

-- A fetch that returned a run, where Postgres does not fail: the run's row was pending, with an
-- assistant that has a deployment, and no older row was; afterwards the rows of that id, and no
-- others, are marked as running, and no row of that id is pending.
pub fetched-First :
    (show : Json → String) (describe : Error → String) (cipher : Option (String → Result String))
    (now : ℕ) (d : Db) (run : PendingRun)
    → (fetch_next_pending_run show describe cipher now (healthy d)).0 ≡ ok run
    → (row : RunRow) × (row.id ≡ run.id)
      × (row.status ≡ pending)
      × First (fetchable d) d.runs row
      × ((fetch_next_pending_run show describe cipher now (healthy d)).1.db.runs
          ≡ update_rows run.id (set_running now) d.runs)
      × (any
            (λ r. has_id run.id r && is_pending r.status)
            (fetch_next_pending_run show describe cipher now (healthy d)).1.db.runs
          ≡ false)
unfolding pending_run
fetched-First show describe cipher now d run h = elim (Option-cases (oldest (fetchable d) d.runs)) [
  | inl e ↦ no_fetch show describe cipher now d run e h
  | inr (row, e) ↦
      let first = oldest-First (fetchable d) d.runs row e in
      let whole = fetched show describe cipher now d row e in
      let same : row.id ≡ run.id = ground (arith, ap (λ p. p.0) whole, h) in
      let rows : _ ≡ update_rows run.id (set_running now) d.runs =
        ap (λ p. p.1.db.runs) whole ∙ ap (λ id. update_rows id (set_running now) d.runs) same in
      (
        row,
        same,
        was_pending d row first.passes,
        first,
        rows,
        rw rows (marked_running run.id now d.runs),
      )
]
