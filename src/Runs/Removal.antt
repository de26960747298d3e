-- ===== src/Runs/Removal.antt =====
-- Cancelling and deleting runs.
use langopen.Prelude.{
  ℕ, String, ◌≡◌, refl, Bool, true, false, ◌&&◌, List, [], ◌∷◌, arith, any, keep, not,
  if◌then◌else◌,
}
use langopen.Db.{RunRow, Db}
use langopen.Db.Sql.{
  ok, err, Conn, healthy, statement, ◌>>=◌, Sql, raise, query, transaction, foreign_key, no_rows,
}
use langopen.Db.Laws.{Repeats, repeats_rules, transaction_inverts}
use langopen.Db.Tables.{
  without_run, is_referenced, delete_checkpoints, delete_deliveries, delete_run, run_in_scope,
  has_id, delivery_of, checkpoint_of,
}
use langopen.Runs.{cancel_run_in_postgres, delete_rows, on_thread, delete_run_from_postgres}

any-without_run : (id : String) (rows : List RunRow) → any (has_id id) (without_run id rows) ≡ false
unfolding without_run
any-without_run id [] = refl
any-without_run id (row ∷ rows) = ground (arith, any-without_run id rows)

any-keep-not {ℓ} :
    {A : Type ℓ} (p : A → Bool) (xs : List A) → any p (keep (λ x. not (p x)) xs) ≡ false
any-keep-not p [] = refl
any-keep-not p (x ∷ xs) = ground (arith, any-keep-not p xs)

-- What a deletion leaves: nothing of the run in `runs`, `webhook_deliveries` and `checkpoints`.
pub record Gone (id : String) (d : Db) : Type 0 where
  pub no_run : any (has_id id) d.runs ≡ false
  pub no_delivery : any (delivery_of id) d.deliveries ≡ false
  pub no_checkpoint : any (checkpoint_of id) d.checkpoints ≡ false

delete_rows_effect :
    (id : String) (d e : Db)
    → delete_rows id (healthy d) ≡ (ok tt, healthy e)
    → (e.runs ≡ without_run id d.runs)
      × (e.deliveries ≡ keep (λ row. not (delivery_of id row)) d.deliveries)
      × (any (checkpoint_of id) e.checkpoints ≡ false)
unfolding delete_rows delete_deliveries delete_checkpoints delete_run statement ◌>>=◌
delete_rows_effect id d e h = ground (
  arith,
  h,
  any-keep-not (checkpoint_of id) (keep (λ row. not (checkpoint_of id row)) d.checkpoints),
)

delete_rows-Repeats : (id : String) → Repeats (delete_rows id)
unfolding delete_rows
delete_rows-Repeats id = search repeats_rules depth 12

guarded_ok :
    (test : Db → Bool) (body : Sql (Unit {0})) (d e : Db)
    → (query test >>= λ found. if found then body else raise no_rows) (healthy d)
      ≡ (ok tt, healthy e)
    → (test d ≡ true) × (body (healthy d) ≡ (ok tt, healthy e))
unfolding statement ◌>>=◌
guarded_ok test body d e h = ground (arith, h)

delete_run_ok :
    (p id expected : String) (c : Conn)
    → (delete_run_from_postgres p id expected c).0 ≡ ok tt
    → (any (λ row. run_in_scope p id row c.db && on_thread expected row) c.db.runs ≡ true)
      × (delete_rows id (healthy c.db)
          ≡ (ok tt, healthy (delete_run_from_postgres p id expected c).1.db))
unfolding delete_run_from_postgres
delete_run_ok p id expected c h =
    guarded_ok _ (delete_rows id) c.db _
      (transaction_inverts _ (search (repeats_rules, delete_rows-Repeats) depth 12) c tt h)

-- A deletion that returned, over whatever connection: a row with the id was in the key's project
-- and, where a thread was named, on that thread; neither it nor a delivery or a checkpoint of it is
-- left, and the rows of all other runs are as they were.
pub deleted-Gone :
    (p id expected : String) (c : Conn)
    → (delete_run_from_postgres p id expected c).0 ≡ ok tt
    → (any (λ row. run_in_scope p id row c.db && on_thread expected row) c.db.runs ≡ true)
      × Gone id (delete_run_from_postgres p id expected c).1.db
      × ((delete_run_from_postgres p id expected c).1.db.runs ≡ without_run id c.db.runs)
deleted-Gone p id expected c h =
    let (scoped, rows) = delete_run_ok p id expected c h in
    let (runs, deliveries, none_left) = delete_rows_effect id c.db _ rows in
    (
      scoped,
      record {
        no_run = rw runs (any-without_run id c.db.runs);
        no_delivery = rw deliveries (any-keep-not (delivery_of id) c.db.deliveries);
        no_checkpoint = none_left;
      },
      runs,
    )

-- `action=rollback` on a run that a webhook delivery or a cron execution refers to: over a healthy
-- connection it fails with a foreign key error and changes nothing, since only the checkpoints are
-- deleted before the run.
pub rollback_blocked :
    (now : ℕ) (p id : String) (d : Db)
    → any (λ row. run_in_scope p id row d) d.runs ≡ true
    → any (has_id id) d.runs ≡ true
    → is_referenced id d ≡ true
    → (cancel_run_in_postgres now p id "rollback" (healthy d)).0 ≡ err foreign_key
      × ((cancel_run_in_postgres now p id "rollback" (healthy d)).1.db ≡ d)
unfolding cancel_run_in_postgres statement ◌>>=◌ delete_checkpoints delete_run transaction
rollback_blocked now p id d scoped found held = ground (arith, scoped, found, held)
