-- ===== src/Db/Sql.antt =====
-- Statements and transactions of the pgx client. A connection has the tables and a list of what
-- becomes of the next round trips: `true` is one that fails, and when the list has run out, none
-- does. A transaction runs alone: the model interleaves whole transactions, not their statements.
use langopen.Prelude.{
  ◌≡◌, refl, ◌⊎◌, inl, inr, String, Bool, true, false, Option, none, some, List, [], ◌∷◌, arith,
  if◌then◌else◌,
}
use langopen.Db.{Db}

-- `run_conflict` and `project_scope` are errors of the API server, `no_rows` is sql.ErrNoRows.
pub data Error : Type 0 where
  no_rows unavailable foreign_key unique_violation run_conflict project_scope : Error
  message : String → Error

pub data Result {ℓ} (A : Type ℓ) : Type ℓ where
  ok : A → Result A
  err : Error → Result A

pub record Conn : Type 0 where
  pub db : Db
  pub faults : List Bool

abbrev pub healthy : Db → Conn
healthy d = record { db = d; faults = [] }

abbrev pub Sql : Type 0 → Type 0
Sql A = Conn → Result A × Conn

abbrev pub pure : {A : Type 0} → A → Sql A
pure a c = (ok a, c)

abbrev pub raise : {A : Type 0} → Error → Sql A
raise e c = (err e, c)

abbrev pub continue : {A B : Type 0} → Result A → (A → Sql B) → Sql B
continue (ok a) f c = f a c
continue (err e) f c = (err e, c)

infixl 5 ◌>>=◌ ◌>>◌
unfoldable pub ◌>>=◌ : {A B : Type 0} → Sql A → (A → Sql B) → Sql B
◌>>=◌ m f c = let (r, c') = m c in continue r f c'

abbrev pub ◌>>◌ : {B : Type 0} → Sql (Unit {0}) → Sql B → Sql B
m >> k = m >>= λ _. k

-- One round trip: whether it fails, and the connection after it.
abbrev pub trip : List Bool → Bool × List Bool
trip [] = (false, [])
trip (f ∷ fs) = (f, fs)

-- What a round trip that gets through does.
abbrev pub answer : {A : Type 0} → Bool → List Bool → Db → Result (A × Db) → Result A × Conn
answer true fs d r = (err unavailable, record { db = d; faults = fs })
answer false fs d (ok (a, d')) = (ok a, record { db = d'; faults = fs })
answer false fs d (err e) = (err e, record { db = d; faults = fs })

unfoldable pub statement : {A : Type 0} → (Db → Result (A × Db)) → Sql A
statement f c = let (fails, fs) = trip c.faults in answer fails fs c.db (f c.db)

-- `QueryRow(…).Scan(…)` of a query that always has a row.
abbrev pub query : {A : Type 0} → (Db → A) → Sql A
query f = statement (λ d. ok (f d, d))

abbrev pub or_no_rows : {A : Type 0} → Option A → Db → Result (A × Db)
or_no_rows none d = err no_rows
or_no_rows (some a) d = ok (a, d)

-- `QueryRow(…).Scan(…)` of a query that may have none.
abbrev pub query_row : {A : Type 0} → (Db → Option A) → Sql A
query_row f = statement (λ d. or_no_rows (f d) d)

abbrev pub with_unit : Result Db → Result (Unit {0} × Db)
with_unit (ok d) = ok (tt, d)
with_unit (err e) = err e

-- `Exec`.
abbrev pub exec : (Db → Result Db) → Sql (Unit {0})
exec f = statement (λ d. with_unit (f d))

-- `Commit` of a body that returned; a body that failed is rolled back.
abbrev pub finish : {A : Type 0} → Db → Result A → Conn → Result A × Conn
finish before (err e) c = (err e, record { db = before; faults = c.faults })
finish before (ok a) c =
    let (fails, fs) = trip c.faults in
    if fails
    then (err unavailable, record { db = before; faults = fs })
    else (ok a, record { db = c.db; faults = fs })

-- `BeginTx`, the body, `Commit`, and the deferred `Rollback`.
unfoldable pub transaction : {A : Type 0} → Sql A → Sql A
transaction body c =
    let (fails, fs) = trip c.faults in
    if fails
    then (err unavailable, record { db = c.db; faults = fs })
    else let (r, c') = body (record { db = c.db; faults = fs }) in finish c.db r c'

-- A transaction that returns an error has changed nothing.
pub transaction_atomic :
    {A : Type 0} (body : Sql A) (c : Conn) {e : Error}
    → (transaction body c).0 ≡ err e
    → (transaction body c).1.db ≡ c.db
unfolding transaction
transaction_atomic body c h = ground arith

pub Result-cases {ℓ} :
    {A : Type ℓ} (r : Result A) → ((a : A) × (r ≡ ok a)) ⊎ ((e : Error) × (r ≡ err e))
Result-cases (ok a) = inl (a, refl)
Result-cases (err e) = inr (e, refl)
