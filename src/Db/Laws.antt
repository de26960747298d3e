-- ===== src/Db/Laws.antt =====
-- What a chain of statements returned over a failing connection, it returns over a healthy one too,
-- with the same tables: a success depends on no fault.
use langopen.Prelude.{
  ◌≡◌, refl, sym, ap, ◌∙◌, Bool, true, false, List, [], arith, if◌then◌else◌, Bool-cases, inl, inr,
}
use langopen.Db.{Db}
use langopen.Db.Sql.{
  Error, Result, ok, Conn, healthy, Sql, pure, raise, continue, ◌>>=◌, trip, answer, statement,
  finish, transaction, Result-cases,
}

pub record Repeats {A : Type 0} (m : Sql A) : Type 0 where
  pub at : (c : Conn) (a : A) → (m c).0 ≡ ok a → m (healthy c.db) ≡ (ok a, healthy (m c).1.db)

module _ {A : Type 0} where
  pub Repeats-pure : (a : A) → Repeats (pure a)
  Repeats-pure a = record { at = λ c b h. ground arith }

  pub Repeats-raise : (e : Error) → Repeats (raise {A = A} e)
  Repeats-raise e = record { at = λ c a h. cc }

  answer_repeats :
      (fails : Bool) (fs : List Bool) (d : Db) (r : Result (A × Db)) (a : A)
      → (answer fails fs d r).0 ≡ ok a
      → answer false [] d r ≡ (ok a, healthy (answer fails fs d r).1.db)
  answer_repeats fails fs d r a h = ground arith

  pub Repeats-statement : (f : Db → Result (A × Db)) → Repeats (statement f)
  unfolding statement
  Repeats-statement f = record {
    at = λ c a h. answer_repeats (trip c.faults).0 (trip c.faults).1 c.db (f c.db) a h;
  }

  pub Repeats-if : (b : Bool) (m n : Sql A) → Repeats m → Repeats n → Repeats (if b then m else n)
  Repeats-if true m n km kn = km
  Repeats-if false m n km kn = kn

  finish_repeats :
      (before : Db) (r : Result A) (c : Conn) (a : A)
      → (finish before r c).0 ≡ ok a
      → (r ≡ ok a) × ((finish before r c).1.db ≡ c.db)
  finish_repeats before r c a h = ground arith

  transaction_ok :
      (body : Sql A) (d : Db) (fs : List Bool) (a : A)
      → Repeats body
      → (finish d
          (body (record { db = d; faults = fs })).0
          (body (record { db = d; faults = fs })).1).0
        ≡ ok a
      → transaction body (healthy d) ≡ (
        ok a,
        healthy
            (finish d
              (body (record { db = d; faults = fs })).0
              (body (record { db = d; faults = fs })).1).1.db,
      )
  unfolding transaction
  transaction_ok body d fs a k h =
      let (good, same) = finish_repeats d _ _ a h in
      rw (k.at (record { db = d; faults = fs }) a good) (rw same refl)

  pub Repeats-transaction : (body : Sql A) → Repeats body → Repeats (transaction body)
  unfolding transaction
  Repeats-transaction body k = record {
    at = λ c a h. elim (Bool-cases (trip c.faults).0) [
      | inl fails ↦ cc (rw fails at h)
      | inr gets_through ↦
          rw gets_through (transaction_ok body c.db (trip c.faults).1 a k (rw gets_through at h))
    ];
  }

module _ {A B : Type 0} where
  pub Repeats-bind :
      (m : Sql A) (f : A → Sql B) → Repeats m → ((a : A) → Repeats (f a)) → Repeats (m >>= f)
  unfolding ◌>>=◌
  Repeats-bind m f km kf = record {
    at = λ c b h. elim (Result-cases (m c).0) [
      | inl (a, e) ↦
          rw (km.at c a e) (rw (e, continue) ((kf a).at (m c).1 b (rw (e, continue) at h)))
      | inr (x, e) ↦ cc (rw (e, continue) at h)
    ];
  }

pub ruleset repeats_rules =
    (Repeats-pure, Repeats-raise, Repeats-statement, Repeats-if, Repeats-bind, Repeats-transaction)

-- Inversion of a successful chain over a healthy connection: its first part succeeded over one, and
-- the rest over the connection that it left.
pub healthy_bind {ℓ} :
    {A B : Type 0} {C : Type ℓ} (m : Sql A) (f : A → Sql B) (d e : Db) (b : B)
    → Repeats m
    → (m >>= f) (healthy d) ≡ (ok b, healthy e)
    → ((a : A) (d' : Db)
        → m (healthy d) ≡ (ok a, healthy d')
        → f a (healthy d') ≡ (ok b, healthy e)
        → C)
    → C
unfolding ◌>>=◌
healthy_bind {B = B} m f d e b k h go = elim (Result-cases (m (healthy d)).0) [
  | inl (a, good) ↦
      let same = k.at (healthy d) a good in
      go a (m (healthy d)).1.db same
        (sym (ap (λ (p : Result _ × Conn). continue {B = B} p.0 f p.1) same) ∙ h)
  | inr (x, bad) ↦ cc (rw (bad, continue) at h)
]

-- A transaction that returned: its body returned the same, over a healthy connection.
pub transaction_inverts :
    {A : Type 0} (body : Sql A)
    → Repeats body
    → (c : Conn) (a : A) → (transaction body c).0 ≡ ok a
    → body (healthy c.db) ≡ (ok a, healthy (transaction body c).1.db)
unfolding transaction
transaction_inverts body k c a h = elim (Bool-cases (trip c.faults).0) [
  | inl fails ↦ cc (rw fails at h)
  | inr gets_through ↦
      let start : Conn = record { db = c.db; faults = (trip c.faults).1 } in
      let (good, same) =
        finish_repeats c.db (body start).0 (body start).1 a (rw gets_through at h) in
      rw gets_through (k.at start a good ∙ ap (λ d. (ok a, healthy d)) (sym same))
]
