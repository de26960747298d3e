-- ===== src/Runs/Patience.antt =====
-- A wait for a run (`waitForRunTerminal` of services/api-server/internal/server/server.go) comes to
-- an end, whatever becomes of the run.
use mathlib.Core.Path.{subst}
use langopen.Prelude.{
  ℕ, zero, suc, ◌+◌, ◌*◌, ◌≤◌, ◌<◌, ◌≡◌, ◌⊎◌, inl, inr, String, true, Option, none, some, ◌==◌,
  arith, ltb, Bool-cases, not-ltb→le,
}
use langopen.Prelude.Int.{ℤ, pos, negsuc}
use langopen.Prelude.Text.{trim_space}
use langopen.Contracts.{is_terminal_run_status}
use langopen.Db.{RunRow}
use langopen.Db.Sql.{Result, ok, err}
use langopen.Runs.Wait.{
  Looks, Waited, terminal, lookup_failed, timed_out, cancelled, look_at, or_later, wait_loop,
  wait_for_run_terminal, wait_timeout, clamped, second, poll_pause,
}

-- The pause between two looks is never shorter than it is set to.
pub record IsPaused (looks : Looks) (started : ℕ) : Type 0 where
  pub later : started ≤ looks.clock 0
  pub paused : (i : ℕ) → looks.clock i + poll_pause ≤ looks.clock (suc i)

-- A wait that ends, with a run that is done if with a run.
abbrev pub Ends : Option Waited → Type 0
Ends none = ⊥
Ends (some (terminal run)) = is_terminal_run_status run.status ≡ true
Ends (some (lookup_failed e)) = Unit
Ends (some timed_out) = Unit
Ends (some cancelled) = Unit

module _ (p r : String) (looks : Looks) (deadline : ℕ) where
  look-Ends :
      (i : ℕ) (o : Result RunRow) (later : Option Waited)
      → (deadline < looks.clock i) ⊎ Ends later
      → Ends (or_later p r looks deadline (look_at p r looks deadline i o) later)
  look-Ends i (err e) later h = tt
  look-Ends i (ok run) later h = elim (Bool-cases (is_terminal_run_status run.status)) [
    | inl t ↦ rw t t
    | inr t ↦ elim (Bool-cases (ltb deadline (looks.clock i))) [
      | inl d ↦ rw (t, d) tt
      | inr d ↦ elim (Bool-cases (looks.given_up i)) [
        | inl g ↦ rw (t, d, g) tt
        | inr g ↦
            rw (t, d, g)
              (elim h [
                | inr e ↦ e
                | inl past ↦
                    let never : ⊥ = omega (arith, past, not-ltb→le deadline (looks.clock i) d) in
                    elim never [ ]
              ])
      ]
    ]
  ]

  -- The loop ends once it has fuel to look when the deadline is over.
  loop-Ends :
      (fuel i : ℕ)
      → deadline < looks.clock (fuel + i)
      → Ends (wait_loop p r looks deadline (suc fuel) i)
  unfolding wait_loop
  loop-Ends zero i h = look-Ends i _ _ (inl (subst (λ k. deadline < looks.clock k) (omega arith) h))
  loop-Ends (suc fuel) i h =
      look-Ends i _ _
        (inr (loop-Ends fuel (suc i) (subst (λ k. deadline < looks.clock k) (omega arith) h)))

  clock_grows :
      (started : ℕ) → IsPaused looks started → (i : ℕ) → started + i * poll_pause ≤ looks.clock i
  clock_grows started paused zero = omega (arith, paused.later)
  clock_grows started paused (suc i) = omega (arith, clock_grows started paused i, paused.paused i)

clamped_le : (o : Option ℤ) → clamped o ≤ 300
clamped_le none = omega arith
clamped_le (some (negsuc n)) = omega arith
clamped_le (some (pos n)) = ground arith

wait_timeout_le : (atoi : String → Option ℤ) (raw : String) → wait_timeout atoi raw ≤ 300 * second
unfolding wait_timeout
wait_timeout_le atoi raw = elim (Bool-cases (trim_space raw == "")) [
  | inl e ↦ rw e (omega arith)
  | inr e ↦ rw e (omega (arith, clamped_le (atoi (trim_space raw))))
]

-- A request that waits for a run is answered after at most 1,502 looks at it, whatever timeout it
-- asks for and whatever other services do meanwhile, if no pause between two looks is shorter than
-- 200 milliseconds; and a run that the answer shows has a final status.
pub wait_for_run_terminal-Ends :
    (atoi : String → Option ℤ) (raw project_id run_id : String) (looks : Looks) (started : ℕ)
    → IsPaused looks started
    → Ends (wait_for_run_terminal 1502 project_id run_id looks started (wait_timeout atoi raw))
unfolding wait_for_run_terminal
wait_for_run_terminal-Ends atoi raw project_id run_id looks started paused =
    let deadline = started + wait_timeout atoi raw in
    loop-Ends project_id run_id looks deadline 1501 0 (
      omega (
        arith,
        clock_grows project_id run_id looks deadline started paused 1501,
        wait_timeout_le atoi raw,
      ))
