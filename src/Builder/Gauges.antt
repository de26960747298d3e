-- ===== src/Builder/Gauges.antt =====
-- The gauges of services/builder/internal/api/api.go count the builds of each status, as
-- `updateBuildMetricsLocked` keeps them.
use langopen.Prelude.{
  ℕ, ◌+◌, ◌≡◌, refl, Bool, true, false, Option, none, some, List, [], ◌∷◌, count, arith,
  if◌then◌else◌, Bool-cases, inl, inr,
}
use langopen.Prelude.Int.{pos, succ_ℤ, pred_ℤ}
use langopen.Prelude.Maps.{lookup, insert}
use langopen.Prelude.Text.{Codes, codes_eq, codes_eq→≡}
use langopen.Builder.Api.{
  Api, or_none, bump, status_of, prev_status, leave_status, enter_status, update_build_metrics,
}

abbrev pub one_if : Bool → ℕ
one_if true = 1
one_if false = 0

abbrev pub has_status : Codes → Codes × Codes → Bool
has_status s (build_id, status) = codes_eq status s

-- The builds that the metrics hold to be of a status.
abbrev pub builds_of : Codes → Api → ℕ
builds_of s a = count (has_status s) a.status

pub record IsCounted (a : Api) : Type 0 where
  pub counted : (s : Codes) → codes_eq s [] ≡ false → a.gauge s ≡ pos (builds_of s a)

-- A missing entry is the status "", which no status is.
had-status :
    (s : Codes) (o : Option Codes)
    → codes_eq s [] ≡ false
    → codes_eq (or_none o) s ≡ true
    → (v : Codes) × (o ≡ some v)
unfolding codes_eq
had-status s (some v) f h = (v, refl)
had-status [] none f h = cc f
had-status (c ∷ s) none f h = cc h

not-empty : (s : Codes) → codes_eq s [] ≡ false → codes_eq [] s ≡ false
unfolding codes_eq
not-empty [] f = cc f
not-empty (c ∷ s) f = refl

-- A write moves one build from its status to the new one.
pub count-insert :
    (build_id next s : Codes) (xs : List (Codes × Codes))
    → codes_eq s [] ≡ false
    → count (has_status s) (insert build_id next xs)
        + one_if (codes_eq (or_none (lookup build_id xs)) s)
      ≡ count (has_status s) xs + one_if (codes_eq next s)
unfolding insert lookup
count-insert build_id next s [] f = rw (not-empty s f) (ground arith)
count-insert build_id next s ((k, v) ∷ rest) f = elim (Bool-cases (codes_eq k build_id)) [
  | inl e ↦ rw e (ground arith)
  | inr e ↦ rw e (ground (arith, count-insert build_id next s rest f))
]

moved :
    (b n : Bool) (before after : ℕ)
    → after + one_if b ≡ before + one_if n
    → (if n
        then succ_ℤ (if b then pred_ℤ (pos before) else pos before)
        else if b
        then pred_ℤ (pos before)
        else pos before)
      ≡ pos after
moved true true before after h = ground (arith, h)
moved true false before after h = ground (arith, h)
moved false true before after h = ground (arith, h)
moved false false before after h = ground (arith, h)

-- Leaving nothing changes no gauge that is counted.
leave-gauge :
    (before s : Codes) (a : Api)
    → codes_eq s [] ≡ false
    → (leave_status before a).gauge s ≡ bump pred_ℤ before a.gauge s
unfolding leave_status
leave-gauge before s a f = elim (Bool-cases (codes_eq before [])) [
  | inr e ↦ rw e refl
  | inl e ↦ rw (e, codes_eq→≡ before [] e, not-empty s f) refl
]

pub leave-status : (before : Codes) (a : Api) → (leave_status before a).status ≡ a.status
unfolding leave_status
leave-status before a = elim (Bool-cases (codes_eq before [])) [
  | inr e ↦ rw e refl
  | inl e ↦ rw e refl
]

pub leave-builds : (before : Codes) (a : Api) → (leave_status before a).builds ≡ a.builds
unfolding leave_status
leave-builds before a = elim (Bool-cases (codes_eq before [])) [
  | inr e ↦ rw e refl
  | inl e ↦ rw e refl
]

-- `updateBuildMetricsLocked` keeps the gauges right, called with the status that the metrics hold
-- the build to be of (or with none, which stands for it) and with a next status.
pub update_build_metrics-IsCounted :
    (build_id prev next : Codes) (a : Api)
    → IsCounted a
    → codes_eq next [] ≡ false
    → prev_status build_id prev a ≡ status_of build_id a
    → IsCounted (update_build_metrics build_id prev next a)
unfolding update_build_metrics enter_status leave_status status_of
update_build_metrics-IsCounted build_id prev next a h n same =
    elim (Bool-cases (codes_eq (status_of build_id a) next)) [
      | inl e ↦ rw (same, e) h
      | inr e ↦
          rw (same, e, n)
            (record {
              counted = λ s f.
                  let before = status_of build_id a in
                  rw (leave-gauge before s a f, leave-status before a, h.counted s f)
                    (moved (codes_eq before s) (codes_eq next s) _ _
                      (count-insert build_id next s a.status f));
            })
    ]
