-- ===== src/Builder/Consistent.antt =====
-- The memory of services/builder/internal/api/api.go: the gauges, the statuses behind them and the
-- records agree, after each handler.
use mathlib.Core.Path.{subst}
use langopen.Prelude.{◌≡◌, refl, sym, ◌∙◌, ap, false, some, List, [], Bool-cases, inl, inr}
use langopen.Prelude.Maps.{lookup, insert, lookup-insert, lookup-insert_other}
use langopen.Prelude.Text.{Codes, codes_eq, codes_eq→≡}
use langopen.Builder.Api.{
  BuildRecord, Api, status_of, prev_status, leave_status, enter_status, update_build_metrics,
}
use langopen.Builder.Gauges.{IsCounted, update_build_metrics-IsCounted, leave-status, leave-builds}
use langopen.Builder.Handlers.{remember}

some_inj : {A : Type 0} {x y : A} → some x ≡ some y → x ≡ y
some_inj h = cc h

pub record IsConsistent (a : Api) : Type 0 where
  pub gauges : IsCounted a
  pub ids : (i : Codes) (rec : BuildRecord) → lookup i a.builds ≡ some rec → rec.id ≡ i
  pub statuses :
      (i : Codes) (rec : BuildRecord) → lookup i a.builds ≡ some rec → status_of i a ≡ rec.status
  pub filled :
      (i : Codes) (rec : BuildRecord)
      → lookup i a.builds ≡ some rec
      → codes_eq rec.status [] ≡ false

module _ (i prev next : Codes) (a : Api) (n : codes_eq next [] ≡ false)
    (same : prev_status i prev a ≡ status_of i a) where
  pub update-builds : (update_build_metrics i prev next a).builds ≡ a.builds
  unfolding update_build_metrics leave_status enter_status
  update-builds = elim (Bool-cases (codes_eq (status_of i a) next)) [
    | inl e ↦ rw (same, e) refl
    | inr e ↦ rw (same, e, n, leave-builds (status_of i a) a) refl
  ]

  update-status : status_of i (update_build_metrics i prev next a) ≡ next
  unfolding update_build_metrics leave_status enter_status status_of
  update-status = elim (Bool-cases (codes_eq (status_of i a) next)) [
    | inl e ↦ rw (same, e) (codes_eq→≡ (status_of i a) next e)
    | inr e ↦ rw (same, e, n, leave-status (status_of i a) a, lookup-insert i next a.status) refl
  ]

  update-status_other :
      (j : Codes)
      → codes_eq i j ≡ false
      → status_of j (update_build_metrics i prev next a) ≡ status_of j a
  unfolding update_build_metrics leave_status enter_status status_of
  update-status_other j h = elim (Bool-cases (codes_eq (status_of i a) next)) [
    | inl e ↦ rw (same, e) refl
    | inr e ↦
        rw (same, e, n, leave-status (status_of i a) a, lookup-insert_other i j next a.status h)
          refl
  ]

-- A record is written, and the metrics are told of its status.
module _ (rec : BuildRecord) (prev : Codes) (a : Api) (n : codes_eq rec.status [] ≡ false)
    (same : prev_status rec.id prev a ≡ status_of rec.id a) (h : IsConsistent a) where
  abbrev told : Api
  told = update_build_metrics rec.id prev rec.status a

  abbrev written : List (Codes × BuildRecord)
  written = insert rec.id rec a.builds

  -- The record of an id is the one that was written, or it was there.
  written-cases :
      (P : Codes → BuildRecord → Type 0)
      → P rec.id rec
      → ((j : Codes) (r : BuildRecord)
          → codes_eq rec.id j ≡ false
          → lookup j a.builds ≡ some r
          → P j r)
      → (j : Codes) (r : BuildRecord) → lookup j written ≡ some r
      → P j r
  written-cases P here there j r e = elim (Bool-cases (codes_eq rec.id j)) [
    | inr d ↦ there j r d (sym (lookup-insert_other rec.id j rec a.builds d) ∙ e)
    | inl d ↦
        let at : rec.id ≡ j = codes_eq→≡ rec.id j d in
        let is : rec ≡ r =
          some_inj
            (sym (lookup-insert rec.id rec a.builds) ∙ (ap (λ k. lookup k written) at ∙ e)) in
        subst (λ k. P k r) at (subst (λ q. P rec.id q) is here)
  ]

  pub write-IsConsistent :
      (b : Api)
      → b.status ≡ told.status
      → b.gauge ≡ told.gauge
      → b.builds ≡ written
      → IsConsistent b
  unfolding status_of
  write-IsConsistent b es eg eb = record {
    gauges = record {
      counted = λ s f.
          rw (eg, es)
            ((update_build_metrics-IsCounted rec.id prev rec.status a h.gauges n same).counted s f);
    };
    ids = λ j r e. written-cases (λ k q. q.id ≡ k) refl (λ k q d x. h.ids k q x) j r (rw eb at e);
    statuses = λ j r e.
        written-cases (λ k q. status_of k b ≡ q.status)
          (rw es (update-status rec.id prev rec.status a n same))
          (λ k q d x.
            rw es (update-status_other rec.id prev rec.status a n same k d ∙ h.statuses k q x))
          j r (rw eb at e);
    filled = λ j r e.
        written-cases (λ k q. codes_eq q.status [] ≡ false) n (λ k q d x. h.filled k q x) j r
          (rw eb at e);
  }

-- The metrics do not read the records.
module _ (i prev next : Codes) (a : Api) (n : codes_eq next [] ≡ false)
    (xs : List (Codes × BuildRecord)) where
  apart-status :
      (update_build_metrics i prev next (record a { builds = xs })).status
      ≡ (update_build_metrics i prev next a).status
  unfolding update_build_metrics leave_status enter_status status_of
  apart-status = elim (Bool-cases (codes_eq (prev_status i prev a) next)) [
    | inl e ↦ rw e refl
    | inr e ↦ elim (Bool-cases (codes_eq (prev_status i prev a) [])) [
      | inl d ↦ rw (e, n, d) refl
      | inr d ↦ rw (e, n, d) refl
    ]
  ]

  apart-gauge :
      (update_build_metrics i prev next (record a { builds = xs })).gauge
      ≡ (update_build_metrics i prev next a).gauge
  unfolding update_build_metrics leave_status enter_status status_of
  apart-gauge = elim (Bool-cases (codes_eq (prev_status i prev a) next)) [
    | inl e ↦ rw e refl
    | inr e ↦ elim (Bool-cases (codes_eq (prev_status i prev a) [])) [
      | inl d ↦ rw (e, n, d) refl
      | inr d ↦ rw (e, n, d) refl
    ]
  ]

pub remember-IsConsistent :
    (rec : BuildRecord) (log : Codes) (a : Api)
    → codes_eq rec.status [] ≡ false
    → IsConsistent a
    → IsConsistent (remember rec log a)
unfolding remember status_of codes_eq
remember-IsConsistent rec log a n h =
    write-IsConsistent rec [] a n refl h _ (apart-status rec.id [] rec.status a n _)
      (apart-gauge rec.id [] rec.status a n _)
      (update-builds rec.id [] rec.status (record a { builds = insert rec.id rec a.builds }) n refl)
