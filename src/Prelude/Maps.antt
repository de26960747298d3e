-- ===== src/Prelude/Maps.antt =====
-- Go's maps with text for keys, by their entries.
use mathlib.Core.Path.{◌≡◌, refl, ap}
use mathlib.Core.Logic.{inl, inr}
use mathlib.Core.Bool.{false}
use mathlib.Core.List.{List, [], ◌∷◌}
use mathlib.Core.Option.{Option, none, some}
use langopen.Prelude.Tests.{if◌then◌else◌, Bool-cases}
use langopen.Prelude.Text.{Codes, codes_eq, codes_eq_refl, codes_eq→≡}

-- A map by its entries: the first of a key counts, a write replaces it or adds one.
module _ {A : Type 0} where
  unfoldable pub lookup : Codes → List (Codes × A) → Option A
  lookup key [] = none
  lookup key ((k, v) ∷ rest) = if codes_eq k key then some v else lookup key rest

  unfoldable pub insert : Codes → A → List (Codes × A) → List (Codes × A)
  insert key value [] = (key, value) ∷ []
  insert key value ((k, v) ∷ rest) =
      let later = insert key value rest in
      if codes_eq k key then (k, value) ∷ rest else (k, v) ∷ later

module _ {A : Type 0} where
  pub lookup-insert :
      (key : Codes) (v : A) (xs : List (Codes × A)) → lookup key (insert key v xs) ≡ some v
  unfolding lookup insert
  lookup-insert key v [] = rw (codes_eq_refl key) refl
  lookup-insert key v ((k, u) ∷ rest) = elim (Bool-cases (codes_eq k key)) [
    | inl e ↦ rw (e, e) refl
    | inr e ↦ rw (e, e) (lookup-insert key v rest)
  ]

  pub lookup-insert_other :
      (key j : Codes) (v : A) (xs : List (Codes × A))
      → codes_eq key j ≡ false
      → lookup j (insert key v xs) ≡ lookup j xs
  unfolding lookup insert
  lookup-insert_other key j v [] h = rw h refl
  lookup-insert_other key j v ((k, u) ∷ rest) h = elim (Bool-cases (codes_eq k key)) [
    | inl e ↦ rw (e, codes_eq→≡ k key e, h) refl
    | inr e ↦
        rw e (ap (λ o. if codes_eq k j then some u else o) (lookup-insert_other key j v rest h))
  ]
