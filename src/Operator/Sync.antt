-- ===== src/Operator/Sync.antt =====
-- What a controller run promises of the objects of a cluster, without its calls: each object that
-- is wished for is there with the specification wished for, each that is wished away is gone, and
-- every other object is as it was.
use mathlib.Core.Path.{subst}
use langopen.Prelude.{
  ◌≡◌, refl, ◌⊎◌, inl, inr, String, false, Option, none, some, List, [], ◌∷◌, ◌++◌, arith,
  if◌then◌else◌, Bool-cases,
}
use langopen.Operator.Objects.{Key, Spec, Object, Manifest, key_eq, key_eq→≡, with_cluster_ip}

-- `none` wishes an object away.
abbrev pub Wish : Type 0
Wish = Key × Option Spec

abbrev pub wish_for : Manifest → Wish
wish_for m = (m.key, some m.object.spec)

unfoldable pub wish : List Wish → Key → Option (Option Spec)
wish [] k = none
wish ((j, s) ∷ ws) k = if key_eq j k then some s else wish ws k

-- A service's address is free.
abbrev pub Granted : Option Spec → Option Object → Type 0
Granted none o = o ≡ none
Granted (some s) o = (x : Object) × (ip : String) × (o ≡ some x) × (x.spec ≡ with_cluster_ip ip s)

abbrev pub Objects : Type 0
Objects = Key → Option Object

abbrev pub Untouched : List Wish → Objects → Objects → Type 0
Untouched ws before after = (k : Key) → wish ws k ≡ none → after k ≡ before k

abbrev pub AllGranted : List Wish → Objects → Type 0
AllGranted ws after = (k : Key) (s : Option Spec) → wish ws k ≡ some s → Granted s (after k)

pub record Synced (ws : List Wish) (before after : Objects) : Type 0 where
  pub granted : AllGranted ws after
  pub untouched : Untouched ws before after

pub wish_append_none :
    (ys xs : List Wish) (k : Key)
    → wish (ys ++ xs) k ≡ none
    → (wish ys k ≡ none) × (wish xs k ≡ none)
unfolding wish
wish_append_none [] xs k h = (refl, h)
wish_append_none ((j, s) ∷ ys) xs k h = elim (Bool-cases (key_eq j k)) [
  | inl e ↦ cc (rw e at h)
  | inr e ↦ rw e (wish_append_none ys xs k (rw e at h))
]

pub wish_append_some :
    (ys xs : List Wish) (k : Key) (s : Option Spec)
    → wish (ys ++ xs) k ≡ some s
    → (wish ys k ≡ some s) ⊎ ((wish ys k ≡ none) × (wish xs k ≡ some s))
unfolding wish
wish_append_some [] xs k s h = inr (refl, h)
wish_append_some ((j, t) ∷ ys) xs k s h = elim (Bool-cases (key_eq j k)) [
  | inl e ↦ rw e (inl (rw e at h))
  | inr e ↦ rw e (wish_append_some ys xs k s (rw e at h))
]

-- One object.
pub single_none : (j k : Key) (s : Option Spec) → wish ((j, s) ∷ []) k ≡ none → key_eq j k ≡ false
unfolding wish
single_none j k s h = ground (arith, h)

pub single_some :
    (j : Key) (s : Option Spec) (after : Objects)
    → Granted s (after j)
    → AllGranted ((j, s) ∷ []) after
unfolding wish
single_some j s after g k t h = elim (Bool-cases (key_eq j k)) [
  | inl e ↦
      let same : s ≡ t = ground (arith, h, e) in
      subst (λ i. Granted t (after i)) (key_eq→≡ j k e) (subst (λ u. Granted u (after j)) same g)
  | inr e ↦ cc (rw e at h)
]
