-- ===== src/Operator/Implements.antt =====
-- When a sequence of client calls implements a list of wishes, and how sequences compose.
use mathlib.Core.Path.{subst}
use langopen.Prelude.{◌≡◌, refl, sym, ◌∙◌, inl, inr, false, Option, List, [], ◌∷◌, ◌++◌}
use langopen.Operator.Objects.{Key, Spec, key_eq}
use langopen.Operator.Client.{ApiError, Result, ok, failed, Client, IsLawful}
use langopen.Operator.Steps.{fail, attempt, continue, ◌>>=◌}
use langopen.Operator.Sync.{
  Wish, wish, Granted, AllGranted, Untouched, wish_append_none, wish_append_some, single_none,
  single_some,
}

module _ (C : Client) (L : IsLawful C) where
  -- Whatever comes back, only the objects of the list may have changed; with a good result, the
  -- wishes are granted.
  pub record Implements {A : Type 0} (Good : A → Type 0) (m : C.Cluster → Result A × C.Cluster)
      (ws : List Wish) : Type 0 where
    pub keeps : (w : C.Cluster) → Untouched ws (L.objects w) (L.objects (m w).1)
    pub grants :
        (w : C.Cluster) (a : A) → (m w).0 ≡ ok a → Good a → AllGranted ws (L.objects (m w).1)

  abbrev pub Any : {A : Type 0} → A → Type 0
  Any a = Unit

  -- The second part may undo a wish of the first: its list goes first.
  continue-keeps :
      {A B : Type 0} {Good : B → Type 0} (r : Result A) (f : A → C.Cluster → Result B × C.Cluster)
      (ys : List Wish) (w : C.Cluster)
      → ((a : A) → Implements Good (f a) ys)
      → Untouched ys (L.objects w) (L.objects (continue r f w).1)
  continue-keeps (ok a) f ys w hf = (hf a).keeps w
  continue-keeps (failed e) f ys w hf = λ k h. refl

  continue-ok :
      {A B : Type 0} (r : Result A) (f : A → C.Cluster → Result B × C.Cluster) (w : C.Cluster)
      (b : B)
      → (continue r f w).0 ≡ ok b
      → (a : A) × (r ≡ ok a) × ((f a w).0 ≡ ok b)
  continue-ok (ok a) f w b h = (a, refl, h)
  continue-ok (failed e) f w b h = cc h

  continue-grants :
      {A B : Type 0} {Good : B → Type 0} (r : Result A) (f : A → C.Cluster → Result B × C.Cluster)
      (ys : List Wish) (w : C.Cluster) (b : B)
      → ((a : A) → Implements Good (f a) ys)
      → (continue r f w).0 ≡ ok b
      → Good b
      → AllGranted ys (L.objects (continue r f w).1)
  continue-grants (ok a) f ys w b hf h g = (hf a).grants w b h g
  continue-grants (failed e) f ys w b hf h g = cc h

  -- A good end needs a good value between.
  pub chain-Implements :
      {A B : Type 0} {Mid : A → Type 0} {Good : B → Type 0} (m : C.Cluster → Result A × C.Cluster)
      (f : A → C.Cluster → Result B × C.Cluster) (xs ys : List Wish)
      → ((a : A) (w : C.Cluster) (b : B) → (f a w).0 ≡ ok b → Good b → Mid a)
      → Implements Mid m xs
      → ((a : A) → Implements Good (f a) ys)
      → Implements Good (m >>= f) (ys ++ xs)
  unfolding ◌>>=◌
  chain-Implements m f xs ys needs hm hf = record {
    keeps = λ w k h.
        let (hy, hx) = wish_append_none ys xs k h in
        continue-keeps (m w).0 f ys (m w).1 hf k hy ∙ hm.keeps w k hx;
    grants = λ w b h g k s e. elim (wish_append_some ys xs k s e) [
      | inl hy ↦ continue-grants (m w).0 f ys (m w).1 b hf h g k s hy
      | inr (hy, hx) ↦
          let (a, ea, eb) = continue-ok (m w).0 f (m w).1 b h in
          subst (Granted s) (sym (continue-keeps (m w).0 f ys (m w).1 hf k hy))
            (hm.grants w a ea (needs a (m w).1 b eb g) k s hx)
    ];
  }

  pub bind-Implements :
      {A B : Type 0} {Good : B → Type 0} (m : C.Cluster → Result A × C.Cluster)
      (f : A → C.Cluster → Result B × C.Cluster) (xs ys : List Wish)
      → Implements Any m xs
      → ((a : A) → Implements Good (f a) ys)
      → Implements Good (m >>= f) (ys ++ xs)
  bind-Implements m f xs ys hm hf = chain-Implements m f xs ys (λ a w b h g. tt) hm hf

  -- An error that is looked at: good if there is none.
  pub attempt-Implements :
      (m : C.Cluster → Result (Unit {0}) × C.Cluster) (ws : List Wish)
      → Implements Any m ws
      → Implements (λ r. r ≡ ok tt) (attempt m) ws
  attempt-Implements m ws h = record {
    keeps = λ w k e. h.keeps w k e;
    grants = λ w r e g. h.grants w tt (cc (e, g)) tt;
  }

  -- A call that changes no object.
  pub idle-Implements :
      {A : Type 0} {Good : A → Type 0} (m : C.Cluster → Result A × C.Cluster)
      → ((w : C.Cluster) (k : Key) → L.objects (m w).1 k ≡ L.objects w k)
      → Implements Good m []
  unfolding wish
  idle-Implements m h = record { keeps = λ w k _. h w k; grants = λ w a _ _ k s e. cc e }

  -- One object, from the calls that find it and put it.
  pub single-Implements :
      (m : C.Cluster → Result (Unit {0}) × C.Cluster) (j : Key) (s : Option Spec)
      → ((w : C.Cluster) (k : Key) → key_eq j k ≡ false → L.objects (m w).1 k ≡ L.objects w k)
      → ((w : C.Cluster) → (m w).0 ≡ ok tt → Granted s (L.objects (m w).1 j))
      → Implements Any m ((j, s) ∷ [])
  single-Implements m j s others done = record {
    keeps = λ w k h. others w k (single_none j k s h);
    grants = λ w a e _. single_some j s (L.objects (m w).1) (done w e);
  }

  -- A call that fails at once implements what you will.
  pub fail-Implements :
      {A : Type 0} {Good : A → Type 0} (e : ApiError) (ws : List Wish)
      → Implements Good (fail {A = A} e) ws
  fail-Implements {A} {Good} e ws = record { keeps = λ w k h. refl; grants = λ w a h _. cc h }
