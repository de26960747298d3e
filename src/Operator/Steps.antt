-- ===== src/Operator/Steps.antt =====
-- Calls that change a cluster and may fail, in sequence.
use langopen.Operator.Client.{ApiError, Result, ok, failed}

module _ {W : Type 0} where
  abbrev pub pure : {A : Type 0} → A → W → Result A × W
  pure a w = (ok a, w)

  abbrev pub fail : {A : Type 0} → ApiError → W → Result A × W
  fail e w = (failed e, w)

  -- A value that needs no call.
  abbrev pub lift : {A : Type 0} → Result A → W → Result A × W
  lift r w = (r, w)

  -- The error as a value, for code that looks at it.
  abbrev pub attempt : {A : Type 0} → (W → Result A × W) → W → Result (Result A) × W
  attempt m w = let (r, w') = m w in (ok r, w')

  abbrev pub continue : {A B : Type 0} → Result A → (A → W → Result B × W) → W → Result B × W
  continue (ok a) f w = f a w
  continue (failed e) f w = (failed e, w)

  infixl 5 ◌>>=◌ ◌>>◌
  unfoldable pub ◌>>=◌ :
      {A B : Type 0} → (W → Result A × W) → (A → W → Result B × W) → W → Result B × W
  ◌>>=◌ m f w = let (r, w') = m w in continue r f w'

  abbrev pub ◌>>◌ :
      {B : Type 0} → (W → Result (Unit {0}) × W) → (W → Result B × W) → W → Result B × W
  m >> k = m >>= λ _. k
