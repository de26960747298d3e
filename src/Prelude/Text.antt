-- ===== src/Prelude/Text.antt =====
-- Text as the source's calls of Go's `strings` see it. Whole values (ids, tags, headers) are native
-- strings, lists of Unicode scalar values; code that walks characters works on their numbers.
use Prim.Native.Char.{Char, code}
use Prim.Native.String.{String}
use Prim.Native.Nat.{ℕ, ◌+◌}
use mathlib.Core.Bool.{Bool, true, false, ◌&&◌, ◌||◌}
use mathlib.Core.List.{List, [], ◌∷◌}
use mathlib.Core.Logic.{inl, inr}
use mathlib.Core.Path.{◌≡◌, refl}
use native.Mathlib.Omega.{arith}
use text.Mathlib.Text.{◌==◌}
use langopen.Prelude.Tests.{leb, nat_eq, if◌then◌else◌, Bool-cases}

abbrev pub Codes : Type 0
Codes = List ℕ

abbrev pub codes : String → Codes
codes String.[] = []
codes (String.◌∷◌ c s) = code c ∷ codes s

-- `unicode.IsSpace`.
pub is_space : ℕ → Bool
is_space c =
    (leb 9 c && leb c 13)
    || nat_eq c 32
    || nat_eq c 0x85
    || nat_eq c 0xa0
    || nat_eq c 0x1680
    || (leb 0x2000 c && leb c 0x200a)
    || nat_eq c 0x2028
    || nat_eq c 0x2029
    || nat_eq c 0x202f
    || nat_eq c 0x205f
    || nat_eq c 0x3000

pub trim_left : String → String
trim_left String.[] = String.[]
trim_left (String.◌∷◌ c s) = if is_space (code c) then trim_left s else String.◌∷◌ c s

-- Drops the last characters that are spaces: `c` goes if what follows it is gone.
pub trim_right : String → String
trim_right String.[] = String.[]
trim_right (String.◌∷◌ c s) =
    let rest = trim_right s in
    if rest == "" && is_space (code c) then String.[] else String.◌∷◌ c rest

-- `strings.TrimSpace`.
unfoldable pub trim_space : String → String
unfolding is_space trim_left trim_right
trim_space s = trim_right (trim_left s)

trim_right_idem : (s : String) → trim_right (trim_right s) ≡ trim_right s
unfolding trim_right
trim_right_idem String.[] = refl
trim_right_idem (String.◌∷◌ c s) = elim (Bool-cases (trim_right s == "" && is_space (code c))) [
  | inl e ↦ rw e refl
  | inr e ↦ rw (e, trim_right_idem s, e) refl
]

trim_left-trim_right :
    (c : Char) (s : String)
    → is_space (code c) ≡ false
    → trim_left (trim_right (String.◌∷◌ c s)) ≡ trim_right (String.◌∷◌ c s)
unfolding trim_left trim_right
trim_left-trim_right c s h = elim (Bool-cases (trim_right s == "" && is_space (code c))) [
  | inl e ↦ rw e refl
  | inr e ↦ rw (e, h) refl
]

trimmed_again :
    (s : String) → trim_right (trim_left (trim_right (trim_left s))) ≡ trim_right (trim_left s)
unfolding trim_left trim_right
trimmed_again String.[] = refl
trimmed_again (String.◌∷◌ c s) = elim (Bool-cases (is_space (code c))) [
  | inl e ↦ rw e (trimmed_again s)
  | inr e ↦ rw e (rw (trim_left-trim_right c s e) (trim_right_idem (String.◌∷◌ c s)))
]

-- Trimming twice is trimming once.
pub trim_space_idem : (s : String) → trim_space (trim_space s) ≡ trim_space s
unfolding trim_space
trim_space_idem s = trimmed_again s

-- `unicode.ToLower` where its answer is an ASCII letter: the ASCII capitals, `İ` (U+0130) and the
-- Kelvin sign (U+212A). Other characters stand for themselves: no test of the source tells one
-- character above U+007F from another.
pub to_lower_code : ℕ → ℕ
to_lower_code c =
    if leb b'A' c && leb c b'Z'
    then c + 32
    else if nat_eq c 0x130
    then b'i'
    else if nat_eq c 0x212a
    then b'k'
    else c

-- `strings.ToLower`, on the characters' numbers.
unfoldable pub to_lower : Codes → Codes
unfolding to_lower_code
to_lower [] = []
to_lower (c ∷ s) = to_lower_code c ∷ to_lower s

unfoldable pub codes_eq : Codes → Codes → Bool
codes_eq [] [] = true
codes_eq (a ∷ s) (b ∷ t) = nat_eq a b && codes_eq s t
codes_eq _ _ = false

-- `strings.HasPrefix`.
unfoldable pub has_prefix : Codes → Codes → Bool
has_prefix s [] = true
has_prefix [] (p ∷ ps) = false
has_prefix (c ∷ s) (p ∷ ps) = nat_eq c p && has_prefix s ps

-- `strings.TrimPrefix`, for a prefix that is there.
unfoldable pub drop_prefix : Codes → Codes → Codes
drop_prefix s [] = s
drop_prefix [] (p ∷ ps) = []
drop_prefix (c ∷ s) (p ∷ ps) = drop_prefix s ps

-- `strings.TrimSpace` on the characters' numbers.
pub trim_left_codes : Codes → Codes
trim_left_codes [] = []
trim_left_codes (c ∷ s) = if is_space c then trim_left_codes s else c ∷ s

pub trim_right_codes : Codes → Codes
trim_right_codes [] = []
trim_right_codes (c ∷ s) =
    let rest = trim_right_codes s in if codes_eq rest [] && is_space c then [] else c ∷ rest

unfoldable pub trim_codes : Codes → Codes
unfolding is_space trim_left_codes trim_right_codes codes_eq
trim_codes s = trim_right_codes (trim_left_codes s)

pub codes_eq_refl : (s : Codes) → codes_eq s s ≡ true
unfolding codes_eq
codes_eq_refl [] = refl
codes_eq_refl (c ∷ s) = ground (arith, codes_eq_refl s)

pub codes_eq→≡ : (s t : Codes) → codes_eq s t ≡ true → s ≡ t
unfolding codes_eq
codes_eq→≡ [] [] h = refl
codes_eq→≡ [] (d ∷ t) h = cc h
codes_eq→≡ (c ∷ s) [] h = cc h
codes_eq→≡ (c ∷ s) (d ∷ t) h = ground (arith, codes_eq→≡ s t)
