-- ===== src/Stream/Decimal.antt =====
-- The `id:` line of `writeSSEEvent`: an id printed in decimal reads back as itself.
use langopen.Prelude.{
  ℕ, zero, suc, ◌+◌, ◌/◌, ◌%◌, ◌≤◌, ◌<◌, ◌≡◌, refl, ◌∙◌, some, [], ◌∷◌, arith, ltb, Bool-cases, inl,
  inr, if◌then◌else◌,
}
use langopen.Prelude.Int.{ℤ, pos, negsuc, max_int64, inc_int64, inc_int64-pos}
use langopen.Prelude.Text.{Codes, codes_eq}
use langopen.Stream.{scan_digits, parse_int, parse_start_from}

-- `%d` of fmt: the digits of `n` before `out`, with fuel above `n`.
decimal_from : ℕ → ℕ → Codes → Codes
decimal_from zero n out = out
decimal_from (suc fuel) n out =
    let more = decimal_from fuel (n / 10) ((b'0' + n % 10) ∷ out) in
    if ltb n 10 then (b'0' + n) ∷ out else more

unfoldable pub decimal : ℕ → Codes
unfolding decimal_from
decimal n = decimal_from (suc n) n []

unfoldable pub format_id : ℤ → Codes
unfolding decimal
format_id (pos n) = decimal n
format_id (negsuc n) = b'-' ∷ decimal (suc n)

scan-decimal_from :
    (fuel n : ℕ) (out : Codes)
    → n < fuel
    → scan_digits (decimal_from fuel n out) 0 ≡ scan_digits out n
unfolding decimal_from scan_digits
scan-decimal_from zero n out h = absurd (omega arith)
scan-decimal_from (suc fuel) n out h = elim (Bool-cases (ltb n 10)) [
  | inl small ↦ rw small (ground arith)
  | inr large ↦
      rw large
        (scan-decimal_from fuel (n / 10) ((b'0' + n % 10) ∷ out) (ground arith) ∙ ground arith)
]

-- A printed number starts with a digit.
record StartsWithDigit (s : Codes) : Type 0 where
  first : ℕ
  rest : Codes
  shape : s ≡ first ∷ rest
  low : b'0' ≤ first
  high : first ≤ b'9'

decimal_from-StartsWithDigit :
    (fuel n : ℕ) (out : Codes) → n < fuel → StartsWithDigit (decimal_from fuel n out)
unfolding decimal_from
decimal_from-StartsWithDigit zero n out h = absurd (omega arith)
decimal_from-StartsWithDigit (suc fuel) n out h = elim (Bool-cases (ltb n 10)) [
  | inl small ↦ record {
    first = b'0' + n;
    rest = out;
    shape = rw small;
    low = omega arith;
    high = ground arith;
  }
  | inr large ↦ rw large (decimal_from-StartsWithDigit fuel (n / 10) _ (ground arith))
]

scan-decimal : (n : ℕ) → scan_digits (decimal n) 0 ≡ some n
unfolding decimal scan_digits
scan-decimal n = scan-decimal_from (suc n) n [] (omega arith)

parse_digits :
    (c n : ℕ) (s : Codes)
    → b'0' ≤ c
    → c ≤ b'9'
    → scan_digits (c ∷ s) 0 ≡ some n
    → n < max_int64
    → parse_start_from (c ∷ s) ≡ pos (n + 1)
unfolding parse_start_from parse_int codes_eq
parse_digits c n s lo hi e h = ground (arith, inc_int64-pos n h)

parse_decimal :
    (n : ℕ) (s : Codes)
    → StartsWithDigit s
    → scan_digits s 0 ≡ some n
    → n < max_int64
    → parse_start_from s ≡ pos (n + 1)
parse_decimal n [] d e h = cc d.shape
parse_decimal n (c ∷ s) d e h =
    parse_digits c n s (ground (arith, d.shape, d.low)) (ground (arith, d.shape, d.high)) e h

-- A client that sends back an id that it was sent asks for the ids after it, if that id is below the
-- largest int64.
pub parse_start_from-format_id :
    (n : ℕ) → n < max_int64 → parse_start_from (format_id (pos n)) ≡ pos (n + 1)
unfolding format_id
parse_start_from-format_id n h =
    parse_decimal n (decimal n) (decimal_from-StartsWithDigit (suc n) n [] (omega arith))
      (scan-decimal n) h

largest_id_wraps : parse_start_from (format_id (pos max_int64)) ≡ negsuc max_int64
unfolding parse_start_from format_id parse_int inc_int64 codes_eq
largest_id_wraps = refl
