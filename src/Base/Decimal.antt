-- ===== src/Base/Decimal.antt =====
-- Printing and reading a decimal number (Go's `strconv`).
use Prim.Native.Nat.{ℕ, zero, suc, ◌+◌, ◌*◌, ◌/◌, ◌%◌, ◌≤◌, ◌<◌}
use mathlib.Core.Path.{◌≡◌, ap, ◌∙◌}
use mathlib.Core.Logic.{inl, inr}
use mathlib.Core.Bool.{true}
use mathlib.Core.List.{[], ◌∷◌}
use mathlib.Core.Option.{some}
use native.Mathlib.Omega.{arith}
use tjsip.Base.Tests.{ltb, Bool-cases}
use tjsip.Base.Lists.{Bytes}
use tjsip.Base.Int.{pos, max_int64}
use tjsip.Base.Text.{is_digit, decimal_from, number_from, unsigned, positive, format_int, parse_int}

number_from-digit :
    (acc d : ℕ) (s : Bytes)
    → d < 10
    → number_from acc ((b'0' + d) ∷ s) ≡ number_from (acc * 10 + d) s
unfolding number_from
number_from-digit acc d s h = ground arith

number_from-last :
    (acc n m : ℕ) (s : Bytes)
    → n % 10 < 10
    → acc * 10 + n % 10 ≡ m
    → number_from acc ((b'0' + n % 10) ∷ s) ≡ number_from m s
number_from-last acc n m s h e =
    number_from-digit acc (n % 10) s h ∙ ap (λ (k : ℕ). number_from k s) e

-- The digits of a number read as the number, before what follows them.
number_from-decimal_from :
    (fuel n : ℕ) (out : Bytes)
    → n ≤ fuel
    → number_from 0 (decimal_from fuel n out) ≡ number_from n out
unfolding decimal_from
number_from-decimal_from zero n out h = number_from-last 0 n n out (omega arith) (omega arith)
number_from-decimal_from (suc fuel) n out h = elim (Bool-cases (ltb n 10)) [
  | inl l ↦
      let lt : n < 10 = ground arith in
      rw l (number_from-last 0 n n out (omega arith) (omega arith))
  | inr l ↦
      let ge : 10 ≤ n = ground arith in
      rw l (
        number_from-decimal_from fuel (n / 10) ((b'0' + n % 10) ∷ out) (omega arith)
        ∙ number_from-last (n / 10) n n out (omega arith) (omega arith))
]

abbrev pub StartsWithDigit : Bytes → Type 0
StartsWithDigit [] = ⊥
StartsWithDigit (c ∷ s) = is_digit c ≡ true

digit : (n : ℕ) → is_digit (b'0' + n % 10) ≡ true
digit n = let h : n % 10 < 10 = omega arith in ground arith

decimal_from-StartsWithDigit :
    (fuel n : ℕ) (out : Bytes) → StartsWithDigit (decimal_from fuel n out)
unfolding decimal_from
decimal_from-StartsWithDigit zero n out = digit n
decimal_from-StartsWithDigit (suc fuel) n out = elim (Bool-cases (ltb n 10)) [
  | inl l ↦ rw l (digit n)
  | inr l ↦ rw l (decimal_from-StartsWithDigit fuel (n / 10) _)
]

pub format_int-StartsWithDigit : (n : ℕ) → StartsWithDigit (format_int (pos n))
unfolding format_int
format_int-StartsWithDigit n = decimal_from-StartsWithDigit n n []

parse_digits : (s : Bytes) → StartsWithDigit s → parse_int s ≡ positive (number_from 0 s)
unfolding parse_int unsigned
parse_digits [] h = elim h [ ]
parse_digits (c ∷ s) h = ground arith

-- A number of 63 bits that is printed is read again.
pub parse_int-format_int : (n : ℕ) → n ≤ max_int64 → parse_int (format_int (pos n)) ≡ some (pos n)
unfolding format_int number_from positive
parse_int-format_int n h =
    parse_digits (decimal_from n n []) (decimal_from-StartsWithDigit n n [])
    ∙ rw (number_from-decimal_from n n [] (omega arith)) (ground arith)
