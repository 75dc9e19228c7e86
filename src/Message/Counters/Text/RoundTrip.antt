-- ===== src/Message/Counters/Text/RoundTrip.antt =====
-- A counting header that is printed is read again (sip/header.go).
use tjsip.Base.{
  zero, suc, ◌/◌, ◌%◌, Bool-cases, inl, inr, ltb, ℕ, ◌+◌, ◌≤◌, ◌<◌, ◌≡◌, ap, ◌∙◌, true, false, some,
  [], ◌∷◌, ◌++◌, Bytes, nat_beq, arith,
}
use mathlib.Core.List.{reverse, reverse-append, reverse-cons}
use tjsip.Base.Int.{ℤ, pos, max_int64}
use tjsip.Base.Text.{trim, contains_byte, blanks, split_2, format_int, decimal_from}
use tjsip.Base.Trimmed.{
  IsTrimmed, begins_clean, trim-IsTrimmed, Without, split_2-Without, split_2-none,
}
use tjsip.Base.Decimal.{parse_int-format_int, StartsWithDigit, format_int-StartsWithDigit}
use tjsip.Base.Outcome.{ok, panic}
use tjsip.Message.Counters.{cseq_modulus}
use tjsip.Message.Counters.Text.{
  print_cseq, parse_cseq, parse_cseq_parts, print_max_forwards, parse_max_forwards, reduced,
}

-- A Max-Forwards header of a nonnegative count of 64 bits is printed so that it is read again.
pub parse-print_max_forwards :
    (n : ℕ)
    → n ≤ max_int64
    → parse_max_forwards (print_max_forwards (record { remains = pos n }))
      ≡ some (record { remains = pos n })
unfolding parse_max_forwards print_max_forwards
parse-print_max_forwards n h = ground (arith, parse_int-format_int n h)

-- No byte of the text is a space.
abbrev pub NoSpace : Bytes → Type 0
NoSpace s = Without b' ' s

no_space : (n : ℕ) → nat_beq (b'0' + n % 10) b' ' ≡ false
no_space n = ground arith

decimal_from-NoSpace : (fuel n : ℕ) (out : Bytes) → NoSpace out → NoSpace (decimal_from fuel n out)
unfolding decimal_from
decimal_from-NoSpace zero n out h = (no_space n, h)
decimal_from-NoSpace (suc fuel) n out h = elim (Bool-cases (ltb n 10)) [
  | inl l ↦ rw l (no_space n, h)
  | inr l ↦ rw l (decimal_from-NoSpace fuel (n / 10) ((b'0' + n % 10) ∷ out) (no_space n, h))
]

pub format_int-NoSpace : (n : ℕ) → NoSpace (format_int (pos n))
unfolding format_int
format_int-NoSpace n = decimal_from-NoSpace n n [] tt

begins_clean-append : (s rest : Bytes) → begins_clean s ≡ true → begins_clean (s ++ rest) ≡ true
begins_clean-append [] rest h = absurd (ground arith)
begins_clean-append (c ∷ s) rest h = h

begins_clean-digit : (s : Bytes) → StartsWithDigit s → begins_clean s ≡ true
unfolding contains_byte
begins_clean-digit [] h = elim h [ ]
begins_clean-digit (c ∷ s) h = ground arith

append-IsTrimmed :
    (front rest : Bytes) → StartsWithDigit front → IsTrimmed rest → IsTrimmed (front ++ b' ' ∷ rest)
append-IsTrimmed front rest h (b, e) = (
  begins_clean-append front (b' ' ∷ rest) (begins_clean-digit front h),
  rw (reverse-append front (b' ' ∷ rest), reverse-cons b' ' rest)
      (begins_clean-append (reverse rest ++ b' ' ∷ []) (reverse front)
        (begins_clean-append (reverse rest) (b' ' ∷ []) e)),
)

reduced-small : (n : ℕ) → n < cseq_modulus → reduced (pos n) ≡ pos n
reduced-small n h = ground arith

-- A CSeq header of a number of 32 bits is printed so that it is read again, where the method is not
-- empty and has no blanks at its ends.
pub parse-print_cseq :
    (n : ℕ) (method : Bytes)
    → n < cseq_modulus
    → IsTrimmed method
    → parse_cseq (print_cseq (record { sequence = pos n; method = method }))
      ≡ ok (some (record { sequence = pos n; method = method }))
unfolding parse_cseq parse_cseq_parts print_cseq
parse-print_cseq n method h m =
    ap (λ (seq : ℤ). parse_cseq (format_int seq ++ b' ' ∷ method)) (reduced-small n h)
    ∙ ap (λ (s : Bytes). parse_cseq_parts (split_2 b' ' s))
        (trim-IsTrimmed (digits ++ b' ' ∷ method)
          (append-IsTrimmed digits method (format_int-StartsWithDigit n) m))
    ∙ ap parse_cseq_parts (split_2-Without b' ' digits method (format_int-NoSpace n))
    ∙ ground (arith, parse_int-format_int n (omega arith), trim-IsTrimmed method m)
  where
    digits : Bytes
    digits = format_int (pos n)

-- `ParseCSeq` panics on a text that has no space but at its ends, as on a number without a method.
pub parse_cseq-panic : (s : Bytes) → NoSpace (trim blanks s) → parse_cseq s ≡ panic
unfolding parse_cseq parse_cseq_parts
parse_cseq-panic s h = ap parse_cseq_parts (split_2-none b' ' (trim blanks s) h)
