-- ===== src/Message/Counters/Text.antt =====
-- Printing and reading the headers of sip/header.go that count.
pub mod RoundTrip
use tjsip.Base.{
  ℕ, ◌+◌, ◌%◌, Bool, true, false, Option, none, some, List, [], ◌∷◌, ◌++◌, Bytes, codes, leb,
  if◌then◌else◌,
}
use tjsip.Base.Int.{ℤ, pos, negsuc}
use tjsip.Base.Text.{trim, blanks, split_2, format_int, parse_int}
use tjsip.Base.Outcome.{Outcome, ok, err, panic}
use tjsip.Message.Counters.{CSeq, MaxForwards, cseq_modulus}

-- seq % (2 << 31) where seq ≥ 2 << 31
abbrev pub reduced : ℤ → ℤ
reduced (pos n) = if leb cseq_modulus n then pos (n % cseq_modulus) else pos n
reduced (negsuc n) = negsuc n

-- `String` of a CSeq
unfoldable pub print_cseq : CSeq → Bytes
print_cseq c = format_int (reduced c.sequence) ++ b' ' ∷ c.method

-- `ParseCSeq`, where `none` is the nil that it returns. `temp[1]` panics where there is no space.
parse_cseq_parts : Bytes × Option Bytes → Outcome (Option CSeq)
parse_cseq_parts (front, none) = panic
parse_cseq_parts (front, some rest) = elim (parse_int front) [
  | none ↦ ok none
  | some seq ↦ ok (some (record { sequence = seq; method = trim blanks rest }))
]

unfoldable pub parse_cseq : Bytes → Outcome (Option CSeq)
unfolding parse_cseq_parts
parse_cseq s = parse_cseq_parts (split_2 b' ' (trim blanks s))

-- `String` of a MaxForwards
unfoldable pub print_max_forwards : MaxForwards → Bytes
print_max_forwards m = format_int m.remains

-- `ParseMaxForwards`
unfoldable pub parse_max_forwards : Bytes → Option MaxForwards
parse_max_forwards s = elim (parse_int s) [
  | none ↦ none
  | some remain ↦ some (record { remains = remain })
]
