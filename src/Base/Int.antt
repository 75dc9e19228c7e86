-- ===== src/Base/Int.antt =====
-- Go's `int` and `int64`: whole numbers in two's complement, of 64 bits. `negsuc n` is -(n + 1).
use tjsip.Base.Tests.{if◌then◌else◌, nat_beq, ltb, leb}
use Prim.Native.Nat.{ℕ, zero, suc, ◌+◌, ◌-◌, ◌≤◌}
use mathlib.Core.Bool.{Bool, true, false}

pub data ℤ : Type 0 where
  pos : ℕ → ℤ
  negsuc : ℕ → ℤ

abbrev pub max_int64 : ℕ
max_int64 = 9_223_372_036_854_775_807

-- The value is one that 64 bits hold.
abbrev pub InInt64 : ℤ → Type 0
InInt64 (pos n) = n ≤ max_int64
InInt64 (negsuc n) = n ≤ max_int64

-- x + 1; the largest value wraps to the smallest.
abbrev pub inc_int64 : ℤ → ℤ
inc_int64 (pos n) = if nat_beq n max_int64 then negsuc max_int64 else pos (suc n)
inc_int64 (negsuc zero) = pos 0
inc_int64 (negsuc (suc n)) = negsuc n

-- x - 1; the smallest value wraps to the largest.
abbrev pub dec_int64 : ℤ → ℤ
dec_int64 (pos zero) = negsuc 0
dec_int64 (pos (suc n)) = pos n
dec_int64 (negsuc n) = if nat_beq n max_int64 then pos max_int64 else negsuc (suc n)

-- x ≤ 0
abbrev pub is_nonpos : ℤ → Bool
is_nonpos (pos zero) = true
is_nonpos (pos (suc n)) = false
is_nonpos (negsuc n) = true

-- x < y
abbrev pub ltb_int : ℤ → ℤ → Bool
ltb_int (pos m) (pos n) = ltb m n
ltb_int (pos m) (negsuc n) = false
ltb_int (negsuc m) (pos n) = true
ltb_int (negsuc m) (negsuc n) = ltb n m

-- 2 ^ 64 - 1
abbrev max_uint64 : ℕ
max_uint64 = 18_446_744_073_709_551_615

-- x + n and x - n, for an n that is not negative, in 64 bits
abbrev pub add_int64 : ℤ → ℕ → ℤ
add_int64 (pos m) n = if leb (m + n) max_int64 then pos (m + n) else negsuc (max_uint64 - (m + n))
add_int64 (negsuc m) n = if ltb m n then pos (n - (m + 1)) else negsuc (m - n)

abbrev pub sub_int64 : ℤ → ℕ → ℤ
sub_int64 (pos m) n = if leb n m then pos (m - n) else negsuc (n - m - 1)
sub_int64 (negsuc m) n =
    if leb (m + n) max_int64 then negsuc (m + n) else pos (max_uint64 - (m + n))
