-- ===== src/Message/Counters.antt =====
-- The headers of sip/header.go that count: CSeq and Max-Forwards.
pub mod Text
use tjsip.Base.{
  ℕ, zero, suc, ◌+◌, ◌-◌, ◌%◌, ◌≤◌, ◌<◌, ◌≡◌, ◌≢◌, ◌↔◌, Bool, true, false, Bytes, arith, leb,
  if◌then◌else◌,
}
use tjsip.Base.Int.{ℤ, pos, negsuc, max_int64, inc_int64, dec_int64, is_nonpos}

pub record CSeq : Type 0 where
  pub sequence : ℤ
  pub method : Bytes

-- 2 << 31
abbrev pub cseq_modulus : ℕ
cseq_modulus = 4_294_967_296

-- `if seq >= 2<<31 { seq %= 2 << 31 }`
abbrev reduce : ℤ → ℤ
reduce (pos n) = if leb cseq_modulus n then pos (n % cseq_modulus) else pos n
reduce (negsuc n) = negsuc n

-- The header after `Increment`; the method returns its sequence number.
unfoldable pub increment : CSeq → CSeq
increment c = record c { sequence = reduce (inc_int64 c.sequence) }

-- The number stands in a header field of 32 bits.
abbrev pub InCSeqRange : ℤ → Type 0
InCSeqRange (pos n) = n < cseq_modulus
InCSeqRange (negsuc n) = ⊥

pub record MaxForwards : Type 0 where
  pub remains : ℤ

-- `Decrement`: the header after the call, and whether hops remain.
unfoldable pub decrement : MaxForwards → MaxForwards × Bool
decrement m =
    let left = dec_int64 m.remains in
    if is_nonpos left
    then (record { remains = pos 0 }, false)
    else (record { remains = left }, true)

-- From a number of 32 bits, `Increment` counts modulo 2 ^ 32.
pub increment_mod :
    (n : ℕ) (m : Bytes)
    → n < cseq_modulus
    → increment (record { sequence = pos n; method = m })
      ≡ record { sequence = pos ((n + 1) % cseq_modulus); method = m }
unfolding increment
increment_mod n m h = ground arith

-- Whatever nonnegative number the header held, short of the largest of 64 bits, `Increment` leaves
-- one of 32 bits and keeps the method.
pub increment-InCSeqRange :
    (c : CSeq) (n : ℕ)
    → c.sequence ≡ pos n
    → n < max_int64
    → InCSeqRange (increment c).sequence × ((increment c).method ≡ c.method)
unfolding increment
increment-InCSeqRange c n e h = rw e (ground arith)

abbrev pub pos_part : ℤ → ℕ
pos_part (pos n) = n
pos_part (negsuc n) = 0

-- `Decrement` reports that hops remain exactly when at least two did, and leaves one hop fewer, or
-- none where none or fewer remained. It holds of every count of 64 bits but the smallest.
pub decrement_lem :
    (m : MaxForwards)
    → m.remains ≢ negsuc max_int64
    → (((decrement m).1 ≡ true) ↔ (2 ≤ pos_part m.remains))
      × ((decrement m).0.remains ≡ pos (pos_part m.remains - 1))
unfolding decrement
decrement_lem m h = by_sign m.remains h
  where
    by_sign :
        (r : ℤ)
        → r ≢ negsuc max_int64
        → (((decrement (record { remains = r })).1 ≡ true) ↔ (2 ≤ pos_part r))
          × ((decrement (record { remains = r })).0.remains ≡ pos (pos_part r - 1))
    by_sign (pos zero) h = ground arith
    by_sign (pos (suc zero)) h = ground arith
    by_sign (pos (suc (suc n))) h = ground arith
    by_sign (negsuc n) h = ground arith
