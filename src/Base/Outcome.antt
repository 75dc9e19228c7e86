-- ===== src/Base/Outcome.antt =====
-- How a Go function ends: with a result, with one of the errors of sip/sip.go and
-- sip/transaction.go, or with a panic (a nil pointer, or an index out of range).
use Prim.Native.Nat.{ℕ}

pub data Error : Type 0 where
  missing_mandatory_header header_parse_error malformed_message status_error : Error
  transaction_duplicated transaction_unexpected_message : Error
  transaction_timed_out transaction_closed : Error
  non_2xx_response : ℕ → Error

pub data Outcome {ℓ} (A : Type ℓ) : Type ℓ where
  ok : A → Outcome A
  err : Error → Outcome A
  panic : Outcome A

infixl 5 ◌>>=◌
abbrev pub ◌>>=◌ {ℓ κ} : {A : Type ℓ} {B : Type κ} → Outcome A → (A → Outcome B) → Outcome B
ok a >>= f = f a
err e >>= f = err e
panic >>= f = panic
