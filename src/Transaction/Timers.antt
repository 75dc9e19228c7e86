-- ===== src/Transaction/Timers.antt =====
-- The timers of sip/transaction.go and sip/sip.go, in milliseconds, the states of a transaction,
-- and the events at which a controller wakes up.
use tjsip.Base.{
  true, ◌≡◌, ◌≤◌, ◌<◌, arith, ℕ, ◌*◌, Bool, ◌||◌, ◌&&◌, Option, leb, ltb, nat_beq, if◌then◌else◌,
}
use tjsip.Message.{Message}

abbrev pub t1 : ℕ
t1 = 500

abbrev pub t2 : ℕ
t2 = 4000

abbrev pub t4 : ℕ
t4 = 5000

abbrev pub timer_a : ℕ
timer_a = t1

abbrev pub timer_b : ℕ
timer_b = 64 * t1

abbrev pub timer_e : ℕ
timer_e = t1

abbrev pub timer_f : ℕ
timer_f = 64 * t1

abbrev pub timer_g : ℕ
timer_g = t1

abbrev pub timer_h : ℕ
timer_h = 64 * t1

-- `timer *= 2; if timer > T2 { timer = T2 }`
abbrev pub double_to_t2 : ℕ → ℕ
double_to_t2 t = if ltb t2 (t * 2) then t2 else t * 2

pub data TransactionState : Type 0 where
  init trying calling proceeding completed confirmed terminated closed : TransactionState

-- What one `select` of a controller receives. A message of `none` is the nil that a closed channel
-- gives. `silence` says that nothing came before the next timer; where both timers of the select
-- are due at once, the flag says that the one written first was taken.
pub data Event : Type 0 where
  deleted : Event
  from_tu : Option Message → Event
  response : Option Message → Event
  silence : Bool → Event

-- `time.After(first)` is ready before `time.After(second)`.
abbrev pub fires_first : Bool → ℕ → ℕ → Bool
fires_first tie first second = ltb first second || (nat_beq first second && tie)

abbrev pub is_provisional : ℕ → Bool
is_provisional status = leb 100 status && ltb status 200

abbrev pub is_success : ℕ → Bool
is_success status = leb 200 status && ltb status 300

abbrev pub is_failure : ℕ → Bool
is_failure status = leb 300 status && ltb status 700

pub fires_first-le : (tie : Bool) (a b : ℕ) → fires_first tie a b ≡ true → a ≤ b
fires_first-le tie a b f = ground arith

pub double_to_t2_pos : (e : ℕ) → 0 < e → 0 < double_to_t2 e
double_to_t2_pos e h = ground arith
