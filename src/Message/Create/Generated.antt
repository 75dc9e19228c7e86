-- ===== src/Message/Create/Generated.antt =====
-- What the generated texts of sip/helper.go are good for.
use mathlib.Core.List.{map, reverse_aux}
use tjsip.Base.{
  ℕ, zero, suc, ◌%◌, ◌<◌, Bool, true, false, not, ◌&&◌, none, some, [], ◌∷◌, Bytes, get_elem?,
  length, ◌≡◌, refl, arith, nat_beq, ◌⊎◌, inl, inr,
}
use tjsip.Base.Text.{trim, trim_left, blanks, contains_byte, is_token_byte}
use tjsip.Base.Trimmed.{Without, IsTrimmed, begins_clean, trim-IsTrimmed}
use tjsip.Message.Print.{print_call_id}
use tjsip.Message.Parse.{parse_call_id}
use tjsip.Message.Parse.Identifiers.{parse-print_call_id}
use tjsip.Message.Create.{letters, letter, random_string, init_h, new_call_id}

-- A byte of a token, which is neither a blank nor an `@`
unfoldable is_letter : ℕ → Bool
is_letter c = is_token_byte c && not (contains_byte blanks c) && not (nat_beq c b'@')

all_pass : (ℕ → Bool) → Bytes → Bool
all_pass test [] = true
all_pass test (c ∷ s) = test c && all_pass test s

found_passes :
    (test : ℕ → Bool) (s : Bytes) (i : ℕ)
    → all_pass test s ≡ true
    → i < length s
    → test (elim (get_elem? s i) [ none ↦ 0 | some c ↦ c ]) ≡ true
unfolding all_pass
found_passes test [] i h lt = absurd (omega arith)
found_passes test (c ∷ s) zero h lt = ground arith
found_passes test (c ∷ s) (suc i) h lt = found_passes test s i (ground arith) (omega arith)

letters-all_pass : all_pass is_letter letters ≡ true
unfolding all_pass is_letter contains_byte
letters-all_pass = refl

letter-is_letter : (b : ℕ) → is_letter (letter b) ≡ true
unfolding letter
letter-is_letter b = found_passes is_letter letters (b % 63) letters-all_pass (omega arith)

letter_clean : (b : ℕ) → contains_byte blanks (letter b) ≡ false
unfolding is_letter
letter_clean b = ground (arith, letter-is_letter b)

letter_at : (b : ℕ) → nat_beq (letter b) b'@' ≡ false
unfolding is_letter
letter_at b = ground (arith, letter-is_letter b)

map-Without : (bytes : Bytes) → Without b'@' (map letter bytes)
map-Without [] = tt
map-Without (b ∷ bytes) = (letter_at b, map-Without bytes)

reverse_aux-begins_clean :
    (bytes acc : Bytes)
    → begins_clean acc ≡ true
    → begins_clean (reverse_aux (map letter bytes) acc) ≡ true
reverse_aux-begins_clean [] acc h = h
reverse_aux-begins_clean (b ∷ bytes) acc h =
    reverse_aux-begins_clean bytes (letter b ∷ acc) (rw (letter_clean b) refl)

map-IsTrimmed : (b : ℕ) (bytes : Bytes) → IsTrimmed (map letter (b ∷ bytes))
map-IsTrimmed b bytes = (
  rw (letter_clean b) refl,
  reverse_aux-begins_clean bytes (letter b ∷ []) (rw (letter_clean b) refl),
)

trim_same : (s : Bytes) → (s ≡ []) ⊎ IsTrimmed s → trim blanks s ≡ s
unfolding trim trim_left
trim_same [] h = refl
trim_same (c ∷ s) (inl e) = absurd cc
trim_same (c ∷ s) (inr h) = trim-IsTrimmed (c ∷ s) h

-- A Call-ID that is made from at least one random byte, for an address without blanks at its ends or for none, is printed so that it is read again.
pub parse-new_call_id :
    (b : ℕ) (bytes addr : Bytes)
    → (addr ≡ []) ⊎ IsTrimmed addr
    → parse_call_id (print_call_id (new_call_id (some (b ∷ bytes)) addr))
      ≡ new_call_id (some (b ∷ bytes)) addr
unfolding new_call_id init_h random_string
parse-new_call_id b bytes addr h = rw (trim_same addr h) (
    parse-print_call_id (map letter (b ∷ bytes)) addr (map-IsTrimmed b bytes)
      (map-Without (b ∷ bytes)) h)
