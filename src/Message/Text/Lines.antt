-- ===== src/Message/Text/Lines.antt =====
-- Lines that end in a carriage return and a newline are read as they are (sip/reader.go).
use mathlib.Core.List.{reverse, reverse-append}
use tjsip.Base.{ℕ, zero, suc, true, false, some, [], ◌∷◌, ◌++◌, Bytes, ◌≡◌, refl, ap, arith, length}
use tjsip.Base.Text.{contains_byte, trim_left, trim, is_token}
use tjsip.Base.Trimmed.{Without, split_2-Without}
use tjsip.Message.Headers.{Header}
use tjsip.Message.Print.{crlf}
use tjsip.Message.Text.{
  white, drop_return, line_of, read_line, trimmed, starts_white, continued, read_continued_line,
  read_fields, add_field,
}

drop_return-end : (s : Bytes) → drop_return (s ++ b'\r' ∷ []) ≡ s
unfolding drop_return
drop_return-end [] = refl
drop_return-end (c ∷ []) = refl
drop_return-end (c ∷ d ∷ s) = ap (◌∷◌ c) (drop_return-end (d ∷ s))

Without-return : (s : Bytes) → Without b'\n' s → Without b'\n' (s ++ b'\r' ∷ [])
Without-return [] h = (refl, tt)
Without-return (c ∷ s) h = (h.0, Without-return s h.1)

front_assoc : (s rest : Bytes) → s ++ crlf ++ rest ≡ (s ++ b'\r' ∷ []) ++ b'\n' ∷ rest
front_assoc [] rest = refl
front_assoc (c ∷ s) rest = ap (◌∷◌ c) (front_assoc s rest)

pub read_line-crlf :
    (s rest : Bytes) → Without b'\n' s → read_line (s ++ crlf ++ rest) ≡ some (s, rest)
unfolding read_line line_of
read_line-crlf s rest h =
    rw
      (
        front_assoc s rest,
        split_2-Without b'\n' (s ++ b'\r' ∷ []) rest (Without-return s h),
        drop_return-end s,
      )
      refl

-- The last byte of a text that is no white space stays.
trim_left-end :
    (s : Bytes) (c : ℕ)
    → contains_byte white c ≡ false
    → trim_left white (s ++ c ∷ []) ≡ trim_left white s ++ c ∷ []
unfolding trim_left
trim_left-end [] c h = ground arith
trim_left-end (d ∷ s) c h = ground (arith, trim_left-end s c h)

-- White space is taken off the end of a text behind each byte that is none.
unfoldable pub trim_right : Bytes → Bytes
trim_right s = reverse (trim_left white (reverse s))

trim_right-clean :
    (c : ℕ) (s : Bytes) → contains_byte white c ≡ false → trim_right (c ∷ s) ≡ c ∷ trim_right s
unfolding trim_right
trim_right-clean c s h =
    rw
      (
        reverse-append (c ∷ []) s,
        trim_left-end (reverse s) c h,
        reverse-append (trim_left white (reverse s)) (c ∷ []),
      )
      refl

-- A name, its colon, and what stands behind them
trim_right-token :
    (k s : Bytes) → is_token k ≡ true → trim_right (k ++ b':' ∷ s) ≡ k ++ b':' ∷ trim_right s
unfolding is_token contains_byte
trim_right-token [] s h = trim_right-clean b':' s refl
trim_right-token (c ∷ k) s h =
    rw (trim_right-clean c (k ++ b':' ∷ s) (ground arith), trim_right-token k s (ground arith)) refl

token_byte : (c : ℕ) (k : Bytes) → is_token (c ∷ k) ≡ true → contains_byte white c ≡ false
unfolding is_token contains_byte
token_byte c k h = ground arith

trimmed-token :
    (c : ℕ) (k s : Bytes)
    → is_token (c ∷ k) ≡ true
    → trimmed (c ∷ k ++ b':' ∷ s) ≡ c ∷ k ++ b':' ∷ trim_right s
unfolding trim trim_left trim_right is_token contains_byte
trimmed-token c k s h = rw (token_byte c k h) (trim_right-token (c ∷ k) s h)

token_text-Without :
    (k s : Bytes) → is_token k ≡ true → Without b'\n' s → Without b'\n' (k ++ b':' ∷ s)
unfolding is_token contains_byte
token_text-Without [] s h w = (refl, w)
token_text-Without (c ∷ k) s h w = (ground arith, token_text-Without k s (ground arith) w)

token-Without : (k : Bytes) → is_token k ≡ true → Without b':' k
unfolding is_token contains_byte
token-Without [] h = tt
token-Without (c ∷ k) h = (ground arith, token-Without k (ground arith))

colon-contains : (k s : Bytes) → contains_byte (k ++ b':' ∷ s) b':' ≡ true
unfolding contains_byte
colon-contains [] s = refl
colon-contains (c ∷ k) s = ground (arith, colon-contains k s)

continued-none :
    (fuel : ℕ) (line rest : Bytes)
    → starts_white rest ≡ false
    → continued fuel line rest ≡ (line, rest)
unfolding continued
continued-none zero line rest h = refl
continued-none (suc fuel) line rest h = rw (continued, h) refl

read_continued_line-crlf :
    (c : ℕ) (s rest : Bytes)
    → Without b'\n' (c ∷ s)
    → contains_byte (c ∷ s) b':' ≡ true
    → starts_white rest ≡ false
    → read_continued_line (c ∷ s ++ crlf ++ rest) ≡ some (trimmed (c ∷ s), rest)
unfolding read_continued_line
read_continued_line-crlf c s rest clean colon next =
    rw
      (
        read_continued_line,
        read_line-crlf (c ∷ s) rest clean,
        colon,
        continued-none (length rest) (trimmed (c ∷ s)) rest next,
      )
      refl

-- A round of the loop on a field whose line is not continued
pub read_fields-line :
    (fuel : ℕ) (m : Header) (c : ℕ) (k s rest : Bytes)
    → is_token (c ∷ k) ≡ true
    → Without b'\n' s
    → starts_white rest ≡ false
    → read_fields (suc fuel) m ((c ∷ k ++ b':' ∷ s) ++ crlf ++ rest)
      ≡ read_fields fuel (add_field m (c ∷ k, some (trim_right s))) rest
unfolding read_fields
read_fields-line fuel m c k s rest token w next =
    rw
      (
        read_fields,
        read_continued_line-crlf c (k ++ b':' ∷ s) rest (token_text-Without (c ∷ k) s token w)
            (colon-contains (c ∷ k) s) next,
        trimmed-token c k s token,
        split_2-Without b':' (c ∷ k) (trim_right s) (token-Without (c ∷ k) token),
      )
      refl
